-- ===== src/MediaPipeline/Writing.antt =====
-- The write loop of `writePackedYuv420` of linux/src/media_pipeline.cpp.
use open_cam.Prelude.{
  ℕ, zero, suc, true, false, Option, none, some, ◌==◌, if◌then◌else◌, Bytes, length,
}
use open_cam.Control.Os.{eintr, eagain, ewouldblock}
use open_cam.MediaPipeline.Media.{Media, Frame, written, write_failed, polled, poll_failed}
use open_cam.MediaPipeline.Output.{Strides, Failure, output_polling, frame_write}
use open_cam.MediaPipeline.Packing.{pack_yuv420}

-- The result: true, false with a message, or false with none, after a stop request.
pub data Wrote : Type 0 where
  wrote : Wrote
  not_written : Failure → Wrote
  interrupted : Wrote

module _ (m : Media) where
  open m use {World}

  -- What `poll` on the output decides, and whether the loop goes on.
  unfoldable pub wait_output : World → Option Failure × World
  wait_output w =
      let (answer, w1) = m.poll_output w in
      elim answer [
        | polled ↦ (none, w1)
        | poll_failed errno ↦ elim errno [ eintr ↦ (none, w1) | _ ↦ (some output_polling, w1) ]
      ]

  abbrev pub after_wait : Option Failure × World → Option Wrote × World
  after_wait (none, w2) = (none, w2)
  after_wait (some e, w2) = (some (not_written e), w2)

  -- The result of one `write`: the loop's result, or none where it goes on.
  unfoldable pub write_once : Bytes → World → Option Wrote × World
  write_once packed w =
      let (answer, w1) = m.write packed w in
      elim answer [
        | written count ↦
            (some (if count == length packed then wrote else not_written frame_write), w1)
        | write_failed errno ↦ elim errno [
          | eintr ↦ (none, w1)
          | eagain ↦ after_wait (wait_output w1)
          | ewouldblock ↦ after_wait (wait_output w1)
          | _ ↦ (some (not_written frame_write), w1)
        ]
      ]

  unfoldable pub write_loop : ℕ → Bytes → World → Option (Wrote × World)
  write_loop zero packed w = none
  write_loop (suc fuel) packed w =
      let (stop, w1) = m.stop_requested w in
      let (result, w2) = write_once packed w1 in
      let rest = write_loop fuel packed w2 in
      elim stop [
        | true ↦ some (interrupted, w1)
        | false ↦ elim result [ some r ↦ some (r, w2) | none ↦ rest ]
      ]

  -- `none` where the packing is out of bounds, or the fuel runs out.
  unfoldable pub write_packed_yuv420 : ℕ → Frame → Strides → World → Option (Wrote × World)
  write_packed_yuv420 fuel frame strides w = elim (pack_yuv420 frame strides) [
    | none ↦ none
    | some packed ↦ write_loop fuel packed w
  ]
