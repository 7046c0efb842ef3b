-- ===== src/MediaPipeline/Worker.antt =====
-- `MediaPipeline::run` of linux/src/media_pipeline.cpp, the worker's thread. A loop takes fuel, and
-- `none` means that it ran out.
mod Calls
mod Streaming
pub mod Ending
mod Closing
pub mod Release
use open_cam.Prelude.{
  ℕ, zero, suc, Bool, true, false, not, ◌&&◌, List, [], ◌∷◌, Option, none, some, ◌==◌,
  if◌then◌else◌, Bytes,
}
use open_cam.MediaPipeline.Media.{
  Media, Resource, network, format, decoder, device, decoded_frame, converted_frame, packet, scaler,
  Received, nothing_decoded, decode_failed, decoded, Sent, try_again, send_refused, sent, Read,
  ended, read_failed, packet_read, Opened, opened, not_opened,
}
use open_cam.MediaPipeline.Output.{
  Strides, Configured, configured, not_configured, configure_v4l2_output, Failure, network_init,
  context_allocation, source_open, source_metadata, no_video_stream, decoder_init, device_open,
  buffer_allocation, frame_allocation, decoder_failed, frame_preparation, incomplete_frame,
  source_ended, packet_rejected, source_read, pipeline_failed, stopped_unexpectedly, output_height,
}
use open_cam.MediaPipeline.Writing.{Wrote, wrote, not_written, interrupted, write_packed_yuv420}

-- What a worker did to the pipeline: whether it stored `Running`, and the message that it gave
-- `setFailure`, if it did.
pub record Outcome : Type 0 where
  pub ran : Bool
  pub failure : Option Failure

abbrev pub fails : Failure → Outcome
fails e = record { ran = false; failure = some e }

-- `processingError` and `successful`.
pub record Progress : Type 0 where
  pub successful : Bool
  pub error : Option Failure

abbrev pub fine : Option Failure → Progress
fine error = record { successful = true; error = error }

abbrev pub broken : Failure → Progress
broken e = record { successful = false; error = some e }

-- The index of the first video stream.
unfoldable pub video_stream : ℕ → List Bool → Option ℕ
video_stream i [] = none
video_stream i (is_video ∷ streams) =
    let later = video_stream (suc i) streams in if is_video then some i else later

module _ (m : Media) where
  open m use {World, release}

  -- The clean-ups, each from its first call on.
  unfoldable pub close_input : World → World
  close_input w = release network (release format w)

  unfoldable pub close_decoder : World → World
  close_decoder w = close_input (release decoder w)

  unfoldable pub close_device : World → World
  close_device w = close_decoder (release device w)

  unfoldable pub close_frames : World → World
  close_frames w = close_device (release converted_frame (release decoded_frame (release packet w)))

  -- One frame of `drainDecodedFrames`, which was decoded: what ends the loop, or none to go on.
  -- `error` is `processingError` so far.
  unfoldable pub output_frame :
      ℕ → Option Failure → Strides → World → Option (Option Progress × World)
  output_frame fuel error strides w =
      let (has_scaler, w1) = m.acquire scaler w in
      let (is_writable, w2) = m.make_writable w1 in
      let ((rows, frame), w3) = m.scale w2 in
      if not has_scaler
      then some (some (broken frame_preparation), m.unref_frame w1)
      else if not is_writable
      then some (some (broken frame_preparation), m.unref_frame w2)
      else if not (rows == output_height)
      then some (some (broken incomplete_frame), m.unref_frame w3)
      else elim (write_packed_yuv420 m fuel frame strides w3) [
        | none ↦ none
        | some (wrote, w4) ↦ some (none, m.unref_frame w4)
        | some (not_written e, w4) ↦
            let (stop, w5) = m.stop_requested (m.unref_frame w4) in
            some (some (record { successful = stop; error = some e }), w5)
        | some (interrupted, w4) ↦
            let (stop, w5) = m.stop_requested (m.unref_frame w4) in
            some (some (record { successful = stop; error = error }), w5)
      ]

  -- `drainDecodedFrames`: false is a progress that is not successful.
  unfoldable pub drain : ℕ → Option Failure → Strides → World → Option (Progress × World)
  drain zero error strides w = none
  drain (suc fuel) error strides w =
      let (received, w1) = m.receive_frame w in
      elim received [
        | nothing_decoded ↦ some (fine error, w1)
        | decode_failed ↦ some (broken decoder_failed, w1)
        | decoded ↦ elim (output_frame fuel error strides w1) [
          | none ↦ none
          | some (some progress, w2) ↦ some (progress, w2)
          | some (none, w2) ↦ drain fuel error strides w2
        ]
      ]

  -- The loop that sends a packet, draining before each retry; then the last drain.
  unfoldable pub decode_packet : ℕ → Option Failure → Strides → World → Option (Progress × World)
  decode_packet zero error strides w = none
  decode_packet (suc fuel) error strides w =
      let (answer, w1) = m.send_packet w in
      elim answer [
        | send_refused ↦ some (broken packet_rejected, w1)
        | sent ↦ drain fuel error strides w1
        | try_again ↦ elim (drain fuel error strides w1) [
          | none ↦ none
          | some (progress, w2) ↦
              let rest = decode_packet fuel progress.error strides w2 in
              if progress.successful then rest else some (progress, w2)
        ]
      ]

  -- The main loop.
  unfoldable pub read_loop : ℕ → Option Failure → ℕ → Strides → World → Option (Progress × World)
  read_loop zero error index strides w = none
  read_loop (suc fuel) error index strides w =
      let (stop, w1) = m.stop_requested w in
      let (read, w2) = m.read_frame w1 in
      let (stop', w3) = m.stop_requested w2 in
      elim stop [
        | true ↦ some (fine error, w1)
        | false ↦ elim read [
          | ended ↦ some (if stop' then fine error else broken source_ended, w3)
          | read_failed code ↦ some (if stop' then fine error else broken (source_read code), w3)
          | packet_read stream ↦
              elim (if stream == index
                then decode_packet fuel error strides w2
                else some (fine error, w2)) [
                  | none ↦ none
                  | some (progress, w4) ↦
                      let w5 = m.unref_packet w4 in
                      let rest = read_loop fuel progress.error index strides w5 in
                      if progress.successful then rest else some (progress, w5)
                ]
        ]
      ]

  -- The last tests, after the clean-up.
  unfoldable pub conclude : Progress → World → Outcome × World
  conclude progress w =
      let (stop, w1) = m.stop_requested w in
      let (stop', w2) = m.stop_requested w1 in
      if not stop && not progress.successful
      then (
        record {
          ran = true;
          failure = some (elim progress.error [ none ↦ pipeline_failed | some e ↦ e ]);
        },
        w1,
      )
      else (
        record { ran = true; failure = if not stop' then some stopped_unexpectedly else none },
        w2,
      )

  -- From `state_.store(Running)` on.
  unfoldable pub run_streaming : ℕ → ℕ → Strides → World → Option (Outcome × World)
  run_streaming fuel index strides w = elim (read_loop fuel none index strides w) [
    | none ↦ none
    | some (progress, w1) ↦ some (conclude progress (close_frames (release scaler w1)))
  ]

  -- From the allocation of the frames on.
  unfoldable pub run_frames : ℕ → ℕ → Strides → World → Option (Outcome × World)
  run_frames fuel index strides w =
      let (has_decoded, w1) = m.acquire decoded_frame w in
      let (has_converted, w2) = m.acquire converted_frame w1 in
      let (has_packet, w3) = m.acquire packet w2 in
      let (has_buffer, w4) = m.frame_buffer w3 in
      if not (has_decoded && (has_converted && has_packet))
      then some (fails buffer_allocation, close_frames w3)
      else if not has_buffer
      then some (fails frame_allocation, close_frames w4)
      else run_streaming fuel index strides w4

  -- From the opening of the device on.
  unfoldable pub run_device : ℕ → ℕ → World → Option (Outcome × World)
  run_device fuel index w =
      let (has_device, w1) = m.acquire device w in
      if not has_device
      then some (fails device_open, close_decoder w1)
      else elim (configure_v4l2_output m fuel w1) [
        | none ↦ none
        | some (not_configured e, w2) ↦ some (fails e, close_device w2)
        | some (configured strides, w2) ↦ run_frames fuel index strides w2
      ]

  -- From the decoder on. The three steps are one condition, which stops at the first that fails.
  unfoldable pub run_decoder : ℕ → ℕ → World → Option (Outcome × World)
  run_decoder fuel index w =
      let (has_context, w1) = m.acquire decoder w in
      let (has_parameters, w2) = m.parameters_to_context index w1 in
      let (is_open, w3) = m.open_decoder w2 in
      if not has_context
      then some (fails decoder_init, close_decoder w1)
      else if not has_parameters
      then some (fails decoder_init, close_decoder w2)
      else if not is_open
      then some (fails decoder_init, close_decoder w3)
      else run_device fuel index w3

  -- From the stream information on.
  unfoldable pub run_input : ℕ → World → Option (Outcome × World)
  run_input fuel w =
      let (info, w1) = m.find_stream_info w in
      let (stop, w2) = m.stop_requested w1 in
      let (streams, w3) = m.streams w1 in
      elim info [
        | not_opened code ↦ some (
          if stop then record { ran = false; failure = none } else fails (source_metadata code),
          close_input w2,
        )
        | opened ↦ elim (video_stream 0 streams) [
          | none ↦ some (fails no_video_stream, close_input w3)
          | some index ↦ run_decoder fuel index w3
        ]
      ]

  -- From the input context on. A context that cannot be opened is freed by the call.
  unfoldable pub run_context : ℕ → Bytes → World → Option (Outcome × World)
  run_context fuel url w =
      let (has_context, w1) = m.acquire format w in
      let (answer, w2) = m.open_input url w1 in
      let (stop, w3) = m.stop_requested w2 in
      if not has_context then some (fails context_allocation, release network w1) else elim answer [
        | not_opened code ↦ some (
          if stop then record { ran = false; failure = none } else fails (source_open code),
          release network w3,
        )
        | opened ↦ run_input fuel w2
      ]

  unfoldable pub run : ℕ → Bytes → World → Option (Outcome × World)
  run fuel url w =
      let (has_network, w1) = m.acquire network w in
      if not has_network then some (fails network_init, w1) else run_context fuel url w1
