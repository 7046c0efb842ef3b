-- ===== src/MediaPipeline/Worker/Calls.antt =====
-- The calls on the output device leave alone what is held.
use open_cam.Prelude.{
  ℕ, zero, suc, ◌≡◌, refl, ◌∙◌, inl, inr, Option, none, some, Bytes, Bool-cases, Option-cases,
  arith,
}
use open_cam.Control.Os.{eintr, eagain, ewouldblock, other_errno}
use open_cam.MediaPipeline.Media.{
  Media, Owns, Answer, done, refused, WriteAnswer, written, write_failed, OutputPoll, polled,
  poll_failed, Frame,
}
use open_cam.MediaPipeline.Output.{
  Strides, Configured, configured, not_configured, ioctl_retry, set_frame_rate,
  configure_v4l2_output, asked_format, has_video_output, strides_of, Failure,
}
use open_cam.MediaPipeline.Packing.{pack_yuv420}
use open_cam.MediaPipeline.Writing.{
  Wrote, wait_output, after_wait, write_once, write_loop, write_packed_yuv420,
}

module _ (m : Media) (owns : Owns m) where
  open m use {World}
  open owns use {held}

  pub ioctl_retry-held :
      {A : Type 0} (ioctl : World → Answer A × World)
      → ((w : World) → held (ioctl w).1 ≡ held w)
      → (fuel : ℕ) (w : World) (r : Option A) (w' : World) → ioctl_retry ioctl fuel w ≡ some (r, w')
      → held w' ≡ held w
  unfolding ioctl_retry
  ioctl_retry-held ioctl keeps zero w r w' e = absurd (cc)
  ioctl_retry-held {A} ioctl keeps (suc fuel) w r w' e =
      answered (ioctl w).0 refl (ioctl_retry-held ioctl keeps fuel (ioctl w).1 r w')
    where
      answered :
          (answer : Answer A)
          → (ioctl w).0 ≡ answer
          → (ioctl_retry ioctl fuel (ioctl w).1 ≡ some (r, w') → held w' ≡ held (ioctl w).1)
          → held w' ≡ held w
      answered (done a) p again = ground (arith, p, keeps w)
      answered (refused eintr) p again = again (rw (p, ioctl_retry) at e) ∙ keeps w
      answered (refused eagain) p again = ground (arith, p, keeps w)
      answered (refused ewouldblock) p again = ground (arith, p, keeps w)
      answered (refused other_errno) p again = ground (arith, p, keeps w)

  pub set_frame_rate-held :
      (fuel : ℕ) (c : Configured) (w : World) (c' : Configured) (w' : World)
      → set_frame_rate m fuel c w ≡ some (c', w')
      → held w' ≡ held w
  unfolding set_frame_rate
  set_frame_rate-held fuel (not_configured f) w c' w' e = ground arith
  set_frame_rate-held fuel (configured s) w c' w' e =
      elim (Option-cases (ioctl_retry (m.set_rate 30) fuel w)) [
        | inl stuck ↦ absurd (ground arith)
        | inr ((r, w1), set) ↦
            let kept = ioctl_retry-held (m.set_rate 30) (owns.set_rate_held 30) fuel w r w1 set in
            ground arith
      ]

  pub configure_v4l2_output-held :
      (fuel : ℕ) (w : World) (c : Configured) (w' : World)
      → configure_v4l2_output m fuel w ≡ some (c, w')
      → held w' ≡ held w
  unfolding configure_v4l2_output
  configure_v4l2_output-held fuel w c w' e =
      elim (Option-cases (ioctl_retry m.query_capability fuel w)) [
        | inl stuck ↦ absurd (ground arith)
        | inr ((none, w1), failed) ↦
            let kept =
              ioctl_retry-held m.query_capability owns.capability_held fuel w none w1 failed in
            ground arith
        | inr ((some capability, w1), asked) ↦
            let kept =
              ioctl_retry-held m.query_capability owns.capability_held fuel w (some capability) w1
                asked in
            elim (Bool-cases (has_video_output capability)) [
              | inr lacking ↦ ground arith
              | inl able ↦ elim (Option-cases (ioctl_retry (m.set_format asked_format) fuel w1)) [
                | inl stuck ↦ absurd (ground arith)
                | inr ((none, w2), failed) ↦
                    let kept2 =
                      ioctl_retry-held (m.set_format asked_format)
                        (owns.set_format_held asked_format) fuel w1 none w2 failed in
                    ground arith
                | inr ((some format', w2), set) ↦
                    set_frame_rate-held fuel (strides_of format') w2 c w'
                      (rw (asked, able, set, configure_v4l2_output) at e)
                    ∙ ioctl_retry-held (m.set_format asked_format)
                        (owns.set_format_held asked_format) fuel w1 (some format') w2 set
                    ∙ kept
              ]
            ]
      ]

  wait_output-held : (w : World) → held (wait_output m w).1 ≡ held w
  unfolding wait_output
  wait_output-held w = answered (m.poll_output w).0 refl
    where
      answered : (a : OutputPoll) → (m.poll_output w).0 ≡ a → held (wait_output m w).1 ≡ held w
      answered polled p = rw (p, wait_output) (owns.poll_held w)
      answered (poll_failed eintr) p = rw (p, wait_output) (owns.poll_held w)
      answered (poll_failed eagain) p = rw (p, wait_output) (owns.poll_held w)
      answered (poll_failed ewouldblock) p = rw (p, wait_output) (owns.poll_held w)
      answered (poll_failed other_errno) p = rw (p, wait_output) (owns.poll_held w)

  after_wait-held : (q : Option Failure × World) → held (after_wait m q).1 ≡ held q.1
  after_wait-held (none, w) = refl
  after_wait-held (some e, w) = refl

  write_once-held : (packed : Bytes) (w : World) → held (write_once m packed w).1 ≡ held w
  unfolding write_once
  write_once-held packed w = answered (m.write packed w).0 refl
    where
      w1 : World
      w1 = (m.write packed w).1

      waited : held (after_wait m (wait_output m w1)).1 ≡ held w
      waited = after_wait-held (wait_output m w1) ∙ wait_output-held w1 ∙ owns.write_held packed w

      answered :
          (a : WriteAnswer) → (m.write packed w).0 ≡ a → held (write_once m packed w).1 ≡ held w
      answered (written n) p = rw (p, write_once) (owns.write_held packed w)
      answered (write_failed eintr) p = rw (p, write_once) (owns.write_held packed w)
      answered (write_failed eagain) p = rw (p, write_once) waited
      answered (write_failed ewouldblock) p = rw (p, write_once) waited
      answered (write_failed other_errno) p = rw (p, write_once) (owns.write_held packed w)

  pub write_loop-held :
      (fuel : ℕ) (packed : Bytes) (w : World) (r : Wrote) (w' : World)
      → write_loop m fuel packed w ≡ some (r, w')
      → held w' ≡ held w
  unfolding write_loop
  write_loop-held zero packed w r w' e = absurd (cc)
  write_loop-held (suc fuel) packed w r w' e =
      let s = m.stop_requested w in
      let o = write_once m packed s.1 in
      elim (Bool-cases s.0) [
        | inl stop ↦ ground (arith, owns.stop_held w)
        | inr go ↦ elim (Option-cases o.0) [
          | inl more ↦
              write_loop-held fuel packed o.1 r w' (rw (go, more, write_loop) at e)
              ∙ write_once-held packed s.1
              ∙ owns.stop_held w
          | inr (result, last) ↦ ground (arith, owns.stop_held w, write_once-held packed s.1)
        ]
      ]

  pub write_packed-held :
      (fuel : ℕ) (frame : Frame) (strides : Strides) (w : World) (r : Wrote) (w' : World)
      → write_packed_yuv420 m fuel frame strides w ≡ some (r, w')
      → held w' ≡ held w
  unfolding write_packed_yuv420
  write_packed-held fuel frame strides w r w' e = elim (Option-cases (pack_yuv420 frame strides)) [
    | inl bad ↦ absurd (ground arith)
    | inr (packed, p) ↦ write_loop-held fuel packed w r w' (rw (p, write_packed_yuv420) at e)
  ]
