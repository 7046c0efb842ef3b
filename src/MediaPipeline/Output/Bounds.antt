-- ===== src/MediaPipeline/Output/Bounds.antt =====
-- What a successful configuration guarantees of the strides and the frame size.
use open_cam.Prelude.{
  ℕ, ◌+◌, ◌*◌, ◌^◌, ◌≤◌, ◌<◌, ◌≡◌, refl, zero, suc, ◌⊎◌, inl, inr, none, some, arith, Bool-cases,
  Option-cases,
}
use open_cam.Control.Os.{eintr, eagain, ewouldblock, other_errno}
use open_cam.MediaPipeline.Media.{Media, Answer, done, refused, PixFormat}
use open_cam.MediaPipeline.Output.{
  Configured, configured, not_configured, Strides, strides_of, set_frame_rate,
  configure_v4l2_output, ioctl_retry, asked_format, has_video_output,
}

-- A row of each plane fits its stride, the chroma rows are half the luma rows, and the frame size
-- is what the three planes take.
pub record IsLayout (s : Strides) : Type 0 where
  pub luma_fits : 640 ≤ s.luma
  pub halves : s.luma ≡ 2 * s.chroma
  pub chroma_fits : 320 ≤ s.chroma
  pub whole : s.frame_size ≡ s.luma * 480 + (s.chroma * 240 + s.chroma * 240)

pub strides_of-IsLayout :
    (format : PixFormat) (s : Strides)
    → strides_of format ≡ configured s
    → IsLayout s × ((format.sizeimage ≡ 0) ⊎ (s.frame_size ≤ format.sizeimage))
unfolding strides_of
strides_of-IsLayout format s e =
    let luma : 640 ≤ s.luma = ground arith in
    let halves : s.luma ≡ 2 * s.chroma = ground arith in
    let whole : s.frame_size ≡ s.luma * 480 + 2 * s.chroma * 240 = ground arith in
    (
      record {
        luma_fits = luma;
        halves = halves;
        chroma_fits = omega (arith, luma, halves);
        whole = omega (arith, whole);
      },
      ground arith,
    )

-- What the retried call gives is what the call once gave.
ioctl_retry-eq_some :
    {W A : Type 0} (ioctl : W → Answer A × W) (fuel : ℕ) (w : W) (a : A) (w' : W)
    → ioctl_retry ioctl fuel w ≡ some (some a, w')
    → (v : W) × ((ioctl v).0 ≡ done a)
unfolding ioctl_retry
ioctl_retry-eq_some ioctl zero w a w' e = absurd (cc)
ioctl_retry-eq_some {W} {A} ioctl (suc fuel) w a w' e =
    answered (ioctl w).0 refl (ioctl_retry-eq_some ioctl fuel (ioctl w).1 a w')
  where
    answered :
        (answer : Answer A)
        → (ioctl w).0 ≡ answer
        → (ioctl_retry ioctl fuel (ioctl w).1 ≡ some (some a, w')
            → (v : W) × ((ioctl v).0 ≡ done a))
        → (v : W) × ((ioctl v).0 ≡ done a)
    answered (done b) p again = (w, ground (arith, p))
    answered (refused eintr) p again = again (rw (p, ioctl_retry) at e)
    answered (refused eagain) p again = absurd (cc (rw (p, ioctl_retry) at e))
    answered (refused ewouldblock) p again = absurd (cc (rw (p, ioctl_retry) at e))
    answered (refused other_errno) p again = absurd (cc (rw (p, ioctl_retry) at e))

stride_bound :
    (format : PixFormat) (s : Strides)
    → format.bytesperline < 2 ^ 32
    → strides_of format ≡ configured s
    → s.frame_size < 2 ^ 64
unfolding strides_of
stride_bound format s h e = ground arith

module _ (m : Media) where
  open m use {World}

  set_frame_rate-eq_some :
      (fuel : ℕ) (c : Configured) (w : World) (s : Strides) (w' : World)
      → set_frame_rate m fuel c w ≡ some (configured s, w')
      → c ≡ configured s
  unfolding set_frame_rate
  set_frame_rate-eq_some fuel (not_configured f) w s w' e = absurd (cc)
  set_frame_rate-eq_some fuel (configured t) w s w' e =
      elim (Option-cases (ioctl_retry (m.set_rate 30) fuel w)) [
        | inl stuck ↦ absurd (ground arith)
        | inr ((r, w1), set) ↦ ground arith
      ]

  -- A device that is configured gives strides in which the rows of the three planes fit, with a
  -- frame size that the planes take exactly; if the device answers with a 32-bit stride, the size
  -- does not overflow.
  pub configure_v4l2_output-IsLayout :
      (fuel : ℕ) (w : World) (s : Strides) (w' : World)
      → ((v : World) (f : PixFormat)
          → (m.set_format asked_format v).0 ≡ done f
          → f.bytesperline < 2 ^ 32)
      → configure_v4l2_output m fuel w ≡ some (configured s, w')
      → IsLayout s × (s.frame_size < 2 ^ 64)
  unfolding configure_v4l2_output
  configure_v4l2_output-IsLayout fuel w s w' narrow e =
      elim (Option-cases (ioctl_retry m.query_capability fuel w)) [
        | inl stuck ↦ absurd (ground arith)
        | inr ((none, w1), failed) ↦ absurd (ground arith)
        | inr ((some capability, w1), asked) ↦ elim (Bool-cases (has_video_output capability)) [
          | inr lacking ↦ absurd (ground arith)
          | inl able ↦ elim (Option-cases (ioctl_retry (m.set_format asked_format) fuel w1)) [
            | inl stuck ↦ absurd (ground arith)
            | inr ((none, w2), failed) ↦ absurd (ground arith)
            | inr ((some format, w2), set) ↦
                let (v, answer) =
                  ioctl_retry-eq_some (m.set_format asked_format) fuel w1 format w2 set in
                let strides =
                  set_frame_rate-eq_some fuel (strides_of format) w2 s w'
                    (rw (asked, able, set, configure_v4l2_output) at e) in
                (
                  (strides_of-IsLayout format s strides).0,
                  stride_bound format s (narrow v format answer) strides,
                )
          ]
        ]
      ]
