-- ===== src/MediaPipeline/Worker/Closing.antt =====
-- What the clean-ups of the worker leave held.
use open_cam.Prelude.{
  ℕ, ◌≡◌, sym, ap, ◌∙◌, inl, inr, Bool, true, false, not, ◌&&◌, none, some, Bool-cases,
  Option-cases, arith,
}
use open_cam.MediaPipeline.Media.{
  Media, Owns, Held, hold, after_failure, nothing_held, Resource, network, format, decoder, device,
  decoded_frame, converted_frame, packet, scaler,
}
use open_cam.MediaPipeline.Output.{Strides}
use open_cam.MediaPipeline.Worker.Streaming.{all_held, read_loop-Streams}
use open_cam.MediaPipeline.Worker.{
  Outcome, Progress, close_input, close_decoder, close_device, close_frames, read_loop, conclude,
  run_streaming,
}

module _ (m : Media) (owns : Owns m) where
  open m use {World, release}
  open owns use {held}

  pub close_input-held :
      (w : World) → held (close_input m w) ≡ hold network false (hold format false (held w))
  unfolding close_input
  close_input-held w =
      owns.released network (release format w) ∙ ap (hold network false) (owns.released format w)

  pub close_decoder-held :
      (w : World)
      → held (close_decoder m w)
        ≡ hold network false (hold format false (hold decoder false (held w)))
  unfolding close_decoder
  close_decoder-held w =
      close_input-held (release decoder w)
      ∙ ap (λ h. hold network false (hold format false h)) (owns.released decoder w)

  pub close_device-held :
      (w : World)
      → held (close_device m w)
        ≡ hold network false (hold format false (hold decoder false (hold device false (held w))))
  unfolding close_device
  close_device-held w =
      close_decoder-held (release device w)
      ∙ ap (λ h. hold network false (hold format false (hold decoder false h)))
          (owns.released device w)

  pub close_frames-nothing :
      (w : World) (b1 b2 b3 : Bool)
      → held w
        ≡ hold packet b3 (
            hold converted_frame b2 (
              hold decoded_frame b1 (
                hold device true
                  (hold decoder true (hold format true (hold network true nothing_held))))))
      → held (close_frames m w) ≡ nothing_held
  unfolding close_frames
  close_frames-nothing w b1 b2 b3 h =
      let w1 = release packet w in
      let w2 = release decoded_frame w1 in
      let freed : held (release converted_frame w2)
          ≡ hold converted_frame false (hold decoded_frame false (hold packet false (held w))) =
        owns.released converted_frame w2
        ∙ ap (hold converted_frame false) (
            owns.released decoded_frame w1
            ∙ ap (hold decoded_frame false) (owns.released packet w)) in
      close_device-held (release converted_frame w2)
      ∙ ap (λ k. hold network false (hold format false (hold decoder false (hold device false k))))
          (freed
            ∙ ap (λ k. hold converted_frame false (hold decoded_frame false (hold packet false k)))
                h)

  -- A resource that is not held yet is held exactly if its call succeeds.
  pub acquire-new :
      (r : Resource) (w : World) (h : Held)
      → held w ≡ h
      → hold r false h ≡ h
      → after_failure r h ≡ h
      → held (m.acquire r w).1 ≡ hold r (m.acquire r w).0 h
  acquire-new r w h e new kept = elim (Bool-cases (m.acquire r w).0) [
    | inl yes' ↦ rw yes' (owns.acquired r w yes' ∙ ap (hold r true) e)
    | inr no' ↦ rw no' (owns.not_acquired r w no' ∙ ap (after_failure r) e ∙ kept ∙ sym new)
  ]

  pub conclude-held : (p : Progress) (w : World) → held (conclude m p w).1 ≡ held w
  unfolding conclude
  conclude-held p w =
      let s = m.stop_requested w in
      elim (Bool-cases (not s.0 && not p.successful)) [
        | inl bad ↦ rw bad (owns.stop_held w)
        | inr good ↦ rw good (owns.stop_held s.1 ∙ owns.stop_held w)
      ]

  pub run_streaming-releases :
      (fuel index : ℕ) (strides : Strides) (w : World) (o : Outcome) (w' : World)
      → held w ≡ all_held m owns false
      → run_streaming m fuel index strides w ≡ some (o, w')
      → held w' ≡ nothing_held
  unfolding run_streaming
  run_streaming-releases fuel index strides w o w' h e =
      elim (Option-cases (read_loop m fuel none index strides w)) [
        | inl stuck ↦ absurd (ground arith)
        | inr ((p, w1), looped) ↦
            let (b, h1) =
              read_loop-Streams m owns fuel none index strides w p w1 (false, h) looped in
            let w2 = release scaler w1 in
            let h2 : held w2 ≡ all_held m owns false =
              owns.released scaler w1 ∙ ap (hold scaler false) h1 in
            let end : (conclude m p (close_frames m w2)).1 ≡ w' = ground arith in
            ap held (sym end)
            ∙ conclude-held p (close_frames m w2)
            ∙ close_frames-nothing w2 true true true h2
      ]
