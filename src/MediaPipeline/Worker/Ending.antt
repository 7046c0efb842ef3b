-- ===== src/MediaPipeline/Worker/Ending.antt =====
-- The worker ends without a message only after a stop request.
use open_cam.Prelude.{
  ℕ, ◌≡◌, refl, inl, inr, true, false, not, ◌&&◌, none, some, Bytes, Bool-cases, Option-cases,
  arith,
}
use open_cam.MediaPipeline.Media.{
  Media, network, format, decoder, device, decoded_frame, converted_frame, packet, scaler, Opened,
  opened, not_opened,
}
use open_cam.MediaPipeline.Output.{
  Strides, configured, not_configured, configure_v4l2_output, Failure,
}
use open_cam.MediaPipeline.Worker.{
  Outcome, Progress, video_stream, close_frames, read_loop, conclude, run_streaming, run_frames,
  run_device, run_decoder, run_input, run_context, run,
}

module _ (m : Media) where
  open m use {World, release}

  -- The stop flag was read as set.
  abbrev pub StopSeen : Type 0
  StopSeen = (v : World) × ((m.stop_requested v).0 ≡ true)

  conclude-StopSeen : (p : Progress) (w : World) → (conclude m p w).0.failure ≡ none → StopSeen
  unfolding conclude
  conclude-StopSeen p w e =
      let s = m.stop_requested w in
      elim (Bool-cases (not s.0 && not p.successful)) [
        | inl bad ↦ absurd (cc (rw bad at e))
        | inr good ↦ (s.1, ground arith)
      ]

  run_frames-StopSeen :
      (fuel index : ℕ) (strides : Strides) (w : World) (o : Outcome) (w' : World)
      → run_frames m fuel index strides w ≡ some (o, w')
      → o.failure ≡ none
      → StopSeen
  unfolding run_frames run_streaming
  run_frames-StopSeen fuel index strides w o w' e quiet =
      let a = m.acquire decoded_frame w in
      let b = m.acquire converted_frame a.1 in
      let c = m.acquire packet b.1 in
      let d = m.frame_buffer c.1 in
      elim (Bool-cases (a.0 && (b.0 && c.0))) [
        | inr lacking ↦ absurd (ground arith)
        | inl has ↦ elim (Bool-cases d.0) [
          | inr lacking ↦ absurd (ground arith)
          | inl buffer ↦ elim (Option-cases (read_loop m fuel none index strides d.1)) [
            | inl stuck ↦ absurd (ground arith)
            | inr ((p, w1), looped) ↦
                conclude-StopSeen p (close_frames m (release scaler w1)) (ground arith)
          ]
        ]
      ]

  run_device-StopSeen :
      (fuel index : ℕ) (w : World) (o : Outcome) (w' : World)
      → run_device m fuel index w ≡ some (o, w')
      → o.failure ≡ none
      → StopSeen
  unfolding run_device
  run_device-StopSeen fuel index w o w' e quiet =
      let a = m.acquire device w in
      elim (Bool-cases a.0) [
        | inr closed ↦ absurd (ground arith)
        | inl is_open ↦ elim (Option-cases (configure_v4l2_output m fuel a.1)) [
          | inl stuck ↦ absurd (ground arith)
          | inr ((not_configured f, w2), c) ↦ absurd (ground arith)
          | inr ((configured strides, w2), c) ↦
              run_frames-StopSeen fuel index strides w2 o w' (rw (is_open, c, run_device) at e)
                quiet
        ]
      ]

  run_decoder-StopSeen :
      (fuel index : ℕ) (w : World) (o : Outcome) (w' : World)
      → run_decoder m fuel index w ≡ some (o, w')
      → o.failure ≡ none
      → StopSeen
  unfolding run_decoder
  run_decoder-StopSeen fuel index w o w' e quiet =
      let a = m.acquire decoder w in
      let b = m.parameters_to_context index a.1 in
      let c = m.open_decoder b.1 in
      elim (Bool-cases a.0) [
        | inr lacking ↦ absurd (ground arith)
        | inl has ↦ elim (Bool-cases b.0) [
          | inr unfit ↦ absurd (ground arith)
          | inl fit ↦ elim (Bool-cases c.0) [
            | inr shut ↦ absurd (ground arith)
            | inl is_open ↦
                run_device-StopSeen fuel index c.1 o w' (rw (has, fit, is_open, run_decoder) at e)
                  quiet
          ]
        ]
      ]

  run_input-StopSeen :
      (fuel : ℕ) (w : World) (o : Outcome) (w' : World)
      → run_input m fuel w ≡ some (o, w')
      → o.failure ≡ none
      → StopSeen
  unfolding run_input
  run_input-StopSeen fuel w o w' e quiet = informed (m.find_stream_info w).0 refl
    where
      w1 : World
      w1 = (m.find_stream_info w).1

      informed : (a : Opened) → (m.find_stream_info w).0 ≡ a → StopSeen
      informed (not_opened code) a = elim (Bool-cases (m.stop_requested w1).0) [
        | inl stop ↦ (w1, stop)
        | inr go ↦ absurd (ground (arith, a))
      ]
      informed opened a = elim (Option-cases (video_stream 0 (m.streams w1).0)) [
        | inl none' ↦ absurd (ground (arith, a))
        | inr (index, found) ↦
            run_decoder-StopSeen fuel index (m.streams w1).1 o w' (rw (a, found, run_input) at e)
              quiet
      ]

  run_context-StopSeen :
      (fuel : ℕ) (url : Bytes) (w : World) (o : Outcome) (w' : World)
      → run_context m fuel url w ≡ some (o, w')
      → o.failure ≡ none
      → StopSeen
  unfolding run_context
  run_context-StopSeen fuel url w o w' e quiet = elim (Bool-cases (m.acquire format w).0) [
    | inr lacking ↦ absurd (ground arith)
    | inl has ↦ answered has (m.open_input url w1).0 refl
  ]
    where
      w1 : World
      w1 = (m.acquire format w).1

      answered :
          (m.acquire format w).0 ≡ true → (r : Opened) → (m.open_input url w1).0 ≡ r → StopSeen
      answered has (not_opened code) r =
          elim (Bool-cases (m.stop_requested (m.open_input url w1).1).0) [
            | inl stop ↦ ((m.open_input url w1).1, stop)
            | inr go ↦ absurd (ground (arith, has, r))
          ]
      answered has opened r =
          run_input-StopSeen fuel (m.open_input url w1).1 o w' (rw (has, r, run_context) at e) quiet

  run-StopSeen :
      (fuel : ℕ) (url : Bytes) (w : World) (o : Outcome) (w' : World)
      → run m fuel url w ≡ some (o, w')
      → o.failure ≡ none
      → StopSeen
  unfolding run
  run-StopSeen fuel url w o w' e quiet = elim (Bool-cases (m.acquire network w).0) [
    | inr failed ↦ absurd (ground arith)
    | inl has ↦
        run_context-StopSeen fuel url (m.acquire network w).1 o w' (rw (has, run) at e) quiet
  ]

  -- While the stop flag is not read as set, a worker that ends has given `setFailure` a message: the
  -- pipeline never stops by itself without one.
  pub run-ends :
      (fuel : ℕ) (url : Bytes) (w : World) (o : Outcome) (w' : World)
      → ((v : World) → (m.stop_requested v).0 ≡ false)
      → run m fuel url w ≡ some (o, w')
      → (e : Failure) × (o.failure ≡ some e)
  run-ends fuel url w o w' never ended = elim (Option-cases o.failure) [
    | inr failed ↦ failed
    | inl quiet ↦ let (v, stop) = run-StopSeen fuel url w o w' ended quiet in absurd (cc (never v))
  ]
