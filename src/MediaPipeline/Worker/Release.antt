-- ===== src/MediaPipeline/Worker/Release.antt =====
-- The worker releases everything that it acquires, on every path.
use open_cam.Prelude.{
  ℕ, ◌≡◌, refl, sym, ap, ◌∙◌, inl, inr, Bool, true, false, ◌&&◌, some, Bytes, Bool-cases,
  Option-cases, arith,
}
use open_cam.MediaPipeline.Media.{
  Media, Owns, Held, hold, nothing_held, network, format, decoder, device, decoded_frame,
  converted_frame, packet, Opened, opened, not_opened,
}
use open_cam.MediaPipeline.Output.{Strides, configured, not_configured, configure_v4l2_output}
use open_cam.MediaPipeline.Worker.Calls.{configure_v4l2_output-held}
use open_cam.MediaPipeline.Worker.Streaming.{all_held}
use open_cam.MediaPipeline.Worker.{
  Outcome, video_stream, close_input, close_decoder, close_device, close_frames, run_frames,
  run_device, run_decoder, run_input, run_context, run,
}
use open_cam.MediaPipeline.Worker.Closing.{
  close_input-held, close_decoder-held, close_device-held, close_frames-nothing, acquire-new,
  run_streaming-releases,
}

module _ (m : Media) (owns : Owns m) where
  open m use {World, release}
  open owns use {held}

  -- What is held when the device is open, and before.
  abbrev with_network : Held
  with_network = hold network true nothing_held

  abbrev with_format : Held
  with_format = hold format true with_network

  abbrev with_decoder : Held
  with_decoder = hold decoder true with_format

  abbrev with_device : Held
  with_device = hold device true with_decoder

  run_frames-releases :
      (fuel index : ℕ) (strides : Strides) (w : World) (o : Outcome) (w' : World)
      → held w ≡ with_device
      → run_frames m fuel index strides w ≡ some (o, w')
      → held w' ≡ nothing_held
  unfolding run_frames
  run_frames-releases fuel index strides w o w' h e =
      let a = m.acquire decoded_frame w in
      let b = m.acquire converted_frame a.1 in
      let c = m.acquire packet b.1 in
      let d = m.frame_buffer c.1 in
      let ha = acquire-new m owns decoded_frame w with_device h refl refl in
      let hb =
        acquire-new m owns converted_frame a.1 (hold decoded_frame a.0 with_device) ha refl refl in
      let hc =
        acquire-new m owns packet b.1
          (hold converted_frame b.0 (hold decoded_frame a.0 with_device)) hb refl refl in
      let hd = owns.buffer_held c.1 ∙ hc in
      elim (Bool-cases (a.0 && (b.0 && c.0))) [
        | inr lacking ↦
            let end : close_frames m c.1 ≡ w' = ground arith in
            ap held (sym end) ∙ close_frames-nothing m owns c.1 a.0 b.0 c.0 hc
        | inl has ↦ elim (Bool-cases d.0) [
          | inr lacking ↦
              let end : close_frames m d.1 ≡ w' = ground arith in
              ap held (sym end) ∙ close_frames-nothing m owns d.1 a.0 b.0 c.0 hd
          | inl buffer ↦
              let has_a : a.0 ≡ true = ground arith in
              let has_b : b.0 ≡ true = ground arith in
              let has_c : c.0 ≡ true = ground arith in
              let all : held d.1 ≡ all_held m owns false =
                hd
                ∙ ap
                    (λ x.
                      hold packet c.0 (hold converted_frame b.0 (hold decoded_frame x with_device)))
                    has_a
                ∙ ap
                    (λ x.
                      hold packet c.0
                        (hold converted_frame x (hold decoded_frame true with_device)))
                    has_b
                ∙ ap
                    (λ x.
                      hold packet x
                        (hold converted_frame true (hold decoded_frame true with_device)))
                    has_c in
              run_streaming-releases m owns fuel index strides d.1 o w' all
                (rw (has, buffer, run_frames) at e)
        ]
      ]

  run_device-releases :
      (fuel index : ℕ) (w : World) (o : Outcome) (w' : World)
      → held w ≡ with_decoder
      → run_device m fuel index w ≡ some (o, w')
      → held w' ≡ nothing_held
  unfolding run_device
  run_device-releases fuel index w o w' h e =
      let a = m.acquire device w in
      let ha = acquire-new m owns device w with_decoder h refl refl in
      elim (Bool-cases a.0) [
        | inr closed ↦
            let end : close_decoder m a.1 ≡ w' = ground arith in
            ap held (sym end)
            ∙ close_decoder-held m owns a.1
            ∙ ap (λ k. hold network false (hold format false (hold decoder false k)))
                (ha ∙ ap (λ b. hold device b with_decoder) closed)
        | inl is_open ↦
            let open' : held a.1 ≡ with_device =
              ha ∙ ap (λ b. hold device b with_decoder) is_open in
            elim (Option-cases (configure_v4l2_output m fuel a.1)) [
              | inl stuck ↦ absurd (cc (rw (is_open, stuck, run_device) at e))
              | inr ((not_configured f, w2), c) ↦
                  let end : close_device m w2 ≡ w' = ground arith in
                  ap held (sym end)
                  ∙ close_device-held m owns w2
                  ∙ ap
                      (λ k.
                        hold network false
                          (hold format false (hold decoder false (hold device false k))))
                      (configure_v4l2_output-held m owns fuel a.1 (not_configured f) w2 c ∙ open')
              | inr ((configured strides, w2), c) ↦
                  run_frames-releases fuel index strides w2 o w'
                    (configure_v4l2_output-held m owns fuel a.1 (configured strides) w2 c ∙ open')
                    (rw (is_open, c, run_device) at e)
            ]
      ]

  run_decoder-releases :
      (fuel index : ℕ) (w : World) (o : Outcome) (w' : World)
      → held w ≡ with_format
      → run_decoder m fuel index w ≡ some (o, w')
      → held w' ≡ nothing_held
  unfolding run_decoder
  run_decoder-releases fuel index w o w' h e =
      let a = m.acquire decoder w in
      let b = m.parameters_to_context index a.1 in
      let c = m.open_decoder b.1 in
      let ha = acquire-new m owns decoder w with_format h refl refl in
      let hb = owns.parameters_held index a.1 ∙ ha in
      let hc = owns.decoder_held b.1 ∙ hb in
      elim (Bool-cases a.0) [
        | inr lacking ↦ closed a.1 a.0 ha (ground arith)
        | inl has ↦ elim (Bool-cases b.0) [
          | inr unfit ↦ closed b.1 a.0 hb (ground arith)
          | inl fit ↦ elim (Bool-cases c.0) [
            | inr shut ↦ closed c.1 a.0 hc (ground arith)
            | inl is_open ↦
                run_device-releases fuel index c.1 o w'
                  (hc ∙ ap (λ x. hold decoder x with_format) has)
                  (rw (has, fit, is_open, run_decoder) at e)
          ]
        ]
      ]
    where
      closed :
          (v : World) (x : Bool)
          → held v ≡ hold decoder x with_format
          → close_decoder m v ≡ w'
          → held w' ≡ nothing_held
      closed v x hv end =
          ap held (sym end)
          ∙ close_decoder-held m owns v
          ∙ ap (λ k. hold network false (hold format false (hold decoder false k))) hv

  run_input-releases :
      (fuel : ℕ) (w : World) (o : Outcome) (w' : World)
      → held w ≡ with_format
      → run_input m fuel w ≡ some (o, w')
      → held w' ≡ nothing_held
  unfolding run_input
  run_input-releases fuel w o w' h e = informed (m.find_stream_info w).0 refl
    where
      w1 : World
      w1 = (m.find_stream_info w).1

      closed : (v : World) → held v ≡ with_format → close_input m v ≡ w' → held w' ≡ nothing_held
      closed v hv end =
          ap held (sym end)
          ∙ close_input-held m owns v
          ∙ ap (λ k. hold network false (hold format false k)) hv

      informed : (a : Opened) → (m.find_stream_info w).0 ≡ a → held w' ≡ nothing_held
      informed (not_opened code) a =
          closed (m.stop_requested w1).1 (owns.stop_held w1 ∙ owns.info_held w ∙ h)
            (ground (arith, a))
      informed opened a = elim (Option-cases (video_stream 0 (m.streams w1).0)) [
        | inl none' ↦
            closed (m.streams w1).1 (owns.streams_held w1 ∙ owns.info_held w ∙ h)
              (ground (arith, a))
        | inr (index, found) ↦
            run_decoder-releases fuel index (m.streams w1).1 o w'
              (owns.streams_held w1 ∙ owns.info_held w ∙ h) (rw (a, found, run_input) at e)
      ]

  run_context-releases :
      (fuel : ℕ) (url : Bytes) (w : World) (o : Outcome) (w' : World)
      → held w ≡ with_network
      → run_context m fuel url w ≡ some (o, w')
      → held w' ≡ nothing_held
  unfolding run_context
  run_context-releases fuel url w o w' h e = elim (Bool-cases a.0) [
    | inr lacking ↦ closed a.1 (ha ∙ ap (λ b. hold format b with_network) lacking) (ground arith)
    | inl has ↦ answered has (m.open_input url a.1).0 refl
  ]
    where
      a : Bool × World
      a = m.acquire format w

      ha : held a.1 ≡ hold format a.0 with_network
      ha = acquire-new m owns format w with_network h refl refl

      w2 : World
      w2 = (m.open_input url a.1).1

      closed : (v : World) → held v ≡ with_network → release network v ≡ w' → held w' ≡ nothing_held
      closed v hv end = ap held (sym end) ∙ owns.released network v ∙ ap (hold network false) hv

      answered : a.0 ≡ true → (r : Opened) → (m.open_input url a.1).0 ≡ r → held w' ≡ nothing_held
      answered has (not_opened code) r =
          closed (m.stop_requested w2).1
            (owns.stop_held w2 ∙ owns.input_not_opened url a.1 code r ∙ ap (hold format false) ha)
            (ground (arith, has, r))
      answered has opened r =
          run_input-releases fuel w2 o w'
            (owns.input_opened url a.1 r ∙ ha ∙ ap (λ b. hold format b with_network) has)
            (rw (has, r, run_context) at e)

  -- A worker that held nothing holds nothing when it ends, whichever call failed: every resource that
  -- it acquired was released.
  pub run-releases :
      (fuel : ℕ) (url : Bytes) (w : World) (o : Outcome) (w' : World)
      → held w ≡ nothing_held
      → run m fuel url w ≡ some (o, w')
      → held w' ≡ nothing_held
  unfolding run
  run-releases fuel url w o w' h e =
      let a = m.acquire network w in
      let ha = acquire-new m owns network w nothing_held h refl refl in
      elim (Bool-cases a.0) [
        | inr failed ↦
            let end : a.1 ≡ w' = ground arith in
            ap held (sym end) ∙ ha ∙ ap (λ b. hold network b nothing_held) failed
        | inl has ↦
            run_context-releases fuel url a.1 o w' (ha ∙ ap (λ b. hold network b nothing_held) has)
              (rw (has, run) at e)
      ]
