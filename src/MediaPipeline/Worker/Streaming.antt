-- ===== src/MediaPipeline/Worker/Streaming.antt =====
-- While the worker streams it holds everything but the scaler, which it may hold.
use open_cam.Prelude.{
  ℕ, zero, suc, ◌≡◌, refl, ap, ◌∙◌, inl, inr, Bool, true, false, Option, none, some, ◌==◌,
  Bool-cases, Option-cases, arith,
}
use open_cam.MediaPipeline.Media.{
  Media, Owns, Held, hold, scaler, Received, nothing_decoded, decode_failed, decoded, Sent,
  try_again, send_refused, sent, Read, ended, read_failed, packet_read,
}
use open_cam.MediaPipeline.Output.{Strides, Failure, output_height}
use open_cam.MediaPipeline.Writing.{Wrote, wrote, not_written, interrupted, write_packed_yuv420}
use open_cam.MediaPipeline.Worker.Calls.{write_packed-held}
use open_cam.MediaPipeline.Worker.{Progress, output_frame, drain, decode_packet, read_loop}

module _ (m : Media) (owns : Owns m) where
  open m use {World}
  open owns use {held}

  -- What is held while the worker streams: everything but the scaler, which may be held.
  abbrev pub all_held : Bool → Held
  all_held b = record {
    network = true;
    format = true;
    decoder = true;
    device = true;
    decoded_frame = true;
    converted_frame = true;
    packet = true;
    scaler = b;
  }

  abbrev pub Streams : World → Type 0
  Streams w = (b : Bool) × (held w ≡ all_held b)

  Streams-kept : (w w' : World) → held w' ≡ held w → Streams w → Streams w'
  Streams-kept w w' e (b, h) = (b, e ∙ h)

  acquire_scaler-Streams : (w : World) → Streams w → Streams (m.acquire scaler w).1
  acquire_scaler-Streams w (b, h) = elim (Bool-cases (m.acquire scaler w).0) [
    | inl yes' ↦ (true, owns.acquired scaler w yes' ∙ ap (hold scaler true) h)
    | inr no' ↦ (false, owns.not_acquired scaler w no' ∙ ap (hold scaler false) h)
  ]

  output_frame-Streams :
      (fuel : ℕ) (error : Option Failure) (strides : Strides) (w : World) (r : Option Progress)
      (w' : World)
      → Streams w
      → output_frame m fuel error strides w ≡ some (r, w')
      → Streams w'
  unfolding output_frame
  output_frame-Streams fuel error strides w r w' h e =
      let a = m.acquire scaler w in
      let b = m.make_writable a.1 in
      let c = m.scale b.1 in
      let ha = acquire_scaler-Streams w h in
      elim (Bool-cases a.0) [
        | inr lacking ↦ Streams-kept a.1 w' (ground (arith, owns.unref_frame_held a.1)) ha
        | inl has ↦ elim (Bool-cases b.0) [
          | inr fixed ↦
              Streams-kept a.1 w'
                (ground (arith, owns.unref_frame_held b.1, owns.writable_held a.1)) ha
          | inl writable ↦ elim (Bool-cases (c.0.0 == output_height)) [
            | inr short ↦
                Streams-kept a.1 w'
                  (ground
                    (arith, owns.unref_frame_held c.1, owns.scale_held b.1, owns.writable_held a.1))
                  ha
            | inl full ↦ elim (Option-cases (write_packed_yuv420 m fuel c.0.1 strides c.1)) [
              | inl stuck ↦ absurd (ground arith)
              | inr ((result, w4), put) ↦
                  let kept =
                    write_packed-held m owns fuel c.0.1 strides c.1 result w4 put
                    ∙ owns.scale_held b.1
                    ∙ owns.writable_held a.1 in
                  Streams-kept a.1 w' (after result w4 put has writable full kept) ha
            ]
          ]
        ]
      ]
    where
      after :
          (result : Wrote) (w4 : World)
          → write_packed_yuv420 m fuel
              (m.scale (m.make_writable (m.acquire scaler w).1).1).0.1
              strides
              (m.scale (m.make_writable (m.acquire scaler w).1).1).1
            ≡ some (result, w4)
          → (m.acquire scaler w).0 ≡ true
          → (m.make_writable (m.acquire scaler w).1).0 ≡ true
          → ((m.scale (m.make_writable (m.acquire scaler w).1).1).0.0 == output_height) ≡ true
          → held w4 ≡ held (m.acquire scaler w).1
          → held w' ≡ held (m.acquire scaler w).1
      after wrote w4 put has writable full kept = ground (arith, owns.unref_frame_held w4)
      after (not_written f) w4 put has writable full kept =
          ground (arith, owns.unref_frame_held w4, owns.stop_held (m.unref_frame w4))
      after interrupted w4 put has writable full kept =
          ground (arith, owns.unref_frame_held w4, owns.stop_held (m.unref_frame w4))

  drain-Streams :
      (fuel : ℕ) (error : Option Failure) (strides : Strides) (w : World) (p : Progress)
      (w' : World)
      → Streams w
      → drain m fuel error strides w ≡ some (p, w')
      → Streams w'
  unfolding drain
  drain-Streams zero error strides w p w' h e = absurd (cc)
  drain-Streams (suc fuel) error strides w p w' h e =
      received (m.receive_frame w).0 refl (drain-Streams fuel error strides)
    where
      w1 : World
      w1 = (m.receive_frame w).1

      h1 : Streams w1
      h1 = Streams-kept w w1 (owns.receive_held w) h

      received :
          (r : Received)
          → (m.receive_frame w).0 ≡ r
          → ((v : World) (q : Progress) (v' : World)
              → Streams v
              → drain m fuel error strides v ≡ some (q, v')
              → Streams v')
          → Streams w'
      received nothing_decoded a ih = Streams-kept w1 w' (ground (arith, a)) h1
      received decode_failed a ih = Streams-kept w1 w' (ground (arith, a)) h1
      received decoded a ih = elim (Option-cases (output_frame m fuel error strides w1)) [
        | inl stuck ↦ absurd (cc (rw (a, stuck, drain) at e))
        | inr ((none, w2), out) ↦
            ih w2 p w' (output_frame-Streams fuel error strides w1 none w2 h1 out)
              (rw (a, out, drain) at e)
        | inr ((some q, w2), out) ↦
            Streams-kept w2 w' (ground (arith, a))
              (output_frame-Streams fuel error strides w1 (some q) w2 h1 out)
      ]

  decode_packet-Streams :
      (fuel : ℕ) (error : Option Failure) (strides : Strides) (w : World) (p : Progress)
      (w' : World)
      → Streams w
      → decode_packet m fuel error strides w ≡ some (p, w')
      → Streams w'
  unfolding decode_packet
  decode_packet-Streams zero error strides w p w' h e = absurd (cc)
  decode_packet-Streams (suc fuel) error strides w p w' h e =
      answered (m.send_packet w).0 refl (λ error'. decode_packet-Streams fuel error' strides)
    where
      w1 : World
      w1 = (m.send_packet w).1

      h1 : Streams w1
      h1 = Streams-kept w w1 (owns.send_held w) h

      answered :
          (r : Sent)
          → (m.send_packet w).0 ≡ r
          → ((error' : Option Failure) (v : World) (q : Progress) (v' : World)
              → Streams v
              → decode_packet m fuel error' strides v ≡ some (q, v')
              → Streams v')
          → Streams w'
      answered send_refused a ih = Streams-kept w1 w' (ground (arith, a)) h1
      answered sent a ih = drain-Streams fuel error strides w1 p w' h1 (rw (a, decode_packet) at e)
      answered try_again a ih = elim (Option-cases (drain m fuel error strides w1)) [
        | inl stuck ↦ absurd (cc (rw (a, stuck, decode_packet) at e))
        | inr ((q, w2), drained) ↦
            let h2 = drain-Streams fuel error strides w1 q w2 h1 drained in
            elim (Bool-cases q.successful) [
              | inl good ↦ ih q.error w2 p w' h2 (rw (a, drained, good, decode_packet) at e)
              | inr bad ↦ Streams-kept w2 w' (ground (arith, a, drained)) h2
            ]
      ]

  pub read_loop-Streams :
      (fuel : ℕ) (error : Option Failure) (index : ℕ) (strides : Strides) (w : World) (p : Progress)
      (w' : World)
      → Streams w
      → read_loop m fuel error index strides w ≡ some (p, w')
      → Streams w'
  unfolding read_loop
  read_loop-Streams zero error index strides w p w' h e = absurd (cc)
  read_loop-Streams (suc fuel) error index strides w p w' h e =
      elim (Bool-cases (m.stop_requested w).0) [
        | inl stop ↦ Streams-kept w w' (ground (arith, owns.stop_held w)) h
        | inr go ↦
            read go (m.read_frame w1).0 refl (λ error'. read_loop-Streams fuel error' index strides)
      ]
    where
      w1 : World
      w1 = (m.stop_requested w).1

      w2 : World
      w2 = (m.read_frame w1).1

      h2 : Streams w2
      h2 = Streams-kept w w2 (owns.read_held w1 ∙ owns.stop_held w) h

      last : Streams (m.stop_requested w2).1
      last = Streams-kept w2 (m.stop_requested w2).1 (owns.stop_held w2) h2

      read :
          (m.stop_requested w).0 ≡ false
          → (r : Read) → (m.read_frame w1).0 ≡ r
          → ((error' : Option Failure) (v : World) (q : Progress) (v' : World)
              → Streams v
              → read_loop m fuel error' index strides v ≡ some (q, v')
              → Streams v')
          → Streams w'
      read go ended a ih = Streams-kept (m.stop_requested w2).1 w' (ground (arith, go, a)) last
      read go (read_failed code) a ih =
          Streams-kept (m.stop_requested w2).1 w' (ground (arith, go, a)) last
      read go (packet_read stream) a ih = elim (Bool-cases (stream == index)) [
        | inr other ↦
            ih error (m.unref_packet w2) p w'
              (Streams-kept w2 (m.unref_packet w2) (owns.unref_packet_held w2) h2)
              (rw (go, a, other, read_loop) at e)
        | inl video ↦ elim (Option-cases (decode_packet m fuel error strides w2)) [
          | inl stuck ↦ absurd (cc (rw (go, a, video, stuck, read_loop) at e))
          | inr ((q, w4), sent') ↦
              let h5 =
                Streams-kept w4 (m.unref_packet w4) (owns.unref_packet_held w4)
                  (decode_packet-Streams fuel error strides w2 q w4 h2 sent') in
              elim (Bool-cases q.successful) [
                | inl good ↦
                    ih q.error (m.unref_packet w4) p w' h5
                      (rw (go, a, video, sent', good, read_loop) at e)
                | inr bad ↦
                    Streams-kept (m.unref_packet w4) w' (ground (arith, go, a, video, sent')) h5
              ]
        ]
      ]
