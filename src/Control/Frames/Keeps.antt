-- ===== src/Control/Frames/Keeps.antt =====
-- Sending a frame leaves what is to be received, and receiving one leaves what was sent, whether
-- they succeed or not.
use open_cam.Prelude.{
  ℕ, ◌≡◌, ◌∙◌, inl, inr, Bool, true, false, [], ◌∷◌, ◌==◌, ltb, Bytes, length, replicate, some,
  arith, Bool-cases, Option-cases,
}
use open_cam.Prelude.Int.{ℤ}
use open_cam.Control.Os.{Os, Stream}
use open_cam.Control.Wire.{FrameType, Frame, header_size, max_payload, make_header, read_header}
use open_cam.Control.Transfer.{deadline_for, transfer}
use open_cam.Control.Transfer.Keeps.{transfer-inbox, transfer-sent}
use open_cam.Control.Frames.{send_parts, send_frame, receive_payload, receive_frame, resize}
use open_cam.Control.Frames.Delivery.{deadline_keeps_sent, deadline_keeps_inbox}

module _ (os : Os) (fd : ℕ) (stream : Stream os fd) where
  open os use {World}
  open stream use {sent, inbox}

  send_parts-inbox :
      (fuel : ℕ) (header payload : Bytes) (timeout : ℤ) (deadline : ℕ) (w : World) (success : Bool)
      (w' : World)
      → send_parts os fuel fd header payload timeout deadline w ≡ some (success, w')
      → inbox w' ≡ inbox w
  unfolding send_parts
  send_parts-inbox fuel header payload timeout deadline w success w' e =
      elim (Option-cases (transfer os fuel fd [] header true timeout deadline w)) [
        | inl stuck ↦ absurd (cc (rw (stuck, send_parts) at e))
        | inr ((false, buffer, w1), first) ↦
            let kept =
              transfer-inbox os fd stream fuel [] header timeout deadline w false buffer w1 first in
            ground arith
        | inr ((true, buffer, w1), first) ↦
            let kept =
              transfer-inbox os fd stream fuel [] header timeout deadline w true buffer w1 first in
            after buffer w1 payload first kept e
      ]
    where
      after :
          (buffer : Bytes) (w1 : World) (payload : Bytes)
          → transfer os fuel fd [] header true timeout deadline w ≡ some (true, buffer, w1)
          → inbox w1 ≡ inbox w
          → send_parts os fuel fd header payload timeout deadline w ≡ some (success, w')
          → inbox w' ≡ inbox w
      after buffer w1 [] first kept e = ground arith
      after buffer w1 (b ∷ bytes) first kept e =
          elim (Option-cases (transfer os fuel fd [] (b ∷ bytes) true timeout deadline w1)) [
            | inl stuck ↦ absurd (ground arith)
            | inr ((s2, buffer2, w2), second) ↦
                let kept2 =
                  transfer-inbox os fd stream fuel [] (b ∷ bytes) timeout deadline w1 s2 buffer2 w2
                    second in
                ground arith
          ]

  pub send_frame-inbox :
      (fuel : ℕ) (type : FrameType) (payload : Bytes) (timeout : ℤ) (w : World) (success : Bool)
      (w' : World)
      → send_frame os fuel fd type payload timeout w ≡ some (success, w')
      → inbox w' ≡ inbox w
  unfolding send_frame
  send_frame-inbox fuel type payload timeout w success w' e =
      let start = deadline_for os timeout w in
      elim (Bool-cases (ltb max_payload (length payload))) [
        | inl long ↦ ground arith
        | inr short ↦
            send_parts-inbox fuel (make_header type (length payload)) payload timeout start.0
              start.1 success w' (rw short at e)
            ∙ deadline_keeps_inbox os fd stream timeout w
      ]

  receive_payload-sent :
      (fuel : ℕ) (before : Bytes) (type : FrameType) (size : ℕ) (timeout : ℤ) (deadline : ℕ)
      (w : World) (success : Bool) (frame : Frame) (w' : World)
      → receive_payload os fuel fd before type size timeout deadline w ≡ some (success, frame, w')
      → sent w' ≡ sent w
  unfolding receive_payload
  receive_payload-sent fuel before type size timeout deadline w success frame w' e =
      elim (Bool-cases (size == 0)) [
        | inl empty ↦ ground arith
        | inr more ↦
            elim (Option-cases
              (transfer os fuel fd [] (resize size before) false timeout deadline w)) [
                | inl stuck ↦ absurd (ground arith)
                | inr ((s, buffer, w1), moved) ↦
                    let kept =
                      transfer-sent os fd stream fuel [] (resize size before) timeout deadline w s
                        buffer w1 moved in
                    ground arith
              ]
      ]

  pub receive_frame-sent :
      (fuel : ℕ) (before : Frame) (timeout : ℤ) (w : World) (success : Bool) (frame : Frame)
      (w' : World)
      → receive_frame os fuel fd before timeout w ≡ some (success, frame, w')
      → sent w' ≡ sent w
  unfolding receive_frame
  receive_frame-sent fuel before timeout w success frame w' e =
      let start = deadline_for os timeout w in
      let begun = deadline_keeps_sent os fd stream timeout w in
      elim (Option-cases
        (transfer os fuel fd [] (replicate header_size 0) false timeout start.0 start.1)) [
          | inl stuck ↦ absurd (cc (rw (stuck, receive_frame) at e))
          | inr ((false, buffer, w1), first) ↦
              let kept =
                transfer-sent os fd stream fuel [] (replicate header_size 0) timeout start.0 start.1
                  false buffer w1 first in
              ground arith
          | inr ((true, header, w1), first) ↦
              let kept =
                transfer-sent os fd stream fuel [] (replicate header_size 0) timeout start.0 start.1
                  true header w1 first in
              elim (Option-cases (read_header header)) [
                | inl bad ↦ ground arith
                | inr ((type, size), good) ↦
                    receive_payload-sent fuel before.payload type size timeout start.0 w1 success
                      frame w' (rw (first, good, receive_frame) at e)
                    ∙ kept
                    ∙ begun
              ]
        ]
