-- ===== src/Control/Frames/Delivery.antt =====
-- What the two frame functions put on the stream and take off it, and that they return.
use mathlib.Core.Path.{ap₂}
use open_cam.Prelude.{
  ℕ, zero, suc, ◌≤◌, ◌≡◌, refl, sym, ap, ◌∙◌, subst, inl, inr, true, false, [], ◌∷◌, ◌++◌,
  append_assoc, append-nil, ◌==◌, ltb, Bytes, IsByte, All, All-append_left, length, replicate, drop,
  drop_all, some, arith, Bool-cases, Option-cases, ltb-le,
}
use open_cam.Prelude.Int.{ℤ, pos, negsuc}
use open_cam.Control.Os.{Os, Stream}
use open_cam.Control.Wire.{FrameType, Frame, header_size, max_payload, make_header, read_header}
use open_cam.Control.Wire.Headers.{read_header-eq_some}
use open_cam.Control.Transfer.{deadline_for, transfer}
use open_cam.Control.Transfer.Moves.{transfer-Sends, transfer-Receives}
use open_cam.Control.Frames.{send_parts, send_frame, receive_payload, receive_frame, resize}

-- The bytes of a frame on the stream.
abbrev pub frame_bytes : FrameType → Bytes → Bytes
frame_bytes type payload = make_header type (length payload) ++ payload

module _ (os : Os) (fd : ℕ) (stream : Stream os fd) where
  open os use {World}
  open stream use {sent, inbox}

  pub deadline_keeps_sent : (timeout : ℤ) (w : World) → sent (deadline_for os timeout w).1 ≡ sent w
  unfolding deadline_for
  deadline_keeps_sent (pos t) w = stream.now_sent w
  deadline_keeps_sent (negsuc t) w = refl

  pub deadline_keeps_inbox :
      (timeout : ℤ) (w : World) → inbox (deadline_for os timeout w).1 ≡ inbox w
  unfolding deadline_for
  deadline_keeps_inbox (pos t) w = stream.now_inbox w
  deadline_keeps_inbox (negsuc t) w = refl

  transfer-sent :
      (fuel : ℕ) (left : Bytes) (timeout : ℤ) (deadline : ℕ) (w : World) (buffer : Bytes)
      (w' : World)
      → transfer os fuel fd [] left true timeout deadline w ≡ some (true, buffer, w')
      → sent w' ≡ sent w ++ left
  transfer-sent fuel left timeout deadline w buffer w' e =
      let s = transfer-Sends os fd stream fuel [] left timeout deadline w true buffer w' e in
      let none_left : s.back ≡ [] = elim s.complete [ inl no' ↦ absurd (cc) | inr e' ↦ e' ] in
      let whole = s.splits ∙ ap (λ t. s.front ++ t) none_left ∙ append-nil s.front in
      s.accepted_front ∙ ap (λ t. sent w ++ t) (sym whole)

  send_parts-sent :
      (fuel : ℕ) (header payload : Bytes) (timeout : ℤ) (deadline : ℕ) (w w' : World)
      → send_parts os fuel fd header payload timeout deadline w ≡ some (true, w')
      → sent w' ≡ sent w ++ (header ++ payload)
  unfolding send_parts
  send_parts-sent fuel header [] timeout deadline w w' e =
      elim (Option-cases (transfer os fuel fd [] header true timeout deadline w)) [
        | inl stuck ↦ absurd (cc (rw (stuck, send_parts) at e))
        | inr ((false, buffer, w1), first) ↦ absurd (ground arith)
        | inr ((true, buffer, w1), first) ↦
            rw (append-nil header)
              (ground (arith, transfer-sent fuel header timeout deadline w buffer w1 first))
      ]
  send_parts-sent fuel header (b ∷ bytes) timeout deadline w w' e =
      elim (Option-cases (transfer os fuel fd [] header true timeout deadline w)) [
        | inl stuck ↦ absurd (cc (rw (stuck, send_parts) at e))
        | inr ((false, buffer, w1), first) ↦ absurd (ground arith)
        | inr ((true, buffer, w1), first) ↦
            elim (Option-cases (transfer os fuel fd [] (b ∷ bytes) true timeout deadline w1)) [
              | inl stuck ↦ absurd (ground arith)
              | inr ((success, buffer', w2), second) ↦
                  let done : success ≡ true = ground arith in
                  let end : w2 ≡ w' = ground arith in
                  let second' = second ∙ ap₂ (λ s u. some (s, buffer', u)) done end in
                  transfer-sent fuel (b ∷ bytes) timeout deadline w1 buffer' w' second'
                  ∙ ap (λ t. t ++ b ∷ bytes)
                      (transfer-sent fuel header timeout deadline w buffer w1 first)
                  ∙ append_assoc (sent w) header (b ∷ bytes)
            ]
      ]

  -- A frame that was sent stands whole on the stream behind what was there, and its payload is
  -- within the limit.
  pub send_frame-sent :
      (fuel : ℕ) (type : FrameType) (payload : Bytes) (timeout : ℤ) (w w' : World)
      → send_frame os fuel fd type payload timeout w ≡ some (true, w')
      → (sent w' ≡ sent w ++ frame_bytes type payload) × (length payload ≤ max_payload)
  unfolding send_frame
  send_frame-sent fuel type payload timeout w w' e =
      let start = deadline_for os timeout w in
      elim (Bool-cases (ltb max_payload (length payload))) [
        | inl long ↦ absurd (cc (rw long at e))
        | inr short ↦ (
          send_parts-sent fuel (make_header type (length payload)) payload timeout start.0 start.1
                w' (rw short at e)
              ∙ ap (λ t. t ++ frame_bytes type payload) (deadline_keeps_sent timeout w),
          ltb-le max_payload (length payload) short,
        )
      ]

  transfer-received :
      (fuel size : ℕ) (blank : Bytes) (timeout : ℤ) (deadline : ℕ) (w : World) (buffer : Bytes)
      (w' : World)
      → length blank ≡ size
      → transfer os fuel fd [] blank false timeout deadline w ≡ some (true, buffer, w')
      → (inbox w ≡ buffer ++ inbox w') × (length buffer ≡ size)
  transfer-received fuel size blank timeout deadline w buffer w' blanks e =
      let s = transfer-Receives os fd stream fuel [] blank timeout deadline w true buffer w' e in
      let full : length s.taken ≡ size = elim s.complete [
        | inl no' ↦ absurd (cc)
        | inr e' ↦ e' ∙ blanks
      ] in
      let rest : drop (length s.taken) blank ≡ [] =
        drop_all (length s.taken) blank (omega (arith, full, blanks)) in
      let whole : buffer ≡ s.taken =
        s.in_buffer ∙ ap (λ t. s.taken ++ t) rest ∙ append-nil s.taken in
      (s.from_stream ∙ ap (λ t. t ++ inbox w') (sym whole), ap length whole ∙ full)

  length-resize : (size : ℕ) (bytes : Bytes) → length (resize size bytes) ≡ size
  length-resize zero bytes = refl
  length-resize (suc size) [] = ap suc (length-resize size [])
  length-resize (suc size) (b ∷ bytes) = ap suc (length-resize size bytes)

  receive_payload-received :
      (fuel : ℕ) (before : Bytes) (type : FrameType) (size : ℕ) (timeout : ℤ) (deadline : ℕ)
      (w : World) (frame : Frame) (w' : World)
      → receive_payload os fuel fd before type size timeout deadline w ≡ some (true, frame, w')
      → (frame.type ≡ type) × (length frame.payload ≡ size) × (inbox w ≡ frame.payload ++ inbox w')
  unfolding receive_payload
  receive_payload-received fuel before type size timeout deadline w frame w' e =
      elim (Bool-cases (size == 0)) [
        | inl zero' ↦ ground arith
        | inr more ↦
            elim (Option-cases
              (transfer os fuel fd [] (resize size before) false timeout deadline w)) [
                | inl stuck ↦ absurd (ground arith)
                | inr ((success, buffer, w1), moved) ↦
                    let done : success ≡ true = ground arith in
                    let moved' = moved ∙ ap (λ b. some (b, buffer, w1)) done in
                    let (whole, long) =
                      transfer-received fuel size (resize size before) timeout deadline w buffer w1
                        (length-resize size before) moved' in
                    ground arith
              ]
      ]

  -- A frame that was received was the front of the stream, and its payload is within the limit.
  pub receive_frame-received :
      (fuel : ℕ) (before : Frame) (timeout : ℤ) (w : World) (frame : Frame) (w' : World)
      → All IsByte (inbox w)
      → receive_frame os fuel fd before timeout w ≡ some (true, frame, w')
      → (inbox w ≡ frame_bytes frame.type frame.payload ++ inbox w')
        × (length frame.payload ≤ max_payload)
  unfolding receive_frame
  receive_frame-received fuel before timeout w frame w' h e =
      let start = deadline_for os timeout w in
      let kept = deadline_keeps_inbox timeout w in
      elim (Option-cases
        (transfer os fuel fd [] (replicate header_size 0) false timeout start.0 start.1)) [
          | inl stuck ↦ absurd (cc (rw (stuck, receive_frame) at e))
          | inr ((false, buffer, w1), first) ↦ absurd (ground arith)
          | inr ((true, header, w1), first) ↦
              let (front, long) =
                transfer-received fuel header_size (replicate header_size 0) timeout start.0 start.1
                  header w1 refl first in
              let bytes =
                All-append_left IsByte header (inbox w1)
                  (subst (All IsByte) (sym kept ∙ front) h) in
              elim (Option-cases (read_header header)) [
                | inl bad ↦ absurd (ground arith)
                | inr ((type, size), good) ↦
                    let (same, fits) = read_header-eq_some header type size bytes good in
                    let (is_type, is_size, rest) =
                      receive_payload-received fuel before.payload type size timeout start.0 w1
                        frame w' (rw (first, good, receive_frame) at e) in
                    let header_is = same ∙ ap₂ make_header (sym is_type) (sym is_size) in
                    (
                      sym kept
                          ∙ front
                          ∙ ap (λ t. header ++ t) rest
                          ∙ sym (append_assoc header frame.payload (inbox w'))
                          ∙ ap (λ t. (t ++ frame.payload) ++ inbox w') header_is,
                      omega (arith, is_size, fits),
                    )
              ]
        ]

header_injective :
    (t u : FrameType) (m n : ℕ) (a b : Bytes)
    → m ≤ max_payload
    → n ≤ max_payload
    → make_header t m ++ a ≡ make_header u n ++ b
    → (t ≡ u) × (m ≡ n) × (a ≡ b)
unfolding make_header
header_injective t u m n a b hm hn e = ground arith

pub append_injective : (a b c d : Bytes) → length a ≡ length b → a ++ c ≡ b ++ d → (a ≡ b) × (c ≡ d)
append_injective [] [] c d h e = (refl, e)
append_injective [] (y ∷ b) c d h e = absurd (omega arith)
append_injective (x ∷ a) [] c d h e = absurd (omega arith)
append_injective (x ∷ a) (y ∷ b) c d h e =
    let (same, rest) = append_injective a b c d (omega arith) (ground arith) in (ground arith, rest)

-- Frames within the limit are told apart on a stream, whatever follows them.
pub frame_bytes_injective :
    (t u : FrameType) (p q a b : Bytes)
    → length p ≤ max_payload
    → length q ≤ max_payload
    → frame_bytes t p ++ a ≡ frame_bytes u q ++ b
    → (t ≡ u) × (p ≡ q) × (a ≡ b)
frame_bytes_injective t u p q a b hp hq e =
    let grouped : make_header t (length p) ++ (p ++ a) ≡ make_header u (length q) ++ (q ++ b) =
      sym (append_assoc (make_header t (length p)) p a)
      ∙ e
      ∙ append_assoc (make_header u (length q)) q b in
    let (same, long, rest) = header_injective t u _ _ (p ++ a) (q ++ b) hp hq grouped in
    let (payload, after) = append_injective p q a b long rest in (same, payload, after)

-- A receiver whose stream begins with the frame that a sender put on its own stream gets, where it
-- succeeds, exactly that type and payload, and the rest of the stream is left.
pub receive_frame-send_frame :
    (os : Os) (out in' : ℕ) (sender : Stream os out) (receiver : Stream os in') (fuel fuel' : ℕ)
    (type : FrameType) (payload : Bytes) (timeout timeout' : ℤ) (w w' v v' : os.World)
    (before frame : Frame) (rest : Bytes)
    → All IsByte (receiver.inbox v)
    → send_frame os fuel out type payload timeout w ≡ some (true, w')
    → sender.sent w ++ receiver.inbox v ≡ sender.sent w' ++ rest
    → receive_frame os fuel' in' before timeout' v ≡ some (true, frame, v')
    → (frame ≡ record { type = type; payload = payload }) × (receiver.inbox v' ≡ rest)
receive_frame-send_frame os out in' sender receiver fuel fuel' type payload timeout timeout' w w' v
      v' before frame rest bytes sent linked got =
    let (put, fits) = send_frame-sent os out sender fuel type payload timeout w w' sent in
    let (taken, fits') =
      receive_frame-received os in' receiver fuel' before timeout' v frame v' bytes got in
    let whole : receiver.inbox v ≡ frame_bytes type payload ++ rest =
      (append_injective (sender.sent w) (sender.sent w) _ _ refl
        (linked ∙ ap (λ t. t ++ rest) put ∙ append_assoc (sender.sent w) _ rest)).1 in
    let (t, p, r) =
      frame_bytes_injective frame.type type frame.payload payload (receiver.inbox v') rest fits'
        fits (sym taken ∙ whole) in
    (ground arith, r)
