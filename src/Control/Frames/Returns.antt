-- ===== src/Control/Frames/Returns.antt =====
-- The frame functions return, whatever the system calls answer: fuel for the nanoseconds of the
-- timeout and two rounds more is enough.
use open_cam.Prelude.{
  ℕ, ◌+◌, ◌-◌, ◌*◌, ◌≤◌, ◌≡◌, inl, inr, Bool, true, false, [], ◌∷◌, ◌==◌, ltb, Bytes, length,
  replicate, some, arith, Bool-cases, Option-cases,
}
use open_cam.Prelude.Int.{pos}
use open_cam.Control.Os.{Os, Progress}
use open_cam.Control.Wire.{FrameType, Frame, header_size, max_payload, make_header, read_header}
use open_cam.Control.Transfer.{deadline_for, transfer}
use open_cam.Control.Transfer.Terminates.{transfer-returns}
use open_cam.Control.Frames.{send_parts, send_frame, receive_payload, receive_frame, resize}

module _ (os : Os) (progress : Progress os) (fuel fd t : ℕ) (enough : t * 1000000 + 2 ≤ fuel) where
  open os use {World}
  open progress use {time}

  start_in_time :
      (w : World) → (deadline_for os (pos t) w).0 - time (deadline_for os (pos t) w).1 + 2 ≤ fuel
  unfolding deadline_for
  start_in_time w = omega (arith, progress.now_time w, progress.after_now w, enough)

  send_parts-returns :
      (header payload : Bytes) (deadline : ℕ) (w : World)
      → deadline - time w + 2 ≤ fuel
      → (result : Bool × World) × (send_parts os fuel fd header payload (pos t) deadline w
          ≡ some result)
  unfolding send_parts
  send_parts-returns header payload deadline w h =
      let ((success, buffer, w1), first, later) =
        transfer-returns os progress fuel fd [] header true t deadline w h in
      after success buffer w1 payload first (
        transfer-returns os progress fuel fd [] payload true t deadline w1
          (omega (arith, later, h)))
    where
      after :
          (success : Bool) (buffer : Bytes) (w1 : World) (payload : Bytes)
          → transfer os fuel fd [] header true (pos t) deadline w ≡ some (success, buffer, w1)
          → (r : Bool × Bytes × World) × (transfer os fuel fd [] payload true (pos t) deadline w1
              ≡ some r)
            × (time w1 ≤ time r.2)
          → (result : Bool × World) × (send_parts os fuel fd header payload (pos t) deadline w
              ≡ some result)
      after false buffer w1 payload first next = ((false, w1), rw (first, send_parts))
      after true buffer w1 [] first next = ((true, w1), rw (first, send_parts))
      after true buffer w1 (b ∷ bytes) first (r, second, later) =
          ((r.0, r.2), rw (first, second, send_parts))

  -- Sending a frame with a timeout of `t` milliseconds returns.
  send_frame-returns :
      (type : FrameType) (payload : Bytes) (w : World)
      → (result : Bool × World) × (send_frame os fuel fd type payload (pos t) w ≡ some result)
  unfolding send_frame
  send_frame-returns type payload w = elim (Bool-cases (ltb max_payload (length payload))) [
    | inl long ↦ ((false, w), rw long)
    | inr short ↦
        let (result, e) =
          send_parts-returns (make_header type (length payload)) payload _ _ (start_in_time w) in
        (result, rw short e)
  ]

  receive_payload-returns :
      (before : Bytes) (type : FrameType) (size deadline : ℕ) (w : World)
      → deadline - time w + 2 ≤ fuel
      → (result : Bool × Frame × World) × (receive_payload os fuel fd before type size
            (pos t)
            deadline
            w
          ≡ some result)
  unfolding receive_payload
  receive_payload-returns before type size deadline w h =
      let (r, moved, later) =
        transfer-returns os progress fuel fd [] (resize size before) false t deadline w h in
      elim (Bool-cases (size == 0)) [
        | inl none' ↦ ((true, record { type = type; payload = [] }, w), rw none')
        | inr more ↦
            ((r.0, record { type = type; payload = r.1 }, r.2), rw (more, moved, receive_payload))
      ]

  -- Receiving a frame with a timeout of `t` milliseconds returns.
  receive_frame-returns :
      (before : Frame) (w : World)
      → (result : Bool × Frame × World) × (receive_frame os fuel fd before (pos t) w ≡ some result)
  unfolding receive_frame
  receive_frame-returns before w =
      let start = deadline_for os (pos t) w in
      let ((success, header, w1), first, later) =
        transfer-returns os progress fuel fd [] (replicate header_size 0) false t start.0 start.1
          (start_in_time w) in
      after success header w1 first (omega (arith, later, start_in_time w))
    where
      after :
          (success : Bool) (header : Bytes) (w1 : World)
          → transfer os fuel fd []
              (replicate header_size 0)
              false
              (pos t)
              (deadline_for os (pos t) w).0
              (deadline_for os (pos t) w).1
            ≡ some (success, header, w1)
          → (deadline_for os (pos t) w).0 - time w1 + 2 ≤ fuel
          → (result : Bool × Frame × World) × (receive_frame os fuel fd before (pos t) w
              ≡ some result)
      after false header w1 first h = ((false, before, w1), rw (first, receive_frame))
      after true header w1 first h = elim (Option-cases (read_header header)) [
        | inl bad ↦ ((false, before, w1), rw (first, bad, receive_frame))
        | inr ((type, size), good) ↦
            let (result, e) = receive_payload-returns before.payload type size _ w1 h in
            (result, rw (first, good, receive_frame) e)
      ]

  -- Sending and receiving a frame with a timeout of `t` milliseconds return, whatever the system calls
  -- answer.
  pub frame-returns :
      (type : FrameType) (payload : Bytes) (before : Frame) (w : World)
      → ((result : Bool × World) × (send_frame os fuel fd type payload (pos t) w ≡ some result))
        × ((result : Bool × Frame × World) × (receive_frame os fuel fd before (pos t) w
              ≡ some result))
  frame-returns type payload before w =
      (send_frame-returns type payload w, receive_frame-returns before w)
