-- ===== src/Control/Frames.antt =====
-- `sendFrame` and `receiveFrame` of linux/src/control_protocol.cpp.
pub mod Delivery
pub mod Returns
pub mod Keeps
use open_cam.Prelude.{
  ℕ, zero, suc, Bool, true, false, not, ◌&&◌, ◌||◌, List, [], ◌∷◌, ◌==◌, ltb, if◌then◌else◌, Bytes,
  length, replicate, Option, none, some,
}
use open_cam.Prelude.Int.{ℤ}
use open_cam.Control.Os.{Os}
use open_cam.Control.Wire.{FrameType, Frame, header_size, max_payload, make_header, read_header}
use open_cam.Control.Transfer.{deadline_for, transfer}

-- `std::vector::resize`
abbrev pub resize : ℕ → Bytes → Bytes
resize zero bytes = []
resize (suc size) [] = 0 ∷ resize size []
resize (suc size) (b ∷ bytes) = b ∷ resize size bytes

module _ (os : Os) where
  open os use {World}

  -- The two transfers; the second is skipped for an empty payload.
  unfoldable pub send_parts : ℕ → ℕ → Bytes → Bytes → ℤ → ℕ → World → Option (Bool × World)
  send_parts fuel fd header payload timeout deadline w =
      elim (transfer os fuel fd [] header true timeout deadline w) [
        | none ↦ none
        | some (false, _, w1) ↦ some (false, w1)
        | some (true, _, w1) ↦ elim payload [
          | [] ↦ some (true, w1)
          | b ∷ bytes ↦ elim (transfer os fuel fd [] (b ∷ bytes) true timeout deadline w1) [
            | none ↦ none
            | some (success, _, w2) ↦ some (success, w2)
          ]
        ]
      ]

  unfoldable pub send_frame : ℕ → ℕ → FrameType → Bytes → ℤ → World → Option (Bool × World)
  send_frame fuel fd type payload timeout w =
      if ltb max_payload (length payload)
      then some (false, w)
      else let header = make_header type (length payload) in
        let (deadline, w1) = deadline_for os timeout w in
        send_parts fuel fd header payload timeout deadline w1

  -- What follows a header that was read, received over what the frame held before.
  unfoldable pub receive_payload :
      ℕ → ℕ → Bytes → FrameType → ℕ → ℤ → ℕ → World → Option (Bool × Frame × World)
  receive_payload fuel fd before type size timeout deadline w =
      if size == 0
      then some (true, record { type = type; payload = [] }, w)
      else elim (transfer os fuel fd [] (resize size before) false timeout deadline w) [
        | none ↦ none
        | some (success, buffer, w1) ↦ some (success, record { type = type; payload = buffer }, w1)
      ]

  -- `frame` is the caller's object, which keeps its content until the header is accepted.
  unfoldable pub receive_frame : ℕ → ℕ → Frame → ℤ → World → Option (Bool × Frame × World)
  receive_frame fuel fd frame timeout w =
      let (deadline, w1) = deadline_for os timeout w in
      elim (transfer os fuel fd [] (replicate header_size 0) false timeout deadline w1) [
        | none ↦ none
        | some (false, _, w2) ↦ some (false, frame, w2)
        | some (true, header, w2) ↦ elim (read_header header) [
          | none ↦ some (false, frame, w2)
          | some (type, size) ↦ receive_payload fuel fd frame.payload type size timeout deadline w2
        ]
      ]
