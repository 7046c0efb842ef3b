-- ===== src/Control/Examples/Transfers.antt =====
-- Instances of the theorems on transfers and frames.
use open_cam.Prelude.{
  ◌≡◌, refl, Bool, true, [], ◌∷◌, ◌++◌, Bytes, equal_bytes, replicate, some, arith,
}
use open_cam.Prelude.Int.{pos}
use open_cam.Control.Wire.{Frame, empty_frame, make_header, read_header}
use open_cam.Control.Transfer.{deadline_for, remaining_time, wait_for, move, transfer}
use open_cam.Control.Transfer.Moves.{Sends, transfer-Sends, Receives, transfer-Receives}
use open_cam.Control.Frames.{send_parts, send_frame, receive_payload, receive_frame}
use open_cam.Control.Frames.Delivery.{receive_frame-send_frame}
use open_cam.Control.Frames.Returns.{frame-returns}
use open_cam.Control.Examples.{Machine, small_os, small_progress, small_stream}

abbrev idle : Machine
idle = record { time = 5; sent = []; inbox = [] }

frame-returns_example :
    ((result : Bool × Machine) × (send_frame small_os 1000002 3 4 (7 ∷ []) (pos 1) idle
        ≡ some result))
    × ((result : Bool × Frame × Machine) × (receive_frame small_os 1000002 3 empty_frame
            (pos 1)
            idle
          ≡ some result))
frame-returns_example =
    frame-returns small_os small_progress 1000002 3 1 (omega arith) 4 (7 ∷ []) empty_frame idle

-- Forty bytes, which go out in two parts.
abbrev forty : Bytes
forty = replicate 40 1

transfer-Sends_example :
    Sends small_os 3
      (small_stream 3)
      idle
      forty
      true
      (record { time = 7; sent = forty; inbox = [] })
unfolding transfer wait_for remaining_time move
transfer-Sends_example =
    transfer-Sends small_os 3 (small_stream 3) 5 [] forty (pos 1) 1000005 idle true forty
      (record { time = 7; sent = forty; inbox = [] }) refl

transfer-Receives_example :
    Receives small_os 3
      (small_stream 3)
      (record { time = 5; sent = []; inbox = forty })
      []
      (0 ∷ 0 ∷ [])
      true
      (1 ∷ 1 ∷ [])
      (record { time = 6; sent = []; inbox = replicate 38 1 })
unfolding transfer wait_for remaining_time move
transfer-Receives_example =
    transfer-Receives small_os 3 (small_stream 3) 5 [] (0 ∷ 0 ∷ []) (pos 1) 1000005
      (record { time = 5; sent = []; inbox = forty }) true (1 ∷ 1 ∷ [])
      (record { time = 6; sent = []; inbox = replicate 38 1 }) refl

abbrev hello : Bytes
hello = 79 ∷ 67 ∷ 65 ∷ 77 ∷ 2 ∷ 4 ∷ 0 ∷ 0 ∷ 0 ∷ 1 ∷ 7 ∷ []

receive_frame-send_frame_example :
    (◌≡◌ {A = Frame}
      (record { type = 4; payload = 7 ∷ [] })
      (record { type = 4; payload = 7 ∷ [] }))
    × (◌≡◌ {A = Bytes} (9 ∷ []) (9 ∷ []))
unfolding send_frame send_parts receive_frame receive_payload transfer wait_for remaining_time move
    deadline_for make_header read_header equal_bytes
receive_frame-send_frame_example =
    receive_frame-send_frame small_os 3 4 (small_stream 3) (small_stream 4) 5 5 4 (7 ∷ []) (pos 1)
      (pos 1) idle (record { time = 7; sent = hello; inbox = [] })
      (record { time = 0; sent = []; inbox = hello ++ 9 ∷ [] })
      (record { time = 2; sent = []; inbox = 9 ∷ [] }) empty_frame
      (record { type = 4; payload = 7 ∷ [] }) (9 ∷ []) (ground arith) refl refl refl
