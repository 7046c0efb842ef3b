-- ===== src/Control/Examples/Channels.antt =====
-- Instances of the theorems on authenticated channels: a server that sends one byte to a client.
use open_cam.Prelude.{
  ◌+◌, ◌≤◌, ◌≡◌, ◌≢◌, refl, ◌⊎◌, Bool, true, false, [], ◌∷◌, ◌++◌, Bytes, equal_bytes, take,
  replicate, some, arith,
}
use open_cam.Prelude.Int.{pos}
use open_cam.Control.Wire.{
  Frame, empty_frame, uint64_max, max_payload, encrypted_overhead, sequence_size, sequence_loop,
  sequence_bytes, sequence_of_bytes, make_header, make_gcm_nonce, read_header,
}
use open_cam.Control.Transfer.{deadline_for, remaining_time, wait_for, move, transfer}
use open_cam.Control.Frames.{send_parts, send_frame, receive_payload, receive_frame}
use open_cam.Control.Gcm.{encrypt_gcm, decrypt_gcm}
use open_cam.Control.Channel.{Channel, seal, unseal, send, receive}
use open_cam.Control.Channel.Sequence.{
  sent_once, received_once, send_outcome, receive_outcome, receive-replayed,
}
use open_cam.Control.Channel.Delivery.{Matched, Delivers, receive-send}
use open_cam.Control.Examples.{Machine, small_os, small_stream, small_evp, small_gcm}

abbrev key : Bytes
key = replicate 32 1

abbrev server : Channel
server = record {
  fd = 3;
  send_key = key;
  receive_key = replicate 32 2;
  send_sequence = 0;
  receive_sequence = 0;
  server_side = true;
}

abbrev client : Channel
client = record {
  fd = 4;
  send_key = replicate 32 2;
  receive_key = key;
  send_sequence = 0;
  receive_sequence = 0;
  server_side = false;
}

abbrev packed : Bytes
packed = replicate 8 0 ++ 7 ∷ replicate 16 1

abbrev on_wire : Bytes
on_wire = 79 ∷ 67 ∷ 65 ∷ 77 ∷ 2 ∷ 5 ∷ 0 ∷ 0 ∷ 0 ∷ 25 ∷ packed

abbrev idle : Machine
idle = record { time = 0; sent = []; inbox = [] }

abbrev all_sent : Machine
all_sent = record { time = 2; sent = on_wire; inbox = [] }

abbrev filled : Machine
filled = record { time = 0; sent = []; inbox = on_wire }

abbrev emptied : Machine
emptied = record { time = 2; sent = []; inbox = [] }

abbrev report : Frame
report = record { type = 5; payload = 7 ∷ [] }

server-client-Matched : Matched server client
server-client-Matched = record {
  same_key = refl;
  same_sequence = refl;
  other_side = refl;
  in_uint64 = omega arith;
}

receive-send_example :
    Delivers small_evp small_os small_stream 6 server client empty_frame
      (pos 1)
      filled
      emptied
      5
      (7 ∷ [])
      []
unfolding send seal encrypt_gcm sequence_bytes sequence_loop send_frame send_parts receive_frame
    receive_payload transfer wait_for remaining_time move deadline_for make_header read_header
    equal_bytes
receive-send_example =
    receive-send small_evp small_gcm small_os small_stream 6 6 server (sent_once server) client 5
      (7 ∷ []) [] (pos 1) (pos 1) idle all_sent filled emptied empty_frame
      (record { type = 5; payload = packed }) server-client-Matched (ground arith) refl refl refl

send_outcome_example :
    ((◌≡◌ {A = Bool} true true)
      × (sent_once server ≡ sent_once server)
      × (server.send_sequence ≢ uint64_max)
      × (1 + encrypted_overhead ≤ max_payload)
      × ((wire : Bytes) × (seal small_evp server 5 (7 ∷ []) ≡ some wire)
          × (send_frame small_os 6 3 5 wire (pos 1) idle ≡ some (true, all_sent))))
    ⊎ ((true ≡ false) × (sent_once server ≡ server))
unfolding send seal encrypt_gcm sequence_bytes sequence_loop send_frame send_parts transfer wait_for
    remaining_time move deadline_for make_header
send_outcome_example =
    send_outcome small_evp small_os 6 server 5 (7 ∷ []) (pos 1) idle true (sent_once server)
      all_sent refl

receive_outcome_example :
    ((◌≡◌ {A = Bool} true true)
      × (received_once client ≡ received_once client)
      × ((wire : Frame) × (receive_frame small_os 6 4 empty_frame (pos 1) filled
            ≡ some (true, wire, emptied))
          × (unseal small_evp client wire ≡ some (7 ∷ []))
          × (5 ≡ wire.type)
          × (sequence_of_bytes 0 (take sequence_size wire.payload) ≡ 0)))
    ⊎ ((true ≡ false) × (received_once client ≡ client) × (report ≡ empty_frame))
unfolding receive unseal decrypt_gcm sequence_of_bytes make_gcm_nonce receive_frame receive_payload
    transfer wait_for remaining_time move deadline_for make_header read_header equal_bytes
receive_outcome_example =
    receive_outcome small_evp small_os 6 client empty_frame (pos 1) filled true
      (received_once client) report emptied refl

receive-replayed_example :
    (◌≡◌ {A = Bool} false false)
    × (received_once client ≡ received_once client)
    × (empty_frame ≡ empty_frame)
unfolding receive unseal decrypt_gcm sequence_of_bytes make_gcm_nonce receive_frame receive_payload
    transfer wait_for remaining_time move deadline_for make_header read_header equal_bytes
receive-replayed_example =
    receive-replayed small_evp small_os 6 6 client (received_once client) (received_once client)
      (received_once client) empty_frame report empty_frame empty_frame (pos 1) (pos 1) filled
      emptied filled emptied false (small_stream 4) (small_stream 4) on_wire [] refl (ground arith)
      (ground arith) refl refl (omega arith) refl
