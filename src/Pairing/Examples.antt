-- ===== src/Pairing/Examples.antt =====
-- A round of the pairing loop on a small machine: a client that proves knowledge of the secret and
-- then goes away.
use open_cam.Prelude.{ℕ, ◌≡◌, refl, Bool, true, Bytes, equal_bytes, Option, none, some}
use open_cam.Control.Examples.{Machine, small_os, small_evp}
use open_cam.Control.Wire.{make_header, read_header}
use open_cam.Control.Transfer.{deadline_for, remaining_time, wait_for, move, transfer}
use open_cam.Control.Frames.{send_parts, send_frame, receive_payload, receive_frame}
use open_cam.Control.Keys.{
  hmac, hkdf_expand, hkdf_extract_and_expand, derive_session_key, make_proof, constant_time_equal,
}
use open_cam.Control.Channel.{make_channel, receive}
use open_cam.Session.{
  confirm, is_client_proof, authenticate, admit, accept_descriptor, serve, handle_client,
}
use open_cam.Session.Examples.{nonce, peer, small_host, asked}
use open_cam.Pairing.{Round, pairing_payload, served, renew, handle, listen, pairing_round}
use open_cam.Pairing.Rotation.{Served, pairing_round-served}

abbrev expiry_of : Option (Round × Machine) → ℕ
expiry_of (some (served secret authenticated expires, w)) = expires
expiry_of _ = 0

abbrev machine_of : Option (Round × Machine) → Machine
machine_of none = asked
machine_of (some (_, w)) = w

abbrev round : Option (Round × Machine)
round = pairing_round small_evp small_os small_host 10 3 peer 100 asked

-- The machine when the code has been shown.
abbrev shown : Machine
shown = (small_host.display_qr (pairing_payload peer nonce) (small_host.random asked).1).1

pairing_round-served_example :
    (◌≡◌ {A = Option Bytes} (some nonce) (some nonce))
    × (◌≡◌ {A = Bool} true true)
    × Served small_evp small_os small_host 10 3 nonce 100 shown true (expiry_of round)
unfolding pairing_round listen handle renew handle_client serve make_channel hkdf_expand
    accept_descriptor admit receive authenticate is_client_proof confirm make_proof hmac
    derive_session_key hkdf_extract_and_expand constant_time_equal equal_bytes send_frame send_parts
    receive_frame receive_payload transfer wait_for remaining_time move deadline_for make_header
    read_header
pairing_round-served_example =
    pairing_round-served small_evp small_os small_host 10 3 peer 100 asked nonce true
      (expiry_of round) (machine_of round) refl
