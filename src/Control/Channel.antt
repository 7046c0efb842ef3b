-- ===== src/Control/Channel.antt =====
-- `AuthenticatedChannel` of linux/src/control_protocol.hpp and control_protocol.cpp.
pub mod Sequence
pub mod Delivery
use open_cam.Prelude.{
  ◌>>=◌, ◌>>◌, ℕ, suc, ◌+◌, ◌-◌, Bool, true, false, not, ◌||◌, List, [], ◌∷◌, ◌++◌, ◌==◌, ltb,
  if◌then◌else◌, Bytes, length, take, drop, Option, none, some,
}
use open_cam.Prelude.Int.{ℤ}
use open_cam.Control.Os.{Os}
use open_cam.Control.Evp.{Evp, require}
use open_cam.Control.Wire.{
  FrameType, Frame, empty_frame, uint64_max, max_payload, encrypted_overhead, sequence_size,
  gcm_tag_size, server_nonce_prefix, client_nonce_prefix, sequence_bytes, sequence_of_bytes,
  make_header, make_gcm_nonce,
}
use open_cam.Control.Keys.{hkdf_expand, server_to_client_kdf_info, client_to_server_kdf_info}
use open_cam.Control.Gcm.{encrypt_gcm, decrypt_gcm}
use open_cam.Control.Frames.{send_frame, receive_frame}

pub record Channel : Type 0 where
  pub fd : ℕ
  pub send_key : Bytes
  pub receive_key : Bytes
  pub send_sequence : ℕ
  pub receive_sequence : ℕ
  pub server_side : Bool

-- The constructor; `none` where it throws.
unfoldable pub make_channel : Evp → ℕ → Bytes → Bool → Option Channel
make_channel evp fd session_key server_side =
    let send_info = if server_side then server_to_client_kdf_info else client_to_server_kdf_info in
    let receive_info =
      if server_side then client_to_server_kdf_info else server_to_client_kdf_info in
    do
      send_key ← hkdf_expand evp session_key send_info
      receive_key ← hkdf_expand evp session_key receive_info
      some (record {
        fd = fd;
        send_key = send_key;
        receive_key = receive_key;
        send_sequence = 0;
        receive_sequence = 0;
        server_side = server_side;
      })

-- The payload on the wire: the sequence number, the ciphertext and the tag.
unfoldable pub seal : Evp → Channel → FrameType → Bytes → Option Bytes
seal evp channel type payload =
    let sequence = sequence_bytes channel.send_sequence in
    let encrypted_size = length payload + gcm_tag_size in
    let wire_payload_size = length sequence + encrypted_size in
    let header = make_header type wire_payload_size in
    let prefix = if channel.server_side then server_nonce_prefix else client_nonce_prefix in
    let nonce = make_gcm_nonce prefix sequence in
    do
      encrypted ← encrypt_gcm evp channel.send_key nonce header payload
      some (sequence ++ encrypted)

-- The text in a frame from the wire, `none` where `receive` returns false.
unfoldable pub unseal : Evp → Channel → Frame → Option Bytes
unseal evp channel wire =
    let sequence = take sequence_size wire.payload in
    let received_sequence = sequence_of_bytes 0 sequence in
    let ciphertext_size = length wire.payload - sequence_size - gcm_tag_size in
    let header = make_header wire.type (length wire.payload) in
    let prefix = if channel.server_side then client_nonce_prefix else server_nonce_prefix in
    let nonce = make_gcm_nonce prefix sequence in
    let ciphertext = take ciphertext_size (drop sequence_size wire.payload) in
    let tag = drop ciphertext_size (drop sequence_size wire.payload) in
    if not (received_sequence == channel.receive_sequence)
    then none
    else decrypt_gcm evp channel.receive_key nonce header ciphertext tag

module _ (evp : Evp) (os : Os) where
  open os use {World}

  unfoldable pub send :
      ℕ → Channel → FrameType → Bytes → ℤ → World → Option (Bool × Channel × World)
  send fuel channel type payload timeout w =
      if channel.send_sequence == uint64_max
      then some (false, channel, w)
      else if ltb max_payload (length payload + encrypted_overhead)
      then some (false, channel, w)
      else elim (seal evp channel type payload) [
        | none ↦ some (false, channel, w)
        | some wire ↦ elim (send_frame os fuel channel.fd type wire timeout w) [
          | none ↦ none
          | some (false, w1) ↦ some (false, channel, w1)
          | some (true, w1) ↦
              some (true, record channel { send_sequence = suc channel.send_sequence }, w1)
        ]
      ]

  -- `frame` is the caller's object; it changes only on success.
  unfoldable pub receive : ℕ → Channel → Frame → ℤ → World → Option (Bool × Channel × Frame × World)
  receive fuel channel frame timeout w =
      if channel.receive_sequence == uint64_max
      then some (false, channel, frame, w)
      else elim (receive_frame os fuel channel.fd empty_frame timeout w) [
        | none ↦ none
        | some (success, wire, w1) ↦
            if not success || ltb (length wire.payload) encrypted_overhead
            then some (false, channel, frame, w1)
            else elim (unseal evp channel wire) [
              | none ↦ some (false, channel, frame, w1)
              | some plaintext ↦ some (
                true,
                record channel { receive_sequence = suc channel.receive_sequence },
                record { type = wire.type; payload = plaintext },
                w1,
              )
            ]
      ]
