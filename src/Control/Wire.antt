-- ===== src/Control/Wire.antt =====
-- The bytes of a frame: constants, `sequenceBytes`, `makeHeader` and `makeGcmNonce` of
-- linux/src/control_protocol.cpp, and how `receiveFrame` and `receive` read them back.
pub mod Headers
use open_cam.Prelude.{
  ℕ, zero, suc, ◌+◌, ◌-◌, ◌*◌, ◌/◌, ◌%◌, ◌^◌, Bool, true, false, not, ◌&&◌, ◌||◌, List, [], ◌∷◌,
  ◌++◌, ◌==◌, ltb, if◌then◌else◌, Bytes, codes, equal_bytes, length, take, drop, Option, none, some,
}

abbrev pub version : ℕ
version = 2

abbrev pub max_payload : ℕ
max_payload = 64 * 1024

abbrev pub key_size : ℕ
key_size = 32

abbrev pub secret_size : ℕ
secret_size = 32

abbrev pub nonce_size : ℕ
nonce_size = 32

abbrev pub gcm_nonce_size : ℕ
gcm_nonce_size = 12

abbrev pub gcm_tag_size : ℕ
gcm_tag_size = 16

abbrev pub sequence_size : ℕ
sequence_size = 8

abbrev pub encrypted_overhead : ℕ
encrypted_overhead = sequence_size + gcm_tag_size

abbrev pub header_size : ℕ
header_size = 10

abbrev pub uint64_max : ℕ
uint64_max = 2 ^ 64 - 1

abbrev pub magic : Bytes
magic = codes "OCAM"

abbrev pub server_nonce_prefix : Bytes
server_nonce_prefix = codes "SRVR"

abbrev pub client_nonce_prefix : Bytes
client_nonce_prefix = codes "CLNT"

-- `enum class Type : std::uint8_t`. A value is its byte, since `receiveFrame` casts any byte.
abbrev pub FrameType : Type 0
FrameType = ℕ

abbrev pub server_hello : FrameType
server_hello = 1

abbrev pub client_auth : FrameType
client_auth = 2

abbrev pub server_auth : FrameType
server_auth = 3

abbrev pub descriptor : FrameType
descriptor = 4

abbrev pub activation : FrameType
activation = 5

abbrev pub error_report : FrameType
error_report = 6

pub record Frame : Type 0 where
  pub type : FrameType
  pub payload : Bytes

abbrev pub empty_frame : Frame
empty_frame = record { type = 0; payload = [] }

-- The loop over `i`, with the rounds left and the bytes from `result[i + 1]` on.
unfoldable pub sequence_loop : ℕ → ℕ → Bytes → Bytes
sequence_loop zero sequence result = result
sequence_loop (suc i) sequence result = sequence_loop i (sequence / 256) (sequence % 256 ∷ result)

unfoldable pub sequence_bytes : ℕ → Bytes
unfolding sequence_loop
sequence_bytes sequence = sequence_loop 8 sequence []

-- `(receivedSequence << 8) | byte` for each byte, in 64 bits.
unfoldable pub sequence_of_bytes : ℕ → Bytes → ℕ
sequence_of_bytes received [] = received
sequence_of_bytes received (byte ∷ bytes) = sequence_of_bytes (received * 256 % 2 ^ 64 + byte) bytes

unfoldable pub make_header : FrameType → ℕ → Bytes
make_header type payload_size =
    let size = payload_size % 2 ^ 32 in
    magic
    ++ (version
        ∷ type
        ∷ size / 2 ^ 24 % 256
        ∷ size / 2 ^ 16 % 256
        ∷ size / 2 ^ 8 % 256
        ∷ size % 256
        ∷ [])

unfoldable pub make_gcm_nonce : Bytes → Bytes → Bytes
make_gcm_nonce prefix sequence = prefix ++ sequence

-- What `receiveFrame` reads in a header: the type and the size, `none` where it returns false.
unfoldable pub read_header : Bytes → Option (FrameType × ℕ)
read_header (m0 ∷ m1 ∷ m2 ∷ m3 ∷ v ∷ type ∷ a ∷ b ∷ c ∷ d ∷ []) =
    if not (equal_bytes magic (m0 ∷ m1 ∷ m2 ∷ m3 ∷ [])) || not (v == version)
    then none
    else let size = a * 2 ^ 24 + b * 2 ^ 16 + c * 2 ^ 8 + d in
      if ltb max_payload size then none else some (type, size)
read_header _ = none
