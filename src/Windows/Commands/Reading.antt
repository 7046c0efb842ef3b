-- ===== src/Windows/Commands/Reading.antt =====
-- The phone reads the commands that the manager sends.
use open_cam.Prelude.{
  ℕ, suc, ◌+◌, ◌*◌, ◌/◌, ◌%◌, ◌^◌, ◌≤◌, ◌<◌, ◌≡◌, refl, ap, ◌∙◌, Bool, true, false, ◌&&◌, ◌==◌, leb,
  [], ◌∷◌, ◌++◌, some, Bytes, length, length-append, take-append, drop-append, arith, take_all,
}
use open_cam.Prelude.Int.{ℤ, pos, negsuc}
use open_cam.StreamOptions.{to_uint32}
use open_cam.Windows.Activation.Ranges.{IsPercentage}
use open_cam.Windows.Commands.{
  Command, resolution, fps, bitrate, adaptive_bitrate, stabilization, flash, focus, codec, camera,
  zoom, rotation, flip, correction_filter, effect_filter, flag, packet_of, fixed_length,
  legacy_message_length, join, signed_byte, handle_filter, handle_byte, handle_pair, handle_packet,
  read_command,
}

-- The commands within the phone's ranges.
abbrev pub IsCommand : (Bytes → Bool) → (ℕ → Bool) → Command → Type 0
IsCommand utf8 valid_zoom (resolution w h) =
    (160 ≤ w) × (w ≤ 8192) × (160 ≤ h) × (h ≤ 8192) × (w * h ≤ 16777216)
IsCommand utf8 valid_zoom (fps n) = (1 ≤ n) × (n ≤ 60)
IsCommand utf8 valid_zoom (bitrate n) = (64 ≤ n) × (n ≤ 25000)
IsCommand utf8 valid_zoom (adaptive_bitrate m n) = (64 ≤ m) × (m ≤ n) × (n ≤ 25000)
IsCommand utf8 valid_zoom (stabilization b) = Unit {0}
IsCommand utf8 valid_zoom (flash b) = Unit {0}
IsCommand utf8 valid_zoom (focus mode) = mode ≤ 1
IsCommand utf8 valid_zoom (codec b) = Unit {0}
IsCommand utf8 valid_zoom camera = Unit {0}
IsCommand utf8 valid_zoom (zoom bits) = (bits < 2 ^ 32) × (valid_zoom bits ≡ true)
IsCommand utf8 valid_zoom (rotation degrees) = degrees < 256
IsCommand utf8 valid_zoom (flip b) = Unit {0}
IsCommand utf8 valid_zoom (correction_filter name value) =
    (1 ≤ length name) × (length name ≤ 128) × (utf8 name ≡ true) × IsPercentage value
IsCommand utf8 valid_zoom (effect_filter name) =
    (1 ≤ length name) × (length name ≤ 128) × (utf8 name ≡ true)

join-bytes : (n : ℕ) → n < 65536 → join (n % 256) (n / 256 % 256) ≡ n
join-bytes n h = omega arith

join-bits :
    (bits : ℕ)
    → bits < 2 ^ 32
    → join (bits % 256) (bits / 2 ^ 8 % 256)
        + join (bits / 2 ^ 16 % 256) (bits / 2 ^ 24 % 256) * 2 ^ 16
      ≡ bits
join-bits bits h = omega arith

read-bytes :
    (utf8 : Bytes → Bool) (valid_zoom : ℕ → Bool) (type : ℕ) (payload more : Bytes) (c : Command)
    → legacy_message_length (type ∷ (payload ++ more)) ≡ some (suc (length payload))
    → handle_packet utf8 valid_zoom type payload ≡ some c
    → read_command utf8 valid_zoom (type ∷ (payload ++ more)) ≡ some (c, more)
unfolding read_command
read-bytes utf8 valid_zoom type payload more c framed handled =
    rw (framed, take-append payload more, handled, drop-append payload more) refl

-- The size of a message with a name of `n` bytes.
effect-framed :
    (n : ℕ) (body more : Bytes)
    → n ≤ 128
    → length body ≡ n
    → legacy_message_length (0x06 ∷ (n ∷ (body ++ more))) ≡ some (suc (suc (length body)))
unfolding legacy_message_length fixed_length
effect-framed n body more short size = ground (arith, length-append body more)

correction-framed :
    (n : ℕ) (body more : Bytes)
    → n ≤ 128
    → length body ≡ n + 1
    → legacy_message_length (0x05 ∷ (n ∷ (body ++ more))) ≡ some (suc (suc (length body)))
unfolding legacy_message_length fixed_length
correction-framed n body more short size = ground (arith, length-append body more)

signed_byte-percentage : (v : ℤ) → IsPercentage v → signed_byte (to_uint32 v % 256) ≡ v
signed_byte-percentage (pos n) h = ground arith
signed_byte-percentage (negsuc n) h = ground arith

effect-handled :
    (utf8 : Bytes → Bool) (valid_zoom : ℕ → Bool) (name : Bytes)
    → 1 ≤ length name
    → length name ≤ 128
    → utf8 name ≡ true
    → handle_filter utf8 valid_zoom false (length name ∷ name) ≡ some (effect_filter name)
unfolding handle_filter
effect-handled utf8 valid_zoom name some_name short valid =
    rw (take_all (length name) name (omega arith), valid) (ground arith)

correction-handled :
    (utf8 : Bytes → Bool) (valid_zoom : ℕ → Bool) (name : Bytes) (value : ℕ)
    → 1 ≤ length name
    → length name ≤ 128
    → utf8 name ≡ true
    → handle_filter utf8 valid_zoom true (length name ∷ (name ++ (value ∷ [])))
      ≡ some (correction_filter name (signed_byte value))
unfolding handle_filter
correction-handled utf8 valid_zoom name value some_name short valid =
    let size = length-append name (value ∷ []) in
    let fits : (leb 1 (length name)
          && leb (length name) 128
          && length (name ++ (value ∷ [])) == length name + 1)
        ≡ true =
      ground (arith, size) in
    rw (fits, take-append name (value ∷ []), drop-append name (value ∷ []), valid)
      (ap (λ z. some (correction_filter z (signed_byte value))) (take-append name (value ∷ [])))

-- From what the manager sends for a command within the phone's ranges, whatever follows it, the phone
-- reads this command and leaves what follows.
pub read_command-packet_of :
    (utf8 : Bytes → Bool) (valid_zoom : ℕ → Bool) (c : Command) (more : Bytes)
    → IsCommand utf8 valid_zoom c
    → read_command utf8 valid_zoom (packet_of c ++ more) ≡ some (c, more)
unfolding packet_of legacy_message_length fixed_length handle_packet handle_byte handle_pair
read_command-packet_of utf8 valid_zoom (resolution w h) more r =
    read-bytes utf8 valid_zoom 0x01 (w % 256 ∷ w / 256 % 256 ∷ h % 256 ∷ h / 256 % 256 ∷ []) more
      (resolution w h) (ground arith)
      (rw (join-bytes w (omega arith), join-bytes h (omega arith)) (ground arith))
read_command-packet_of utf8 valid_zoom (fps n) more r =
    read-bytes utf8 valid_zoom 0x0e (n % 256 ∷ []) more (fps n) (ground arith) (ground arith)
read_command-packet_of utf8 valid_zoom (bitrate n) more r =
    read-bytes utf8 valid_zoom 0x08 (n % 256 ∷ n / 256 % 256 ∷ []) more (bitrate n) (ground arith)
      (rw (join-bytes n (omega arith)) (ground arith))
read_command-packet_of utf8 valid_zoom (adaptive_bitrate m n) more r =
    read-bytes utf8 valid_zoom 0x09 (m % 256 ∷ m / 256 % 256 ∷ n % 256 ∷ n / 256 % 256 ∷ []) more
      (adaptive_bitrate m n) (ground arith)
      (rw (join-bytes m (omega arith), join-bytes n (omega arith)) (ground arith))
read_command-packet_of utf8 valid_zoom (stabilization b) more r =
    read-bytes utf8 valid_zoom 0x0a (flag b ∷ []) more (stabilization b) (ground arith)
      (ground arith)
read_command-packet_of utf8 valid_zoom (flash b) more r =
    read-bytes utf8 valid_zoom 0x0b (flag b ∷ []) more (flash b) (ground arith) (ground arith)
read_command-packet_of utf8 valid_zoom (focus mode) more r =
    read-bytes utf8 valid_zoom 0x0c (mode % 256 ∷ []) more (focus mode) (ground arith)
      (ground arith)
read_command-packet_of utf8 valid_zoom (codec b) more r =
    read-bytes utf8 valid_zoom 0x0d (flag b ∷ []) more (codec b) (ground arith) (ground arith)
read_command-packet_of utf8 valid_zoom camera more r =
    read-bytes utf8 valid_zoom 0x03 [] more camera (ground arith) refl
read_command-packet_of utf8 valid_zoom (zoom bits) more r =
    let payload =
      bits % 256 ∷ bits / 2 ^ 8 % 256 ∷ bits / 2 ^ 16 % 256 ∷ bits / 2 ^ 24 % 256 ∷ [] in
    read-bytes utf8 valid_zoom 0x0f payload more (zoom bits) (ground arith)
      (rw (join-bits bits r.0, r.1) refl)
read_command-packet_of utf8 valid_zoom (rotation degrees) more r =
    read-bytes utf8 valid_zoom 0x07 (degrees % 256 ∷ []) more (rotation degrees) (ground arith)
      (ground arith)
read_command-packet_of utf8 valid_zoom (flip b) more r =
    read-bytes utf8 valid_zoom 0x10 (flag b ∷ []) more (flip b) (ground arith) (ground arith)
read_command-packet_of utf8 valid_zoom (correction_filter name value) more r =
    let whole : length name % 256 ≡ length name = omega arith in
    let value_bytes = to_uint32 value % 256 ∷ [] in
    rw whole (
      read-bytes utf8 valid_zoom 0x05 (length name ∷ (name ++ value_bytes)) more
        (correction_filter name value)
        (correction-framed (length name) (name ++ value_bytes) more r.1
          (length-append name value_bytes))
        (correction-handled utf8 valid_zoom name (to_uint32 value % 256) r.0 r.1 r.2
          ∙ ap (λ v. some (correction_filter name v)) (signed_byte-percentage value r.3)))
read_command-packet_of utf8 valid_zoom (effect_filter name) more r =
    let whole : length name % 256 ≡ length name = omega arith in
    rw whole (
      read-bytes utf8 valid_zoom 0x06 (length name ∷ name) more (effect_filter name)
        (effect-framed (length name) name more r.1 refl)
        (effect-handled utf8 valid_zoom name r.0 r.1 r.2))
