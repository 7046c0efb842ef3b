-- ===== src/Windows/Commands.antt =====
-- The command packets of windows/src/rtsp/manager.cpp, and what the phone reads from them:
-- `legacyMessageLength` and `handlePacket` of
-- android/app/src/main/java/com/darusc/vcamdroid/StreamActivity.kt. The activation is in Activation.
pub mod Reading
use open_cam.Prelude.{
  ℕ, zero, suc, ◌+◌, ◌-◌, ◌*◌, ◌/◌, ◌%◌, ◌^◌, Bool, true, false, not, ◌&&◌, ◌||◌, ◌==◌, ltb, leb,
  if◌then◌else◌, List, [], ◌∷◌, ◌++◌, Option, none, some, Bytes, length, take, drop, ◌>>=◌, ◌>>◌,
}
use open_cam.Prelude.Int.{ℤ, pos, negsuc}
use open_cam.StreamOptions.{to_uint32}

-- A call of the manager, or of the streamer on the phone. A zoom factor is the 32 bits of the number.
pub data Command : Type 0 where
  resolution : ℕ → ℕ → Command
  fps : ℕ → Command
  bitrate : ℕ → Command
  adaptive_bitrate : ℕ → ℕ → Command
  stabilization : Bool → Command
  flash : Bool → Command
  focus : ℕ → Command
  codec : Bool → Command
  camera : Command
  zoom : ℕ → Command
  rotation : ℕ → Command
  flip : Bool → Command
  correction_filter : Bytes → ℤ → Command
  effect_filter : Bytes → Command

abbrev pub flag : Bool → ℕ
flag b = if b then 1 else 0

-- The bytes that the manager sends for a command; true flips horizontally.
unfoldable pub packet_of : Command → Bytes
packet_of (resolution w h) = 0x01 ∷ w % 256 ∷ w / 256 % 256 ∷ h % 256 ∷ h / 256 % 256 ∷ []
packet_of (fps n) = 0x0e ∷ n % 256 ∷ []
packet_of (bitrate n) = 0x08 ∷ n % 256 ∷ n / 256 % 256 ∷ []
packet_of (adaptive_bitrate m n) = 0x09 ∷ m % 256 ∷ m / 256 % 256 ∷ n % 256 ∷ n / 256 % 256 ∷ []
packet_of (stabilization b) = 0x0a ∷ flag b ∷ []
packet_of (flash b) = 0x0b ∷ flag b ∷ []
packet_of (focus mode) = 0x0c ∷ mode % 256 ∷ []
packet_of (codec b) = 0x0d ∷ flag b ∷ []
packet_of camera = 0x03 ∷ []
packet_of (rotation degrees) = 0x07 ∷ degrees % 256 ∷ []
packet_of (zoom bits) =
    0x0f ∷ bits % 256 ∷ bits / 2 ^ 8 % 256 ∷ bits / 2 ^ 16 % 256 ∷ bits / 2 ^ 24 % 256 ∷ []
packet_of (flip b) = 0x10 ∷ flag b ∷ []
packet_of (correction_filter name value) =
    0x05 ∷ length name % 256 ∷ (name ++ (to_uint32 value % 256 ∷ []))
packet_of (effect_filter name) = 0x06 ∷ length name % 256 ∷ name

-- The phone.

-- `require`
abbrev pub check : Bool → Option (Unit {0})
check true = some tt
check false = none

-- What `fixed` becomes, where it does.
unfoldable pub fixed_length : ℕ → Bytes → Option ℕ
fixed_length type rest =
    if type == 0x03
    then some 1
    else if type == 0x01 || type == 0x09 || type == 0x0f
    then some 5
    else if type == 0x07
        || type == 0x0c
        || type == 0x0e
        || type == 0x0b
        || type == 0x0d
        || type == 0x0a
        || type == 0x10
    then some 2
    else if type == 0x08
    then some 3
    else if type == 0x06 || type == 0x05
    then elim rest [
      | [] ↦ none
      | name_length ∷ _ ↦ do
        check (leb name_length 128)
        some (2 + name_length + (if type == 0x05 then 1 else 0))
    ]
    else none

-- `none` where more bytes are awaited or the message is refused.
unfoldable pub legacy_message_length : Bytes → Option ℕ
legacy_message_length [] = none
legacy_message_length (type ∷ rest) = do
  fixed ← fixed_length type rest
  check (not (ltb (length (type ∷ rest)) fixed))
  some fixed

-- `u16` of two bytes, the low one first
abbrev pub join : ℕ → ℕ → ℕ
join low high = low + high * 256

-- A `Byte` as an `Int`.
abbrev pub signed_byte : ℕ → ℤ
signed_byte b = if ltb b 128 then pos b else negsuc (256 - b - 1)

-- `strictUtf8` throws where the text is no UTF-8, and a zoom factor has to be finite and from 1 to 10.
module _ (strict_utf8 : Bytes → Bool) (valid_zoom : ℕ → Bool) where
  unfoldable pub handle_filter : Bool → Bytes → Option Command
  handle_filter correction [] = none
  handle_filter correction (name_length ∷ rest) = do
    check (leb 1 name_length && leb name_length 128 && length rest == name_length + flag correction)
    let name : Bytes = take name_length rest
    check (strict_utf8 name)
    elim correction [
      | false ↦ some (effect_filter name)
      | true ↦ elim (drop name_length rest) [
        | value ∷ [] ↦ some (correction_filter name (signed_byte value))
        | _ ↦ none
      ]
    ]

  -- A payload of one byte.
  unfoldable pub handle_byte : ℕ → ℕ → Option Command
  handle_byte type value =
      if type == 0x07
      then some (rotation value)
      else if type == 0x0a
      then check (leb value 1) >> some (stabilization (value == 1))
      else if type == 0x0b
      then check (leb value 1) >> some (flash (value == 1))
      else if type == 0x0d
      then check (leb value 1) >> some (codec (value == 1))
      else if type == 0x0c
      then check (leb value 1) >> some (focus value)
      else if type == 0x0e
      then check (leb 1 value && leb value 60) >> some (fps value)
      else if type == 0x10
      then check (leb value 1) >> some (flip (value == 1))
      else none

  -- A payload of four bytes.
  unfoldable pub handle_pair : ℕ → ℕ → ℕ → Option Command
  handle_pair type a b =
      if type == 0x01
      then check (leb 160 a && leb a 8192 && leb 160 b && leb b 8192 && leb (a * b) 16777216)
        >> some (resolution a b)
      else if type == 0x09
      then check (leb 64 a && leb a 25000 && leb a b && leb b 25000) >> some (adaptive_bitrate a b)
      else if type == 0x0f
      then check (valid_zoom (a + b * 2 ^ 16)) >> some (zoom (a + b * 2 ^ 16))
      else none

  unfoldable pub handle_packet : ℕ → Bytes → Option Command
  handle_packet type payload =
      if type == 0x06
      then handle_filter false payload
      else if type == 0x05
      then handle_filter true payload
      else elim payload [
        | [] ↦ if type == 0x03 then some camera else none
        | value ∷ [] ↦ handle_byte type value
        | low ∷ high ∷ [] ↦
            let n = join low high in
            if type == 0x08 && (leb 64 n && leb n 25000) then some (bitrate n) else none
        | a ∷ b ∷ c ∷ d ∷ [] ↦ handle_pair type (join a b) (join c d)
        | _ ↦ none
      ]

  -- One round of the loop of `onLegacyBytesReceived`: the command and the bytes that are left.
  unfoldable pub read_command : Bytes → Option (Command × Bytes)
  read_command [] = none
  read_command (type ∷ rest) = do
    size ← legacy_message_length (type ∷ rest)
    command ← handle_packet type (drop 1 (take size (type ∷ rest)))
    some (command, drop size (type ∷ rest))
