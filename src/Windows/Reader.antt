-- ===== src/Windows/Reader.antt =====
-- The reader of windows/src/net/serializer.cpp over a received message. `bytes + offset` is the list
-- of the bytes from the offset on.
pub mod Cut
use open_cam.Prelude.{
  ℕ, zero, suc, ◌+◌, ◌*◌, Bool, true, false, not, List, [], ◌∷◌, ltb, if◌then◌else◌, Bytes, length,
  take, drop,
}
use open_cam.Descriptor.{has_control}
use open_cam.Descriptor.Utf8.{is_valid_utf8}

-- The messages of the exceptions that are no `IncompleteMessage`, those of the writers too.
pub data Reason : Type 0 where
  string_exceeds_limit invalid_utf8 control_character trailing_bytes : Reason
  message_exceeds_limit invalid_legacy_descriptor too_many_resolutions invalid_resolution : Reason
  too_many_filters invalid_filter invalid_severity : Reason
  invalid_stream_options invalid_filter_value string_too_long activation_exceeds_limit : Reason

-- A value, `IncompleteMessage`, or another exception.
pub data Result {ℓ} (Value : Type ℓ) : Type ℓ where
  ok : Value → Result Value
  incomplete : Result Value
  rejected : Reason → Result Value

infixl 5 ◌>>=◌
abbrev pub ◌>>=◌ {ℓ κ} :
    {Before : Type ℓ} {After : Type κ} → Result Before → (Before → Result After) → Result After
ok value >>= next = next value
incomplete >>= next = incomplete
rejected reason >>= next = rejected reason

infixl 5 ◌>>◌
abbrev pub ◌>>◌ {ℓ} : {After : Type ℓ} → Result (Unit {0}) → Result After → Result After
ok done >> next = next
incomplete >> next = incomplete
rejected reason >> next = rejected reason

-- `if (test) throw std::runtime_error(…)`
abbrev pub throw_if : Bool → Reason → Result (Unit {0})
throw_if true reason = rejected reason
throw_if false reason = ok tt

abbrev pub max_message : ℕ
max_message = 64 * 1024

abbrev pub max_string : ℕ
max_string = 2048

abbrev pub max_list : ℕ
max_list = 128

abbrev pub max_dimension : ℕ
max_dimension = 8192

-- The code is that of the Linux program's `isValidUtf8`.
unfoldable pub valid_utf8 : Bytes → Bool
valid_utf8 value = is_valid_utf8 value

-- `require`
abbrev pub require : ℕ → Bytes → Result (Unit {0})
require amount rest = if ltb (length rest) amount then incomplete else ok tt

unfoldable pub u8 : Bytes → Result (ℕ × Bytes)
u8 [] = incomplete
u8 (byte ∷ rest) = ok (byte, rest)

unfoldable pub u16 : Bytes → Result (ℕ × Bytes)
u16 (high ∷ low ∷ rest) = ok (high * 256 + low, rest)
u16 _ = incomplete

-- What `string` does once it knows the length.
unfoldable pub string_of_length : ℕ → ℕ → Bytes → Result (Bytes × Bytes)
string_of_length limit n rest = do
  throw_if (ltb limit n) string_exceeds_limit
  require n rest
  let value = take n rest
  throw_if (not (valid_utf8 value)) invalid_utf8
  throw_if (has_control value) control_character
  ok (value, drop n rest)

unfoldable pub string : ℕ → Bytes → Result (Bytes × Bytes)
string limit data' = do (n, rest) ← u16 data'; string_of_length limit n rest
