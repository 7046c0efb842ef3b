-- ===== src/Control/Hex.antt =====
-- `encodeHex` and `decodeHex` of linux/src/control_protocol.cpp. A pointer and a size are a list.
pub mod RoundTrip
mod Examples
use open_cam.Prelude.{
  ℕ, zero, suc, ◌+◌, ◌-◌, ◌*◌, ◌/◌, ◌%◌, Bool, true, false, not, ◌&&◌, List, [], ◌∷◌, ◌==◌, leb,
  if◌then◌else◌, Bytes, codes, length, Option, none, some,
}

abbrev digits : Bytes
digits = codes "0123456789abcdef"

-- `digits[i]`
hex_digit : ℕ → ℕ
hex_digit i = at digits i
  where
    at : Bytes → ℕ → ℕ
    at [] i = 0
    at (d ∷ ds) zero = d
    at (d ∷ ds) (suc i) = at ds i

-- `data[i] >> 4` and `data[i] & 0x0f`
unfoldable pub encode_hex : Bytes → Bytes
unfolding hex_digit
encode_hex [] = []
encode_hex (b ∷ bs) = hex_digit (b / 16) ∷ hex_digit (b % 16) ∷ encode_hex bs

-- The lambda of `decodeHex`; `none` stands for -1.
nibble : ℕ → Option ℕ
nibble c =
    if leb b'0' c && leb c b'9'
    then some (c - b'0')
    else if leb b'a' c && leb c b'f'
    then some (c - b'a' + 10)
    else if leb b'A' c && leb c b'F'
    then some (c - b'A' + 10)
    else none

-- `(high << 4) | low`, two values below 16; `none` if one is negative.
join_nibbles : Option ℕ → Option ℕ → Option ℕ
join_nibbles (some high) (some low) = some (high * 16 + low)
join_nibbles _ _ = none

-- The loop over `i`; `output` is what stands from `output[i]` on, and keeps its old bytes after a
-- failure.
decode_loop : Bytes → Bytes → Bool × Bytes
unfolding nibble join_nibbles
decode_loop (h ∷ l ∷ text) (o ∷ output) =
    let rest = decode_loop text output in
    elim (join_nibbles (nibble h) (nibble l)) [
      | none ↦ (false, o ∷ output)
      | some byte ↦ (rest.0, byte ∷ rest.1)
    ]
decode_loop _ output = (true, output)

-- `size` is the length of `output`.
unfoldable pub decode_hex : Bytes → Bytes → Bool × Bytes
unfolding decode_loop
decode_hex text output =
    if not (length text == length output * 2) then (false, output) else decode_loop text output
