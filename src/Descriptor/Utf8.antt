-- ===== src/Descriptor/Utf8.antt =====
-- `isValidUtf8` of linux/src/device_descriptor.cpp. A position in the text is the list of the bytes
-- from it on, and the loop takes fuel: one round takes a byte at least, so the length is enough.
pub mod Decoding
pub mod Exact
use Prim.Native.Nat.{bit_and}
use open_cam.Prelude.{
  ℕ, zero, suc, ◌+◌, ◌*◌, Bool, true, false, not, ◌&&◌, ◌||◌, List, [], ◌∷◌, ◌==◌, ltb, leb,
  if◌then◌else◌, Bytes, length, Option, none, some,
}

-- What the first byte of a character that is not ASCII announces: how many bytes continue it, and
-- the first bits of its code point.
pub lead : ℕ → Option (ℕ × ℕ)
lead first =
    if bit_and first 0xe0 == 0xc0
    then some (1, bit_and first 0x1f)
    else if bit_and first 0xf0 == 0xe0
    then some (2, bit_and first 0x0f)
    else if bit_and first 0xf8 == 0xf0
    then some (3, bit_and first 0x07)
    else none

-- The loop over `j`, with the rounds that are left. `codepoint << 6` and the six bits of `next` have
-- no bit in common, so `|` is `+`.
pub continue_bytes : ℕ → ℕ → Bytes → Option (ℕ × Bytes)
continue_bytes zero codepoint rest = some (codepoint, rest)
continue_bytes (suc rounds) codepoint [] = none
continue_bytes (suc rounds) codepoint (next ∷ rest) =
    if not (bit_and next 0xc0 == 0x80)
    then none
    else continue_bytes rounds (codepoint * 64 + bit_and next 0x3f) rest

-- The last test: overlong forms, surrogates and numbers past the end of Unicode.
bad_codepoint : ℕ → ℕ → Bool
bad_codepoint continuation codepoint =
    (continuation == 1 && ltb codepoint 0x80)
    || (continuation == 2 && ltb codepoint 0x800)
    || (continuation == 3 && ltb codepoint 0x10000)
    || ltb 0x10ffff codepoint
    || (leb 0xd800 codepoint && leb codepoint 0xdfff)

-- One round of the loop: what follows the character, `none` where the function returns false.
next_character : ℕ → Bytes → Option Bytes
next_character first rest = if leb first 0x7f then some rest else elim (lead first) [
  | none ↦ none
  | some (continuation, codepoint) ↦
      if ltb (length rest) continuation
      then none
      else elim (continue_bytes continuation codepoint rest) [
        | none ↦ none
        | some (codepoint', rest') ↦
            if bad_codepoint continuation codepoint' then none else some rest'
      ]
]

unfoldable pub utf8_loop : ℕ → Bytes → Bool
unfolding next_character lead continue_bytes bad_codepoint
utf8_loop fuel [] = true
utf8_loop zero (first ∷ rest) = false
utf8_loop (suc fuel) (first ∷ rest) = elim (next_character first rest) [
  | none ↦ false
  | some rest' ↦ utf8_loop fuel rest'
]

unfoldable pub is_valid_utf8 : Bytes → Bool
unfolding utf8_loop
is_valid_utf8 value = utf8_loop (length value) value
