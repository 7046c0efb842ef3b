-- ===== src/Control/Hex/RoundTrip.antt =====
-- Hexadecimal text and bytes: the two directions of the round trip, and what is accepted.
use open_cam.Prelude.{
  ℕ, zero, suc, ◌+◌, ◌-◌, ◌*◌, ◌/◌, ◌%◌, ◌<◌, ◌≡◌, refl, Bool, true, false, ◌&&◌, inl, inr, [], ◌∷◌,
  map, none, some, ◌==◌, leb, if◌then◌else◌, Bytes, IsByte, length, All, arith, ==_iff, Bool-cases,
  Option-cases,
}
use open_cam.Control.Hex.{hex_digit, encode_hex, nibble, decode_loop, decode_hex}

abbrev pub to_lower : ℕ → ℕ
to_lower c = if leb b'A' c && leb c b'F' then c + 32 else c

-- The test passes for each number below the bound.
passes_below : (ℕ → Bool) → ℕ → Bool
passes_below test zero = true
passes_below test (suc bound) = passes_below test bound && test bound

passes_below_lem :
    (test : ℕ → Bool) (bound i : ℕ) → i < bound → passes_below test bound ≡ true → test i ≡ true
unfolding passes_below
passes_below_lem test zero i less h = absurd (omega arith)
passes_below_lem test (suc bound) i less h = ground (arith, passes_below_lem test bound i)

-- A nibble is read back from its digit.
abbrev reads_back : ℕ → Bool
reads_back n = elim (nibble (hex_digit n)) [ none ↦ false | some m ↦ m == n ]

reads_back_table : passes_below reads_back 16 ≡ true
unfolding passes_below nibble hex_digit
reads_back_table = refl

nibble-hex_digit : (n : ℕ) → n < 16 → nibble (hex_digit n) ≡ some n
nibble-hex_digit n h = ground (arith, passes_below_lem reads_back 16 n h reads_back_table)

-- The digit of a nibble is the lower-case form of the character read.
hex_digit-below : (n : ℕ) → n < 16 → hex_digit n ≡ (if leb n 9 then b'0' + n else b'a' + n - 10)
hex_digit-below n h = (==_iff _ _).0 (
    passes_below_lem (λ k. hex_digit k == (if leb k 9 then b'0' + k else b'a' + k - 10)) 16 n h
      (unfold passes_below hex_digit in refl))

hex_digit-nibble : (c n : ℕ) → nibble c ≡ some n → (n < 16) × (hex_digit n ≡ to_lower c)
unfolding nibble
hex_digit-nibble c n e = ground (arith, hex_digit-below n)

decode_loop-encode_hex :
    (data' output : Bytes)
    → All IsByte data'
    → length output ≡ length data'
    → decode_loop (encode_hex data') output ≡ (true, data')
unfolding decode_loop encode_hex
decode_loop-encode_hex [] [] h e = refl
decode_loop-encode_hex [] (o ∷ output) h e = absurd (omega arith)
decode_loop-encode_hex (b ∷ bs) [] h e = absurd (omega arith)
decode_loop-encode_hex (b ∷ bs) (o ∷ output) h e = ground (
  arith,
  nibble-hex_digit (b / 16),
  nibble-hex_digit (b % 16),
  decode_loop-encode_hex bs output h.1,
)

pub length-encode_hex : (data' : Bytes) → length (encode_hex data') ≡ length data' * 2
unfolding encode_hex
length-encode_hex [] = refl
length-encode_hex (b ∷ bs) = omega (arith, length-encode_hex bs)

-- Decoding the text that `encode_hex` writes for a byte sequence, into an output of the same
-- length, succeeds and writes exactly that sequence, whatever the output held before.
pub decode_hex-encode_hex :
    (data' output : Bytes)
    → All IsByte data'
    → length output ≡ length data'
    → decode_hex (encode_hex data') output ≡ (true, data')
unfolding decode_hex
decode_hex-encode_hex data' output h e =
    ground (arith, length-encode_hex data', decode_loop-encode_hex data' output h e)

decode_loop-eq_ok :
    (text output bytes : Bytes)
    → length text ≡ length output * 2
    → decode_loop text output ≡ (true, bytes)
    → (encode_hex bytes ≡ map to_lower text) × All IsByte bytes
unfolding decode_loop encode_hex
decode_loop-eq_ok [] [] bytes h e = ground arith
decode_loop-eq_ok [] (o ∷ output) bytes h e = absurd (omega arith)
decode_loop-eq_ok (c ∷ []) [] bytes h e = absurd (omega arith)
decode_loop-eq_ok (c ∷ []) (o ∷ output) bytes h e = absurd (omega arith)
decode_loop-eq_ok (c ∷ d ∷ text) [] bytes h e = absurd (omega arith)
decode_loop-eq_ok (c ∷ d ∷ text) (o ∷ output) bytes h e = elim (Option-cases (nibble c)) [
  | inl bad ↦ ground arith
  | inr (high, hc) ↦ elim (Option-cases (nibble d)) [
    | inl bad ↦ ground arith
    | inr (low, hd) ↦
        let rest = decode_loop text output in
        ground (
          arith,
          hex_digit-nibble c high hc,
          hex_digit-nibble d low hd,
          decode_loop-eq_ok text output (decode_loop text output).1,
        )
  ]
]

-- A text that decodes to a byte sequence is, letters taken in lower case, the text that
-- `encode_hex` writes for that sequence, and every element of the sequence is a byte.
pub decode_hex-eq_ok :
    (text output bytes : Bytes)
    → decode_hex text output ≡ (true, bytes)
    → (encode_hex bytes ≡ map to_lower text) × All IsByte bytes
unfolding decode_hex
decode_hex-eq_ok text output bytes e = elim (Bool-cases (length text == length output * 2)) [
  | inl same ↦ decode_loop-eq_ok text output bytes ((==_iff _ _).0 same) (rw same at e)
  | inr other ↦ cc (rw other at e)
]
