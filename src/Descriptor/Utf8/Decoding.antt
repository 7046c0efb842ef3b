-- ===== src/Descriptor/Utf8/Decoding.antt =====
-- The characters that the UTF-8 test steps over are encodings of Unicode scalar values.
use Prim.Native.Nat.{bit_and}
use open_cam.Prelude.{
  ℕ, zero, suc, ◌+◌, ◌-◌, ◌*◌, ◌/◌, ◌%◌, ◌≤◌, ◌<◌, ◌≡◌, refl, ap, ◌∙◌, ◌⊎◌, inl, inr, Bool, ◌^◌,
  ◌≢◌, subst, true, false, ◌&&◌, List, [], ◌∷◌, ◌++◌, ◌==◌, ltb, leb, if◌then◌else◌, Bytes, IsByte,
  length, All, All-append_right, none, some, arith, Bool-cases, Option-cases,
}
use open_cam.Descriptor.Utf8.{lead, continue_bytes, bad_codepoint, next_character, utf8_loop}

-- A Unicode scalar value: a code point that is no surrogate.
abbrev pub IsScalar : ℕ → Type 0
IsScalar c = (c ≤ 0x10ffff) × ((c < 0xd800) ⊎ (0xdfff < c))

-- The bytes of one scalar value, by the table of RFC 3629.
abbrev pub utf8 : ℕ → Bytes
utf8 c =
    if ltb c 0x80
    then c ∷ []
    else if ltb c 0x800
    then (0xc0 + c / 64) ∷ (0x80 + c % 64) ∷ []
    else if ltb c 0x10000
    then (0xe0 + c / 4096) ∷ (0x80 + c / 64 % 64) ∷ (0x80 + c % 64) ∷ []
    else (0xf0 + c / 262144) ∷ (0x80 + c / 4096 % 64) ∷ (0x80 + c / 64 % 64) ∷ (0x80 + c % 64) ∷ []

abbrev pub utf8_text : List ℕ → Bytes
utf8_text [] = []
utf8_text (c ∷ cs) = utf8 c ++ utf8_text cs

abbrev pub IsUtf8 : Bytes → Type 0
IsUtf8 s = (cs : List ℕ) × All IsScalar cs × (s ≡ utf8_text cs)

-- Equality of two functions of a byte, checked at every byte.
agree_below : ℕ → (ℕ → ℕ) → (ℕ → ℕ) → Bool
agree_below zero f g = true
agree_below (suc n) f g = f n == g n && agree_below n f g

agree_below→eq : (n : ℕ) (f g : ℕ → ℕ) → agree_below n f g ≡ true → (x : ℕ) → x < n → f x ≡ g x
unfolding agree_below
agree_below→eq zero f g e x h = absurd (omega arith)
agree_below→eq (suc n) f g e x h = ground (arith, agree_below→eq n f g (ground arith) x)

module _ (b : ℕ) (h : b < 256) where
  top_two : bit_and b 0xc0 ≡ b / 64 * 64
  unfolding agree_below
  top_two = agree_below→eq 256 (λ x. bit_and x 0xc0) (λ x. x / 64 * 64) refl b h

  top_three : bit_and b 0xe0 ≡ b / 32 * 32
  unfolding agree_below
  top_three = agree_below→eq 256 (λ x. bit_and x 0xe0) (λ x. x / 32 * 32) refl b h

  top_four : bit_and b 0xf0 ≡ b / 16 * 16
  unfolding agree_below
  top_four = agree_below→eq 256 (λ x. bit_and x 0xf0) (λ x. x / 16 * 16) refl b h

  top_five : bit_and b 0xf8 ≡ b / 8 * 8
  unfolding agree_below
  top_five = agree_below→eq 256 (λ x. bit_and x 0xf8) (λ x. x / 8 * 8) refl b h

  low_six : bit_and b 0x3f ≡ b % 64
  unfolding agree_below
  low_six = agree_below→eq 256 (λ x. bit_and x 0x3f) (λ x. x % 64) refl b h

  low_five : bit_and b 0x1f ≡ b % 32
  unfolding agree_below
  low_five = agree_below→eq 256 (λ x. bit_and x 0x1f) (λ x. x % 32) refl b h

  low_four : bit_and b 0x0f ≡ b % 16
  unfolding agree_below
  low_four = agree_below→eq 256 (λ x. bit_and x 0x0f) (λ x. x % 16) refl b h

  low_three : bit_and b 0x07 ≡ b % 8
  unfolding agree_below
  low_three = agree_below→eq 256 (λ x. bit_and x 0x07) (λ x. x % 8) refl b h

pub lead_lem :
    (b : ℕ)
    → b < 256
    → lead b ≡ (
        if b / 32 == 6
        then some (1, b % 32)
        else if b / 16 == 14
        then some (2, b % 16)
        else if b / 8 == 30
        then some (3, b % 8)
        else none)
unfolding lead
lead_lem b h =
    ground
      (arith, top_three b h, top_four b h, top_five b h, low_five b h, low_four b h, low_three b h)

pub continue_step :
    (rounds codepoint next : ℕ) (rest : Bytes)
    → next < 256
    → continue_bytes (suc rounds) codepoint (next ∷ rest)
      ≡ (if next / 64 == 2 then continue_bytes rounds (codepoint * 64 + next % 64) rest else none)
unfolding continue_bytes
continue_step rounds codepoint next rest h = ground (arith, top_two next h, low_six next h)

pub continue_zero :
    (codepoint : ℕ) (rest : Bytes) → continue_bytes 0 codepoint rest ≡ some (codepoint, rest)
unfolding continue_bytes
continue_zero codepoint rest = refl

-- The bytes `first ∷ rest` start with one character, and `after` follows it.
abbrev IsCharacter : ℕ → Bytes → Bytes → Type 0
IsCharacter first rest after = (c : ℕ) × IsScalar c × (first ∷ rest ≡ utf8 c ++ after)

module _ (first : ℕ) (after : Bytes) (hf : first < 256) where
  ascii-IsCharacter :
      (rest : Bytes)
      → leb first 0x7f ≡ true
      → next_character first rest ≡ some after
      → IsCharacter first rest after
  unfolding next_character
  ascii-IsCharacter rest small e = (first, ground arith, ground arith)

  two-IsCharacter :
      (n : ℕ) (rest : Bytes)
      → n < 256
      → first / 32 ≡ 6
      → next_character first (n ∷ rest) ≡ some after
      → IsCharacter first (n ∷ rest) after
  unfolding next_character bad_codepoint
  two-IsCharacter n rest hn kind e =
      let c = first % 32 * 64 + n % 64 in
      let l = lead_lem first hf in
      let s = continue_step 0 (first % 32) n rest hn in
      let z = continue_zero c rest in (c, ground arith, ground arith)

  three-IsCharacter :
      (n m : ℕ) (rest : Bytes)
      → n < 256
      → m < 256
      → first / 16 ≡ 14
      → next_character first (n ∷ m ∷ rest) ≡ some after
      → IsCharacter first (n ∷ m ∷ rest) after
  unfolding next_character bad_codepoint
  three-IsCharacter n m rest hn hm kind e =
      let c = (first % 16 * 64 + n % 64) * 64 + m % 64 in
      let l = lead_lem first hf in
      let s = continue_step 1 (first % 16) n (m ∷ rest) hn in
      let t = continue_step 0 (first % 16 * 64 + n % 64) m rest hm in
      let z = continue_zero c rest in (c, ground arith, ground arith)

  four-IsCharacter :
      (n m k : ℕ) (rest : Bytes)
      → n < 256
      → m < 256
      → k < 256
      → first / 8 ≡ 30
      → next_character first (n ∷ m ∷ k ∷ rest) ≡ some after
      → IsCharacter first (n ∷ m ∷ k ∷ rest) after
  unfolding next_character bad_codepoint
  four-IsCharacter n m k rest hn hm hk kind e =
      let c = ((first % 8 * 64 + n % 64) * 64 + m % 64) * 64 + k % 64 in
      let l = lead_lem first hf in
      let s = continue_step 2 (first % 8) n (m ∷ k ∷ rest) hn in
      let t = continue_step 1 (first % 8 * 64 + n % 64) m (k ∷ rest) hm in
      let u = continue_step 0 ((first % 8 * 64 + n % 64) * 64 + m % 64) k rest hk in
      let z = continue_zero c rest in (c, ground arith, ground arith)

  -- Too few bytes follow the first one.
  short :
      (n : ℕ) (rest : Bytes)
      → leb first 0x7f ≡ false
      → lead first ≡ some (n, first % 2 ^ (6 - n))
      → length rest < n
      → next_character first rest ≢ some after
  unfolding next_character
  short n rest big kind few e = ground arith

  two-cases :
      (rest : Bytes)
      → All IsByte rest
      → leb first 0x7f ≡ false
      → first / 32 ≡ 6
      → next_character first rest ≡ some after
      → IsCharacter first rest after
  two-cases [] h big kind e =
      absurd (short 1 [] big (ground (arith, lead_lem first hf)) (omega arith) e)
  two-cases (n ∷ rest) h big kind e = two-IsCharacter n rest h.0 kind e

  three-cases :
      (rest : Bytes)
      → All IsByte rest
      → leb first 0x7f ≡ false
      → first / 16 ≡ 14
      → next_character first rest ≡ some after
      → IsCharacter first rest after
  three-cases (n ∷ m ∷ rest) h big kind e = three-IsCharacter n m rest h.0 h.1.0 kind e
  three-cases (n ∷ []) h big kind e =
      absurd (short 2 (n ∷ []) big (ground (arith, lead_lem first hf)) (omega arith) e)
  three-cases [] h big kind e =
      absurd (short 2 [] big (ground (arith, lead_lem first hf)) (omega arith) e)

  four-cases :
      (rest : Bytes)
      → All IsByte rest
      → leb first 0x7f ≡ false
      → first / 8 ≡ 30
      → next_character first rest ≡ some after
      → IsCharacter first rest after
  four-cases (n ∷ m ∷ k ∷ rest) h big kind e = four-IsCharacter n m k rest h.0 h.1.0 h.1.1.0 kind e
  four-cases (n ∷ m ∷ []) h big kind e =
      absurd (short 3 (n ∷ m ∷ []) big (ground (arith, lead_lem first hf)) (omega arith) e)
  four-cases (n ∷ []) h big kind e =
      absurd (short 3 (n ∷ []) big (ground (arith, lead_lem first hf)) (omega arith) e)
  four-cases [] h big kind e =
      absurd (short 3 [] big (ground (arith, lead_lem first hf)) (omega arith) e)

  lead-cases :
      leb first 0x7f ≡ false
      → (lead first ≡ none) ⊎ ((first / 32 ≡ 6) ⊎ ((first / 16 ≡ 14) ⊎ (first / 8 ≡ 30)))
  lead-cases big = ground (arith, lead_lem first hf)

  next_character-IsCharacter :
      (rest : Bytes)
      → All IsByte rest
      → next_character first rest ≡ some after
      → IsCharacter first rest after
  next_character-IsCharacter rest h e = elim (Bool-cases (leb first 0x7f)) [
    | inl small ↦ ascii-IsCharacter rest small e
    | inr big ↦ elim (lead-cases big) [
      | inl nothing ↦ unfold next_character in absurd (ground arith)
      | inr (inl two) ↦ two-cases rest h big two e
      | inr (inr (inl three)) ↦ three-cases rest h big three e
      | inr (inr (inr four)) ↦ four-cases rest h big four e
    ]
  ]

-- Characters from front to back.
pub utf8_loop-IsUtf8 : (fuel : ℕ) (s : Bytes) → All IsByte s → utf8_loop fuel s ≡ true → IsUtf8 s
unfolding utf8_loop
utf8_loop-IsUtf8 fuel [] h e = ([], tt, refl)
utf8_loop-IsUtf8 zero (first ∷ rest) h e = absurd (cc)
utf8_loop-IsUtf8 (suc fuel) (first ∷ rest) h e = elim (Option-cases (next_character first rest)) [
  | inl nothing ↦ absurd (ground arith)
  | inr (after, found) ↦
      let (c, scalar, splits) = next_character-IsCharacter first after h.0 rest h.1 found in
      let bytes = All-append_right IsByte (utf8 c) after (subst (All IsByte) splits h) in
      let (cs, scalars, same) = utf8_loop-IsUtf8 fuel after bytes (ground arith) in
      (c ∷ cs, (scalar, scalars), splits ∙ ap (λ t. utf8 c ++ t) same)
]
