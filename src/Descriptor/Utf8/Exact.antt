-- ===== src/Descriptor/Utf8/Exact.antt =====
-- `isValidUtf8` accepts the encodings of sequences of Unicode scalar values, and nothing else.
use open_cam.Prelude.{
  ℕ, zero, suc, ◌+◌, ◌*◌, ◌/◌, ◌%◌, ◌≤◌, ◌<◌, ◌≡◌, refl, ◌∙◌, ◌↔◌, inl, inr, true, List, [], ◌∷◌,
  ◌++◌, ltb, Bytes, IsByte, length, All, All-append, Option, none, some, arith, Bool-cases, ltb→lt,
  ltb-le,
}
use open_cam.Descriptor.Utf8.{bad_codepoint, next_character, utf8_loop, is_valid_utf8}
use open_cam.Descriptor.Utf8.Decoding.{
  IsScalar, utf8, utf8_text, IsUtf8, lead_lem, continue_step, continue_zero, utf8_loop-IsUtf8,
}

-- One round on a text that is not empty.
abbrev round : Bytes → Option Bytes
round [] = none
round (first ∷ rest) = next_character first rest

module _ (c : ℕ) (scalar : IsScalar c) (after : Bytes) where
  round-ascii : ltb c 0x80 ≡ true → round (utf8 c ++ after) ≡ some after
  unfolding next_character
  round-ascii small = ground arith

  round_two :
      0x80 ≤ c → c < 0x800 → next_character (0xc0 + c / 64) ((0x80 + c % 64) ∷ after) ≡ some after
  unfolding next_character bad_codepoint
  round_two lo hi =
      let l = lead_lem (0xc0 + c / 64) (omega arith) in
      let s = continue_step 0 ((0xc0 + c / 64) % 32) (0x80 + c % 64) after (omega arith) in
      let z = continue_zero ((0xc0 + c / 64) % 32 * 64 + (0x80 + c % 64) % 64) after in ground arith

  round_three :
      0x800 ≤ c
      → c < 0x10000
      → next_character (0xe0 + c / 4096) ((0x80 + c / 64 % 64) ∷ (0x80 + c % 64) ∷ after)
        ≡ some after
  unfolding next_character bad_codepoint
  round_three lo hi =
      let f = 0xe0 + c / 4096 in
      let n = 0x80 + c / 64 % 64 in
      let m = 0x80 + c % 64 in
      let l = lead_lem f (omega arith) in
      let s = continue_step 1 (f % 16) n (m ∷ after) (omega arith) in
      let t = continue_step 0 (f % 16 * 64 + n % 64) m after (omega arith) in
      let z = continue_zero ((f % 16 * 64 + n % 64) * 64 + m % 64) after in ground arith

  round_four :
      0x10000 ≤ c
      → next_character
          (0xf0 + c / 262144)
          ((0x80 + c / 4096 % 64) ∷ (0x80 + c / 64 % 64) ∷ (0x80 + c % 64) ∷ after)
        ≡ some after
  unfolding next_character bad_codepoint
  round_four lo =
      let f = 0xf0 + c / 262144 in
      let n = 0x80 + c / 4096 % 64 in
      let m = 0x80 + c / 64 % 64 in
      let k = 0x80 + c % 64 in
      let l = lead_lem f (omega arith) in
      let s = continue_step 2 (f % 8) n (m ∷ k ∷ after) (omega arith) in
      let t = continue_step 1 (f % 8 * 64 + n % 64) m (k ∷ after) (omega arith) in
      let u = continue_step 0 ((f % 8 * 64 + n % 64) * 64 + m % 64) k after (omega arith) in
      let z = continue_zero (((f % 8 * 64 + n % 64) * 64 + m % 64) * 64 + k % 64) after in
      ground arith

  round-utf8 : round (utf8 c ++ after) ≡ some after
  round-utf8 = elim (Bool-cases (ltb c 0x80)) [
    | inl a ↦ round-ascii a
    | inr a ↦ elim (Bool-cases (ltb c 0x800)) [
      | inl b ↦ rw (a, b) (round_two (ltb-le _ _ a) (ltb→lt _ _ b))
      | inr b ↦ elim (Bool-cases (ltb c 0x10000)) [
        | inl d ↦ rw (a, b, d) (round_three (ltb-le _ _ b) (ltb→lt _ _ d))
        | inr d ↦ rw (a, b, d) (round_four (ltb-le _ _ d))
      ]
    ]
  ]

  length-utf8 : length after < length (utf8 c ++ after)
  length-utf8 = ground arith

utf8_loop-round :
    (fuel : ℕ) (s rest : Bytes) → round s ≡ some rest → utf8_loop (suc fuel) s ≡ utf8_loop fuel rest
unfolding utf8_loop
utf8_loop-round fuel [] rest e = absurd (cc)
utf8_loop-round fuel (first ∷ bytes) rest e = rw (e, utf8_loop)

utf8_loop-utf8_text :
    (fuel : ℕ) (cs : List ℕ)
    → All IsScalar cs
    → length (utf8_text cs) ≤ fuel
    → utf8_loop fuel (utf8_text cs) ≡ true
unfolding utf8_loop
utf8_loop-utf8_text fuel [] h le = refl
utf8_loop-utf8_text zero (c ∷ cs) h le = absurd (omega (arith, length-utf8 c h.0 (utf8_text cs)))
utf8_loop-utf8_text (suc fuel) (c ∷ cs) h le =
    utf8_loop-round fuel (utf8_text (c ∷ cs)) (utf8_text cs) (round-utf8 c h.0 (utf8_text cs))
    ∙ utf8_loop-utf8_text fuel cs h.1 (omega (arith, length-utf8 c h.0 (utf8_text cs)))

-- A byte sequence is accepted exactly when it is the encoding, one character after the other, of a
-- sequence of Unicode scalar values: no overlong form, no surrogate, nothing past U+10FFFF, no
-- character cut short.
pub is_valid_utf8_iff : (s : Bytes) → All IsByte s → (is_valid_utf8 s ≡ true) ↔ IsUtf8 s
unfolding is_valid_utf8
is_valid_utf8_iff s h =
    (utf8_loop-IsUtf8 (length s) s h, (λ v. rw v.2 (utf8_loop-utf8_text _ v.0 v.1 (omega arith))))

utf8-IsByte : (c : ℕ) → IsScalar c → All IsByte (utf8 c)
utf8-IsByte c h = ground arith

utf8_text-IsByte : (cs : List ℕ) → All IsScalar cs → All IsByte (utf8_text cs)
utf8_text-IsByte [] h = tt
utf8_text-IsByte (c ∷ cs) h =
    All-append IsByte (utf8 c) (utf8_text cs) (utf8-IsByte c h.0) (utf8_text-IsByte cs h.1)

pub IsUtf8-IsByte : (s : Bytes) → IsUtf8 s → All IsByte s
IsUtf8-IsByte s v = rw v.2 (utf8_text-IsByte v.0 v.1)
