-- ===== src/Windows/Settings/Decimal.antt =====
-- Numbers as text: `std::ostream << int` and `std::atoi`, of which a value beyond `int` is
-- undefined and given here as it stands.
use open_cam.Prelude.{
  ℕ, zero, suc, ◌+◌, ◌-◌, ◌*◌, ◌/◌, ◌%◌, ◌^◌, ◌<◌, ◌≡◌, refl, Bool, true, ◌&&◌, ◌||◌, [], ◌∷◌, ◌++◌,
  append_assoc, append-nil, All, All-append, sym, ap, ◌∙◌, Bool-cases, inl, inr, ltb, leb, ◌==◌,
  if◌then◌else◌, Bytes, arith,
}
use open_cam.Prelude.Int.{ℤ, pos, negsuc, negate}

abbrev is_digit : ℕ → Bool
is_digit c = leb 48 c && leb c 57

-- `isspace` in the locale C
abbrev is_space : ℕ → Bool
is_space c = c == 32 || (leb 9 c && leb c 13)

unfoldable pub read_digits : ℕ → Bytes → ℕ
read_digits n [] = n
read_digits n (c ∷ cs) = if is_digit c then read_digits (n * 10 + (c - 48)) cs else n

unfoldable pub skip_spaces : Bytes → Bytes
skip_spaces [] = []
skip_spaces (c ∷ cs) = if is_space c then skip_spaces cs else c ∷ cs

unfoldable pub read_signed : Bytes → ℤ
read_signed [] = pos 0
read_signed (c ∷ cs) =
    if c == b'-'
    then negate (read_digits 0 cs)
    else if c == b'+'
    then pos (read_digits 0 cs)
    else pos (read_digits 0 (c ∷ cs))

unfoldable pub atoi : Bytes → ℤ
atoi s = read_signed (skip_spaces s)

-- The digits of a number below 10 ^ fuel.
unfoldable pub digits : ℕ → ℕ → Bytes
digits zero n = []
digits (suc fuel) n =
    let front = digits fuel (n / 10) in
    if ltb n 10 then (48 + n) ∷ [] else front ++ (48 + n % 10) ∷ []

-- An `int` has at most ten digits.
unfoldable pub decimal : ℤ → Bytes
decimal (pos n) = digits 10 n
decimal (negsuc n) = b'-' ∷ digits 10 (suc n)

-- The numbers that `int` holds.
abbrev pub IsInt : ℤ → Type 0
IsInt (pos n) = n < 2 ^ 31
IsInt (negsuc n) = n < 2 ^ 31

read_digits-digit :
    (a d : ℕ) (rest : Bytes)
    → d < 10
    → read_digits a ((48 + d) ∷ rest) ≡ read_digits (a * 10 + d) rest
unfolding read_digits
read_digits-digit a d rest h = ground arith

-- The digits of a number are read as the number.
read_digits-digits :
    (fuel n : ℕ) (rest : Bytes)
    → n < 10 ^ fuel
    → read_digits 0 (digits fuel n ++ rest) ≡ read_digits n rest
unfolding digits
read_digits-digits zero n rest h = ap (λ m. read_digits m rest) (omega arith)
read_digits-digits (suc k) n rest h = elim (Bool-cases (ltb n 10)) [
  | inl small ↦
      rw small
        (read_digits-digit 0 n rest (ground arith) ∙ ap (λ m. read_digits m rest) (omega arith))
  | inr large ↦ rw large (
      rw (append_assoc (digits k (n / 10))) (
        read_digits-digits k (n / 10) ((48 + n % 10) ∷ rest) (omega arith)
        ∙ read_digits-digit (n / 10) (n % 10) rest (omega arith)
        ∙ ap (λ m. read_digits m rest) (omega arith)))
]

-- The digits begin with one.
digits-head :
    (fuel n : ℕ) → (c : ℕ) × (cs : Bytes) × (digits (suc fuel) n ≡ c ∷ cs) × (is_digit c ≡ true)
unfolding digits
digits-head zero n = elim (Bool-cases (ltb n 10)) [
  | inl small ↦ (48 + n, [], rw small refl, ground arith)
  | inr large ↦ (48 + n % 10, [], rw large refl, ground arith)
]
digits-head (suc k) n = elim (Bool-cases (ltb n 10)) [
  | inl small ↦ (48 + n, [], rw small refl, ground arith)
  | inr large ↦
      let (c, cs, e, d) = digits-head k (n / 10) in
      (c, cs ++ (48 + n % 10) ∷ [], rw (large, e) refl, d)
]

atoi-digit : (c : ℕ) (cs : Bytes) → is_digit c ≡ true → atoi (c ∷ cs) ≡ pos (read_digits 0 (c ∷ cs))
unfolding atoi skip_spaces read_signed
atoi-digit c cs h = ground arith

read_digits-zero : (n : ℕ) → n < 10 ^ 10 → read_digits 0 (digits 10 n) ≡ n
unfolding read_digits
read_digits-zero n h =
    ap (read_digits 0) (sym (append-nil (digits 10 n))) ∙ read_digits-digits 10 n [] h

atoi-digits : (n : ℕ) → n < 10 ^ 10 → atoi (digits 10 n) ≡ pos n
atoi-digits n h =
    let (c, cs, e, d) = digits-head 9 n in
    ap atoi e ∙ atoi-digit c cs d ∙ ap pos (ap (read_digits 0) (sym e) ∙ read_digits-zero n h)

-- `std::atoi` reads back the number that was written.
pub atoi-decimal : (z : ℤ) → IsInt z → atoi (decimal z) ≡ z
unfolding decimal atoi skip_spaces read_signed
atoi-decimal (pos n) h = atoi-digits n (omega arith)
atoi-decimal (negsuc n) h = ap negate (read_digits-zero (suc n) (omega arith))

digits-All : (P : ℕ → Type 0) (fuel n : ℕ) → ((d : ℕ) → d < 10 → P (48 + d)) → All P (digits fuel n)
unfolding digits
digits-All P zero n h = tt
digits-All P (suc k) n h = elim (Bool-cases (ltb n 10)) [
  | inl small ↦ rw small (h n (ground arith), tt)
  | inr large ↦ rw large (
      All-append P (digits k (n / 10)) _ (digits-All P k (n / 10) h) (h (n % 10) (omega arith), tt))
]

pub decimal-All :
    (P : ℕ → Type 0) (z : ℤ) → ((d : ℕ) → d < 10 → P (48 + d)) → P b'-' → All P (decimal z)
unfolding decimal
decimal-All P (pos n) h minus = digits-All P 10 n h
decimal-All P (negsuc n) h minus = (minus, digits-All P 10 (suc n) h)
