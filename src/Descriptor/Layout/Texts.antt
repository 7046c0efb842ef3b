-- ===== src/Descriptor/Layout/Texts.antt =====
-- Numbers and texts of a descriptor: each reader accepts exactly what the writer of its part writes.
use open_cam.Prelude.{
  ℕ, ◌≤◌, ◌<◌, ◌≡◌, refl, ap, ◌∙◌, subst, ◌↔◌, Bool, true, false, [], ◌∷◌, ◌++◌, Bytes, IsByte,
  length, take, drop, length-append, length-take, take-append, drop-append, take-append-drop, All,
  All-append_right, All-take, arith, le→ltb,
}
use open_cam.Descriptor.{
  Error, Result, ok, err, ◌>>=◌, ◌>>◌, throw_if, read_uint16, has_control, read_string,
  string_of_length,
}
use open_cam.Descriptor.Utf8.{is_valid_utf8}
use open_cam.Descriptor.Utf8.Exact.{is_valid_utf8_iff, IsUtf8-IsByte}
use open_cam.Descriptor.Utf8.Decoding.{IsUtf8}
use open_cam.Descriptor.Layout.{put_uint16, put_string, IsPrintable, IsText}

-- A reader is exact for a writer on the items of a kind: it reads back what was written, and what
-- it reads from bytes is an item of that kind, written in front of the rest.
pub record IsExact {ℓ} {A : Type ℓ} (read : Bytes → Result (A × Bytes)) (put : A → Bytes)
    (P : A → Type 0) : Type ℓ where
  pub reads : (a : A) (rest : Bytes) → P a → read (put a ++ rest) ≡ ok (a, rest)
  pub sound :
      (s : Bytes) (a : A) (rest : Bytes)
      → All IsByte s
      → read s ≡ ok (a, rest)
      → (s ≡ put a ++ rest) × P a

abbrev pub IsUint16 : ℕ → Type 0
IsUint16 n = n < 65536

pub bind-eq_ok {ℓ κ} :
    {Before : Type ℓ} {After : Type κ} (first : Result Before) (next : Before → Result After)
    {out : After}
    → (first >>= next) ≡ ok out
    → (value : Before) × (first ≡ ok value) × (next value ≡ ok out)
bind-eq_ok (err error) next h = absurd (cc)
bind-eq_ok (ok value) next h = (value, refl, h)

pub throw_if-eq_ok {ℓ} :
    {B : Type ℓ} (test : Bool) (e : Error) (k : Result B) {b : B}
    → (throw_if test e >> k) ≡ ok b
    → (test ≡ false) × (k ≡ ok b)
throw_if-eq_ok true e k h = absurd (cc)
throw_if-eq_ok false e k h = (refl, h)

pub ok-injective {ℓ} : {A : Type ℓ} {a b : A} → ok a ≡ ok b → a ≡ b
ok-injective {a = a} e = ap (λ r. elim r [ ok x ↦ x | err _ ↦ a ]) e

pub uint16_reads :
    (n : ℕ) (rest : Bytes) → IsUint16 n → read_uint16 (put_uint16 n ++ rest) ≡ ok (n, rest)
unfolding read_uint16
uint16_reads n rest h = ground arith

pub IsUint16-sound :
    (s : Bytes) (n : ℕ) (rest : Bytes)
    → All IsByte s
    → read_uint16 s ≡ ok (n, rest)
    → (s ≡ put_uint16 n ++ rest) × IsUint16 n
unfolding read_uint16
IsUint16-sound [] n rest h e = absurd (cc)
IsUint16-sound (a ∷ []) n rest h e = absurd (cc)
IsUint16-sound (a ∷ b ∷ s) n rest h e = ground arith

pub read_uint16-IsExact : IsExact read_uint16 put_uint16 IsUint16
read_uint16-IsExact = record { reads = uint16_reads; sound = IsUint16-sound }

pub no_control_iff : (s : Bytes) → (has_control s ≡ false) ↔ All IsPrintable s
unfolding has_control
no_control_iff [] = ((λ h. tt), (λ h. refl))
no_control_iff (c ∷ cs) = (
  (λ h. (ground arith, (no_control_iff cs).0 (ground arith))),
  (λ h. ground (arith, (no_control_iff cs).1 h.1)),
)

pub string_reads : (s rest : Bytes) → IsText s → read_string (put_string s ++ rest) ≡ ok (s, rest)
unfolding read_string string_of_length
string_reads s rest h = rw (
  uint16_reads (length s) (s ++ rest) (omega arith),
  le→ltb 2048 (length s) h.0,
  le→ltb (length (s ++ rest)) (length s) (omega (arith, length-append s rest)),
  take-append s rest,
  drop-append s rest,
  (is_valid_utf8_iff s (IsUtf8-IsByte s h.1)).1 h.1,
  (no_control_iff s).1 h.2,
)

string_of_length-eq_ok :
    (n : ℕ) (r t rest : Bytes)
    → string_of_length n r ≡ ok (t, rest)
    → (n ≤ 2048)
      × (n ≤ length r)
      × (is_valid_utf8 (take n r) ≡ true)
      × (has_control (take n r) ≡ false)
      × (take n r ≡ t)
      × (drop n r ≡ rest)
unfolding string_of_length
string_of_length-eq_ok n r t rest e = ground arith

pub string_sound :
    (s t rest : Bytes)
    → All IsByte s
    → read_string s ≡ ok (t, rest)
    → (s ≡ put_string t ++ rest) × IsText t
unfolding read_string
string_sound s t rest h e =
    let ((n, r), count, e1) = bind-eq_ok (read_uint16 s) (λ p. string_of_length p.0 p.1) e in
    let (short, enough, utf8, control, taken, dropped) = string_of_length-eq_ok n r t rest e1 in
    let (splits, small) = IsUint16-sound s n r h count in
    let bytes =
      All-take IsByte n r
        (All-append_right IsByte (put_uint16 n) r (subst (All IsByte) splits h)) in
    let size = length-take n r in
    let long : length t ≡ n = omega (arith, ap length taken) in
    let whole : t ++ rest ≡ r = rw (← taken, ← dropped) (take-append-drop n r) in
    (
      splits ∙ rw (long, ← whole),
      (
        omega arith,
        subst IsUtf8 taken ((is_valid_utf8_iff (take n r) bytes).0 utf8),
        subst (All IsPrintable) taken ((no_control_iff (take n r)).0 control),
      ),
    )

pub read_string-IsExact : IsExact read_string put_string IsText
read_string-IsExact = record { reads = string_reads; sound = string_sound }
