-- ===== src/Windows/Reader/Cut.antt =====
-- Reading from a message of which only the front has arrived: a read gives what was written, or
-- reports that the message is incomplete, never anything else.
use open_cam.Prelude.{
  ℕ, ◌-◌, ◌+◌, ◌*◌, ◌≤◌, ◌<◌, ◌≡◌, refl, ap, ◌⊎◌, inl, inr, Bool, true, false, List, [], ◌∷◌, ◌++◌,
  Bytes, length, drop, length-append, take-append, drop-append, length-drop, All, arith, le→ltb,
  lt→ltb,
}
use open_cam.Descriptor.Layout.{put_uint16, put_string, IsPrintable}
use open_cam.Descriptor.Layout.Texts.{no_control_iff}
use open_cam.Descriptor.Utf8.Exact.{is_valid_utf8_iff, IsUtf8-IsByte}
use open_cam.Descriptor.Utf8.Decoding.{IsUtf8}
use open_cam.Windows.Reader.{
  Reason, Result, ok, incomplete, rejected, ◌>>=◌, ◌>>◌, throw_if, valid_utf8, u16, string,
  string_of_length,
}

-- A text of at most this many bytes.
abbrev pub IsTextWithin : ℕ → Bytes → Type 0
IsTextWithin limit s = (length s ≤ limit) × IsUtf8 s × All IsPrintable s

-- A chain is incomplete at its first step, or later.
pub bind-incomplete {ℓ κ} :
    {Before : Type ℓ} {After : Type κ} (first : Result Before) (next : Before → Result After)
    → (first >>= next) ≡ incomplete
    → (first ≡ incomplete) ⊎ ((value : Before) × (first ≡ ok value) × (next value ≡ incomplete))
bind-incomplete (ok value) next h = inr (value, refl, h)
bind-incomplete incomplete next h = inl refl
bind-incomplete (rejected reason) next h = absurd (cc)

pub bind-eq_ok {ℓ κ} :
    {Before : Type ℓ} {After : Type κ} (first : Result Before) (next : Before → Result After)
    {out : After}
    → (first >>= next) ≡ ok out
    → (value : Before) × (first ≡ ok value) × (next value ≡ ok out)
bind-eq_ok (ok value) next h = (value, refl, h)
bind-eq_ok incomplete next h = absurd (cc)
bind-eq_ok (rejected reason) next h = absurd (cc)

pub throw_if-eq_ok {ℓ} :
    {A : Type ℓ} (test : Bool) (reason : Reason) (next : Result A) {out : A}
    → (throw_if test reason >> next) ≡ ok out
    → (test ≡ false) × (next ≡ ok out)
throw_if-eq_ok true reason next h = absurd (cc)
throw_if-eq_ok false reason next h = (refl, h)

pub ok-injective {ℓ} : {A : Type ℓ} {a b : A} → ok a ≡ ok b → a ≡ b
ok-injective {a = a} e = ap (λ r. elim r [ ok x ↦ x | incomplete ↦ a | rejected _ ↦ a ]) e

-- Two ways to split the same bytes: one front is a front of the other.
pub append-cases {ℓ} :
    {A : Type ℓ} (x y a b : List A)
    → x ++ y ≡ a ++ b
    → ((r : List A) × (x ≡ a ++ r) × (r ++ y ≡ b)) ⊎ (length x < length a)
append-cases x y [] b e = inl (x, refl, e)
append-cases [] y (c ∷ a) b e = inr (omega arith)
append-cases (d ∷ x) y (c ∷ a) b e = elim (append-cases x y a b (cc)) [
  | inl (r, front, back) ↦ inl (r, cc (front, e), back)
  | inr short ↦ inr (omega (arith, short))
]

u16_reads : (n : ℕ) (rest : Bytes) → n < 65536 → u16 (put_uint16 n ++ rest) ≡ ok (n, rest)
unfolding u16
u16_reads n rest h = ground arith

pub string_reads :
    (limit : ℕ) (t rest : Bytes)
    → limit < 65536
    → IsTextWithin limit t
    → string limit (put_string t ++ rest) ≡ ok (t, rest)
unfolding string string_of_length valid_utf8
string_reads limit t rest below h = rw (
  u16_reads (length t) (t ++ rest) (omega arith),
  le→ltb limit (length t) h.0,
  le→ltb (length (t ++ rest)) (length t) (omega (arith, length-append t rest)),
  take-append t rest,
  drop-append t rest,
  (is_valid_utf8_iff t (IsUtf8-IsByte t h.1)).1 h.1,
  (no_control_iff t).1 h.2,
)

-- A front that is too short for the text it starts.
string-short :
    (limit : ℕ) (t x y more : Bytes)
    → limit < 65536
    → IsTextWithin limit t
    → x ++ y ≡ put_string t ++ more
    → length x < 2 + length t
    → string limit x ≡ incomplete
unfolding string u16 string_of_length
string-short limit t [] y more below h e short = refl
string-short limit t (high ∷ []) y more below h e short = refl
string-short limit t (high ∷ low ∷ x) y more below h e short =
    let size : high * 256 + low ≡ length t = ground arith in
    rw (size, le→ltb limit (length t) h.0, lt→ltb (length x) (length t) (omega arith))

-- From the front of a message whose next part is a text, either the text is read, or the front is too
-- short and the message incomplete.
pub string-cut :
    (limit : ℕ) (t x y more : Bytes)
    → limit < 65536
    → IsTextWithin limit t
    → x ++ y ≡ put_string t ++ more
    → ((r : Bytes) × (x ≡ put_string t ++ r) × (r ++ y ≡ more) × (string limit x ≡ ok (t, r)))
      ⊎ ((length x < length (put_string t)) × (string limit x ≡ incomplete))
string-cut limit t x y more below h e = elim (append-cases x y (put_string t) more e) [
  | inl (r, front, back) ↦ inl (r, front, back, rw front (string_reads limit t r below h))
  | inr short ↦ inr (short, string-short limit t x y more below h e (omega (arith, short)))
]

string_of_length-incomplete :
    (limit n : ℕ) (x : Bytes) → string_of_length limit n x ≡ incomplete → length x < limit
unfolding string_of_length
string_of_length-incomplete limit n x e = ground arith

string_of_length-consumed :
    (limit n : ℕ) (x t r : Bytes)
    → string_of_length limit n x ≡ ok (t, r)
    → (length x ≤ limit + length r) × (length r ≤ length x)
unfolding string_of_length
string_of_length-consumed limit n x t r e =
    let rest : drop n x ≡ r = ground arith in
    let small : n ≤ limit = ground arith in
    let size : length x - n ≡ length r = omega (arith, length-drop n x, ap length rest) in
    (omega arith, omega arith)

-- A text is incomplete only where fewer bytes have arrived than the longest text takes.
pub string-incomplete : (limit : ℕ) (x : Bytes) → string limit x ≡ incomplete → length x < limit + 2
unfolding string u16
string-incomplete limit [] e = omega arith
string-incomplete limit (high ∷ []) e = omega arith
string-incomplete limit (high ∷ low ∷ x) e =
    omega (arith, string_of_length-incomplete limit (high * 256 + low) x e)

pub string-consumed :
    (limit : ℕ) (x t r : Bytes)
    → string limit x ≡ ok (t, r)
    → (length x ≤ limit + 2 + length r) × (length r ≤ length x)
unfolding string u16
string-consumed limit [] t r e = absurd (cc)
string-consumed limit (high ∷ []) t r e = absurd (cc)
string-consumed limit (high ∷ low ∷ x) t r e =
    let (most, least) = string_of_length-consumed limit (high * 256 + low) x t r e in
    (omega (arith, most), omega (arith, least))
