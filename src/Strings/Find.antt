-- ===== src/Strings/Find.antt =====
-- What a search in a string finds, as a split of the string around the position.
use open_cam.Prelude.{
  ℕ, ◌≡◌, refl, ap, Bool, true, false, inl, inr, [], ◌∷◌, ◌++◌, none, some, ◌==◌, Bytes, length,
  All, arith, Bool-cases, Option-cases,
}
use open_cam.Strings.{find_first, rfind, find, contains, starts_with}

-- No element passes the test.
abbrev pub NonePass : (ℕ → Bool) → Bytes → Type 0
NonePass p = All (λ x. p x ≡ false)

abbrev pub Lacks : ℕ → Bytes → Type 0
Lacks c = All (λ x. (x == c) ≡ false)

-- `s` splits at position `i` around an element that passes, with none that passes before it.
pub record FirstAt (p : ℕ → Bool) (s : Bytes) (i : ℕ) : Type 0 where
  pub before : Bytes
  pub here : ℕ
  pub after : Bytes
  pub splits : s ≡ before ++ here ∷ after
  pub at_length : i ≡ length before
  pub passes : p here ≡ true
  pub none_before : NonePass p before

pub find_first-eq_some :
    (p : ℕ → Bool) (s : Bytes) (i : ℕ) → find_first p s ≡ some i → FirstAt p s i
unfolding find_first
find_first-eq_some p [] i e = cc
find_first-eq_some p (x ∷ xs) i e = elim (Bool-cases (p x)) [
  | inl yes' ↦ record {
    before = [];
    here = x;
    after = xs;
    splits = refl;
    at_length = ground arith;
    passes = yes';
    none_before = tt;
  }
  | inr no' ↦ elim (Option-cases (find_first p xs)) [
    | inl nothing ↦ ground arith
    | inr (j, found) ↦
        let r = find_first-eq_some p xs j found in
        record {
          before = x ∷ r.before;
          here = r.here;
          after = r.after;
          splits = ap (◌∷◌ x) r.splits;
          at_length = ground (arith, r.at_length);
          passes = r.passes;
          none_before = (no', r.none_before);
        }
  ]
]

pub find_first-append :
    (p : ℕ → Bool) (before : Bytes) (here : ℕ) (after : Bytes)
    → NonePass p before
    → p here ≡ true
    → find_first p (before ++ here ∷ after) ≡ some (length before)
unfolding find_first
find_first-append p [] here after h e = rw e
find_first-append p (x ∷ xs) here after h e = rw (h.0, find_first-append p xs here after h.1 e)

pub find_first-eq_none : (p : ℕ → Bool) (s : Bytes) → find_first p s ≡ none → NonePass p s
unfolding find_first
find_first-eq_none p [] e = tt
find_first-eq_none p (x ∷ xs) e =
    (ground arith, find_first-eq_none p xs (ground (arith, Option-cases (find_first p xs))))

pub NonePass-find_first : (p : ℕ → Bool) (s : Bytes) → NonePass p s → find_first p s ≡ none
unfolding find_first
NonePass-find_first p [] h = refl
NonePass-find_first p (x ∷ xs) h = rw (h.0, NonePass-find_first p xs h.1)

pub contains-eq_false : (s : Bytes) (c : ℕ) → contains s c ≡ false → Lacks c s
contains-eq_false s c e =
    find_first-eq_none (λ x. x == c) s (ground (arith, Option-cases (find c s)))

pub Lacks-contains : (s : Bytes) (c : ℕ) → Lacks c s → contains s c ≡ false
Lacks-contains s c h = rw (NonePass-find_first (λ x. x == c) s h, contains)

pub rfind-eq_none : (c : ℕ) (s : Bytes) → rfind c s ≡ none → Lacks c s
unfolding rfind
rfind-eq_none c [] e = tt
rfind-eq_none c (x ∷ xs) e = elim (Option-cases (rfind c xs)) [
  | inl nothing ↦ (ground arith, rfind-eq_none c xs nothing)
  | inr (j, found) ↦ ground arith
]

pub Lacks-rfind : (c : ℕ) (s : Bytes) → Lacks c s → rfind c s ≡ none
unfolding rfind
Lacks-rfind c [] h = refl
Lacks-rfind c (x ∷ xs) h = ground (arith, Lacks-rfind c xs h.1)

pub rfind-append :
    (c : ℕ) (before after : Bytes)
    → Lacks c after
    → rfind c (before ++ c ∷ after) ≡ some (length before)
unfolding rfind
rfind-append c [] after h = ground (arith, Lacks-rfind c after h)
rfind-append c (x ∷ xs) after h = rw (rfind-append c xs after h)

-- `s` splits at the last `c`, which stands at position `i`.
pub record LastAt (c : ℕ) (s : Bytes) (i : ℕ) : Type 0 where
  pub before : Bytes
  pub after : Bytes
  pub splits : s ≡ before ++ c ∷ after
  pub at_length : i ≡ length before
  pub none_after : Lacks c after

pub rfind-eq_some : (c : ℕ) (s : Bytes) (i : ℕ) → rfind c s ≡ some i → LastAt c s i
unfolding rfind
rfind-eq_some c [] i e = cc
rfind-eq_some c (x ∷ xs) i e = elim (Option-cases (rfind c xs)) [
  | inl nothing ↦ record {
    before = [];
    after = xs;
    splits = ground arith;
    at_length = ground arith;
    none_after = rfind-eq_none c xs nothing;
  }
  | inr (j, found) ↦
      let r = rfind-eq_some c xs j found in
      record {
        before = x ∷ r.before;
        after = r.after;
        splits = ap (◌∷◌ x) r.splits;
        at_length = ground (arith, r.at_length);
        none_after = r.none_after;
      }
]

pub starts_with-append : (p s : Bytes) → starts_with p (p ++ s) ≡ true
unfolding starts_with
starts_with-append [] s = refl
starts_with-append (p ∷ ps) s = ground (arith, starts_with-append ps s)

pub starts_with-eq_true : (p s : Bytes) → starts_with p s ≡ true → (rest : Bytes) × (s ≡ p ++ rest)
unfolding starts_with
starts_with-eq_true [] s e = (s, refl)
starts_with-eq_true (p ∷ ps) [] e = absurd (cc)
starts_with-eq_true (p ∷ ps) (x ∷ xs) e =
    let (rest, same) = starts_with-eq_true ps xs (ground arith) in (rest, ground arith)
