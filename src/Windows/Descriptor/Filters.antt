-- ===== src/Windows/Descriptor/Filters.antt =====
-- The filters of the Windows deserializer, grouped by category, against those of the Linux parser.
use open_cam.Prelude.{
  ℕ, zero, suc, ◌≤◌, ◌≡◌, refl, sym, ap, subst, inl, inr, false, ◌||◌, ltb, List, [], ◌∷◌, Bytes,
  length, All, arith, Bool-cases,
}
use open_cam.Descriptor
use open_cam.Descriptor.Layout.Texts
use open_cam.Descriptor.{Resolution, Filter, is_empty}
use open_cam.Windows.Reader.{ok, ◌>>=◌, ◌>>◌, throw_if, u8, u16, string, invalid_filter}
use open_cam.Windows.Reader.Cut.{throw_if-eq_ok, ok-injective}
use open_cam.Windows.Descriptor.{Group, push_filter, filter_loop, read_filters}
use open_cam.Windows.Descriptor.Readers.{
  Matches, throw-matches, bind-matches, u16-matches, string-matches,
}

-- The registry with the filters of a list added.
abbrev pub push_all : List Group → List Filter → List Group
push_all groups [] = groups
push_all groups (f ∷ filters) = push_all (push_filter f.category f.name groups) filters

-- A filter with a name of at most 128 bytes.
abbrev pub IsLegacyFilter : Filter → Type 0
IsLegacyFilter f = (length f.name ≤ 128) × (is_empty f.name ≡ false)

abbrev pub Pushed : List Group → List Filter × Bytes → List Group × Bytes → Type 0
Pushed groups b a = (a ≡ (push_all groups b.0, b.1)) × All IsLegacyFilter b.0

-- What the Linux loop does behind a name and a category.
abbrev add_filter : Filter → List Filter × Bytes → Descriptor.Result (List Filter × Bytes)
add_filter f p = Descriptor.ok (f ∷ p.0, p.1)

-- Behind a name and a category.
rest-matches :
    (rounds : ℕ) (groups : List Group) (f : Filter) (x : Bytes)
    → length f.name ≤ 128
    → Matches
        (filter_loop rounds (push_filter f.category f.name groups) x)
        (Descriptor.filter_loop rounds x)
        (Pushed (push_filter f.category f.name groups))
    → Matches
        (throw_if (is_empty f.name) invalid_filter
          >> filter_loop rounds (push_filter f.category f.name groups) x)
        (Descriptor.◌>>=◌ (Descriptor.filter_loop rounds x) (add_filter f))
        (Pushed groups)
rest-matches rounds groups f x short later = record {
  to = λ a e.
      let (named, e1) = throw_if-eq_ok _ _ _ e in
      let (b, l, (same, all)) = later.to a e1 in
      ((f ∷ b.0, b.1), rw l refl, (same, ((short, named), all)));
  from = λ a b e r.
      let (p, l, e1) =
        Descriptor.Layout.Texts.bind-eq_ok (Descriptor.filter_loop rounds x) (add_filter f) e in
      let whole : (f ∷ p.0, p.1) ≡ b = Descriptor.Layout.Texts.ok-injective e1 in
      let (same, all) : Pushed groups (f ∷ p.0, p.1) a =
        subst (λ z. Pushed groups z a) (sym whole) r in
      rw (all.0.1) (later.from a p l (same, all.1));
}

category-matches :
    (rounds : ℕ) (groups : List Group) (name x : Bytes)
    → length name ≤ 128
    → ((groups : List Group) (x : Bytes)
        → Matches (filter_loop rounds groups x) (Descriptor.filter_loop rounds x) (Pushed groups))
    → Matches
        (u8 x >>= λ p.
          throw_if (ltb 4 p.0 || is_empty name) invalid_filter
          >> filter_loop rounds (push_filter p.0 name groups) p.1)
        (Descriptor.◌>>=◌ (Descriptor.read_category x) λ p.
          Descriptor.◌>>=◌
            (Descriptor.filter_loop rounds p.1)
            (add_filter (record { name = name; category = p.0 })))
        (Pushed groups)
unfolding u8 Descriptor.read_category
category-matches rounds groups name [] short later = record {
  to = λ a e. absurd (cc e);
  from = λ a b e r. absurd (cc e);
}
category-matches rounds groups name (category ∷ x) short later =
    elim (Bool-cases (ltb 4 category)) [
      | inl unknown ↦
          rw unknown (record { to = λ a e. absurd (cc e); from = λ a b e r. absurd (cc e) })
      | inr known ↦ rw known (
          rest-matches rounds groups (record { name = name; category = category }) x short
            (later (push_filter category name groups) x))
    ]

filters-match :
    (rounds : ℕ) (groups : List Group) (x : Bytes)
    → Matches (filter_loop rounds groups x) (Descriptor.filter_loop rounds x) (Pushed groups)
unfolding filter_loop Descriptor.filter_loop
filters-match zero groups x = record {
  to = λ a e. (([], x), refl, (sym (ok-injective e), tt));
  from = λ a b e r.
      let (same, _) : Pushed groups ([], x) a =
        subst (λ z. Pushed groups z a) (sym (Descriptor.Layout.Texts.ok-injective e)) r in
      ap (λ z. ok z) (sym same);
}
filters-match (suc rounds) groups x =
    bind-matches (string 128 x) (Descriptor.read_string x) _ _ _ _
      (string-matches 128 x (omega arith))
      (λ a b c e r.
        let (p, _, e1) = Descriptor.Layout.Texts.bind-eq_ok (Descriptor.read_category a.1) _ e in
        let (q, _, e2) =
          Descriptor.Layout.Texts.bind-eq_ok (Descriptor.filter_loop rounds p.1) _ e1 in
        let (_, all) : Pushed groups (record { name = a.0; category = p.0 } ∷ q.0, q.1) b =
          subst (λ z. Pushed groups z b) (sym (Descriptor.Layout.Texts.ok-injective e2)) r in
        all.0.0)
      (λ a short. category-matches rounds groups a.0 a.1 short (filters-match rounds))

pub read_filters-match :
    (x : Bytes) → Matches (read_filters x) (Descriptor.read_filters x) (Pushed [])
unfolding read_filters Descriptor.read_filters
read_filters-match x =
    bind-matches (u16 x) (Descriptor.read_uint16 x) _ _ _ _ (u16-matches x) (λ a b c e r. tt)
      (λ a _. throw-matches _ _ _ _ _ _ (filters-match a.0 [] a.1))
