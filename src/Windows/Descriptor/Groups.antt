-- ===== src/Windows/Descriptor/Groups.antt =====
-- The registry of the filters of a device, against the names of each category.
use open_cam.Prelude.{
  ℕ, zero, suc, ◌+◌, ◌<◌, ◌≤◌, ◌≡◌, refl, sym, ap, subst, ◌∙◌, inl, inr, true, false, ltb, ◌==◌,
  if◌then◌else◌, List, [], ◌∷◌, ◌++◌, append_assoc, append-nil, Bytes, All, arith, Bool-cases,
}
use open_cam.Descriptor
use open_cam.Descriptor.Layout.Texts
use open_cam.Descriptor.{Filter}
use open_cam.Windows.Descriptor.{Group, push_filter}
use open_cam.Windows.Descriptor.Filters.{push_all}

-- The name of a filter, if the filter is of the category.
abbrev name_of : ℕ → Filter → List Bytes
name_of c f = if f.category == c then f.name ∷ [] else []

-- The names of the filters of a category, in the order of the filters.
abbrev pub names_of : ℕ → List Filter → List Bytes
names_of c [] = []
names_of c (f ∷ filters) = name_of c f ++ names_of c filters

-- A category with its names; one without names is not in the registry.
abbrev pub named : ℕ → List Bytes → List Group
named c [] = []
named c (name ∷ names) = record { category = c; names = name ∷ names } ∷ []

-- The registry of some categories in a row, each with its names.
abbrev pub registry : (ℕ → List Bytes) → ℕ → ℕ → List Group
registry names first zero = []
registry names first (suc count) = named first (names first) ++ registry names (suc first) count

-- The filters grouped by the categories 0 to 4.
abbrev pub grouped : List Filter → List Group
grouped filters = registry (λ c. names_of c filters) 0 5

registry-ext :
    (m n : ℕ → List Bytes) (c k : ℕ)
    → ((x : ℕ) → c ≤ x → m x ≡ n x)
    → registry m c k ≡ registry n c k
registry-ext m n c zero same = refl
registry-ext m n c (suc k) same =
    rw (same c (omega arith), registry-ext m n (suc c) k (λ x h. same x (omega arith))) refl

-- A name of a category in front of all those of the registry.
push_filter-below_named :
    (c : ℕ) (name : Bytes) (d : ℕ) (names : List Bytes) (rest : List Group)
    → c < d
    → push_filter c name rest ≡ record { category = c; names = name ∷ [] } ∷ rest
    → push_filter c name (named d names ++ rest)
      ≡ record { category = c; names = name ∷ [] } ∷ (named d names ++ rest)
unfolding push_filter
push_filter-below_named c name d [] rest below later = later
push_filter-below_named c name d (n ∷ names) rest below later =
    let other : (d == c) ≡ false = ground arith in
    let front : ltb c d ≡ true = ground arith in rw (other, front) refl

push_filter-below :
    (c : ℕ) (name : Bytes) (n : ℕ → List Bytes) (d k : ℕ)
    → c < d
    → push_filter c name (registry n d k)
      ≡ record { category = c; names = name ∷ [] } ∷ registry n d k
unfolding push_filter
push_filter-below c name n d zero below = refl
push_filter-below c name n d (suc k) below =
    push_filter-below_named c name d (n d) (registry n (suc d) k) below
      (push_filter-below c name n (suc d) k (omega arith))

push_filter-named :
    (c : ℕ) (name : Bytes) (names : List Bytes) (rest : List Group)
    → push_filter c name rest ≡ record { category = c; names = name ∷ [] } ∷ rest
    → push_filter c name (named c names ++ rest) ≡ named c (names ++ (name ∷ [])) ++ rest
unfolding push_filter
push_filter-named c name [] rest later = later
push_filter-named c name (n ∷ names) rest later =
    let own : (c == c) ≡ true = ground arith in rw own refl

push_filter-skip :
    (c : ℕ) (name : Bytes) (d : ℕ) (names : List Bytes) (rest : List Group)
    → d < c
    → push_filter c name (named d names ++ rest) ≡ named d names ++ push_filter c name rest
unfolding push_filter
push_filter-skip c name d [] rest above = refl
push_filter-skip c name d (n ∷ names) rest above =
    let other : (d == c) ≡ false = ground arith in
    let behind : ltb c d ≡ false = ground arith in rw (other, behind) refl

-- The later categories get no name.
name_of-later :
    (f : Filter) (n : ℕ → List Bytes) (c : ℕ)
    → (f.category == c) ≡ true
    → (x : ℕ) → suc c ≤ x
    → n x ≡ n x ++ name_of x f
name_of-later f n c own x from =
    let other : (f.category == x) ≡ false = ground arith in rw other (sym (append-nil (n x)))

-- Adding a filter adds its name behind those of its category.
push_filter-registry :
    (f : Filter) (n : ℕ → List Bytes) (c k : ℕ)
    → c ≤ f.category
    → f.category < c + k
    → push_filter f.category f.name (registry n c k) ≡ registry (λ x. n x ++ name_of x f) c k
push_filter-registry f n c zero from below = absurd (omega arith)
push_filter-registry f n c (suc k) from below = elim (Bool-cases (f.category == c)) [
  | inl own ↦
      let rest = registry n (suc c) k in
      let same : f.category ≡ c = ground arith in
      ap (λ z. push_filter z f.name (named c (n c) ++ rest)) same
      ∙ push_filter-named c f.name (n c) rest (push_filter-below c f.name n (suc c) k (omega arith))
      ∙ rw own (
          ap (λ gs. named c (n c ++ f.name ∷ []) ++ gs)
            (registry-ext n (λ x. n x ++ name_of x f) (suc c) k (name_of-later f n c own)))
  | inr other ↦
      let rest = registry n (suc c) k in
      push_filter-skip f.category f.name c (n c) rest (ground arith)
      ∙ rw other (
          rw (append-nil (n c)) (
            ap (λ gs. named c (n c) ++ gs)
              (push_filter-registry f n (suc c) k (ground arith) (omega arith))))
]

push_all-registry :
    (filters : List Filter) (n : ℕ → List Bytes)
    → All (λ (f : Filter). f.category ≤ 4) filters
    → push_all (registry n 0 5) filters ≡ registry (λ x. n x ++ names_of x filters) 0 5
push_all-registry [] n h = registry-ext n (λ x. n x ++ []) 0 5 (λ x from. sym (append-nil (n x)))
push_all-registry (f ∷ filters) n h =
    ap (λ gs. push_all gs filters) (push_filter-registry f n 0 5 (omega arith) (ground arith))
    ∙ push_all-registry filters (λ x. n x ++ name_of x f) h.1
    ∙ registry-ext _ _ 0 5 (λ x from. append_assoc (n x) (name_of x f) (names_of x filters))

-- The categories that the Linux parser takes are known ones.
read_category-known :
    (x : Bytes) (p : ℕ × Bytes) → Descriptor.read_category x ≡ Descriptor.ok p → p.0 ≤ 4
unfolding Descriptor.read_category
read_category-known [] p e = absurd (cc)
read_category-known (c ∷ x) p e = ground arith

filter_loop-known :
    (rounds : ℕ) (x : Bytes) (p : List Filter × Bytes)
    → Descriptor.filter_loop rounds x ≡ Descriptor.ok p
    → All (λ (f : Filter). f.category ≤ 4) (p.0)
unfolding Descriptor.filter_loop
filter_loop-known zero x p e =
    subst (λ (z : List Filter × Bytes). All (λ (f : Filter). f.category ≤ 4) (z.0))
      (Descriptor.Layout.Texts.ok-injective e) tt
filter_loop-known (suc rounds) x p e =
    let (a, _, e1) = Descriptor.Layout.Texts.bind-eq_ok (Descriptor.read_string x) _ e in
    let (b, read, e2) = Descriptor.Layout.Texts.bind-eq_ok (Descriptor.read_category a.1) _ e1 in
    let (q, later, e3) =
      Descriptor.Layout.Texts.bind-eq_ok (Descriptor.filter_loop rounds b.1) _ e2 in
    subst (λ (z : List Filter × Bytes). All (λ (f : Filter). f.category ≤ 4) (z.0))
      (Descriptor.Layout.Texts.ok-injective e3)
      (read_category-known a.1 b read, filter_loop-known rounds b.1 q later)

-- Filters that the Linux parser reads, added one by one, stand grouped by their categories.
pub read_filters-grouped :
    (x : Bytes) (p : List Filter × Bytes)
    → Descriptor.read_filters x ≡ Descriptor.ok p
    → push_all [] (p.0) ≡ grouped (p.0)
unfolding Descriptor.read_filters
read_filters-grouped x p e =
    let (a, _, e1) = Descriptor.Layout.Texts.bind-eq_ok (Descriptor.read_uint16 x) _ e in
    let (_, e2) = Descriptor.Layout.Texts.throw_if-eq_ok _ _ _ e1 in
    push_all-registry (p.0) (λ x. []) (filter_loop-known a.0 a.1 p e2)
