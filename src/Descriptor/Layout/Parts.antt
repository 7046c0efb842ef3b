-- ===== src/Descriptor/Layout/Parts.antt =====
-- Each reader accepts exactly what the writer of its part writes, whatever follows.
use open_cam.Prelude.{
  ℕ, zero, suc, ◌≤◌, ◌≡◌, refl, sym, ap, ◌∙◌, subst, List, [], ◌∷◌, ◌++◌, append_assoc, ltb, Bytes,
  IsByte, length, All, All-append_right, arith, le→ltb, ltb-le,
}
use mathlib.Core.Path.{ap₂}
use open_cam.Descriptor.{
  Resolution, Filter, Error, Result, ok, err, ◌>>=◌, ◌>>◌, throw_if, read_uint16, read_string,
  read_resolution, resolution_loop, read_resolutions, too_many_resolutions, too_many_filters,
  read_category, filter_loop, read_filters,
}
use open_cam.Descriptor.Layout.{
  put_uint16, put_string, put_resolution, put_filter, put_all, put_list, InRange, IsFilter,
  AtMost128,
}
use open_cam.Descriptor.Layout.Texts.{
  IsExact, IsUint16, bind-eq_ok, throw_if-eq_ok, ok-injective, uint16_reads, IsUint16-sound,
  string_reads, string_sound,
}

IsUint16-iff : (n : ℕ) → n ≤ 8192 → IsUint16 n
IsUint16-iff n h = omega arith

resolution_reads :
    (r : Resolution) (rest : Bytes)
    → InRange r
    → read_resolution (put_resolution r ++ rest) ≡ ok (r, rest)
unfolding read_resolution
resolution_reads r rest h =
    rw
      (
        uint16_reads r.width (put_uint16 r.height ++ rest) (omega arith),
        uint16_reads r.height rest (omega arith),
      )
      (ground arith)

resolution_sound :
    (s : Bytes) (r : Resolution) (rest : Bytes)
    → All IsByte s
    → read_resolution s ≡ ok (r, rest)
    → (s ≡ put_resolution r ++ rest) × InRange r
unfolding read_resolution read_uint16
resolution_sound (a ∷ b ∷ c ∷ d ∷ s) r rest h e = ground arith
resolution_sound [] r rest h e = absurd (cc)
resolution_sound (a ∷ []) r rest h e = absurd (cc)
resolution_sound (a ∷ b ∷ []) r rest h e = absurd (cc)
resolution_sound (a ∷ b ∷ c ∷ []) r rest h e = absurd (cc)

pub read_resolution-IsExact : IsExact read_resolution put_resolution InRange
read_resolution-IsExact = record { reads = resolution_reads; sound = resolution_sound }

-- One round of the loop over the filters.
abbrev pub read_filter : Bytes → Result (Filter × Bytes)
read_filter s = do
  (name, rest) ← read_string s
  (category, rest) ← read_category rest
  let filter : Filter = record { name = name; category = category }
  ok (filter, rest)

filter_reads :
    (f : Filter) (rest : Bytes) → IsFilter f → read_filter (put_filter f ++ rest) ≡ ok (f, rest)
unfolding read_category
filter_reads f rest h =
    rw
      (
        append_assoc (put_string f.name) (f.category ∷ []) rest,
        string_reads f.name (f.category ∷ rest) h.0,
      )
      (ground arith)

category-eq_ok :
    (s : Bytes) (category : ℕ) (rest : Bytes)
    → read_category s ≡ ok (category, rest)
    → (s ≡ category ∷ rest) × (category ≤ 4)
unfolding read_category
category-eq_ok [] category rest e = absurd (cc)
category-eq_ok (c ∷ s) category rest e = ground arith

filter_sound :
    (s : Bytes) (f : Filter) (rest : Bytes)
    → All IsByte s
    → read_filter s ≡ ok (f, rest)
    → (s ≡ put_filter f ++ rest) × IsFilter f
filter_sound s f rest h e =
    let ((name, r), named, e1) =
      bind-eq_ok (read_string s)
        (λ p. read_category p.1 >>= λ q. ok (record { name = p.0; category = q.0 }, q.1)) e in
    let ((category, r'), ranked, e2) =
      bind-eq_ok (read_category r) (λ q. ok (record { name = name; category = q.0 }, q.1)) e1 in
    let (splits, text) = string_sound s name r h named in
    let (last, small) = category-eq_ok r category r' ranked in
    let read : Filter = record { name = name; category = category } in
    let whole : s ≡ put_filter read ++ r' =
      splits
      ∙ ap (λ t. put_string name ++ t) last
      ∙ sym (append_assoc (put_string name) (category ∷ []) r') in
    subst (λ p. (s ≡ put_filter p.0 ++ p.1) × IsFilter p.0) (ok-injective e2) (whole, (text, small))

pub read_filter-IsExact : IsExact read_filter put_filter IsFilter
read_filter-IsExact = record { reads = filter_reads; sound = filter_sound }

-- A counted loop of exact reads is exact on the items one after the other.
module _ {A : Type 0} (read : Bytes → Result (A × Bytes)) (put : A → Bytes) (P : A → Type 0)
    (exact : IsExact read put P) (loop : ℕ → Bytes → Result (List A × Bytes))
    (loop_zero : (s : Bytes) → loop 0 s ≡ ok ([], s))
    (loop_suc : (n : ℕ) (s : Bytes)
      → loop (suc n) s ≡ (read s >>= λ p. loop n p.1 >>= λ q. ok (p.0 ∷ q.0, q.1))) where
  loop_reads :
      (xs : List A) (rest : Bytes)
      → All P xs
      → loop (length xs) (put_all put xs ++ rest) ≡ ok (xs, rest)
  loop_reads [] rest h = loop_zero rest
  loop_reads (x ∷ xs) rest h = rw (
    append_assoc (put x) (put_all put xs) rest,
    loop_suc (length xs) (put x ++ (put_all put xs ++ rest)),
    exact.reads x (put_all put xs ++ rest) h.0,
    loop_reads xs rest h.1,
  )

  loop_sound :
      (n : ℕ) (s : Bytes) (xs : List A) (rest : Bytes)
      → All IsByte s
      → loop n s ≡ ok (xs, rest)
      → (s ≡ put_all put xs ++ rest) × All P xs × (length xs ≡ n)
  loop_sound zero s xs rest h e =
      subst (λ p. (s ≡ put_all put p.0 ++ p.1) × All P p.0 × (length p.0 ≡ 0))
        (ok-injective (sym (loop_zero s) ∙ e)) (refl, tt, refl)
  loop_sound (suc n) s xs rest h e =
      let ((x, r), one, e1) =
        bind-eq_ok (read s) (λ p. loop n p.1 >>= λ q. ok (p.0 ∷ q.0, q.1))
          (rw (loop_suc n s) at e) in
      let ((ys, r'), more, e2) = bind-eq_ok (loop n r) (λ q. ok (x ∷ q.0, q.1)) e1 in
      let (splits, good) = exact.sound s x r h one in
      let bytes = All-append_right IsByte (put x) r (subst (All IsByte) splits h) in
      let (splits', good', count) = loop_sound n r ys r' bytes more in
      let whole : s ≡ put_all put (x ∷ ys) ++ r' =
        splits ∙ ap (λ t. put x ++ t) splits' ∙ sym (append_assoc (put x) (put_all put ys) r') in
      subst (λ p. (s ≡ put_all put p.0 ++ p.1) × All P p.0 × (length p.0 ≡ suc n)) (ok-injective e2)
        (whole, (good, good'), ap suc count)

  module _ (too_many : Error) where
    abbrev read_list : Bytes → Result (List A × Bytes)
    read_list s = read_uint16 s >>= λ p. (throw_if (ltb 128 p.0) too_many >> loop p.0 p.1)

    list_reads :
        (xs : List A) (rest : Bytes)
        → AtMost128 P xs
        → read_list (put_list put xs ++ rest) ≡ ok (xs, rest)
    list_reads xs rest h =
        rw
          (
            uint16_reads (length xs) (put_all put xs ++ rest) (omega arith),
            le→ltb 128 (length xs) h.0,
          )
          (loop_reads xs rest h.1)

    list_sound :
        (s : Bytes) (xs : List A) (rest : Bytes)
        → All IsByte s
        → read_list s ≡ ok (xs, rest)
        → (s ≡ put_list put xs ++ rest) × AtMost128 P xs
    list_sound s xs rest h e =
        let ((n, r), counted, e1) =
          bind-eq_ok (read_uint16 s) (λ p. (throw_if (ltb 128 p.0) too_many >> loop p.0 p.1)) e in
        let (few, e2) = throw_if-eq_ok (ltb 128 n) too_many (loop n r) e1 in
        let (splits, small) = IsUint16-sound s n r h counted in
        let bytes = All-append_right IsByte (put_uint16 n) r (subst (All IsByte) splits h) in
        let (whole, good, count) = loop_sound n r xs rest bytes e2 in
        let long : length xs ≤ 128 = omega (arith, ltb-le 128 n few, count) in
        (splits ∙ ap₂ (λ k t. put_uint16 k ++ t) (sym count) whole, (long, good))

    list-IsExact : IsExact read_list (put_list put) (AtMost128 P)
    list-IsExact = record { reads = list_reads; sound = list_sound }

resolution_loop-suc :
    (n : ℕ) (s : Bytes)
    → resolution_loop (suc n) s
      ≡ (read_resolution s >>= λ p. resolution_loop n p.1 >>= λ q. ok (p.0 ∷ q.0, q.1))
unfolding resolution_loop
resolution_loop-suc n s = refl

pub read_resolutions-IsExact :
    IsExact read_resolutions (put_list put_resolution) (AtMost128 InRange)
unfolding read_resolutions
read_resolutions-IsExact =
    list-IsExact read_resolution put_resolution InRange read_resolution-IsExact resolution_loop
      (λ s. unfold resolution_loop in refl) resolution_loop-suc too_many_resolutions

bind_assoc {ℓ} :
    {A B C : Type ℓ} (m : Result A) (f : A → Result B) (g : B → Result C)
    → ((m >>= f) >>= g) ≡ (m >>= λ a. f a >>= g)
bind_assoc (ok a) f g = refl
bind_assoc (err e) f g = refl

filter_loop-suc :
    (n : ℕ) (s : Bytes)
    → filter_loop (suc n) s
      ≡ (read_filter s >>= λ p. filter_loop n p.1 >>= λ q. ok (p.0 ∷ q.0, q.1))
unfolding filter_loop
filter_loop-suc n s = simp bind_assoc

pub read_filters-IsExact : IsExact read_filters (put_list put_filter) (AtMost128 IsFilter)
unfolding read_filters
read_filters-IsExact =
    list-IsExact read_filter put_filter IsFilter read_filter-IsExact filter_loop
      (λ s. unfold filter_loop in refl) filter_loop-suc too_many_filters
