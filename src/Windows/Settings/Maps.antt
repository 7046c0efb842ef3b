-- ===== src/Windows/Settings/Maps.antt =====
-- `std::map` with keys of bytes, as the list of its entries in the order of the keys.
use open_cam.Prelude.{
  ◌≡◌, refl, Bool, true, false, ◌&&◌, ◌||◌, List, [], ◌∷◌, ◌++◌, Option, none, some, ltb, ◌==◌,
  if◌then◌else◌, Bytes, equal_bytes, equal_bytes_iff, equal_bytes_refl, All, All-append_right,
  arith,
}

-- `a < b` of two strings
unfoldable pub less : Bytes → Bytes → Bool
less [] [] = false
less [] (y ∷ ys) = true
less (x ∷ xs) [] = false
less (x ∷ xs) (y ∷ ys) = ltb x y || (x == y && less xs ys)

less_irrefl : (a : Bytes) → less a a ≡ false
unfolding less
less_irrefl [] = refl
less_irrefl (x ∷ a) = ground (arith, less_irrefl a)

less_asymm : (a b : Bytes) → less a b ≡ true → less b a ≡ false
unfolding less
less_asymm [] [] h = refl
less_asymm [] (y ∷ b) h = refl
less_asymm (x ∷ a) [] h = absurd (cc)
less_asymm (x ∷ a) (y ∷ b) h = ground (arith, less_asymm a b)

less-equal_bytes : (a b : Bytes) → less a b ≡ true → equal_bytes b a ≡ false
less-equal_bytes a b h = ground (arith, equal_bytes_iff b a, less_irrefl a)

module _ {ℓ} {A : Type ℓ} (key : A → Bytes) where
  -- `find(name)`
  unfoldable pub lookup : Bytes → List A → Option A
  lookup name [] = none
  lookup name (a ∷ as') = if equal_bytes name (key a) then some a else lookup name as'

  -- `m[key] = value`
  unfoldable pub put : A → List A → List A
  put a [] = a ∷ []
  put a (b ∷ bs) =
      if equal_bytes (key a) (key b)
      then a ∷ bs
      else if less (key a) (key b)
      then a ∷ b ∷ bs
      else b ∷ put a bs

  -- `m[key]`, which makes the entry where there is none
  unfoldable pub touch : A → List A → List A
  touch a bs = elim (lookup (key a) bs) [ some b ↦ bs | none ↦ put a bs ]

  -- A change of the entry of a key.
  unfoldable pub update : Bytes → (A → A) → List A → List A
  update name f [] = []
  update name f (b ∷ bs) = if equal_bytes name (key b) then f b ∷ bs else b ∷ update name f bs

  -- The keys stand before a key.
  abbrev pub AllBefore : Bytes → List A → Type 0
  AllBefore name = All (λ b. less (key b) name ≡ true)

  -- Every key stands before those behind it.
  abbrev pub IsOrdered : List A → Type 0
  IsOrdered [] = Unit
  IsOrdered (a ∷ as') = All (λ b. less (key a) (key b) ≡ true) as' × IsOrdered as'

  pub put-append : (a : A) (bs : List A) → AllBefore (key a) bs → put a bs ≡ bs ++ a ∷ []
  unfolding put
  put-append a [] h = refl
  put-append a (b ∷ bs) h =
      rw (less-equal_bytes (key b) (key a) h.0, less_asymm (key b) (key a) h.0, put-append a bs h.1)

  lookup-AllBefore : (name : Bytes) (bs : List A) → AllBefore name bs → lookup name bs ≡ none
  unfolding lookup
  lookup-AllBefore name [] h = refl
  lookup-AllBefore name (b ∷ bs) h =
      rw (less-equal_bytes (key b) name h.0, lookup-AllBefore name bs h.1)

  pub touch-append : (a : A) (bs : List A) → AllBefore (key a) bs → touch a bs ≡ bs ++ a ∷ []
  unfolding touch
  touch-append a bs h = rw (lookup-AllBefore (key a) bs h, touch) (put-append a bs h)

  pub update-append :
      (f : A → A) (a : A) (bs : List A)
      → AllBefore (key a) bs
      → update (key a) f (bs ++ a ∷ []) ≡ bs ++ f a ∷ []
  unfolding update
  update-append f a [] h = rw (equal_bytes_refl (key a))
  update-append f a (b ∷ bs) h = rw (less-equal_bytes (key b) (key a) h.0, update-append f a bs h.1)

  -- What stands in front of an entry has smaller keys.
  pub IsOrdered-append :
      (xs : List A) (a : A) (ys : List A) → IsOrdered (xs ++ a ∷ ys) → AllBefore (key a) xs
  IsOrdered-append [] a ys h = tt
  IsOrdered-append (x ∷ xs) a ys h = (
    (All-append_right (λ b. less (key x) (key b) ≡ true) xs (a ∷ ys) h.0).0,
    IsOrdered-append xs a ys h.1,
  )
