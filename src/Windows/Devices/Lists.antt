-- ===== src/Windows/Devices/Lists.antt =====
-- Removing, indexing and mapping in the lists of connections and descriptors.
use open_cam.Prelude.{
  ℕ, zero, suc, ◌≡◌, refl, ap, Bool, true, false, List, [], ◌∷◌, ◌++◌, map, some, get_elem?, All,
}
use open_cam.Windows.Devices.{remove_all}

-- Removing the one element that passes.
remove_all-none {ℓ} :
    {A : Type ℓ} (p : A → Bool) (xs : List A) → All (λ x. p x ≡ false) xs → remove_all p xs ≡ xs
remove_all-none p [] h = refl
remove_all-none p (x ∷ xs) h = rw (h.0) (ap (◌∷◌ x) (remove_all-none p xs h.1))

pub remove_all-one {ℓ} :
    {A : Type ℓ} (p : A → Bool) (before : List A) (x : A) (after : List A)
    → All (λ y. p y ≡ false) before
    → p x ≡ true
    → All (λ y. p y ≡ false) after
    → remove_all p (before ++ (x ∷ after)) ≡ before ++ after
remove_all-one p [] x after hb hx ha = rw hx (remove_all-none p after ha)
remove_all-one p (y ∷ before) x after hb hx ha =
    rw (hb.0) (ap (◌∷◌ y) (remove_all-one p before x after hb.1 hx ha))

pub map-append {ℓ κ} :
    {A : Type ℓ} {B : Type κ} (f : A → B) (xs ys : List A) → map f (xs ++ ys) ≡ map f xs ++ map f ys
map-append f [] ys = refl
map-append f (x ∷ xs) ys = ap (◌∷◌ (f x)) (map-append f xs ys)

pub All-map {ℓ κ} :
    {A : Type ℓ} {B : Type κ} (f : A → B) (P : B → Type 0) (xs : List A)
    → All (λ x. P (f x)) xs
    → All P (map f xs)
All-map f P [] h = tt
All-map f P (x ∷ xs) h = (h.0, All-map f P xs h.1)

pub All-weaken {ℓ} :
    {A : Type ℓ} (P Q : A → Type 0) (xs : List A) → ((x : A) → P x → Q x) → All P xs → All Q xs
All-weaken P Q [] f h = tt
All-weaken P Q (x ∷ xs) f h = (f x h.0, All-weaken P Q xs f h.1)

pub All-unmap {ℓ κ} :
    {A : Type ℓ} {B : Type κ} (f : A → B) (P : B → Type 0) (xs : List A)
    → All P (map f xs)
    → All (λ x. P (f x)) xs
All-unmap f P [] h = tt
All-unmap f P (x ∷ xs) h = (h.0, All-unmap f P xs h.1)

pub get_elem?-map {ℓ κ} :
    {A : Type ℓ} {B : Type κ} (f : A → B) (xs : List A) (i : ℕ) (b : B)
    → get_elem? (map f xs) i ≡ some b
    → (a : A) × (get_elem? xs i ≡ some a) × (f a ≡ b)
get_elem?-map f [] i b e = absurd (cc e)
get_elem?-map f (x ∷ xs) zero b e = (x, refl, cc e)
get_elem?-map f (x ∷ xs) (suc i) b e = get_elem?-map f xs i b e
