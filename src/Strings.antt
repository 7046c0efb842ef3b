-- ===== src/Strings.antt =====
-- The operations of `std::string` that the program uses, over byte sequences; a position that is
-- not there (`std::string::npos`) is `none`.
pub mod Find
use open_cam.Prelude.{
  ℕ, zero, suc, ◌+◌, ◌-◌, Bool, true, false, ◌&&◌, List, [], ◌∷◌, ◌++◌, Option, none, some, ◌==◌,
  if◌then◌else◌, Bytes, take, drop,
}

-- One position further.
abbrev pub shifted : Option ℕ → Option ℕ
shifted none = none
shifted (some i) = some (suc i)

-- `s.find_first_of(set)`, the set given by a test
unfoldable pub find_first : (ℕ → Bool) → Bytes → Option ℕ
find_first p [] = none
find_first p (x ∷ xs) = if p x then some 0 else shifted (find_first p xs)

-- `s.rfind(c)`
unfoldable pub rfind : ℕ → Bytes → Option ℕ
rfind c [] = none
rfind c (x ∷ xs) = elim (rfind c xs) [
  | some i ↦ some (suc i)
  | none ↦ if x == c then some 0 else none
]

-- `s.find(c)`
abbrev pub find : ℕ → Bytes → Option ℕ
find c = find_first (λ x. x == c)

-- `s.find(c) != npos`
abbrev pub contains : Bytes → ℕ → Bool
contains s c = elim (find c s) [ none ↦ false | some _ ↦ true ]

-- `s.rfind(prefix, 0) == 0`
unfoldable pub starts_with : Bytes → Bytes → Bool
starts_with [] s = true
starts_with (p ∷ ps) [] = false
starts_with (p ∷ ps) (x ∷ xs) = p == x && starts_with ps xs

-- What a C function sees of `s.c_str()`: the bytes before the first zero.
unfoldable pub c_str : Bytes → Bytes
c_str [] = []
c_str (x ∷ xs) = if x == 0 then [] else x ∷ c_str xs
