-- ===== src/Windows/Settings/Lines.antt =====
-- The lines of a text file: `std::getline`, `std::endl`, and searches in a line.
use open_cam.Prelude.{
  ℕ, ◌≡◌, refl, Bool, false, ◌||◌, List, [], ◌∷◌, ◌++◌, ◌==◌, if◌then◌else◌, Bytes, All, inl, inr,
  Bool-cases,
}
use open_cam.Strings.{starts_with}
use open_cam.Strings.Find.{Lacks}

abbrev pub onto_first : ℕ → List Bytes → List Bytes
onto_first c [] = (c ∷ []) ∷ []
onto_first c (l ∷ ls) = (c ∷ l) ∷ ls

-- The lines that `std::getline` reads one after the other.
unfoldable pub lines : Bytes → List Bytes
lines [] = []
lines (c ∷ cs) = if c == 10 then [] ∷ lines cs else onto_first c (lines cs)

-- The lines written, each with `std::endl`.
unfoldable pub text : List Bytes → Bytes
text [] = []
text (l ∷ ls) = l ++ 10 ∷ text ls

-- `line.back()`; the code asks for it only where the line is not empty.
unfoldable pub back : Bytes → ℕ
back [] = 0
back (c ∷ []) = c
back (c ∷ d ∷ cs) = back (d ∷ cs)

-- `line.find(part) != npos`
unfoldable pub contains_text : Bytes → Bytes → Bool
contains_text part [] = starts_with part []
contains_text part (c ∷ cs) = starts_with part (c ∷ cs) || contains_text part cs

abbrev pub IsLine : Bytes → Type 0
IsLine = Lacks 10

lines-append : (l cs : Bytes) → IsLine l → lines (l ++ 10 ∷ cs) ≡ l ∷ lines cs
unfolding lines
lines-append [] cs h = refl
lines-append (c ∷ l) cs h = rw (h.0, lines-append l cs h.1)

-- What was written line by line is read line by line.
pub lines-text : (ls : List Bytes) → All IsLine ls → lines (text ls) ≡ ls
unfolding lines text
lines-text [] h = refl
lines-text (l ∷ ls) h = rw (lines-append l (text ls) h.0, lines-text ls h.1)

onto_first-IsLine :
    (c : ℕ) (ls : List Bytes) → (c == 10) ≡ false → All IsLine ls → All IsLine (onto_first c ls)
onto_first-IsLine c [] n h = ((n, tt), tt)
onto_first-IsLine c (l ∷ ls) n h = ((n, h.0), h.1)

pub lines-IsLine : (cs : Bytes) → All IsLine (lines cs)
unfolding lines
lines-IsLine [] = tt
lines-IsLine (c ∷ cs) = elim (Bool-cases (c == 10)) [
  | inl newline ↦ rw newline (tt, lines-IsLine cs)
  | inr other ↦ rw other (onto_first-IsLine c (lines cs) other (lines-IsLine cs))
]

pub back-append : (l : Bytes) (c : ℕ) → back (l ++ c ∷ []) ≡ c
unfolding back
back-append [] c = refl
back-append (a ∷ []) c = refl
back-append (a ∷ b ∷ l) c = back-append (b ∷ l) c
