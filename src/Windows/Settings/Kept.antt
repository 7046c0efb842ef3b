-- ===== src/Windows/Settings/Kept.antt =====
-- Lines that belong to the sections of devices, which leave the global settings alone.
use open_cam.Prelude.{
  ◌≡◌, refl, sym, ap, ◌∙◌, subst, ◌⊎◌, inl, inr, Bool, true, false, List, [], ◌∷◌, ◌++◌, Option,
  none, some, Bytes, codes, All, Bool-cases, Option-cases, append-nil, append_assoc, not, ◌||◌,
  if◌then◌else◌,
}
use open_cam.Strings.{contains, find, starts_with}
use open_cam.Windows.Settings.{
  Settings, is_bracket, is_empty, load_entry, load_line, load_loop, cache_line, cache_loop,
}
use open_cam.Windows.Settings.Lines.{contains_text}
use open_cam.Windows.Settings.Reading.{header_line, load_line-header}

abbrev pub IsHeader : Bytes → Type 0
IsHeader line = (name : Bytes) × (line ≡ header_line name)

-- Every line that the reader of the preserved lines takes for the head of a device is one.
abbrev pub AreHeadersClosed : List Bytes → Type 0
AreHeadersClosed =
    All (λ l. is_bracket l ≡ true → contains_text (codes "DEVICE:") l ≡ true → IsHeader l)

-- Whether a section is that of a device, by its head.
abbrev of_device : Option Bytes → Bool
of_device none = false
of_device (some head) = contains_text (codes "DEVICE:") head

-- The last line with a bracket in front, with this line read behind a head.
abbrev head_of : Option Bytes → Bytes → Option Bytes
head_of head l = if starts_with (codes "[") l then some l else head

abbrev own_line : Option Bytes → Bytes → List Bytes
own_line head l = if is_empty l || not (of_device head) then [] else l ∷ []

-- The lines of a file that belong to devices, behind a head: those that are not empty and whose last
-- line with a bracket in front, from the line itself upwards, has "DEVICE:" in it.
abbrev pub device_text : Option Bytes → List Bytes → List Bytes
device_text head [] = []
device_text head (l ∷ ls) = own_line (head_of head l) l ++ device_text (head_of head l) ls

is_empty-plain : (l : Bytes) → is_empty l ≡ true → is_bracket l ≡ false
unfolding starts_with
is_empty-plain [] e = refl
is_empty-plain (x ∷ l) e = absurd (cc)

cache_line-own_line :
    (head : Option Bytes) (kept : List Bytes) (l : Bytes)
    → cache_line (of_device head, kept) l
      ≡ (of_device (head_of head l), kept ++ own_line (head_of head l) l)
unfolding cache_line
cache_line-own_line head kept l = elim (Bool-cases (is_empty l)) [
  | inl empty ↦
      rw (empty, is_empty-plain l empty) (ap (λ ls. (of_device head, ls)) (sym (append-nil kept)))
  | inr full ↦ elim (Bool-cases (is_bracket l)) [
    | inl bracket ↦ elim (Bool-cases (contains_text (codes "DEVICE:") l)) [
      | inl device ↦ rw (full, bracket, device) refl
      | inr other ↦ rw (full, bracket, other) (ap (λ ls. (false, ls)) (sym (append-nil kept)))
    ]
    | inr entry ↦ elim (Bool-cases (of_device head)) [
      | inl yes' ↦ rw (full, entry, yes') refl
      | inr no' ↦ elim (Bool-cases (contains l b'=')) [
        | inl sign ↦ rw (full, entry, no', sign) (ap (λ ls. (false, ls)) (sym (append-nil kept)))
        | inr bare ↦ rw (full, entry, no', bare) (ap (λ ls. (false, ls)) (sym (append-nil kept)))
      ]
    ]
  ]
]

-- The lines that are kept are those of the devices.
pub cache_loop-device_text :
    (ls kept : List Bytes) (head : Option Bytes)
    → (cache_loop (of_device head, kept) ls).1 ≡ kept ++ device_text head ls
unfolding cache_loop
cache_loop-device_text [] kept head = sym (append-nil kept)
cache_loop-device_text (l ∷ ls) kept head =
    let own = head_of head l in
    ap (λ st. (cache_loop st ls).1) (cache_line-own_line head kept l)
    ∙ cache_loop-device_text ls (kept ++ own_line own l) own
    ∙ append_assoc kept (own_line own l) (device_text own ls)

-- The head of a section, or a line inside one.
abbrev pub IsSectionLine : Bool → Bytes → Type 0
IsSectionLine inside line = IsHeader line ⊎ ((inside ≡ true) × (is_bracket line ≡ false))

-- The lines of sections, behind a line that is inside one or not.
abbrev pub AreSections : Bool → List Bytes → Type 0
AreSections inside [] = Unit
AreSections inside (l ∷ ls) = IsSectionLine inside l × AreSections true ls

abbrev pub ends : Bool → List Bytes → Bool
ends inside [] = inside
ends inside (l ∷ ls) = true

pub ends-snoc : (inside : Bool) (ls : List Bytes) (l : Bytes) → ends inside (ls ++ l ∷ []) ≡ true
ends-snoc inside [] l = refl
ends-snoc inside (k ∷ ls) l = refl

pub AreSections-snoc :
    (inside : Bool) (ls : List Bytes) (l : Bytes)
    → AreSections inside ls
    → IsSectionLine (ends inside ls) l
    → AreSections inside (ls ++ l ∷ [])
AreSections-snoc inside [] l h last = (last, tt)
AreSections-snoc inside (k ∷ []) l h last = (h.0, (last, tt))
AreSections-snoc inside (k ∷ m ∷ ls) l h last = (h.0, AreSections-snoc true (m ∷ ls) l h.1 last)

-- What a line of a section leaves: the settings as they were, and some device.
abbrev Leaves : Settings → Settings × Option Bytes → Type 0
Leaves s (s', device) = (s'.settings ≡ s.settings) × (d : Bytes) × (device ≡ some d)

load_line-Leaves :
    (s : Settings) (inside : Bool) (device : Option Bytes) (l : Bytes)
    → (inside ≡ true → (d : Bytes) × (device ≡ some d))
    → IsSectionLine inside l
    → Leaves s (load_line (s, device) l)
unfolding load_line load_entry
load_line-Leaves s inside device l known (inl (name, head)) =
    subst (Leaves s) (sym (ap (load_line (s, device)) head ∙ load_line-header s device name))
      (refl, name, refl)
load_line-Leaves s inside device l known (inr (within, plain)) =
    let (d, same) = known within in
    elim (Bool-cases (is_empty l)) [
      | inl empty ↦ rw empty (refl, d, same)
      | inr full ↦ elim (Option-cases (find b'=' l)) [
        | inl none' ↦ rw (full, plain, none') (refl, d, same)
        | inr (i, found) ↦ rw (full, plain, found, same) (refl, d, refl)
      ]
    ]

-- Reading the lines of sections leaves the global settings as they were.
pub load_loop-AreSections :
    (ls : List Bytes) (s : Settings) (inside : Bool) (device : Option Bytes)
    → (inside ≡ true → (d : Bytes) × (device ≡ some d))
    → AreSections inside ls
    → (load_loop (s, device) ls).0.settings ≡ s.settings
unfolding load_loop
load_loop-AreSections [] s inside device known h = refl
load_loop-AreSections (l ∷ ls) s inside device known h =
    let step = load_line-Leaves s inside device l known h.0 in
    let after = load_line (s, device) l in
    load_loop-AreSections ls after.0 true after.1 (λ e. (step.1, step.2)) h.1 ∙ step.0
