-- ===== src/Windows/Settings/Reading.antt =====
-- What `Load` makes of single lines and of the lines of one section.
use open_cam.Prelude.{
  ℕ, suc, ◌-◌, ◌≡◌, refl, ap, ◌∙◌, false, List, [], ◌∷◌, ◌++◌, map, Option, some, ◌==◌, Bytes,
  codes, All, length, length-append, take, drop, take-append, arith,
}
use open_cam.Strings.{starts_with}
use open_cam.Strings.Find.{Lacks, find_first-append}
use open_cam.Windows.Activation.{StreamOptions}
use open_cam.Windows.Settings.{
  Settings, DeviceState, default_options, is_bracket, is_empty, parse_device_line, load_entry,
  load_line, load_loop,
}
use open_cam.Windows.Settings.Lines.{back, back-append}
use open_cam.Windows.Settings.Maps.{touch, touch-append, update-append, AllBefore}

pub load_loop-append :
    (st : Settings × Option Bytes) (a b : List Bytes)
    → load_loop st (a ++ b) ≡ load_loop (load_loop st a) b
unfolding load_loop
load_loop-append st [] b = refl
load_loop-append st (l ∷ a) b = load_loop-append (load_line st l) a b

pub drop_past : (a : Bytes) (c : ℕ) (b : Bytes) → drop (suc (length a)) (a ++ c ∷ b) ≡ b
drop_past [] c b = refl
drop_past (x ∷ a) c b = drop_past a c b

pub is_empty-append : (a : Bytes) (c : ℕ) (b : Bytes) → is_empty (a ++ c ∷ b) ≡ false
is_empty-append [] c b = refl
is_empty-append (x ∷ a) c b = refl

pub is_bracket-append : (a b : Bytes) → is_bracket a ≡ false → is_bracket (a ++ b'=' ∷ b) ≡ false
unfolding starts_with
is_bracket-append [] b h = refl
is_bracket-append (x ∷ a) b h = h

-- A text before an equals sign that `Load` takes for a key.
pub record IsKey (key : Bytes) : Type 0 where
  pub no_sign : Lacks b'=' key
  pub no_bracket : is_bracket key ≡ false

pub load_line-entry :
    (s : Settings) (device : Option Bytes) (key val : Bytes)
    → IsKey key
    → load_line (s, device) (key ++ b'=' ∷ val) ≡ (load_entry s device key val, device)
unfolding load_line
load_line-entry s device key val h =
    rw
      (
        is_empty-append key b'=' val,
        is_bracket-append key val h.no_bracket,
        find_first-append (λ x. x == b'=') key b'=' val h.no_sign refl,
        take-append key (b'=' ∷ val),
        drop_past key b'=' val,
      )
      refl

pub load_line-nil : (st : Settings × Option Bytes) → load_line st [] ≡ st
unfolding load_line
load_line-nil st = refl

-- The registry with one more state at its end, of a name that stands behind the others.
abbrev pub with_state : Settings → Bytes → StreamOptions → Settings
with_state s name options = record s {
  loaded_device_states = s.loaded_device_states ++ record { name = name; options = options } ∷ [];
}

abbrev pub IsNext : Bytes → Settings → Type 0
IsNext name s = AllBefore (λ (d : DeviceState). d.name) name s.loaded_device_states

abbrev pub header_line : Bytes → Bytes
header_line name = codes "[DEVICE:" ++ name ++ codes "]"

header_line-back : (name : Bytes) → back (header_line name) ≡ b']'
header_line-back name = back-append (codes "[DEVICE:" ++ name) b']'

take-header_line :
    (name : Bytes)
    → take (length (header_line name) - 2) (drop 1 (header_line name)) ≡ codes "DEVICE:" ++ name
take-header_line name =
    ap (λ n. take n (codes "DEVICE:" ++ name ++ codes "]")) {y = length (codes "DEVICE:" ++ name)}
      (omega (arith, length-append (codes "[DEVICE:" ++ name) (codes "]")))
    ∙ take-append (codes "DEVICE:" ++ name) (codes "]")

-- The head of a section makes a state with the defaults where the device has none.
pub load_line-header :
    (s : Settings) (device : Option Bytes) (name : Bytes)
    → load_line (s, device) (header_line name) ≡ (
      record s {
        loaded_device_states =
            touch
              (λ (d : DeviceState). d.name)
              (record { name = name; options = default_options })
              s.loaded_device_states;
      },
      some name,
    )
unfolding load_line starts_with
load_line-header s device name = rw (header_line-back name, take-header_line name) refl

-- The lines below the head of a new section change the defaults.
pub load_line-header_line :
    (s : Settings) (device : Option Bytes) (name : Bytes)
    → IsNext name s
    → load_line (s, device) (header_line name) ≡ (with_state s name default_options, some name)
load_line-header_line s device name h =
    load_line-header s device name
    ∙ ap (λ ds. (record s { loaded_device_states = ds }, some name))
        (touch-append (λ (d : DeviceState). d.name) _ _ h)

pub load_entry-with_state :
    (s : Settings) (name : Bytes) (options : StreamOptions) (key val : Bytes)
    → IsNext name s
    → load_entry (with_state s name options) (some name) key val
      ≡ with_state s name (parse_device_line options key val)
unfolding load_entry
load_entry-with_state s name options key val h =
    rw (update-append (λ (d : DeviceState). d.name) _ _ _ h) refl

-- The keys and values of a section, taken one after the other.
abbrev pub parse_all : StreamOptions → List (Bytes × Bytes) → StreamOptions
parse_all options [] = options
parse_all options ((key, val) ∷ rest) = parse_all (parse_device_line options key val) rest

abbrev pub entry_line : Bytes × Bytes → Bytes
entry_line (key, val) = key ++ b'=' ∷ val

pub load_loop-section :
    (s : Settings) (name : Bytes) (options : StreamOptions) (entries : List (Bytes × Bytes))
    → IsNext name s
    → All (λ e. IsKey (e.0)) entries
    → load_loop (with_state s name options, some name) (map entry_line entries)
      ≡ (with_state s name (parse_all options entries), some name)
unfolding load_loop
load_loop-section s name options [] h keys = refl
load_loop-section s name options ((key, val) ∷ rest) h keys =
    ap (λ st. load_loop st (map entry_line rest))
      (load_line-entry (with_state s name options) (some name) key val keys.0
        ∙ ap (λ t. (t, some name)) (load_entry-with_state s name options key val h))
    ∙ load_loop-section s name (parse_device_line options key val) rest h keys.1
