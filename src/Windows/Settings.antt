-- ===== src/Windows/Settings.antt =====
-- The settings of the Windows program: `Get`, `Set`, `GetDeviceStates`, `UpdateDeviceStates`,
-- `ParseDeviceLine`, `Load`, `CachePreservedLines` and `Save` of windows/src/settings.cpp. The file
-- is the bytes that its text streams read and write; where it lies is left to wxWidgets.
pub mod Maps
pub mod Decimal
pub mod Lines
pub mod Reading
pub mod Options
pub mod Sections
pub mod RoundTrip
pub mod Kept
pub mod Preserved
mod Examples
use open_cam.Prelude.{
  ℕ, suc, ◌-◌, Bool, true, false, not, ◌&&◌, List, [], ◌∷◌, ◌++◌, map, Option, none, some, ◌==◌,
  if◌then◌else◌, Bytes, codes, equal_bytes, length, take, drop,
}
use open_cam.Prelude.Int.{ℤ, pos, negsuc}
use open_cam.Strings.{find, contains, starts_with}
use open_cam.Windows.Activation.{FilterValue, StreamOptions}
use open_cam.Windows.Settings.Maps.{lookup, put, update, touch}
use open_cam.Windows.Settings.Decimal.{atoi, decimal}
use open_cam.Windows.Settings.Lines.{lines, text, back, contains_text}

-- An entry of the map of the global settings.
pub record Setting : Type 0 where
  pub name : Bytes
  pub value : ℤ

-- An entry of the registry of the device states.
pub record DeviceState : Type 0 where
  pub name : Bytes
  pub options : StreamOptions

-- The static members of the class; the maps are lists in the order of their keys.
pub record Settings : Type 0 where
  pub settings : List Setting
  pub loaded_device_states : List DeviceState
  pub preserved_device_lines : List Bytes

-- `StreamOptions` as its member initializers make it.
abbrev pub default_options : StreamOptions
default_options = record {
  fps = pos 30;
  width = pos 640;
  height = pos 480;
  back_camera_active = true;
  filter_slider_values = [];
  active_effect_filter = [];
  adaptive_bitrate = false;
  bitrate = pos 4000;
  min_bitrate = pos 2000;
  max_bitrate = pos 12000;
  zoom = 0x3f800000;
  stabilization_enabled = false;
  flash_enabled = false;
  h265_enabled = false;
  focus_mode = pos 0;
}

abbrev pub save_device_states : Bytes
save_device_states = codes "SAVE_DEVICE_STATES"

unfoldable pub get : Bytes → Settings → ℤ
get name s = elim (lookup (λ e. e.name) name s.settings) [ some e ↦ e.value | none ↦ negsuc 0 ]

unfoldable pub set : Bytes → ℤ → Settings → Settings
set name value s = record s {
  settings = put (λ e. e.name) (record { name = name; value = value }) s.settings;
}

abbrev pub is_one : ℤ → Bool
is_one (pos n) = n == 1
is_one (negsuc n) = false

-- `Get("SAVE_DEVICE_STATES") == 1`
abbrev pub is_enabled : Settings → Bool
is_enabled s = is_one (get save_device_states s)

unfoldable pub get_device_states : Settings → List DeviceState
get_device_states s = if is_enabled s then s.loaded_device_states else []

unfoldable pub update_device_states : List DeviceState → Settings → Settings
update_device_states current s =
    if is_enabled s then record s { loaded_device_states = current } else s

abbrev pub is_set : Bytes → Bool
is_set val = equal_bytes val (codes "1")

unfoldable pub set_resolution : StreamOptions → Bytes → StreamOptions
set_resolution state val = elim (find b'x' val) [
  | some x_pos ↦ record state {
    width = atoi (take x_pos val);
    height = atoi (drop (suc x_pos) val);
  }
  | none ↦ state
]

unfoldable pub parse_device_line : StreamOptions → Bytes → Bytes → StreamOptions
parse_device_line state key val =
    if equal_bytes key (codes "fps")
    then record state { fps = atoi val }
    else if equal_bytes key (codes "back_cam")
    then record state { back_camera_active = is_set val }
    else if equal_bytes key (codes "res")
    then set_resolution state val
    else if equal_bytes key (codes "adaptive_br")
    then record state { adaptive_bitrate = is_set val }
    else if equal_bytes key (codes "bitrate")
    then record state { bitrate = atoi val }
    else if equal_bytes key (codes "min_br")
    then record state { min_bitrate = atoi val }
    else if equal_bytes key (codes "max_br")
    then record state { max_bitrate = atoi val }
    else if equal_bytes key (codes "stab")
    then record state { stabilization_enabled = is_set val }
    else if equal_bytes key (codes "flash")
    then record state { flash_enabled = is_set val }
    else if equal_bytes key (codes "h265")
    then record state { h265_enabled = is_set val }
    else if equal_bytes key (codes "focus")
    then record state { focus_mode = atoi val }
    else if starts_with (codes "C:") key
    then record state {
      filter_slider_values =
          put (λ f. f.name) (record { name = drop 2 key; value = atoi val })
            state.filter_slider_values;
    }
    else if starts_with (codes "E:") key
    then record state { active_effect_filter = val }
    else state

abbrev pub is_empty : Bytes → Bool
is_empty [] = true
is_empty (x ∷ xs) = false

-- `line.front() == '['`
abbrev pub is_bracket : Bytes → Bool
is_bracket = starts_with (codes "[")

-- A line of the form `key=value`, in the section of a device or outside.
unfoldable pub load_entry : Settings → Option Bytes → Bytes → Bytes → Settings
load_entry s (some device) key val = record s {
  loaded_device_states =
      update (λ d. d.name) device (λ d. record d { options = parse_device_line d.options key val })
        s.loaded_device_states;
}
load_entry s none key val = set key (atoi val) s

-- One round of the loop of `Load`; `currentDevice` is the name of the entry it points to.
unfoldable pub load_line : Settings × Option Bytes → Bytes → Settings × Option Bytes
load_line (s, device) line =
    if is_empty line
    then (s, device)
    else if is_bracket line && back line == b']'
    then (let section = take (length line - 2) (drop 1 line) in
        let name = drop 7 section in
        if starts_with (codes "DEVICE:") section
        then (
          record s {
            loaded_device_states =
                touch (λ d. d.name) (record { name = name; options = default_options })
                  s.loaded_device_states;
          },
          some name,
        )
        else (s, none))
    else elim (find b'=' line) [
      | none ↦ (s, device)
      | some at ↦ (load_entry s device (take at line) (drop (suc at) line), device)
    ]

unfoldable pub load_loop : Settings × Option Bytes → List Bytes → Settings × Option Bytes
load_loop state [] = state
load_loop state (line ∷ rest) = load_loop (load_line state line) rest

-- The last test of a round, behind the tests that set `insideDeviceSection`.
abbrev pub keep_line : Bool → List Bytes → Bytes → Bool × List Bytes
keep_line inside kept line = (inside, if inside then kept ++ line ∷ [] else kept)

-- One round of the loop of `CachePreservedLines`.
unfoldable pub cache_line : Bool × List Bytes → Bytes → Bool × List Bytes
cache_line (inside, kept) line =
    let is_device = contains_text (codes "DEVICE:") line in
    if is_empty line
    then (inside, kept)
    else if is_bracket line && is_device
    then keep_line true kept line
    else if is_bracket line && not is_device
    then keep_line false kept line
    else if not inside && contains line b'='
    then (inside, kept)
    else keep_line inside kept line

unfoldable pub cache_loop : Bool × List Bytes → List Bytes → Bool × List Bytes
cache_loop state [] = state
cache_loop state (line ∷ rest) = cache_loop (cache_line state line) rest

unfoldable pub cache_preserved_lines : List Bytes → List Bytes
cache_preserved_lines file = (cache_loop (false, []) file).1

abbrev pub cleared : Settings
cleared = record { settings = []; loaded_device_states = []; preserved_device_lines = [] }

-- `Load`; there is no file where it cannot be opened. Its two readings find the same file.
unfoldable pub load : Option Bytes → Settings → Settings
load none s = s
load (some file) s =
    let read = (load_loop (cleared, none) (lines file)).0 in
    if is_enabled read
    then read
    else record read { preserved_device_lines = cache_preserved_lines (lines file) }

unfoldable pub setting_line : Setting → Bytes
setting_line e = e.name ++ b'=' ∷ decimal e.value

unfoldable pub filter_line : FilterValue → Bytes
filter_line f = codes "C:" ++ f.name ++ b'=' ∷ decimal f.value

abbrev pub flag : Bool → Bytes
flag b = decimal (pos (if b then 1 else 0))

-- The lines of a device.
unfoldable pub device_lines : DeviceState → List Bytes
device_lines d =
    (codes "[DEVICE:" ++ d.name ++ codes "]")
      ∷ (codes "fps=" ++ decimal d.options.fps)
      ∷ (codes "res=" ++ decimal d.options.width ++ b'x' ∷ decimal d.options.height)
      ∷ (codes "back_cam=" ++ flag d.options.back_camera_active)
      ∷ (codes "adaptive_br=" ++ flag d.options.adaptive_bitrate)
      ∷ (codes "bitrate=" ++ decimal d.options.bitrate)
      ∷ (codes "min_br=" ++ decimal d.options.min_bitrate)
      ∷ (codes "max_br=" ++ decimal d.options.max_bitrate)
      ∷ (codes "stab=" ++ flag d.options.stabilization_enabled)
      ∷ (codes "flash=" ++ flag d.options.flash_enabled)
      ∷ (codes "h265=" ++ flag d.options.h265_enabled)
      ∷ (codes "focus=" ++ decimal d.options.focus_mode)
      ∷ map filter_line d.options.filter_slider_values
    ++ (codes "E:=" ++ d.options.active_effect_filter) ∷ [] ∷ []

unfoldable pub all_device_lines : List DeviceState → List Bytes
all_device_lines [] = []
all_device_lines (d ∷ ds) = device_lines d ++ all_device_lines ds

-- `Save`: what the file holds then, where it can be opened.
unfoldable pub save : Settings → Bytes
save s = text (
    map setting_line s.settings
    ++ []
      ∷ (if is_enabled s
          then all_device_lines s.loaded_device_states
          else s.preserved_device_lines))
