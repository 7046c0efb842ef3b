-- ===== src/Windows/Settings/RoundTrip.antt =====
-- What `Load` reads from a file that `Save` wrote with the device states.
use open_cam.Prelude.{
  ◌≡◌, refl, sym, ap, ◌∙◌, subst, true, false, List, [], ◌∷◌, ◌++◌, map, append_assoc, append-nil,
  Option, none, some, ◌==◌, Bytes, codes, All, All-append,
}
use open_cam.Strings.{find_first}
use open_cam.Strings.Find.{contains-eq_false}
use open_cam.Windows.Settings.{
  Setting, Settings, DeviceState, default_options, load_entry, load_loop, load, save, get, set,
  setting_line, device_lines, all_device_lines, is_enabled, cleared,
}
use open_cam.Windows.Settings.Decimal.{decimal, atoi-decimal}
use open_cam.Windows.Settings.Lines.{IsLine, lines, lines-text}
use open_cam.Windows.Settings.Maps.{less, put, put-append, IsOrdered, IsOrdered-append}
use open_cam.Windows.Settings.Reading.{
  IsKey, IsNext, with_state, parse_all, entry_line, load_loop-append, load_line-entry,
  load_line-nil, load_line-header_line, load_loop-section,
}
use open_cam.Windows.Settings.Sections.{IsEntry, device_lines-entries, entries-IsEntry}
use open_cam.Windows.Settings.Options.{
  IsStorableSetting, IsStorableState, default_zoom, entries, entries-back, decimal-IsLine,
}

abbrev pub state_name : DeviceState → Bytes
state_name d = d.name

abbrev pub setting_name : Setting → Bytes
setting_name e = e.name

-- The state of a device with its zoom at 1.0, as a section of the file gives it back.
abbrev pub without_zoom : DeviceState → DeviceState
without_zoom d = record d { options = default_zoom d.options }

-- Settings that a file can hold: in the order of the maps, and of storable names and values.
pub record IsStorable (s : Settings) : Type 0 where
  pub settings_ok : All IsStorableSetting s.settings
  pub settings_ordered : IsOrdered setting_name s.settings
  pub states_ok : All IsStorableState s.loaded_device_states
  pub states_ordered : IsOrdered state_name s.loaded_device_states

keys_of : (es : List (Bytes × Bytes)) → All IsEntry es → All (λ e. IsKey (e.0)) es
keys_of [] h = tt
keys_of (e ∷ es) h = (h.0.0, keys_of es h.1)

load_loop-device_lines :
    (s : Settings) (device : Option Bytes) (d : DeviceState)
    → IsStorableState d
    → IsNext d.name s
    → load_loop (s, device) (device_lines d)
      ≡ (with_state s d.name (default_zoom d.options), some d.name)
unfolding load_loop
load_loop-device_lines s device d h next =
    let es = entries d.options in
    ap (load_loop (s, device)) (device_lines-entries d)
    ∙ ap (λ st. load_loop st (map entry_line es ++ [] ∷ []))
        (load_line-header_line s device d.name next)
    ∙ load_loop-append (with_state s d.name default_options, some d.name) (map entry_line es)
        ([] ∷ [])
    ∙ ap (λ st. load_loop st ([] ∷ []))
        (load_loop-section s d.name default_options es next (keys_of es (entries-IsEntry d h)))
    ∙ load_line-nil (with_state s d.name (parse_all default_options es), some d.name)
    ∙ ap (λ o. (with_state s d.name o, some d.name)) (entries-back d h)

abbrev with_states : Settings → List DeviceState → Settings
with_states s ds = record s { loaded_device_states = ds }

load_loop-all_device_lines :
    (ds : List DeviceState) (s : Settings) (device : Option Bytes)
    → All IsStorableState ds
    → IsOrdered state_name (s.loaded_device_states ++ map without_zoom ds)
    → (load_loop (s, device) (all_device_lines ds)).0
      ≡ with_states s (s.loaded_device_states ++ map without_zoom ds)
unfolding load_loop all_device_lines
load_loop-all_device_lines [] s device h ordered =
    ap (with_states s) (sym (append-nil s.loaded_device_states))
load_loop-all_device_lines (d ∷ ds) s device h ordered =
    let read = without_zoom d in
    let assoc = append_assoc s.loaded_device_states (read ∷ []) (map without_zoom ds) in
    let next =
      IsOrdered-append state_name s.loaded_device_states read (map without_zoom ds) ordered in
    let s1 = with_states s (s.loaded_device_states ++ read ∷ []) in
    ap (λ st. st.0)
      (load_loop-append (s, device) (device_lines d) (all_device_lines ds)
        ∙ ap (λ st. load_loop st (all_device_lines ds))
            (load_loop-device_lines s device d h.0 next))
    ∙ load_loop-all_device_lines ds s1 (some d.name) h.1
        (subst (IsOrdered state_name) (sym assoc) ordered)
    ∙ ap (with_states s) assoc

abbrev pub with_settings : Settings → List Setting → Settings
with_settings s es = record s { settings = es }

load_loop-settings :
    (es : List Setting) (s : Settings)
    → All IsStorableSetting es
    → IsOrdered setting_name (s.settings ++ es)
    → load_loop (s, none) (map setting_line es) ≡ (with_settings s (s.settings ++ es), none)
unfolding load_loop setting_line load_entry set
load_loop-settings [] s h ordered =
    ap (λ es. (with_settings s es, none)) (sym (append-nil s.settings))
load_loop-settings (e ∷ es) s h ordered =
    let assoc = append_assoc s.settings (e ∷ []) es in
    let before = IsOrdered-append setting_name s.settings e es ordered in
    let key : IsKey e.name = record {
      no_sign = h.0.name_ok.no_sign;
      no_bracket = h.0.name_ok.no_bracket;
    } in
    ap (λ st. load_loop st (map setting_line es))
      (load_line-entry s none e.name (decimal e.value) key
        ∙ ap
            (λ z. (
              with_settings s (put setting_name (record { name = e.name; value = z }) s.settings),
              none,
            ))
            (atoi-decimal e.value h.0.value_ok)
        ∙ ap (λ fs. (with_settings s fs, none)) (put-append setting_name e s.settings before))
    ∙ load_loop-settings es (with_settings s (s.settings ++ e ∷ [])) h.1
        (subst (IsOrdered setting_name) (sym assoc) ordered)
    ∙ ap (λ fs. (with_settings s fs, none)) assoc

pub setting-IsLine :
    (es : List Setting) → All IsStorableSetting es → All IsLine (map setting_line es)
unfolding setting_line
setting-IsLine [] h = tt
setting-IsLine (e ∷ es) h = (
  All-append (λ x. (x == 10) ≡ false) e.name _ h.0.name_ok.is_line (refl, decimal-IsLine e.value),
  setting-IsLine es h.1,
)

entry-IsLine : (es : List (Bytes × Bytes)) → All IsEntry es → All IsLine (map entry_line es)
entry-IsLine [] h = tt
entry-IsLine (e ∷ es) h =
    (All-append (λ x. (x == 10) ≡ false) e.0 _ h.0.1 (refl, h.0.2), entry-IsLine es h.1)

device_lines-IsLine : (d : DeviceState) → IsStorableState d → All IsLine (device_lines d)
unfolding find_first
device_lines-IsLine d h = subst (All IsLine) (sym (device_lines-entries d)) (
  All-append (λ x. (x == 10) ≡ false) (codes "[DEVICE:") (d.name ++ codes "]")
      (contains-eq_false (codes "[DEVICE:") 10 refl)
      (All-append (λ x. (x == 10) ≡ false) d.name (codes "]") h.name_ok (refl, tt)),
  All-append IsLine (map entry_line (entries d.options)) ([] ∷ [])
      (entry-IsLine (entries d.options) (entries-IsEntry d h)) (tt, tt),
)

all_device_lines-IsLine :
    (ds : List DeviceState) → All IsStorableState ds → All IsLine (all_device_lines ds)
unfolding all_device_lines
all_device_lines-IsLine [] h = tt
all_device_lines-IsLine (d ∷ ds) h =
    All-append IsLine (device_lines d) (all_device_lines ds) (device_lines-IsLine d h.0)
      (all_device_lines-IsLine ds h.1)

-- The lines of the global settings, read from the beginning.
pub load_loop-front :
    (s : Settings) (rest : List Bytes)
    → All IsStorableSetting s.settings
    → IsOrdered setting_name s.settings
    → load_loop (cleared, none) (map setting_line s.settings ++ [] ∷ rest)
      ≡ load_loop (with_settings cleared s.settings, none) rest
unfolding load_loop
load_loop-front s rest h ordered =
    load_loop-append (cleared, none) (map setting_line s.settings) ([] ∷ rest)
    ∙ ap (λ st. load_loop st ([] ∷ rest)) (load_loop-settings s.settings cleared h ordered)
    ∙ ap (λ st. load_loop st rest) (load_line-nil (with_settings cleared s.settings, none))

lines-save :
    (s : Settings)
    → IsStorable s
    → is_enabled s ≡ true
    → lines (save s) ≡ map setting_line s.settings ++ [] ∷ all_device_lines s.loaded_device_states
unfolding save
lines-save s h e = rw e (
    lines-text (map setting_line s.settings ++ [] ∷ all_device_lines s.loaded_device_states) (
      All-append IsLine (map setting_line s.settings) ([] ∷ all_device_lines s.loaded_device_states)
        (setting-IsLine s.settings h.settings_ok)
        (tt, all_device_lines-IsLine s.loaded_device_states h.states_ok)))

All-without_zoom :
    (name : Bytes) (ds : List DeviceState)
    → All (λ (d : DeviceState). less name d.name ≡ true) ds
    → All (λ (d : DeviceState). less name d.name ≡ true) (map without_zoom ds)
All-without_zoom name [] h = tt
All-without_zoom name (d ∷ ds) h = (h.0, All-without_zoom name ds h.1)

IsOrdered-without_zoom :
    (ds : List DeviceState) → IsOrdered state_name ds → IsOrdered state_name (map without_zoom ds)
IsOrdered-without_zoom [] h = tt
IsOrdered-without_zoom (d ∷ ds) h = (All-without_zoom d.name ds h.0, IsOrdered-without_zoom ds h.1)

-- The settings without what the file does not hold.
abbrev read_of : Settings → Settings
read_of s = record s {
  loaded_device_states = map without_zoom s.loaded_device_states;
  preserved_device_lines = [];
}

read_back :
    (s : Settings)
    → IsStorable s
    → is_enabled s ≡ true
    → (load_loop (cleared, none) (lines (save s))).0 ≡ read_of s
read_back s h e =
    let devices = all_device_lines s.loaded_device_states in
    ap (λ ls. (load_loop (cleared, none) ls).0) (lines-save s h e)
    ∙ ap (λ st. st.0) (load_loop-front s devices h.settings_ok h.settings_ordered)
    ∙ load_loop-all_device_lines s.loaded_device_states (with_settings cleared s.settings) none
        h.states_ok (IsOrdered-without_zoom s.loaded_device_states h.states_ordered)

-- Storable settings that were saved with the device states on are loaded as they were, whatever the
-- program held before, but the zoom of each device is back at that of new options, and there are no
-- preserved lines.
pub load-save :
    (s t : Settings)
    → IsStorable s
    → is_enabled s ≡ true
    → load (some (save s)) t ≡ record s {
      loaded_device_states = map without_zoom s.loaded_device_states;
      preserved_device_lines = [];
    }
unfolding load get
load-save s t h e = rw (read_back s h e, e) refl
