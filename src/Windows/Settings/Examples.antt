-- ===== src/Windows/Settings/Examples.antt =====
-- Runs of the settings, and the theorems at concrete files.
use open_cam.Prelude.{
  ℕ, ◌<◌, ◌^◌, arith, List, ◌≡◌, refl, true, false, [], ◌∷◌, none, some, Bytes, codes, equal_bytes,
}
use open_cam.Prelude.Int.{pos, negsuc}
use open_cam.Strings.Find.{contains-eq_false}
use open_cam.Strings.{contains, find_first, starts_with}
use open_cam.Windows.Settings.{
  is_bracket, Setting, Settings, DeviceState, default_options, get, set, parse_device_line,
  load_entry, load_line, load_loop, load, cache_line, cache_loop, cache_preserved_lines, save,
  cleared, save_device_states, update_device_states, get_device_states,
}
use open_cam.Windows.Settings.Decimal.{decimal, digits, atoi, read_digits, read_signed, skip_spaces}
use open_cam.Windows.Settings.Lines.{back, contains_text, lines, text}
use open_cam.Windows.Settings.Maps.{less, lookup, put, touch, update}
use open_cam.Windows.Settings.Preserved.{load-save_preserved}
use open_cam.Windows.Settings.Kept.{AreHeadersClosed, device_text}
use open_cam.Windows.Settings.RoundTrip.{load-save, IsStorable, with_settings}
use open_cam.Windows.Settings.Options.{IsStorableSetting, IsStorableState}

abbrev pixel : DeviceState
pixel = record {
  name = codes "Pixel [7]";
  options = record default_options {
    fps = negsuc 0;
    zoom = 0x40000000;
    filter_slider_values =
        record { name = codes "hue"; value = negsuc 9 }
        ∷ record { name = codes "tint"; value = pos 50 }
        ∷ [];
    active_effect_filter = codes "a=b";
  };
}

abbrev stored : Settings
stored = record {
  settings =
      record { name = save_device_states; value = pos 1 }
      ∷ record { name = codes "SHOW_STATS"; value = pos 0 }
      ∷ [];
  loaded_device_states = pixel ∷ [];
  preserved_device_lines = codes "[DEVICE:old]" ∷ [];
}

less_test : less (codes "SAVE") (codes "SHOW") ≡ true
unfolding less
less_test = refl

read_test : atoi (codes " -120x") ≡ negsuc 119
unfolding atoi skip_spaces read_signed read_digits
read_test = refl

written_test : decimal (negsuc 2147483647) ≡ codes "-2147483648"
unfolding decimal digits
written_test = refl

missing_test : get (codes "MINIMIZE_TASKBAR") stored ≡ negsuc 0
unfolding get lookup equal_bytes
missing_test = refl

turned_off_test :
    get_device_states (update_device_states [] (set save_device_states (pos 0) stored)) ≡ []
unfolding get_device_states update_device_states get set lookup put equal_bytes
turned_off_test = refl

plain-IsStorableSetting :
    (name : Bytes) (n : ℕ)
    → contains name 10 ≡ false
    → contains name b'=' ≡ false
    → is_bracket name ≡ false
    → n < 2 ^ 31
    → IsStorableSetting (record { name = name; value = pos n })
plain-IsStorableSetting name n l e b h = record {
  name_ok = record {
    is_line = contains-eq_false name 10 l;
    no_sign = contains-eq_false name b'=' e;
    no_bracket = b;
  };
  value_ok = h;
}

pixel-IsStorableState : IsStorableState pixel
unfolding find_first less
pixel-IsStorableState = record {
  name_ok = contains-eq_false pixel.name 10 refl;
  effect_ok = contains-eq_false (codes "a=b") 10 refl;
  ints = record {
    fps_ok = omega arith;
    width_ok = omega arith;
    height_ok = omega arith;
    bitrate_ok = omega arith;
    min_bitrate_ok = omega arith;
    max_bitrate_ok = omega arith;
    focus_mode_ok = omega arith;
  };
  filters = (
    record {
      is_line = contains-eq_false (codes "hue") 10 refl;
      no_sign = contains-eq_false (codes "hue") b'=' refl;
      value_ok = omega arith;
    },
    (
      record {
        is_line = contains-eq_false (codes "tint") 10 refl;
        no_sign = contains-eq_false (codes "tint") b'=' refl;
        value_ok = omega arith;
      },
      tt,
    ),
  );
  ordered = ((refl, tt), (tt, tt));
}

stored-IsStorable : IsStorable stored
unfolding find_first starts_with less
stored-IsStorable = record {
  settings_ok = (
    plain-IsStorableSetting save_device_states 1 refl refl refl (omega arith),
    (plain-IsStorableSetting (codes "SHOW_STATS") 0 refl refl refl (omega arith), tt),
  );
  settings_ordered = ((refl, tt), (tt, tt));
  states_ok = (pixel-IsStorableState, tt);
  states_ordered = (tt, tt);
}

load-save_example : load (some (save stored)) cleared ≡ record stored {
  loaded_device_states =
      record pixel { options = record pixel.options { zoom = default_options.zoom } } ∷ [];
  preserved_device_lines = [];
}
unfolding get lookup equal_bytes
load-save_example = load-save stored cleared stored-IsStorable refl

-- A file with two devices, a line that no reader knows and the states off.
abbrev old_file : Bytes
old_file = text (
    codes "SAVE_DEVICE_STATES=0"
    ∷ []
    ∷ codes "[DEVICE:A]"
    ∷ codes "fps=15"
    ∷ codes "unknown"
    ∷ codes "[DEVICE:B]"
    ∷ codes "E:=x"
    ∷ [])

abbrev changed : List Setting
changed = record { name = codes "SHOW_STATS"; value = pos 1 } ∷ []

old_file-AreHeadersClosed : AreHeadersClosed (lines old_file)
unfolding lines text starts_with contains_text
old_file-AreHeadersClosed = (
  λ bracket device. absurd (cc),
  (
    λ bracket device. absurd (cc),
    (
      λ bracket device. (codes "A", refl),
      (
        λ bracket device. absurd (cc),
        (
          λ bracket device. absurd (cc),
          (λ bracket device. (codes "B", refl), (λ bracket device. absurd (cc), tt)),
        ),
      ),
    ),
  ),
)

load-save_preserved_example :
    ((load (some (save (with_settings (load (some old_file) cleared) changed))) stored).settings
      ≡ changed)
    × ((load
          (some (save (with_settings (load (some old_file) cleared) changed)))
          stored).preserved_device_lines
        ≡ (load (some old_file) cleared).preserved_device_lines)
    × ((load (some old_file) cleared).preserved_device_lines ≡ device_text none (lines old_file))
unfolding find_first starts_with get lookup equal_bytes less put touch update set load load_loop
    load_line load_entry parse_device_line cache_preserved_lines cache_loop cache_line contains_text
    back lines text atoi read_digits read_signed skip_spaces
load-save_preserved_example =
    load-save_preserved old_file changed cleared stored old_file-AreHeadersClosed
      (plain-IsStorableSetting (codes "SHOW_STATS") 1 refl refl refl (omega arith), tt) (tt, tt)
      refl refl
