-- ===== src/Windows/Settings/Options.antt =====
-- The options of a device from the entries that are written for them.
use open_cam.Prelude.{
  ◌≡◌, refl, sym, ap, ◌∙◌, Bool, true, false, List, [], ◌∷◌, ◌++◌, map, append_assoc, append-nil,
  subst, ◌==◌, Bytes, codes, equal_bytes, All, take-append, arith,
}
use open_cam.Prelude.Int.{ℤ}
use open_cam.Strings.{starts_with}
use open_cam.Strings.Find.{Lacks, find_first-append}
use open_cam.Windows.Activation.{FilterValue, StreamOptions}
use open_cam.Windows.Settings.{
  Setting, DeviceState, default_options, is_bracket, parse_device_line, set_resolution, flag,
}
use open_cam.Windows.Settings.Decimal.{decimal, digits, IsInt, atoi-decimal, decimal-All}
use open_cam.Windows.Settings.Lines.{IsLine}
use open_cam.Windows.Settings.Maps.{put, put-append, AllBefore, IsOrdered, IsOrdered-append}
use open_cam.Windows.Settings.Reading.{parse_all, drop_past}

-- The name of a setting or of a filter that its line gives back.
pub record IsStorableName (name : Bytes) : Type 0 where
  pub is_line : IsLine name
  pub no_sign : Lacks b'=' name
  pub no_bracket : is_bracket name ≡ false

pub record IsStorableSetting (e : Setting) : Type 0 where
  pub name_ok : IsStorableName e.name
  pub value_ok : IsInt e.value

-- A filter's line has text in front of the name, so that a bracket does no harm.
pub record IsStorableFilter (f : FilterValue) : Type 0 where
  pub is_line : IsLine f.name
  pub no_sign : Lacks b'=' f.name
  pub value_ok : IsInt f.value

-- The numbers of the options are of `int`.
pub record AreInts (o : StreamOptions) : Type 0 where
  pub fps_ok : IsInt o.fps
  pub width_ok : IsInt o.width
  pub height_ok : IsInt o.height
  pub bitrate_ok : IsInt o.bitrate
  pub min_bitrate_ok : IsInt o.min_bitrate
  pub max_bitrate_ok : IsInt o.max_bitrate
  pub focus_mode_ok : IsInt o.focus_mode

pub record IsStorableState (d : DeviceState) : Type 0 where
  pub name_ok : IsLine d.name
  pub effect_ok : IsLine d.options.active_effect_filter
  pub ints : AreInts d.options
  pub filters : All IsStorableFilter d.options.filter_slider_values
  pub ordered : IsOrdered (λ (f : FilterValue). f.name) d.options.filter_slider_values

pub decimal-IsLine : (z : ℤ) → IsLine (decimal z)
decimal-IsLine z = decimal-All (λ x. (x == 10) ≡ false) z (λ d h. ground arith) refl

decimal-Lacks_x : (z : ℤ) → Lacks b'x' (decimal z)
decimal-Lacks_x z = decimal-All (λ x. (x == b'x') ≡ false) z (λ d h. ground arith) refl

-- The lines of a section that have a fixed key.
abbrev pub fixed_entries : StreamOptions → List (Bytes × Bytes)
fixed_entries o =
    (codes "fps", decimal o.fps)
    ∷ (codes "res", decimal o.width ++ b'x' ∷ decimal o.height)
    ∷ (codes "back_cam", flag o.back_camera_active)
    ∷ (codes "adaptive_br", flag o.adaptive_bitrate)
    ∷ (codes "bitrate", decimal o.bitrate)
    ∷ (codes "min_br", decimal o.min_bitrate)
    ∷ (codes "max_br", decimal o.max_bitrate)
    ∷ (codes "stab", flag o.stabilization_enabled)
    ∷ (codes "flash", flag o.flash_enabled)
    ∷ (codes "h265", flag o.h265_enabled)
    ∷ (codes "focus", decimal o.focus_mode)
    ∷ []

abbrev pub filter_entry : FilterValue → Bytes × Bytes
filter_entry f = (codes "C:" ++ f.name, decimal f.value)

set_resolution-decimal :
    (o : StreamOptions) (width height : ℤ)
    → IsInt width
    → IsInt height
    → set_resolution o (decimal width ++ b'x' ∷ decimal height)
      ≡ record o { width = width; height = height }
unfolding set_resolution
set_resolution-decimal o width height w h =
    rw
      (
        find_first-append (λ x. x == b'x') (decimal width) b'x' (decimal height)
            (decimal-Lacks_x width) refl,
        take-append (decimal width) (b'x' ∷ decimal height),
        drop_past (decimal width) b'x' (decimal height),
        atoi-decimal width w,
        atoi-decimal height h,
        set_resolution,
      )
      refl

flag-back : (b : Bool) → equal_bytes (flag b) (codes "1") ≡ b
unfolding equal_bytes decimal digits
flag-back true = refl
flag-back false = refl

fixed-back :
    (o p : StreamOptions)
    → AreInts o
    → parse_all p (fixed_entries o) ≡ record o {
      filter_slider_values = p.filter_slider_values;
      active_effect_filter = p.active_effect_filter;
      zoom = p.zoom;
    }
unfolding parse_device_line equal_bytes
fixed-back o p h =
    rw
      (
        set_resolution-decimal _ o.width o.height h.width_ok h.height_ok,
        atoi-decimal o.fps h.fps_ok,
        atoi-decimal o.bitrate h.bitrate_ok,
        atoi-decimal o.min_bitrate h.min_bitrate_ok,
        atoi-decimal o.max_bitrate h.max_bitrate_ok,
        atoi-decimal o.focus_mode h.focus_mode_ok,
        flag-back o.back_camera_active,
        flag-back o.adaptive_bitrate,
        flag-back o.stabilization_enabled,
        flag-back o.flash_enabled,
        flag-back o.h265_enabled,
      )
      refl

abbrev filter_name : FilterValue → Bytes
filter_name f = f.name

-- The options with other filters.
abbrev with_filters : StreamOptions → List FilterValue → StreamOptions
with_filters o fs = record o { filter_slider_values = fs }

filter-back :
    (o : StreamOptions) (f : FilterValue)
    → IsInt f.value
    → AllBefore filter_name f.name o.filter_slider_values
    → parse_device_line o (codes "C:" ++ f.name) (decimal f.value)
      ≡ with_filters o (o.filter_slider_values ++ f ∷ [])
unfolding parse_device_line equal_bytes starts_with
filter-back o f h before =
    ap
      (λ z.
        with_filters o
          (put filter_name (record { name = f.name; value = z }) o.filter_slider_values))
      (atoi-decimal f.value h)
    ∙ ap (with_filters o) (put-append filter_name f o.filter_slider_values before)

filters-back :
    (o : StreamOptions) (fs : List FilterValue)
    → All IsStorableFilter fs
    → IsOrdered filter_name (o.filter_slider_values ++ fs)
    → parse_all o (map filter_entry fs) ≡ with_filters o (o.filter_slider_values ++ fs)
filters-back o [] h ordered = ap (with_filters o) (sym (append-nil o.filter_slider_values))
filters-back o (f ∷ fs) h ordered =
    let before = IsOrdered-append filter_name o.filter_slider_values f fs ordered in
    let assoc = append_assoc o.filter_slider_values (f ∷ []) fs in
    let next = with_filters o (o.filter_slider_values ++ f ∷ []) in
    ap (λ p. parse_all p (map filter_entry fs)) (filter-back o f h.0.value_ok before)
    ∙ filters-back next fs h.1 (subst (IsOrdered filter_name) (sym assoc) ordered)
    ∙ ap (with_filters o) assoc

parse_all-append :
    (o : StreamOptions) (a b : List (Bytes × Bytes))
    → parse_all o (a ++ b) ≡ parse_all (parse_all o a) b
parse_all-append o [] b = refl
parse_all-append o ((k, v) ∷ a) b = parse_all-append (parse_device_line o k v) a b

-- All lines of a section but its head and the empty line behind it.
abbrev pub entries : StreamOptions → List (Bytes × Bytes)
entries o =
    fixed_entries o
    ++ map filter_entry o.filter_slider_values
    ++ (codes "E:", o.active_effect_filter) ∷ []

effect-back :
    (o : StreamOptions) (effect : Bytes)
    → parse_device_line o (codes "E:") effect ≡ record o { active_effect_filter = effect }
unfolding parse_device_line equal_bytes starts_with
effect-back o effect = refl

-- The options with the zoom that new options have.
abbrev pub default_zoom : StreamOptions → StreamOptions
default_zoom o = record o { zoom = default_options.zoom }

-- A section gives back the options that it was written for, less the zoom, which has no line.
pub entries-back :
    (d : DeviceState)
    → IsStorableState d
    → parse_all default_options (entries d.options) ≡ default_zoom d.options
entries-back d h =
    let o = d.options in
    let last = (codes "E:", o.active_effect_filter) ∷ [] in
    let rest = map filter_entry o.filter_slider_values ++ last in
    let fixed = record o {
      filter_slider_values = [];
      active_effect_filter = [];
      zoom = default_options.zoom;
    } in
    parse_all-append default_options (fixed_entries o) rest
    ∙ ap (λ p. parse_all p rest) (fixed-back o default_options h.ints)
    ∙ parse_all-append fixed (map filter_entry o.filter_slider_values) last
    ∙ ap (λ p. parse_all p last) (filters-back fixed o.filter_slider_values h.filters h.ordered)
    ∙ effect-back (with_filters fixed o.filter_slider_values) o.active_effect_filter
