-- ===== src/Windows/Settings/Sections.antt =====
-- The section of one device, as `Save` writes it and `Load` reads it.
use open_cam.Prelude.{
  ◌≡◌, refl, sym, ap, ◌∙◌, Bool, true, false, not, ◌&&◌, List, [], ◌∷◌, ◌++◌, map, append_assoc,
  ◌==◌, if◌then◌else◌, Bytes, codes, All, All-append, arith,
}
use open_cam.Prelude.Int.{pos}
use open_cam.Strings.{contains, find_first, starts_with}
use open_cam.Strings.Find.{contains-eq_false}
use open_cam.Windows.Activation.{FilterValue, StreamOptions}
use open_cam.Windows.Settings.{DeviceState, is_bracket, filter_line, flag, device_lines}
use open_cam.Windows.Settings.Decimal.{decimal}
use open_cam.Windows.Settings.Lines.{IsLine}
use open_cam.Windows.Settings.Reading.{IsKey, entry_line, header_line}
use open_cam.Windows.Settings.Options.{
  IsStorableFilter, IsStorableState, decimal-IsLine, fixed_entries, filter_entry, entries,
}

filter_lines :
    (fs : List FilterValue) (rest : List (Bytes × Bytes))
    → map filter_line fs ++ map entry_line rest ≡ map entry_line (map filter_entry fs ++ rest)
unfolding filter_line
filter_lines [] rest = refl
filter_lines (f ∷ fs) rest = ap (◌∷◌ (filter_line f)) (filter_lines fs rest)

pub device_lines-entries :
    (d : DeviceState)
    → device_lines d ≡ header_line d.name ∷ map entry_line (entries d.options) ++ [] ∷ []
unfolding device_lines
device_lines-entries d =
    let last = (codes "E:", d.options.active_effect_filter) ∷ [] in
    ap (λ ls. header_line d.name ∷ map entry_line (fixed_entries d.options) ++ ls)
      (sym (
          append_assoc (map filter_line d.options.filter_slider_values) (map entry_line last)
            ([] ∷ []))
        ∙ ap (λ ls. ls ++ [] ∷ []) (filter_lines d.options.filter_slider_values last))

-- An entry whose line is one line, and is split where it was joined.
abbrev pub IsEntry : Bytes × Bytes → Type 0
IsEntry (key, val) = IsKey key × IsLine key × IsLine val

-- A key given by a literal.
abbrev is_plain : Bytes → Bool
is_plain key = not (contains key b'=') && not (is_bracket key) && not (contains key 10)

plain-IsEntry : (key val : Bytes) → is_plain key ≡ true → IsLine val → IsEntry (key, val)
plain-IsEntry key val e h = (
  record { no_sign = contains-eq_false key b'=' (ground arith); no_bracket = ground arith },
  contains-eq_false key 10 (ground arith),
  h,
)

filter-IsEntry :
    (fs : List FilterValue) → All IsStorableFilter fs → All IsEntry (map filter_entry fs)
unfolding starts_with
filter-IsEntry [] h = tt
filter-IsEntry (f ∷ fs) h = (
  (
    record { no_sign = (refl, (refl, h.0.no_sign)); no_bracket = refl },
    (refl, (refl, h.0.is_line)),
    decimal-IsLine f.value,
  ),
  filter-IsEntry fs h.1,
)

flag-IsLine : (b : Bool) → IsLine (flag b)
flag-IsLine b = decimal-IsLine (pos (if b then 1 else 0))

fixed-IsEntry : (o : StreamOptions) → All IsEntry (fixed_entries o)
unfolding starts_with find_first
fixed-IsEntry o =
    let resolution =
      All-append (λ x. (x == 10) ≡ false) (decimal o.width) (b'x' ∷ decimal o.height)
        (decimal-IsLine o.width) (refl, decimal-IsLine o.height) in
    (
      plain-IsEntry _ _ refl (decimal-IsLine o.fps),
      (
        plain-IsEntry _ _ refl resolution,
        (
          plain-IsEntry _ _ refl (flag-IsLine o.back_camera_active),
          (
            plain-IsEntry _ _ refl (flag-IsLine o.adaptive_bitrate),
            (
              plain-IsEntry _ _ refl (decimal-IsLine o.bitrate),
              (
                plain-IsEntry _ _ refl (decimal-IsLine o.min_bitrate),
                (
                  plain-IsEntry _ _ refl (decimal-IsLine o.max_bitrate),
                  (
                    plain-IsEntry _ _ refl (flag-IsLine o.stabilization_enabled),
                    (
                      plain-IsEntry _ _ refl (flag-IsLine o.flash_enabled),
                      (
                        plain-IsEntry _ _ refl (flag-IsLine o.h265_enabled),
                        (plain-IsEntry _ _ refl (decimal-IsLine o.focus_mode), tt),
                      ),
                    ),
                  ),
                ),
              ),
            ),
          ),
        ),
      ),
    )

pub entries-IsEntry : (d : DeviceState) → IsStorableState d → All IsEntry (entries d.options)
unfolding starts_with find_first
entries-IsEntry d h =
    let last = (codes "E:", d.options.active_effect_filter) ∷ [] in
    All-append IsEntry (fixed_entries d.options) _ (fixed-IsEntry d.options) (
      All-append IsEntry (map filter_entry d.options.filter_slider_values) last
        (filter-IsEntry d.options.filter_slider_values h.filters)
        (plain-IsEntry (codes "E:") d.options.active_effect_filter refl h.effect_ok, tt))
