-- ===== src/Windows/Settings/Preserved.antt =====
-- The lines of the devices that are kept as they are while their states are not used.
use open_cam.Prelude.{
  ◌≡◌, refl, subst, ◌⊎◌, sym, ap, ◌∙◌, Bool, true, false, inl, inr, Bool-cases, List, [], ◌∷◌, ◌++◌,
  map, none, some, Bytes, codes, All, All-append, arith,
}
use open_cam.Windows.Settings.{
  Setting, Settings, is_bracket, is_empty, load_loop, load, save, get, setting_line, is_enabled,
  cleared, cache_line, cache_loop, cache_preserved_lines,
}
use open_cam.Windows.Settings.Decimal.{decimal}
use open_cam.Windows.Settings.Lines.{IsLine, lines, lines-text, lines-IsLine, contains_text}
use open_cam.Windows.Settings.Kept.{
  IsHeader, AreHeadersClosed, IsSectionLine, AreSections, AreSections-snoc, ends, ends-snoc,
  load_loop-AreSections, device_text, cache_loop-device_text,
}
use open_cam.Windows.Settings.Maps.{IsOrdered}
use open_cam.Windows.Settings.Reading.{is_empty-append, is_bracket-append}
use open_cam.Windows.Settings.RoundTrip.{
  setting_name, load_loop-front, with_settings, setting-IsLine,
}
use open_cam.Windows.Settings.Options.{IsStorableSetting}

cache_loop-append :
    (st : Bool × List Bytes) (a b : List Bytes)
    → cache_loop st (a ++ b) ≡ cache_loop (cache_loop st a) b
unfolding cache_loop
cache_loop-append st [] b = refl
cache_loop-append st (l ∷ a) b = cache_loop-append (cache_line st l) a b

-- The kept lines, read from the beginning, are all kept, and leave the reader inside a section
-- where the reader that kept them is inside one.
record IsKept (st : Bool × List Bytes) : Type 0 where
  inside : Bool
  again : cache_loop (false, []) st.1 ≡ (inside, st.1)
  follows : st.0 ≡ true → inside ≡ true
  are_lines : All IsLine st.1
  are_sections : AreSections false st.1
  within : st.0 ≡ true → ends false st.1 ≡ true

IsKept-snoc :
    (kept : List Bytes) (line : Bytes) (b : Bool)
    → cache_loop (false, []) kept ≡ (b, kept)
    → cache_line (b, kept) line ≡ (true, kept ++ line ∷ [])
    → All IsLine kept
    → IsLine line
    → AreSections false kept
    → IsSectionLine (ends false kept) line
    → IsKept (true, kept ++ line ∷ [])
unfolding cache_loop
IsKept-snoc kept line b again step h l sections last = record {
  inside = true;
  again =
      cache_loop-append (false, []) kept (line ∷ []) ∙ ap (λ st. cache_line st line) again ∙ step;
  follows = λ e. refl;
  are_lines = All-append IsLine kept (line ∷ []) h (l, tt);
  are_sections = AreSections-snoc false kept line sections last;
  within = λ e. ends-snoc false kept line;
}

-- A line that is kept inside a section is kept by every reader that is inside one as well.
cache_line-cases :
    (inside : Bool) (kept : List Bytes) (line : Bytes)
    → (cache_line (inside, kept) line ≡ (inside, kept))
      ⊎ ((cache_line (inside, kept) line ≡ (false, kept))
          ⊎ ((cache_line (inside, kept) line ≡ (true, kept ++ line ∷ []))
              × ((b : Bool)
                  → (inside ≡ true → b ≡ true)
                  → cache_line (b, kept) line ≡ (true, kept ++ line ∷ []))
              × (((is_bracket line ≡ true) × (contains_text (codes "DEVICE:") line ≡ true))
                  ⊎ ((inside ≡ true) × (is_bracket line ≡ false)))))
unfolding cache_line
cache_line-cases inside kept line = elim (Bool-cases (is_empty line)) [
  | inl empty ↦ inl (rw empty refl)
  | inr full ↦ elim (Bool-cases (is_bracket line)) [
    | inl bracket ↦ elim (Bool-cases (contains_text (codes "DEVICE:") line)) [
      | inl device ↦ inr (
          inr (
            rw (full, bracket, device) refl,
            λ b f. rw (full, bracket, device) refl,
            inl (bracket, device),
          ))
      | inr other ↦ inr (inl (rw (full, bracket, other) refl))
    ]
    | inr entry ↦ elim (Bool-cases inside) [
      | inl yes' ↦ inr (
          inr
            (rw (full, entry, yes') refl, λ b f. rw (full, entry, f yes') refl, inr (yes', entry)))
      | inr no' ↦ inr (inl (rw (full, entry, no') (ground arith)))
    ]
  ]
]

kept-IsSectionLine :
    (inside end : Bool) (line : Bytes)
    → (is_bracket line ≡ true → contains_text (codes "DEVICE:") line ≡ true → IsHeader line)
    → (inside ≡ true → end ≡ true)
    → ((is_bracket line ≡ true) × (contains_text (codes "DEVICE:") line ≡ true))
      ⊎ ((inside ≡ true) × (is_bracket line ≡ false))
    → IsSectionLine end line
kept-IsSectionLine inside end line closed within (inl (bracket, device)) =
    inl (closed bracket device)
kept-IsSectionLine inside end line closed within (inr (inner, plain)) = inr (within inner, plain)

cache_line-IsKept :
    (inside : Bool) (kept : List Bytes) (line : Bytes)
    → IsLine line
    → (is_bracket line ≡ true → contains_text (codes "DEVICE:") line ≡ true → IsHeader line)
    → IsKept (inside, kept)
    → IsKept (cache_line (inside, kept) line)
cache_line-IsKept inside kept line l closed h = elim (cache_line-cases inside kept line) [
  | inl same ↦ subst IsKept (sym same) h
  | inr (inl left) ↦ subst IsKept (sym left) (record {
    inside = h.inside;
    again = h.again;
    follows = λ e. absurd (cc);
    are_lines = h.are_lines;
    are_sections = h.are_sections;
    within = λ e. absurd (cc);
  })
  | inr (inr (added, always, why)) ↦ subst IsKept (sym added) (
      IsKept-snoc kept line h.inside h.again (always h.inside h.follows) h.are_lines l
        h.are_sections (kept-IsSectionLine inside (ends false kept) line closed h.within why))
]

cache_loop-IsKept :
    (st : Bool × List Bytes) (ls : List Bytes)
    → All IsLine ls
    → AreHeadersClosed ls
    → IsKept st
    → IsKept (cache_loop st ls)
unfolding cache_loop
cache_loop-IsKept st [] a closed h = h
cache_loop-IsKept st (l ∷ ls) a closed h =
    cache_loop-IsKept (cache_line st l) ls a.1 closed.1
      (cache_line-IsKept st.0 st.1 l a.0 closed.0 h)

cached-IsKept :
    (ls : List Bytes) → All IsLine ls → AreHeadersClosed ls → IsKept (cache_loop (false, []) ls)
unfolding cache_loop
cached-IsKept ls a closed =
    cache_loop-IsKept (false, []) ls a closed
      (record {
        inside = false;
        again = refl;
        follows = λ e. e;
        are_lines = tt;
        are_sections = tt;
        within = λ e. e;
      })

cache_line-setting :
    (e : Setting) → IsStorableSetting e → cache_line (false, []) (setting_line e) ≡ (false, [])
unfolding cache_line setting_line
cache_line-setting e h =
    rw
      (
        is_empty-append e.name b'=' (decimal e.value),
        is_bracket-append e.name (decimal e.value) h.name_ok.no_bracket,
      )
      (ground arith)

cache_loop-settings :
    (es : List Setting) (rest : List Bytes)
    → All IsStorableSetting es
    → cache_loop (false, []) (map setting_line es ++ [] ∷ rest) ≡ cache_loop (false, []) rest
unfolding cache_loop cache_line
cache_loop-settings [] rest h = refl
cache_loop-settings (e ∷ es) rest h =
    ap (λ st. cache_loop st (map setting_line es ++ [] ∷ rest)) (cache_line-setting e h.0)
    ∙ cache_loop-settings es rest h.1

load-preserved :
    (file : Bytes) (t : Settings)
    → is_enabled (load (some file) t) ≡ false
    → (load (some file) t).preserved_device_lines ≡ cache_preserved_lines (lines file)
unfolding load get
load-preserved file t off =
    elim (Bool-cases (is_enabled (load_loop (cleared, none) (lines file)).0)) [
      | inl on' ↦ absurd (cc)
      | inr off' ↦ rw off' refl
    ]

lines-save_preserved :
    (s : Settings)
    → All IsStorableSetting s.settings
    → All IsLine s.preserved_device_lines
    → is_enabled s ≡ false
    → lines (save s) ≡ map setting_line s.settings ++ [] ∷ s.preserved_device_lines
unfolding save
lines-save_preserved s h k e = rw e (
    lines-text (map setting_line s.settings ++ [] ∷ s.preserved_device_lines) (
      All-append IsLine (map setting_line s.settings) ([] ∷ s.preserved_device_lines)
        (setting-IsLine s.settings h) (tt, k)))

load-settings :
    (file : Bytes) (t : Settings)
    → (load (some file) t).settings ≡ (load_loop (cleared, none) (lines file)).0.settings
unfolding load get
load-settings file t = elim (Bool-cases (is_enabled (load_loop (cleared, none) (lines file)).0)) [
  | inl on' ↦ rw on' refl
  | inr off' ↦ rw off' refl
]

-- Whether the states are on is told by the settings alone.
is_enabled-settings : (s t : Settings) → s.settings ≡ t.settings → is_enabled s ≡ is_enabled t
unfolding get
is_enabled-settings s t e = ap (λ es. is_enabled (with_settings cleared es)) e

-- A file with closed heads that was loaded with the states of the devices off, and saved with them
-- still off and any storable global settings in place of those that were read: where it is loaded
-- again, it gives these settings, and preserves the same lines of the devices. These are all lines of
-- the first file but the empty ones whose last line with a bracket in front, from the line itself
-- upwards, has "DEVICE:" in it, in their order.
pub load-save_preserved :
    (file : Bytes) (es : List Setting) (t u : Settings)
    → AreHeadersClosed (lines file)
    → All IsStorableSetting es
    → IsOrdered setting_name es
    → is_enabled (load (some file) t) ≡ false
    → is_enabled (with_settings (load (some file) t) es) ≡ false
    → ((load (some (save (with_settings (load (some file) t) es))) u).settings ≡ es)
      × ((load (some (save (with_settings (load (some file) t) es))) u).preserved_device_lines
          ≡ (load (some file) t).preserved_device_lines)
      × ((load (some file) t).preserved_device_lines ≡ device_text none (lines file))
unfolding cache_preserved_lines
load-save_preserved file es t u closed h ordered off still =
    let s = load (some file) t in
    let saved = with_settings s es in
    let kept = cached-IsKept (lines file) (lines-IsLine file) closed in
    let same = load-preserved file t off in
    let written =
      lines-save_preserved saved h (subst (All IsLine) (sym same) kept.are_lines) still in
    let settings =
      load-settings (save saved) u
      ∙ ap (λ ls. (load_loop (cleared, none) ls).0.settings) written
      ∙ ap (λ st. st.0.settings) (load_loop-front saved s.preserved_device_lines h ordered)
      ∙ load_loop-AreSections s.preserved_device_lines (with_settings cleared es) false none
          (λ e. absurd (cc)) (subst (AreSections false) (sym same) kept.are_sections) in
    (
      settings,
      load-preserved (save saved) u
            (is_enabled-settings (load (some (save saved)) u) saved settings ∙ still)
          ∙ ap (λ ls. (cache_loop (false, []) ls).1)
              (written ∙ ap (λ ls. map setting_line es ++ [] ∷ ls) same)
          ∙ ap (λ st. st.1) (cache_loop-settings es (cache_preserved_lines (lines file)) h)
          ∙ ap (λ st. st.1) kept.again
          ∙ sym same,
      same ∙ cache_loop-device_text (lines file) [] none,
    )
