-- ===== src/Windows/Activation/Ranges.antt =====
-- The tests of the first exception of `SerializeStreamOptions`, as ranges of the numbers.
use open_cam.Prelude.{ℕ, ◌≤◌, ◌<◌, ◌≡◌, ◌↔◌, refl, Bool, true, false, ◌||◌, ltb, length, arith}
use open_cam.Prelude.Int.{ℤ, pos, negsuc, ltz, ◌*ℤ◌}
use open_cam.Windows.Activation.{StreamOptions, is_invalid}

-- A number between two others.
abbrev pub Between : ℕ → ℕ → ℤ → Type 0
Between low high (pos n) = (low ≤ n) × (n ≤ high)
Between low high (negsuc n) = 1 ≤ 0

-- A value from -100 to 100.
abbrev pub IsPercentage : ℤ → Type 0
IsPercentage (pos n) = n ≤ 100
IsPercentage (negsuc n) = n < 100

pub IsPercentage-iff : (v : ℤ) → ((ltz v (negsuc 99) || ltz (pos 100) v) ≡ false) ↔ IsPercentage v
IsPercentage-iff (pos n) = ground arith
IsPercentage-iff (negsuc n) = ground arith

pub Between-iff :
    (low high : ℕ) (v : ℤ)
    → ((ltz v (pos low) ≡ false) × (ltz (pos high) v ≡ false)) ↔ Between low high v
Between-iff low high (pos n) = ground arith
Between-iff low high (negsuc n) = ground arith

-- Every test of the first exception fails.
pub record Passes (o : StreamOptions) : Type 0 where
  pub fps : (ltz o.fps (pos 1) ≡ false) × (ltz (pos 60) o.fps ≡ false)
  pub width : (ltz o.width (pos 160) ≡ false) × (ltz (pos 8192) o.width ≡ false)
  pub height : (ltz o.height (pos 160) ≡ false) × (ltz (pos 8192) o.height ≡ false)
  pub area : ltz (pos 16777216) (o.width *ℤ o.height) ≡ false
  pub focus_mode : (ltz o.focus_mode (pos 0) ≡ false) × (ltz (pos 1) o.focus_mode ≡ false)
  pub filter_count : ltb 128 (length o.filter_slider_values) ≡ false
  pub bitrate : (ltz o.bitrate (pos 64) ≡ false) × (ltz (pos 25000) o.bitrate ≡ false)
  pub min_bitrate : (ltz o.min_bitrate (pos 64) ≡ false) × (ltz (pos 25000) o.min_bitrate ≡ false)
  pub max_bitrate : ltz (pos 25000) o.max_bitrate ≡ false
  pub ordered : ltz o.max_bitrate o.min_bitrate ≡ false

or→ : {a b : Bool} → (a || b) ≡ false → (a ≡ false) × (b ≡ false)
or→ {a = true} e = absurd (cc)
or→ {a = false} e = (refl, e)

pub is_invalid-Passes : (o : StreamOptions) → is_invalid o ≡ false → Passes o
unfolding is_invalid
is_invalid-Passes o e =
    let (e, max_high) = or→ e in
    let (e, ordered) = or→ e in
    let (e, min_high) = or→ e in
    let (e, min_low) = or→ e in
    let (e, high) = or→ e in
    let (e, low) = or→ e in
    let (e, count) = or→ e in
    let (e, focus_high) = or→ e in
    let (e, focus_low) = or→ e in
    let (e, area) = or→ e in
    let (e, height_high) = or→ e in
    let (e, width_high) = or→ e in
    let (e, height_low) = or→ e in
    let (e, width_low) = or→ e in
    let (fps_low, fps_high) = or→ e in
    record {
      fps = (fps_low, fps_high);
      width = (width_low, width_high);
      height = (height_low, height_high);
      area = area;
      focus_mode = (focus_low, focus_high);
      filter_count = count;
      bitrate = (low, high);
      min_bitrate = (min_low, min_high);
      max_bitrate = max_high;
      ordered = ordered;
    }

pub max-Between :
    (low high : ℕ) (a b : ℤ)
    → Between low high a
    → ltz b a ≡ false
    → ltz (pos high) b ≡ false
    → Between low high b
max-Between low high (pos m) (pos n) h above below = ground arith
max-Between low high (pos m) (negsuc n) h above below = absurd (cc)
max-Between low high (negsuc m) b h above below = absurd (omega arith)

pub area-Between :
    (a b : ℤ)
    → Between 160 8192 a
    → Between 160 8192 b
    → ltz (pos 16777216) (a *ℤ b) ≡ false
    → Between 0 16777216 (a *ℤ b)
area-Between (pos m) (pos n) ha hb small = (omega arith, ground arith)
area-Between (pos m) (negsuc n) ha hb small = absurd (omega arith)
area-Between (negsuc m) b ha hb small = absurd (omega arith)

pub area_below : (v : ℤ) → Between 0 16777216 v → ltz (pos 16777216) v ≡ false
area_below (pos n) h = ground arith
area_below (negsuc n) h = refl
