-- ===== src/Windows/Activation/Accepted.antt =====
-- Which options `SerializeStreamOptions` accepts, and how its packet agrees with the Linux program's.
use open_cam.Prelude.{
  ◌*◌, ◌/◌, ◌%◌, ◌^◌, ◌≤◌, ◌≡◌, ◌↔◌, refl, sym, ap, ◌∙◌, Bool, true, false, ltb, if◌then◌else◌,
  List, [], ◌∷◌, ◌++◌, append_assoc, append-nil, Bytes, length, take, All, arith, le→ltb, ltb-le,
}
use open_cam.Prelude.Int.{ℤ, pos, ltz, ◌*ℤ◌}
use open_cam.StreamOptions.{to_uint32, build_activation_packet}
use open_cam.StreamOptions
use open_cam.Descriptor.Layout.{put_uint16, put_string, put_all, put_list}
use open_cam.Windows.Reader.{ok, ◌>>=◌, ◌>>◌, throw_if, activation_exceeds_limit}
use open_cam.Windows.Reader.Cut.{bind-eq_ok, throw_if-eq_ok, ok-injective}
use open_cam.Windows.Activation.{
  StreamOptions, FilterValue, write_int16, write_int32, write_bool, write_string, is_invalid,
  write_fields, write_filters, serialize_stream_options,
}
use open_cam.Windows.Activation.Ranges.{
  Between, IsPercentage, IsPercentage-iff, Between-iff, is_invalid-Passes, max-Between,
  area-Between, area_below,
}

-- The options as the Linux program holds them, the bit rates in bit/s.
abbrev pub in_wire_units : StreamOptions → StreamOptions.StreamOptions
in_wire_units o = record {
  fps = o.fps;
  width = o.width;
  height = o.height;
  camera = pos (if o.back_camera_active then 1 else 0);
  adaptive_bitrate = o.adaptive_bitrate;
  bitrate = o.bitrate *ℤ pos 1024;
  min_bitrate = o.min_bitrate *ℤ pos 1024;
  max_bitrate = o.max_bitrate *ℤ pos 1024;
  stabilization = o.stabilization_enabled;
  flash = o.flash_enabled;
  h265 = o.h265_enabled;
  focus_mode = o.focus_mode;
}

abbrev pub put_int32 : ℤ → Bytes
put_int32 v =
    let u = to_uint32 v in u / 2 ^ 24 % 256 ∷ u / 2 ^ 16 % 256 ∷ u / 2 ^ 8 % 256 ∷ u % 256 ∷ []

abbrev pub put_filter_value : FilterValue → Bytes
put_filter_value f = put_string f.name ++ put_int32 f.value

-- A zero, the Linux program's packet up to its empty lists, and the lists.
abbrev pub put_activation : StreamOptions → Bytes
put_activation o =
    0
    ∷ (take 36 (build_activation_packet (in_wire_units o))
        ++ (put_list put_filter_value o.filter_slider_values ++ put_string o.active_effect_filter))

abbrev pub IsFilterValue : FilterValue → Type 0
IsFilterValue f = IsPercentage f.value × (length f.name ≤ 2048)

pub record InRange (o : StreamOptions) : Type 0 where
  pub fps : Between 1 60 o.fps
  pub width : Between 160 8192 o.width
  pub height : Between 160 8192 o.height
  pub area : Between 0 16777216 (o.width *ℤ o.height)
  pub focus_mode : Between 0 1 o.focus_mode
  pub filter_count : length o.filter_slider_values ≤ 128
  pub bitrate : Between 64 25000 o.bitrate
  pub min_bitrate : Between 64 25000 o.min_bitrate
  pub max_bitrate : Between 64 25000 o.max_bitrate
  pub ordered : ltz o.max_bitrate o.min_bitrate ≡ false
  pub filters : All IsFilterValue o.filter_slider_values
  pub effect : length o.active_effect_filter ≤ 2048

write_string-eq :
    (buffer value : Bytes)
    → length value ≤ 2048
    → write_string buffer value ≡ ok (buffer ++ put_string value)
unfolding write_string write_int16
write_string-eq buffer value h =
    let high : length value / 2 ^ 8 % 256 ≡ length value / 256 = omega arith in
    rw (le→ltb 2048 (length value) h, high, append_assoc buffer (put_uint16 (length value)) value)
      refl

write_string-eq_ok :
    (buffer value out : Bytes) → write_string buffer value ≡ ok out → length value ≤ 2048
unfolding write_string
write_string-eq_ok buffer value out e = ground arith

write_filters-eq :
    (buffer : Bytes) (filters : List FilterValue)
    → All IsFilterValue filters
    → write_filters buffer filters ≡ ok (buffer ++ put_all put_filter_value filters)
unfolding write_filters write_int32
write_filters-eq buffer [] h = ap (λ z. ok z) (sym (append-nil buffer))
write_filters-eq buffer (f ∷ filters) h =
    let put = put_string f.name in
    rw
      (
        (IsPercentage-iff f.value).1 h.0.0,
        write_string-eq buffer f.name h.0.1,
        write_filters-eq (write_int32 (buffer ++ put) (to_uint32 f.value)) filters h.1,
        append_assoc (buffer ++ put) (put_int32 f.value) (put_all put_filter_value filters),
        append_assoc buffer put (put_int32 f.value ++ put_all put_filter_value filters),
        append_assoc put (put_int32 f.value) (put_all put_filter_value filters),
      )
      refl

write_filters-eq_ok :
    (buffer : Bytes) (filters : List FilterValue) (out : Bytes)
    → write_filters buffer filters ≡ ok out
    → All IsFilterValue filters
unfolding write_filters
write_filters-eq_ok buffer [] out e = tt
write_filters-eq_ok buffer (f ∷ filters) out e =
    let (fine, e1) = throw_if-eq_ok _ _ _ e in
    let (next, named, e2) = bind-eq_ok (write_string buffer f.name) _ e1 in
    (
      ((IsPercentage-iff f.value).0 fine, write_string-eq_ok buffer f.name next named),
      write_filters-eq_ok (write_int32 next (to_uint32 f.value)) filters out e2,
    )

-- Within the limits no test of the first exception holds.
is_invalid-false : (o : StreamOptions) → InRange o → is_invalid o ≡ false
unfolding is_invalid
is_invalid-false o l =
    let fps = (Between-iff 1 60 o.fps).1 l.fps in
    let width = (Between-iff 160 8192 o.width).1 l.width in
    let height = (Between-iff 160 8192 o.height).1 l.height in
    let focus = (Between-iff 0 1 o.focus_mode).1 l.focus_mode in
    let bitrate = (Between-iff 64 25000 o.bitrate).1 l.bitrate in
    let min_bitrate = (Between-iff 64 25000 o.min_bitrate).1 l.min_bitrate in
    let max_bitrate = (Between-iff 64 25000 o.max_bitrate).1 l.max_bitrate in
    rw
      (
        fps.0,
        fps.1,
        width.0,
        width.1,
        height.0,
        height.1,
        focus.0,
        focus.1,
        bitrate.0,
        bitrate.1,
        min_bitrate.0,
        min_bitrate.1,
        max_bitrate.1,
        l.ordered,
        area_below (o.width *ℤ o.height) l.area,
        le→ltb 128 (length o.filter_slider_values) l.filter_count,
      )
      refl

bit_mod : (b : Bool) → (if b then 1 else 0) % 2 ^ 32 ≡ (if b then 1 else 0)
bit_mod true = refl
bit_mod false = refl

-- The fields are those of the Linux program, and the number of filters.
write_fields-eq :
    (o : StreamOptions)
    → length o.filter_slider_values ≤ 128
    → write_fields o
      ≡ 0
        ∷ (take 36 (build_activation_packet (in_wire_units o))
            ++ put_uint16 (length o.filter_slider_values))
unfolding write_fields write_int32 write_int16 write_bool build_activation_packet
write_fields-eq o small =
    let high : length o.filter_slider_values % 2 ^ 16 / 2 ^ 8 % 256
        ≡ length o.filter_slider_values / 256 =
      omega arith in
    let low : length o.filter_slider_values % 2 ^ 16 % 256 ≡ length o.filter_slider_values % 256 =
      omega arith in
    rw (high, low, bit_mod o.back_camera_active) refl

-- What is written behind the first test.
written :
    (o : StreamOptions)
    → InRange o
    → (write_filters (write_fields o) o.filter_slider_values >>= λ buffer.
        write_string buffer o.active_effect_filter)
      ≡ ok (put_activation o)
written o l =
    let fields = put_uint16 (length o.filter_slider_values) in
    let values = put_all put_filter_value o.filter_slider_values in
    let front = take 36 (build_activation_packet (in_wire_units o)) in
    let effect = put_string o.active_effect_filter in
    let layout : (write_fields o ++ values) ++ effect ≡ put_activation o =
      ap (λ z. (z ++ values) ++ effect) (write_fields-eq o l.filter_count)
      ∙ append_assoc (0 ∷ (front ++ fields)) values effect
      ∙ ap (λ z. 0 ∷ z) (append_assoc front fields (values ++ effect))
      ∙ ap (λ z. 0 ∷ (front ++ z)) (sym (append_assoc fields values effect)) in
    rw (write_filters-eq (write_fields o) o.filter_slider_values l.filters) (
      write_string-eq (write_fields o ++ values) o.active_effect_filter l.effect
      ∙ ap (λ z. ok z) layout)

-- The serializer from behind the first test.
serialize-written :
    (o : StreamOptions)
    → InRange o
    → serialize_stream_options o ≡ (
        throw_if (ltb 65536 (length (put_activation o))) activation_exceeds_limit
        >> ok (put_activation o))
unfolding serialize_stream_options
serialize-written o l =
    let (buffer, filters, effect) =
      bind-eq_ok (write_filters (write_fields o) o.filter_slider_values) _ (written o l) in
    rw (is_invalid-false o l, filters, effect) refl

serialize_stream_options-InRange :
    (o : StreamOptions) (packet : Bytes) → serialize_stream_options o ≡ ok packet → InRange o
unfolding serialize_stream_options
serialize_stream_options-InRange o packet e =
    let (valid, e1) = throw_if-eq_ok _ _ _ e in
    let (b1, filters, e2) =
      bind-eq_ok (write_filters (write_fields o) o.filter_slider_values) _ e1 in
    let (b2, effect, e3) = bind-eq_ok (write_string b1 o.active_effect_filter) _ e2 in
    let p = is_invalid-Passes o valid in
    let width = (Between-iff 160 8192 o.width).0 p.width in
    let height = (Between-iff 160 8192 o.height).0 p.height in
    let min_bitrate = (Between-iff 64 25000 o.min_bitrate).0 p.min_bitrate in
    record {
      fps = (Between-iff 1 60 o.fps).0 p.fps;
      width = width;
      height = height;
      area = area-Between o.width o.height width height p.area;
      focus_mode = (Between-iff 0 1 o.focus_mode).0 p.focus_mode;
      filter_count = ltb-le 128 (length o.filter_slider_values) p.filter_count;
      bitrate = (Between-iff 64 25000 o.bitrate).0 p.bitrate;
      min_bitrate = min_bitrate;
      max_bitrate =
          max-Between 64 25000 o.min_bitrate o.max_bitrate min_bitrate p.ordered p.max_bitrate;
      ordered = p.ordered;
      filters = write_filters-eq_ok (write_fields o) o.filter_slider_values b1 filters;
      effect = write_string-eq_ok b1 o.active_effect_filter b2 effect;
    }

-- Options are serialized exactly where every number is in its range, the filters' values are
-- percentages, the texts and lists are within their limits and the packet within its own. The packet
-- is then a zero, the Linux program's packet for the same options in bit/s up to its two empty lists,
-- and the filters and the effect in place of these.
pub serialize_stream_options_iff :
    (o : StreamOptions) (packet : Bytes)
    → (serialize_stream_options o ≡ ok packet)
      ↔ (InRange o × (length (put_activation o) ≤ 64 * 1024) × (packet ≡ put_activation o))
serialize_stream_options_iff o packet = (
  (λ e.
      let range = serialize_stream_options-InRange o packet e in
      let (small, same) = throw_if-eq_ok _ _ _ (sym (serialize-written o range) ∙ e) in
      (range, ltb-le 65536 (length (put_activation o)) small, sym (ok-injective same))),
  (λ (range, small, same).
      serialize-written o range
      ∙ rw (le→ltb 65536 (length (put_activation o)) small) (ap (λ z. ok z) (sym same))),
)
