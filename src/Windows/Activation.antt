-- ===== src/Windows/Activation.antt =====
-- The activation packet of the Windows program: `SerializeStreamOptions` of
-- windows/src/net/serializer.cpp and windows/src/rtsp/streamoptions.h.
pub mod Ranges
pub mod Accepted
use open_cam.Prelude.{
  ℕ, ◌/◌, ◌%◌, ◌^◌, Bool, true, false, ◌||◌, ltb, if◌then◌else◌, List, [], ◌∷◌, ◌++◌, Bytes, length,
}
use open_cam.Prelude.Int.{ℤ, pos, negsuc, ltz, ◌*ℤ◌}
use open_cam.StreamOptions.{to_uint32}
use open_cam.Windows.Reader.{
  Result, ok, incomplete, rejected, ◌>>=◌, ◌>>◌, throw_if, max_message, max_string, max_list,
  max_dimension, invalid_stream_options, invalid_filter_value, string_too_long,
  activation_exceeds_limit,
}

-- A filter's name and its value.
pub record FilterValue : Type 0 where
  pub name : Bytes
  pub value : ℤ

-- `filterSliderValues` in the order of the map; `zoom` is the bit pattern of the `float`.
pub record StreamOptions : Type 0 where
  pub fps : ℤ
  pub width : ℤ
  pub height : ℤ
  pub back_camera_active : Bool
  pub filter_slider_values : List FilterValue
  pub active_effect_filter : Bytes
  pub adaptive_bitrate : Bool
  pub bitrate : ℤ
  pub min_bitrate : ℤ
  pub max_bitrate : ℤ
  pub zoom : ℕ
  pub stabilization_enabled : Bool
  pub flash_enabled : Bool
  pub h265_enabled : Bool
  pub focus_mode : ℤ

unfoldable pub write_int16 : Bytes → ℕ → Bytes
write_int16 buffer value = buffer ++ (value / 2 ^ 8 % 256 ∷ value % 256 ∷ [])

unfoldable pub write_int32 : Bytes → ℕ → Bytes
write_int32 buffer value =
    buffer ++ (value / 2 ^ 24 % 256 ∷ value / 2 ^ 16 % 256 ∷ value / 2 ^ 8 % 256 ∷ value % 256 ∷ [])

unfoldable pub write_bool : Bytes → Bool → Bytes
write_bool buffer value = buffer ++ ((if value then 1 else 0) ∷ [])

unfoldable pub write_string : Bytes → Bytes → Result Bytes
write_string buffer value = do
  throw_if (ltb max_string (length value)) string_too_long
  ok (write_int16 buffer (length value) ++ value)

-- The condition of the first exception.
unfoldable pub is_invalid : StreamOptions → Bool
is_invalid state =
    ltz state.fps (pos 1)
    || ltz (pos 60) state.fps
    || ltz state.width (pos 160)
    || ltz state.height (pos 160)
    || ltz (pos max_dimension) state.width
    || ltz (pos max_dimension) state.height
    || ltz (pos 16777216) (state.width *ℤ state.height)
    || ltz state.focus_mode (pos 0)
    || ltz (pos 1) state.focus_mode
    || ltb max_list (length state.filter_slider_values)
    || ltz state.bitrate (pos 64)
    || ltz (pos 25000) state.bitrate
    || ltz state.min_bitrate (pos 64)
    || ltz (pos 25000) state.min_bitrate
    || ltz state.max_bitrate state.min_bitrate
    || ltz (pos 25000) state.max_bitrate

-- The fields in front of the filters. The products with 1024 do not overflow where the condition
-- above is false.
unfoldable pub write_fields : StreamOptions → Bytes
write_fields state =
    let buffer = 0 ∷ [] in
    let buffer = write_int32 buffer (to_uint32 state.fps) in
    let buffer = write_int32 buffer (to_uint32 state.width) in
    let buffer = write_int32 buffer (to_uint32 state.height) in
    let buffer = write_int32 buffer (if state.back_camera_active then 1 else 0) in
    let buffer = write_bool buffer state.adaptive_bitrate in
    let buffer = write_int32 buffer (to_uint32 (state.bitrate *ℤ pos 1024)) in
    let buffer = write_int32 buffer (to_uint32 (state.min_bitrate *ℤ pos 1024)) in
    let buffer = write_int32 buffer (to_uint32 (state.max_bitrate *ℤ pos 1024)) in
    let buffer = write_bool buffer state.stabilization_enabled in
    let buffer = write_bool buffer state.flash_enabled in
    let buffer = write_bool buffer state.h265_enabled in
    let buffer = write_int32 buffer (to_uint32 state.focus_mode) in
    write_int16 buffer (length state.filter_slider_values % 2 ^ 16)

-- The loop over the filters.
unfoldable pub write_filters : Bytes → List FilterValue → Result Bytes
write_filters buffer [] = ok buffer
write_filters buffer (filter ∷ filters) = do
  throw_if (ltz filter.value (negsuc 99) || ltz (pos 100) filter.value) invalid_filter_value
  buffer ← write_string buffer filter.name
  write_filters (write_int32 buffer (to_uint32 filter.value)) filters

unfoldable pub serialize_stream_options : StreamOptions → Result Bytes
serialize_stream_options state = do
  throw_if (is_invalid state) invalid_stream_options
  buffer ← write_filters (write_fields state) state.filter_slider_values
  buffer ← write_string buffer state.active_effect_filter
  throw_if (ltb max_message (length buffer)) activation_exceeds_limit
  ok buffer
