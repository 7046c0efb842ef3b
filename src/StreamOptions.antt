-- ===== src/StreamOptions.antt =====
-- The activation packet: linux/src/stream_options.cpp and stream_options.hpp.
pub mod Layout
mod Examples
use open_cam.Prelude.{
  ℕ, suc, ◌-◌, ◌/◌, ◌%◌, ◌^◌, Bool, false, List, [], ◌∷◌, ◌++◌, if◌then◌else◌, Bytes,
}
use open_cam.Prelude.Int.{ℤ, pos, negsuc}

pub record StreamOptions : Type 0 where
  pub fps : ℤ
  pub width : ℤ
  pub height : ℤ
  pub camera : ℤ
  pub adaptive_bitrate : Bool
  pub bitrate : ℤ
  pub min_bitrate : ℤ
  pub max_bitrate : ℤ
  pub stabilization : Bool
  pub flash : Bool
  pub h265 : Bool
  pub focus_mode : ℤ

-- The member initialisers.
abbrev pub default_options : StreamOptions
default_options = record {
  fps = pos 30;
  width = pos 640;
  height = pos 480;
  camera = pos 1;
  adaptive_bitrate = false;
  bitrate = pos 4096000;
  min_bitrate = pos 512000;
  max_bitrate = pos 25600000;
  stabilization = false;
  flash = false;
  h265 = false;
  focus_mode = pos 0;
}

-- `static_cast<std::uint32_t>(value)`
abbrev pub to_uint32 : ℤ → ℕ
to_uint32 (pos n) = n % 2 ^ 32
to_uint32 (negsuc n) = 2 ^ 32 - 1 - n % 2 ^ 32

unfoldable pub write_int32 : Bytes → ℤ → Bytes
write_int32 buffer value =
    let unsigned_value = to_uint32 value in
    buffer
    ++ (unsigned_value / 2 ^ 24 % 256
        ∷ unsigned_value / 2 ^ 16 % 256
        ∷ unsigned_value / 2 ^ 8 % 256
        ∷ unsigned_value % 256
        ∷ [])

unfoldable pub write_bool : Bytes → Bool → Bytes
write_bool buffer value = buffer ++ ((if value then 1 else 0) ∷ [])

unfoldable pub write_uint16 : Bytes → ℕ → Bytes
write_uint16 buffer value = buffer ++ (value / 2 ^ 8 % 256 ∷ value % 256 ∷ [])

unfoldable pub build_activation_packet : StreamOptions → Bytes
unfolding write_int32 write_bool write_uint16
build_activation_packet options =
    let p = write_int32 [] options.fps in
    let p = write_int32 p options.width in
    let p = write_int32 p options.height in
    let p = write_int32 p options.camera in
    let p = write_bool p options.adaptive_bitrate in
    let p = write_int32 p options.bitrate in
    let p = write_int32 p options.min_bitrate in
    let p = write_int32 p options.max_bitrate in
    let p = write_bool p options.stabilization in
    let p = write_bool p options.flash in
    let p = write_bool p options.h265 in
    let p = write_int32 p options.focus_mode in let p = write_uint16 p 0 in write_uint16 p 0
