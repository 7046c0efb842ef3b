-- ===== src/Descriptor/Examples.antt =====
-- The parser on the packets of the tests, and its theorems at a small descriptor.
use open_cam.Prelude.{◌≡◌, ◌↔◌, refl, true, [], ◌∷◌, Bytes, IsByte, codes, All, arith}
use open_cam.Descriptor.{
  DeviceDescriptor, ok, err, invalid_utf8, too_many_resolutions, read_uint16, has_control,
  string_of_length, read_string, read_resolution, resolution_loop, read_resolutions, read_category,
  filter_loop, read_filters, parse_device_descriptor,
}
use open_cam.Descriptor.Utf8.{is_valid_utf8}
use open_cam.Descriptor.Utf8.Exact.{is_valid_utf8_iff}
use open_cam.Descriptor.Utf8.Decoding.{IsUtf8}
use open_cam.Descriptor.Layout.{put_descriptor, IsValid}
use open_cam.Descriptor.Layout.Accepted.{parse_device_descriptor_iff}

parse-invalid_utf8 :
    parse_device_descriptor (0 ∷ 1 ∷ 0xff ∷ 0 ∷ 1 ∷ b'x' ∷ 0 ∷ 0 ∷ 0 ∷ 0 ∷ 0 ∷ 0 ∷ [])
    ≡ err invalid_utf8
unfolding parse_device_descriptor read_string read_uint16 string_of_length is_valid_utf8
parse-invalid_utf8 = refl

parse-huge_count :
    parse_device_descriptor (0 ∷ 1 ∷ b'n' ∷ 0 ∷ 1 ∷ b'u' ∷ 0xff ∷ 0xff ∷ [])
    ≡ err too_many_resolutions
unfolding parse_device_descriptor read_string read_uint16 string_of_length is_valid_utf8 has_control
    read_resolutions
parse-huge_count = refl

abbrev phone : DeviceDescriptor
phone = record {
  name = codes "n";
  rtsp_url = codes "u";
  front_resolutions = record { width = 640; height = 480 } ∷ [];
  back_resolutions = [];
  filters = record { name = codes "f"; category = 4 } ∷ [];
}

abbrev packet : Bytes
packet =
    0 ∷ 1 ∷ b'n' ∷ 0 ∷ 1 ∷ b'u' ∷ 0 ∷ 1 ∷ 2 ∷ 128 ∷ 1 ∷ 224 ∷ 0 ∷ 0 ∷ 0 ∷ 1 ∷ 0 ∷ 1 ∷ b'f' ∷ 4 ∷ []

parse-phone : parse_device_descriptor packet ≡ ok phone
unfolding parse_device_descriptor read_string read_uint16 string_of_length is_valid_utf8 has_control
    read_resolution resolution_loop read_resolutions read_category filter_loop read_filters
parse-phone = refl

packet-IsByte : All IsByte packet
packet-IsByte = omega arith

parse_device_descriptor_iff_example :
    (parse_device_descriptor packet ≡ ok phone) ↔ ((packet ≡ put_descriptor phone) × IsValid phone)
parse_device_descriptor_iff_example = parse_device_descriptor_iff packet phone packet-IsByte

is_valid_utf8_iff_example :
    (is_valid_utf8 (0xe2 ∷ 0x82 ∷ 0xac ∷ []) ≡ true) ↔ IsUtf8 (0xe2 ∷ 0x82 ∷ 0xac ∷ [])
is_valid_utf8_iff_example = is_valid_utf8_iff (0xe2 ∷ 0x82 ∷ 0xac ∷ []) (omega arith)
