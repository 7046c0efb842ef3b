-- ===== src/Windows/Descriptor.antt =====
-- The legacy descriptor over ADB: `DeserializeDeviceDescriptor` of windows/src/net/serializer.cpp,
-- windows/src/net/devicedescriptor.h and windows/src/video/filter.h.
mod Readers
mod Filters
mod Groups
pub mod Agreement
use open_cam.Prelude.{
  ℕ, zero, suc, Bool, true, false, not, ◌||◌, ◌==◌, ltb, if◌then◌else◌, List, [], ◌∷◌, ◌++◌, Bytes,
  codes, length,
}
use open_cam.Descriptor.{Resolution, is_empty}
use open_cam.Windows.Reader.{
  Result, ok, incomplete, rejected, ◌>>=◌, ◌>>◌, throw_if, max_message, max_string, max_list,
  max_dimension, u8, u16, string, message_exceeds_limit, invalid_legacy_descriptor,
  too_many_resolutions, invalid_resolution, too_many_filters, invalid_filter, trailing_bytes,
}
use open_cam.Windows.MediaUrl.{valid_loopback_media_url}

-- `Video::Filter::ARTISTIC`
abbrev pub artistic : ℕ
artistic = 4

-- One entry of the registry, a category with its names.
pub record Group : Type 0 where
  pub category : ℕ
  pub names : List Bytes

-- `filters[category].push_back(name)`, the entries in the order of the categories.
unfoldable pub push_filter : ℕ → Bytes → List Group → List Group
push_filter category name [] = record { category = category; names = name ∷ [] } ∷ []
push_filter category name (group ∷ groups) =
    let later = push_filter category name groups in
    if group.category == category
    then record { category = category; names = group.names ++ (name ∷ []) } ∷ groups
    else if ltb category group.category
    then record { category = category; names = name ∷ [] } ∷ (group ∷ groups)
    else group ∷ later

pub record DeviceDescriptor : Type 0 where
  pub device_name : Bytes
  pub rtsp_url : Bytes
  pub rtsp_protocol : Bytes
  pub available_front_resolutions : List Resolution
  pub available_back_resolutions : List Resolution
  pub available_filters : List Group

-- The body of the two loops over resolutions.
unfoldable pub read_resolution : Bytes → Result (Resolution × Bytes)
read_resolution rest = do
  (width, rest) ← u16 rest
  (height, rest) ← u16 rest
  throw_if (width == 0 || height == 0 || ltb max_dimension width || ltb max_dimension height)
      invalid_resolution
  let resolution : Resolution = record { width = width; height = height }
  ok (resolution, rest)

-- The loop, with the rounds that are left.
unfoldable pub resolution_loop : ℕ → Bytes → Result (List Resolution × Bytes)
resolution_loop zero rest = ok ([], rest)
resolution_loop (suc rounds) rest = do
  (resolution, rest) ← read_resolution rest
  (resolutions, rest) ← resolution_loop rounds rest
  ok (resolution ∷ resolutions, rest)

unfoldable pub read_resolutions : Bytes → Result (List Resolution × Bytes)
read_resolutions rest = do
  (count, rest) ← u16 rest
  throw_if (ltb max_list count) too_many_resolutions
  resolution_loop count rest

unfoldable pub filter_loop : ℕ → List Group → Bytes → Result (List Group × Bytes)
filter_loop zero filters rest = ok (filters, rest)
filter_loop (suc rounds) filters rest = do
  (name, rest) ← string 128 rest
  (category, rest) ← u8 rest
  throw_if (ltb artistic category || is_empty name) invalid_filter
  filter_loop rounds (push_filter category name filters) rest

unfoldable pub read_filters : Bytes → Result (List Group × Bytes)
read_filters rest = do
  (count, rest) ← u16 rest
  throw_if (ltb max_list count) too_many_filters
  filter_loop count [] rest

unfoldable pub deserialize_device_descriptor : Bytes → Result DeviceDescriptor
deserialize_device_descriptor bytes = do
  throw_if (ltb max_message (length bytes)) message_exceeds_limit
  (name, rest) ← string 256 bytes
  (url, rest) ← string max_string rest
  throw_if (is_empty name || not (valid_loopback_media_url url)) invalid_legacy_descriptor
  (front, rest) ← read_resolutions rest
  (back, rest) ← read_resolutions rest
  (filters, rest) ← read_filters rest
  throw_if (not (is_empty rest)) trailing_bytes
  ok (record {
    device_name = name;
    rtsp_url = url;
    rtsp_protocol = codes "tcp";
    available_front_resolutions = front;
    available_back_resolutions = back;
    available_filters = filters;
  })
