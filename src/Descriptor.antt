-- ===== src/Descriptor.antt =====
-- The device descriptor that a paired device sends: linux/src/device_descriptor.cpp and
-- device_descriptor.hpp. A position in the buffer is the list of the bytes from it on.
pub mod Utf8
pub mod Layout
mod Examples
use open_cam.Prelude.{
  ℕ, zero, suc, ◌+◌, ◌*◌, Bool, true, false, not, ◌||◌, List, [], ◌∷◌, ◌==◌, ltb, leb, Bytes,
  length, take, drop, Option, none, some,
}
use open_cam.Descriptor.Utf8.{is_valid_utf8}

pub record Resolution : Type 0 where
  pub width : ℕ
  pub height : ℕ

pub record Filter : Type 0 where
  pub name : Bytes
  pub category : ℕ

pub record DeviceDescriptor : Type 0 where
  pub name : Bytes
  pub rtsp_url : Bytes
  pub front_resolutions : List Resolution
  pub back_resolutions : List Resolution
  pub filters : List Filter

-- The messages of the `std::runtime_error`s.
pub data Error : Type 0 where
  end_in_uint16 string_too_long end_in_string invalid_utf8 control_character : Error
  too_many_resolutions resolution_out_of_range too_many_filters end_in_category : Error
  unknown_category descriptor_too_large empty_field trailing_data : Error

-- What a reader gives: its exception or its value.
pub data Result {ℓ} (Value : Type ℓ) : Type ℓ where
  err : Error → Result Value
  ok : Value → Result Value

infixl 5 ◌>>=◌
abbrev pub ◌>>=◌ {ℓ κ} :
    {Before : Type ℓ} {After : Type κ} → Result Before → (Before → Result After) → Result After
err error >>= next = err error
ok value >>= next = next value

infixl 5 ◌>>◌
abbrev pub ◌>>◌ {ℓ} : {After : Type ℓ} → Result (Unit {0}) → Result After → Result After
err error >> next = err error
ok done >> next = next

-- `if (test) throw std::runtime_error(…)`
abbrev pub throw_if : Bool → Error → Result (Unit {0})
throw_if true e = err e
throw_if false e = ok tt

abbrev pub max_descriptor_size : ℕ
max_descriptor_size = 64 * 1024

abbrev pub max_string_size : ℕ
max_string_size = 2048

abbrev pub max_resolutions : ℕ
max_resolutions = 128

abbrev pub max_filters : ℕ
max_filters = 128

abbrev pub max_dimension : ℕ
max_dimension = 8192

abbrev pub is_empty {ℓ} : {A : Type ℓ} → List A → Bool
is_empty [] = true
is_empty (x ∷ xs) = false

unfoldable pub read_uint16 : Bytes → Result (ℕ × Bytes)
read_uint16 (high ∷ low ∷ rest) = ok (high * 256 + low, rest)
read_uint16 _ = err end_in_uint16

-- The test of the loop over the characters of a string.
unfoldable pub has_control : Bytes → Bool
has_control [] = false
has_control (c ∷ cs) = (ltb c 0x20 || c == 0x7f) || has_control cs

-- What `readString` does once it knows the length.
unfoldable pub string_of_length : ℕ → Bytes → Result (Bytes × Bytes)
string_of_length n rest = do
  throw_if (ltb max_string_size n) string_too_long
  throw_if (ltb (length rest) n) end_in_string
  let value = take n rest
  throw_if (not (is_valid_utf8 value)) invalid_utf8
  throw_if (has_control value) control_character
  ok (value, drop n rest)

unfoldable pub read_string : Bytes → Result (Bytes × Bytes)
read_string data' = do (n, rest) ← read_uint16 data'; string_of_length n rest

-- The test on one resolution.
abbrev out_of_range : Resolution → Bool
out_of_range r =
    r.width == 0 || r.height == 0 || ltb max_dimension r.width || ltb max_dimension r.height

-- The body of the loop.
unfoldable pub read_resolution : Bytes → Result (Resolution × Bytes)
read_resolution data' = do
  (width, rest) ← read_uint16 data'
  (height, rest) ← read_uint16 rest
  let resolution : Resolution = record { width = width; height = height }
  throw_if (out_of_range resolution) resolution_out_of_range
  ok (resolution, rest)

-- The loop, with the rounds that are left.
unfoldable pub resolution_loop : ℕ → Bytes → Result (List Resolution × Bytes)
resolution_loop zero data' = ok ([], data')
resolution_loop (suc rounds) data' = do
  (resolution, rest) ← read_resolution data'
  (resolutions, rest) ← resolution_loop rounds rest
  ok (resolution ∷ resolutions, rest)

unfoldable pub read_resolutions : Bytes → Result (List Resolution × Bytes)
read_resolutions data' = do
  (count, rest) ← read_uint16 data'
  throw_if (ltb max_resolutions count) too_many_resolutions
  resolution_loop count rest

-- The category, behind the name.
unfoldable pub read_category : Bytes → Result (ℕ × Bytes)
read_category [] = err end_in_category
read_category (category ∷ rest) = do throw_if (ltb 4 category) unknown_category; ok (category, rest)

unfoldable pub filter_loop : ℕ → Bytes → Result (List Filter × Bytes)
filter_loop zero data' = ok ([], data')
filter_loop (suc rounds) data' = do
  (name, rest) ← read_string data'
  (category, rest) ← read_category rest
  (filters, rest) ← filter_loop rounds rest
  let filter : Filter = record { name = name; category = category }
  ok (filter ∷ filters, rest)

unfoldable pub read_filters : Bytes → Result (List Filter × Bytes)
read_filters data' = do
  (count, rest) ← read_uint16 data'
  throw_if (ltb max_filters count) too_many_filters
  filter_loop count rest

unfoldable pub parse_device_descriptor : Bytes → Result DeviceDescriptor
parse_device_descriptor data' = do
  throw_if (ltb max_descriptor_size (length data')) descriptor_too_large
  (name, rest) ← read_string data'
  (url, rest) ← read_string rest
  throw_if (is_empty name || is_empty url) empty_field
  (front, rest) ← read_resolutions rest
  (back, rest) ← read_resolutions rest
  (filters, rest) ← read_filters rest
  throw_if (not (is_empty rest)) trailing_data
  ok (record {
    name = name;
    rtsp_url = url;
    front_resolutions = front;
    back_resolutions = back;
    filters = filters;
  })
