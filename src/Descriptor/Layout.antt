-- ===== src/Descriptor/Layout.antt =====
-- The layout of a descriptor, written out as a writer of its own, and what the parser accepts.
pub mod Texts
pub mod Parts
pub mod Accepted
use open_cam.Prelude.{
  ℕ, ◌+◌, ◌*◌, ◌/◌, ◌%◌, ◌≤◌, ◌<◌, ◌≡◌, ◌≢◌, List, [], ◌∷◌, ◌++◌, Bytes, length, All,
}
use open_cam.Descriptor.{DeviceDescriptor, Resolution, Filter}
use open_cam.Descriptor.Utf8.Decoding.{IsUtf8}

abbrev pub put_uint16 : ℕ → Bytes
put_uint16 n = n / 256 ∷ n % 256 ∷ []

abbrev pub put_string : Bytes → Bytes
put_string s = put_uint16 (length s) ++ s

abbrev pub put_resolution : Resolution → Bytes
put_resolution r = put_uint16 r.width ++ put_uint16 r.height

abbrev pub put_filter : Filter → Bytes
put_filter f = put_string f.name ++ (f.category ∷ [])

-- Items one after the other.
abbrev pub put_all {ℓ} : {A : Type ℓ} → (A → Bytes) → List A → Bytes
put_all put [] = []
put_all put (x ∷ xs) = put x ++ put_all put xs

abbrev pub put_list {ℓ} : {A : Type ℓ} → (A → Bytes) → List A → Bytes
put_list put xs = put_uint16 (length xs) ++ put_all put xs

abbrev pub put_descriptor : DeviceDescriptor → Bytes
put_descriptor d =
    put_string d.name
    ++ (put_string d.rtsp_url
        ++ (put_list put_resolution d.front_resolutions
            ++ (put_list put_resolution d.back_resolutions ++ put_list put_filter d.filters)))

-- A character that may stand in a text: no control character.
abbrev pub IsPrintable : ℕ → Type 0
IsPrintable c = (0x20 ≤ c) × (c ≢ 0x7f)

abbrev pub IsText : Bytes → Type 0
IsText s = (length s ≤ 2048) × IsUtf8 s × All IsPrintable s

abbrev pub InRange : Resolution → Type 0
InRange r = (0 < r.width) × (r.width ≤ 8192) × (0 < r.height) × (r.height ≤ 8192)

abbrev pub IsFilter : Filter → Type 0
IsFilter f = IsText f.name × (f.category ≤ 4)

abbrev pub AtMost128 {ℓ κ} : {A : Type ℓ} → (A → Type κ) → List A → Type κ
AtMost128 P xs = (length xs ≤ 128) × All P xs

-- The descriptors that the program works with.
pub record IsValid (d : DeviceDescriptor) : Type 0 where
  pub name : IsText d.name
  pub name_ne_nil : d.name ≢ []
  pub rtsp_url : IsText d.rtsp_url
  pub rtsp_url_ne_nil : d.rtsp_url ≢ []
  pub front_resolutions : AtMost128 InRange d.front_resolutions
  pub back_resolutions : AtMost128 InRange d.back_resolutions
  pub filters : AtMost128 IsFilter d.filters
  pub fits : length (put_descriptor d) ≤ 64 * 1024
