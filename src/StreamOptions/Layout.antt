-- ===== src/StreamOptions/Layout.antt =====
-- The layout of the activation packet: a reader of its own, which reads fields at fixed offsets in
-- big-endian order, gets back the options that were written.
use open_cam.Prelude.{
  ℕ, ◌+◌, ◌-◌, ◌*◌, ◌/◌, ◌%◌, ◌^◌, ◌<◌, ◌≡◌, refl, Bool, true, false, [], ◌∷◌, Option, none, some,
  if◌then◌else◌, ◌==◌, Bytes, length, arith,
}
use open_cam.Prelude.Int.{ℤ, pos, negsuc, signed32}
use open_cam.StreamOptions.{StreamOptions, to_uint32, build_activation_packet}

-- An `int32_t`.
abbrev pub IsInt32 : ℤ → Type 0
IsInt32 (pos n) = n < 2 ^ 31
IsInt32 (negsuc n) = n < 2 ^ 31

pub record IsValid (options : StreamOptions) : Type 0 where
  pub fps : IsInt32 options.fps
  pub width : IsInt32 options.width
  pub height : IsInt32 options.height
  pub camera : IsInt32 options.camera
  pub bitrate : IsInt32 options.bitrate
  pub min_bitrate : IsInt32 options.min_bitrate
  pub max_bitrate : IsInt32 options.max_bitrate
  pub focus_mode : IsInt32 options.focus_mode

-- The four bytes at the front as a big-endian two's complement number, and what follows them.
abbrev int_at : Bytes → (ℤ → Bytes → Option StreamOptions) → Option StreamOptions
int_at (a ∷ b ∷ c ∷ d ∷ rest) k = k (signed32 (((a * 256 + b) * 256 + c) * 256 + d)) rest
int_at _ k = none

abbrev bool_at : Bytes → (Bool → Bytes → Option StreamOptions) → Option StreamOptions
bool_at (b ∷ rest) k = k (b == 1) rest
bool_at [] k = none

-- No correction filter and an empty effect name must end the packet.
abbrev end_at : Bytes → StreamOptions → Option StreamOptions
end_at (0' ∷ 1' ∷ 2' ∷ 3' ∷ []) o = if (0' + 1' + 2' + 3') == 0 then some o else none
end_at _ o = none

abbrev pub read_packet : Bytes → Option StreamOptions
read_packet packet = int_at packet λ fps r. int_at r λ width r. int_at r λ height r.
    int_at r λ camera r. bool_at r λ adaptive r. int_at r λ bitrate r. int_at r λ min_bitrate r.
      int_at r λ max_bitrate r. bool_at r λ stabilization r. bool_at r λ flash r.
        bool_at r λ h265 r. int_at r λ focus_mode r. end_at r (record {
          fps = fps;
          width = width;
          height = height;
          camera = camera;
          adaptive_bitrate = adaptive;
          bitrate = bitrate;
          min_bitrate = min_bitrate;
          max_bitrate = max_bitrate;
          stabilization = stabilization;
          flash = flash;
          h265 = h265;
          focus_mode = focus_mode;
        })

-- The number that the four bytes of an `int32_t` give.
abbrev reread : ℤ → ℤ
reread v =
    let u = to_uint32 v in
    signed32 (((u / 2 ^ 24 % 256 * 256 + u / 2 ^ 16 % 256) * 256 + u / 2 ^ 8 % 256) * 256 + u % 256)

join_bytes :
    (u : ℕ)
    → u < 2 ^ 32
    → ((u / 2 ^ 24 % 256 * 256 + u / 2 ^ 16 % 256) * 256 + u / 2 ^ 8 % 256) * 256 + u % 256 ≡ u
join_bytes u h = omega arith

reread_lem : (v : ℤ) → IsInt32 v → reread v ≡ v
reread_lem (pos n) h = rw (join_bytes (n % 2 ^ 32) (omega arith)) (ground arith)
reread_lem (negsuc n) h = rw (join_bytes (2 ^ 32 - 1 - n % 2 ^ 32) (omega arith)) (ground arith)

bool_byte : (b : Bool) → ((if b then 1 else 0) == 1) ≡ b
bool_byte true = refl
bool_byte false = refl

-- The packet is 40 bytes long whatever the options are.
pub length-build_activation_packet :
    (options : StreamOptions) → length (build_activation_packet options) ≡ 40
unfolding build_activation_packet
length-build_activation_packet options = refl

-- For options whose numbers are 32-bit integers, the reader gets back exactly these options from
-- the packet.
pub read_packet-build_activation_packet :
    (options : StreamOptions)
    → IsValid options
    → read_packet (build_activation_packet options) ≡ some options
unfolding build_activation_packet
read_packet-build_activation_packet o v = cc (
  reread_lem o.fps v.fps,
  reread_lem o.width v.width,
  reread_lem o.height v.height,
  reread_lem o.camera v.camera,
  reread_lem o.bitrate v.bitrate,
  reread_lem o.min_bitrate v.min_bitrate,
  reread_lem o.max_bitrate v.max_bitrate,
  reread_lem o.focus_mode v.focus_mode,
  bool_byte o.adaptive_bitrate,
  bool_byte o.stabilization,
  bool_byte o.flash,
  bool_byte o.h265,
)
