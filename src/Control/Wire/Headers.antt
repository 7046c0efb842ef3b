-- ===== src/Control/Wire/Headers.antt =====
-- Headers and sequence numbers are read back as they were written, and only as they were written.
use open_cam.Prelude.{
  ℕ, ◌+◌, ◌*◌, ◌^◌, ◌≤◌, ◌<◌, ◌≡◌, refl, [], ◌∷◌, Bytes, IsByte, equal_bytes, equal_bytes_iff,
  length, All, some, arith,
}
use open_cam.Control.Wire.{
  FrameType, magic, max_payload, sequence_bytes, sequence_of_bytes, make_header, read_header,
}

pub length-make_header : (type : FrameType) (n : ℕ) → length (make_header type n) ≡ 10
unfolding make_header
length-make_header type n = refl

pub length-sequence_bytes : (s : ℕ) → length (sequence_bytes s) ≡ 8
unfolding sequence_bytes
length-sequence_bytes s = refl

-- The header that is written for a payload within the limit is read back.
pub read_header-make_header :
    (type : FrameType) (n : ℕ) → n ≤ max_payload → read_header (make_header type n) ≡ some (type, n)
unfolding read_header make_header equal_bytes
read_header-make_header type n h = ground arith

header_split :
    (m0 m1 m2 m3 v t a b c d : ℕ) (type : FrameType) (n : ℕ)
    → read_header (m0 ∷ m1 ∷ m2 ∷ m3 ∷ v ∷ t ∷ a ∷ b ∷ c ∷ d ∷ []) ≡ some (type, n)
    → (magic ≡ m0 ∷ m1 ∷ m2 ∷ m3 ∷ [])
      × (v ≡ 2)
      × (t ≡ type)
      × (a * 2 ^ 24 + b * 2 ^ 16 + c * 2 ^ 8 + d ≡ n)
      × (n ≤ max_payload)
unfolding read_header
header_split m0 m1 m2 m3 v t a b c d type n e =
    ground (arith, equal_bytes_iff magic (m0 ∷ m1 ∷ m2 ∷ m3 ∷ []))

-- Ten bytes that are read as a header are the header of that type and size.
pub read_header-eq_some :
    (header : Bytes) (type : FrameType) (n : ℕ)
    → All IsByte header
    → read_header header ≡ some (type, n)
    → (header ≡ make_header type n) × (n ≤ max_payload)
unfolding make_header
read_header-eq_some (m0 ∷ m1 ∷ m2 ∷ m3 ∷ v ∷ t ∷ a ∷ b ∷ c ∷ d ∷ []) type n h e =
    let (m, ev, et, en, le) = header_split m0 m1 m2 m3 v t a b c d type n e in ground arith
read_header-eq_some _ type n h e = unfold read_header in absurd (cc)

pub sequence_of_bytes-sequence_bytes :
    (s : ℕ) → s < 2 ^ 64 → sequence_of_bytes 0 (sequence_bytes s) ≡ s
unfolding sequence_of_bytes sequence_bytes
sequence_of_bytes-sequence_bytes s h = omega arith
