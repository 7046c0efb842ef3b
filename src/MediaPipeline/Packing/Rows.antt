-- ===== src/MediaPipeline/Packing/Rows.antt =====
-- One row of a packed frame: what its copy and its padding write.
use native.Mathlib.Nat.{suc-mul, mul-le-mul_right}
use open_cam.Prelude.{
  ℕ, zero, suc, ◌+◌, ◌-◌, ◌*◌, ◌≤◌, ◌≡◌, refl, sym, ap, ◌∙◌, inl, inr, true, [], ◌∷◌, ◌++◌,
  append_assoc, Option, some, ltb, leb, Bytes, length, take, drop, replicate, take-append,
  drop-append, length-append, length-take, length-drop, length-replicate, take-append-drop,
  Bool-cases, arith,
}
use open_cam.Prelude.{◌>>=◌}
use open_cam.MediaPipeline.Media.{Plane}
use open_cam.MediaPipeline.Packing.{read_at, write_at, copy_row, pad_row}

-- The bytes of one row of a plane.
abbrev pub row_bytes : Plane → ℕ → ℕ → Bytes
row_bytes plane width row = take width (drop (row * plane.linesize) plane.bytes)

-- The rows of a plane from `row` on, each filled up with zeros.
abbrev pub plane_layout : Plane → ℕ → ℕ → ℕ → ℕ → Bytes
plane_layout plane width stride zero row = []
plane_layout plane width stride (suc rounds) row =
    row_bytes plane width row
    ++ (replicate (stride - width) 0 ++ plane_layout plane width stride rounds (suc row))

-- The plane has this many rows of this width.
abbrev pub HasRows : Plane → ℕ → ℕ → Type 0
HasRows plane width rows = (width ≤ plane.linesize) × (rows * plane.linesize ≤ length plane.bytes)

write_at-middle :
    (a old new c : Bytes) (offset : ℕ)
    → length a ≡ offset
    → length old ≡ length new
    → write_at offset new (a ++ (old ++ c)) ≡ some (a ++ (new ++ c))
unfolding write_at
write_at-middle a old new c offset h h' =
    let fits : leb (offset + length new) (length (a ++ (old ++ c))) ≡ true =
      ground (arith, length-append a (old ++ c), length-append old c) in
    let front : take offset (a ++ (old ++ c)) ≡ a =
      ap (λ n. take n (a ++ (old ++ c))) (sym h) ∙ take-append a (old ++ c) in
    let size : offset + length new ≡ length (a ++ old) =
      omega (arith, length-append a old, h, h') in
    let back : drop (offset + length new) (a ++ (old ++ c)) ≡ c =
      ap (λ n. drop n (a ++ (old ++ c))) size
      ∙ ap (drop (length (a ++ old))) (sym (append_assoc a old c))
      ∙ drop-append (a ++ old) c in
    rw (fits, front, back)

pub length_row :
    (plane : Plane) (width rows row : ℕ)
    → HasRows plane width rows
    → suc row ≤ rows
    → (row * plane.linesize + width ≤ length plane.bytes)
      × (length (row_bytes plane width row) ≡ width)
length_row plane width rows row (wide, tall) below =
    let last : suc row * plane.linesize ≤ rows * plane.linesize =
      mul-le-mul_right plane.linesize below in
    let room : row * plane.linesize + width ≤ length plane.bytes =
      omega (arith, last, suc-mul row plane.linesize, wide, tall) in
    (
      room,
      omega (
        arith,
        length-take width (drop (row * plane.linesize) plane.bytes),
        length-drop (row * plane.linesize) plane.bytes,
        room,
      ),
    )

pub copy_row-middle :
    (plane : Plane) (width rows row : ℕ) (a old c : Bytes) (offset : ℕ)
    → HasRows plane width rows
    → suc row ≤ rows
    → length a ≡ offset
    → length old ≡ width
    → (copy_row plane width row offset (a ++ (old ++ c))
        ≡ some (a ++ (row_bytes plane width row ++ c)))
      × (length (row_bytes plane width row) ≡ width)
unfolding copy_row read_at
copy_row-middle plane width rows row a old c offset r below at size =
    let (room, exact) = length_row plane width rows row r below in
    let fits : leb (row * plane.linesize + width) (length plane.bytes) ≡ true = ground arith in
    (
      rw fits (write_at-middle a old (row_bytes plane width row) c offset at (size ∙ sym exact)),
      exact,
    )

pub pad_row-middle :
    (width stride : ℕ) (a old c : Bytes) (offset : ℕ)
    → width ≤ stride
    → length a ≡ offset
    → length old ≡ stride - width
    → pad_row width stride offset (a ++ (old ++ c))
      ≡ some (a ++ (replicate (stride - width) 0 ++ c))
unfolding pad_row
pad_row-middle width stride a old c offset h at size = elim (Bool-cases (ltb width stride)) [
  | inl wider ↦ rw wider (
      write_at-middle a old (replicate (stride - width) 0) c offset at
        (size ∙ sym (length-replicate (stride - width) 0)))
  | inr tight ↦
      let none_left : stride - width ≡ 0 = ground arith in
      let no_old : old ≡ [] = empty_of old (size ∙ none_left) in rw (tight, none_left, no_old)
]
  where
    empty_of : (s : Bytes) → length s ≡ 0 → s ≡ []
    empty_of [] e = refl
    empty_of (x ∷ s) e = absurd (omega arith)

-- The first row of a region of rows, split at the width.
pub record FirstRow (width stride rounds : ℕ) (old : Bytes) : Type 0 where
  pub front : Bytes
  pub fill : Bytes
  pub later : Bytes
  pub splits : old ≡ front ++ (fill ++ later)
  pub length_front : length front ≡ width
  pub length_fill : length fill ≡ stride - width
  pub length_later : length later ≡ rounds * stride

pub first_row :
    (width stride rounds : ℕ) (old : Bytes)
    → width ≤ stride
    → length old ≡ suc rounds * stride
    → FirstRow width stride rounds old
first_row width stride rounds old h size =
    let rest = drop width old in
    let all : length old ≡ rounds * stride + stride = size ∙ suc-mul rounds stride in
    record {
      front = take width old;
      fill = take (stride - width) rest;
      later = drop (stride - width) rest;
      splits =
          sym (take-append-drop width old)
          ∙ ap (λ t. take width old ++ t) (sym (take-append-drop (stride - width) rest));
      length_front = omega (arith, length-take width old, all, h);
      length_fill = omega (arith, length-take (stride - width) rest, length-drop width old, all, h);
      length_later =
          omega (arith, length-drop (stride - width) rest, length-drop width old, all, h);
    }

pub bind-some {ℓ κ} :
    {A : Type ℓ} {B : Type κ} (m : Option A) (f : A → Option B) (a : A)
    → m ≡ some a
    → (m >>= f) ≡ f a
bind-some m f a e = rw e
