-- ===== src/MediaPipeline/Packing/Planes.antt =====
-- The rows of the luma plane and of the two chroma planes, written one after the other.
use native.Mathlib.Nat.{suc-mul}
use open_cam.Prelude.{
  ℕ, zero, suc, ◌+◌, ◌-◌, ◌*◌, ◌≤◌, ◌≡◌, refl, sym, ap, ◌∙◌, [], ◌∷◌, ◌++◌, append_assoc, some,
  Bytes, length, replicate, length-append, length-replicate, arith,
}
use open_cam.MediaPipeline.Media.{Plane}
use open_cam.MediaPipeline.Packing.{luma_rows, chroma_rows}
use open_cam.MediaPipeline.Packing.Rows.{
  row_bytes, plane_layout, HasRows, copy_row-middle, pad_row-middle, first_row,
}

pub luma_rows-layout :
    (plane : Plane) (width stride rows rounds row : ℕ) (a old c : Bytes)
    → HasRows plane width rows
    → row + rounds ≤ rows
    → width ≤ stride
    → length a ≡ row * stride
    → length old ≡ rounds * stride
    → luma_rows plane width stride rounds row (a ++ (old ++ c))
      ≡ some (a ++ (plane_layout plane width stride rounds row ++ c))
unfolding luma_rows
luma_rows-layout plane width stride rows zero row a [] c r below h at size = refl
luma_rows-layout plane width stride rows zero row a (x ∷ old) c r below h at size =
    absurd (omega (arith, size))
luma_rows-layout plane width stride rows (suc rounds) row a old c r below h at size =
    let f = first_row width stride rounds old h size in
    let s = row_bytes plane width row in
    let p : Bytes = replicate (stride - width) 0 in
    let length_p : length p ≡ stride - width = length-replicate (stride - width) 0 in
    let whole : a ++ (old ++ c) ≡ a ++ (f.front ++ (f.fill ++ (f.later ++ c))) =
      rw f.splits (simp append_assoc) in
    let (copied, length_s) =
      copy_row-middle plane width rows row a f.front (f.fill ++ (f.later ++ c)) (row * stride) r
        (omega (arith, below)) at f.length_front in
    let grouped : a ++ (s ++ (f.fill ++ (f.later ++ c))) ≡ (a ++ s) ++ (f.fill ++ (f.later ++ c)) =
      sym (append_assoc a s (f.fill ++ (f.later ++ c))) in
    let padded =
      pad_row-middle width stride (a ++ s) f.fill (f.later ++ c) (row * stride + width) h
        (omega (arith, length-append a s, at, length_s)) f.length_fill in
    let regrouped : (a ++ s) ++ (p ++ (f.later ++ c)) ≡ ((a ++ s) ++ p) ++ (f.later ++ c) =
      sym (append_assoc (a ++ s) p (f.later ++ c)) in
    let ih =
      luma_rows-layout plane width stride rows rounds (suc row) ((a ++ s) ++ p) f.later c r
        (omega (arith, below)) h
        (omega (
          arith,
          length-append (a ++ s) p,
          length-append a s,
          at,
          length_s,
          h,
          length_p,
          suc-mul row stride,
        ))
        f.length_later in
    rw (whole, copied, grouped, padded, regrouped, ih) (simp append_assoc)

pub chroma_rows-layout :
    (blue red : Plane) (u v width stride rows rounds row : ℕ) (a old b old' c : Bytes)
    → HasRows blue width rows
    → HasRows red width rows
    → row + rounds ≤ rows
    → width ≤ stride
    → length a ≡ u + row * stride
    → length a + length old + length b ≡ v + row * stride
    → length old ≡ rounds * stride
    → length old' ≡ rounds * stride
    → chroma_rows blue red u v width stride rounds row (a ++ (old ++ (b ++ (old' ++ c))))
      ≡ some (
          a
          ++ (plane_layout blue width stride rounds row
              ++ (b ++ (plane_layout red width stride rounds row ++ c))))
unfolding chroma_rows
chroma_rows-layout blue red u v width stride rows zero row a [] b [] c r r' below h at at' size
      size' =
    refl
chroma_rows-layout blue red u v width stride rows zero row a (x ∷ old) b old' c r r' below h at at'
      size size' =
    absurd (omega (arith, size))
chroma_rows-layout blue red u v width stride rows zero row a [] b (x ∷ old') c r r' below h at at'
      size size' =
    absurd (omega (arith, size'))
chroma_rows-layout blue red u v width stride rows (suc rounds) row a old b old' c r r' below h at
      at' size size' =
    let f = first_row width stride rounds old h size in
    let g = first_row width stride rounds old' h size' in
    let s = row_bytes blue width row in
    let t = row_bytes red width row in
    let p : Bytes = replicate (stride - width) 0 in
    let length_p : length p ≡ stride - width = length-replicate (stride - width) 0 in
    let all : length old ≡ rounds * stride + stride = size ∙ suc-mul rounds stride in
    let whole : a ++ (old ++ (b ++ (old' ++ c)))
        ≡ a
          ++ (f.front ++ (f.fill ++ (f.later ++ (b ++ (g.front ++ (g.fill ++ (g.later ++ c))))))) =
      ap (λ k. a ++ (k ++ (b ++ (old' ++ c)))) f.splits
      ∙ ap (λ k. a ++ ((f.front ++ (f.fill ++ f.later)) ++ (b ++ (k ++ c)))) g.splits
      ∙ simp append_assoc in
    let (copied, length_s) =
      copy_row-middle blue width rows row a f.front
        (f.fill ++ (f.later ++ (b ++ (g.front ++ (g.fill ++ (g.later ++ c)))))) (u + row * stride) r
        (omega (arith, below)) at f.length_front in
    let a1 = a ++ (s ++ (f.fill ++ (f.later ++ b))) in
    let grouped : a
          ++ (s ++ (f.fill ++ (f.later ++ (b ++ (g.front ++ (g.fill ++ (g.later ++ c)))))))
        ≡ a1 ++ (g.front ++ (g.fill ++ (g.later ++ c))) =
      simp append_assoc in
    let length_a1 : length a1 ≡ v + row * stride = omega (
      arith,
      length-append a (s ++ (f.fill ++ (f.later ++ b))),
      length-append s (f.fill ++ (f.later ++ b)),
      length-append f.fill (f.later ++ b),
      length-append f.later b,
      at',
      all,
      length_s,
      f.length_fill,
      f.length_later,
      h,
    ) in
    let (copied', length_t) =
      copy_row-middle red width rows row a1 g.front (g.fill ++ (g.later ++ c)) (v + row * stride) r'
        (omega (arith, below)) length_a1 g.length_front in
    let a2 = a ++ s in
    let length_a2 : length a2 ≡ u + row * stride + width =
      omega (arith, length-append a s, at, length_s) in
    let grouped' : a1 ++ (t ++ (g.fill ++ (g.later ++ c)))
        ≡ a2 ++ (f.fill ++ (f.later ++ (b ++ (t ++ (g.fill ++ (g.later ++ c)))))) =
      simp append_assoc in
    let padded =
      pad_row-middle width stride a2 f.fill (f.later ++ (b ++ (t ++ (g.fill ++ (g.later ++ c)))))
        (u + row * stride + width) h length_a2 f.length_fill in
    let a3 = (a2 ++ p) ++ (f.later ++ (b ++ t)) in
    let grouped'' : a2 ++ (p ++ (f.later ++ (b ++ (t ++ (g.fill ++ (g.later ++ c))))))
        ≡ a3 ++ (g.fill ++ (g.later ++ c)) =
      simp append_assoc in
    let length_a3 : length a3 ≡ v + row * stride + width = omega (
      arith,
      length-append (a2 ++ p) (f.later ++ (b ++ t)),
      length-append a2 p,
      length-append f.later (b ++ t),
      length-append b t,
      length-append a s,
      at',
      all,
      length_s,
      length_t,
      length_p,
      f.length_later,
      h,
    ) in
    let padded' =
      pad_row-middle width stride a3 g.fill (g.later ++ c) (v + row * stride + width) h length_a3
        g.length_fill in
    let b' = (b ++ t) ++ p in
    let regrouped : a3 ++ (p ++ (g.later ++ c)) ≡ (a2 ++ p) ++ (f.later ++ (b' ++ (g.later ++ c))) =
      simp append_assoc in
    let ih =
      chroma_rows-layout blue red u v width stride rows rounds (suc row) (a2 ++ p) f.later b'
        g.later c r r' (omega (arith, below)) h
        (omega (arith, length-append a2 p, length_a2, length_p, h, suc-mul row stride))
        (omega (
          arith,
          length-append a2 p,
          length-append (b ++ t) p,
          length-append b t,
          length-append a s,
          length_p,
          length_s,
          length_t,
          at',
          all,
          f.length_later,
          h,
          suc-mul row stride,
        ))
        f.length_later g.length_later in
    rw (whole, copied, grouped, copied', grouped', padded, grouped'', padded', regrouped, ih)
      (simp append_assoc)
