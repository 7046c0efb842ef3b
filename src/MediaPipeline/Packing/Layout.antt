-- ===== src/MediaPipeline/Packing/Layout.antt =====
-- A packed frame is its three planes, one after the other, each row filled up to its stride.
use native.Mathlib.Nat.{suc-mul}
use open_cam.Prelude.{
  ℕ, zero, suc, ◌+◌, ◌-◌, ◌*◌, ◌≤◌, ◌≡◌, sym, ap, ◌∙◌, [], ◌++◌, append-nil, some, Bytes, length,
  take, drop, replicate, length-append, length-take, length-drop, length-replicate,
  take-append-drop, arith,
}
use open_cam.Prelude.{◌>>=◌}
use open_cam.MediaPipeline.Media.{Plane, Frame}
use open_cam.MediaPipeline.Output.{Strides}
use open_cam.MediaPipeline.Output.Bounds.{IsLayout}
use open_cam.MediaPipeline.Packing.{luma_rows, chroma_rows, pack_yuv420}
use open_cam.MediaPipeline.Packing.Rows.{row_bytes, plane_layout, HasRows, length_row, bind-some}
use open_cam.MediaPipeline.Packing.Planes.{luma_rows-layout, chroma_rows-layout}

length-plane_layout :
    (plane : Plane) (width stride rows rounds row : ℕ)
    → HasRows plane width rows
    → row + rounds ≤ rows
    → width ≤ stride
    → length (plane_layout plane width stride rounds row) ≡ rounds * stride
length-plane_layout plane width stride rows zero row r below h = omega arith
length-plane_layout plane width stride rows (suc rounds) row r below h =
    let s = row_bytes plane width row in
    let p : Bytes = replicate (stride - width) 0 in
    let later = plane_layout plane width stride rounds (suc row) in
    let (_, length_s) = length_row plane width rows row r (omega (arith, below)) in
    omega (
      arith,
      length-append s (p ++ later),
      length-append p later,
      length-replicate {A = ℕ} (stride - width) 0,
      length_s,
      h,
      suc-mul rounds stride,
      length-plane_layout plane width stride rows rounds (suc row) r (omega (arith, below)) h,
    )

-- If the device's layout is as configured and each plane of the converted frame has its rows, no
-- copy is out of bounds: the packed frame is the luma plane, then the two chroma planes, each row
-- filled up to its stride with zeros, and has exactly the configured size.
pub pack_yuv420-layout :
    (frame : Frame) (s : Strides)
    → IsLayout s
    → HasRows frame.luma 640 480
    → HasRows frame.blue 320 240
    → HasRows frame.red 320 240
    → let packed =
        plane_layout frame.luma 640 s.luma 480 0
        ++ (plane_layout frame.blue 320 s.chroma 240 0
            ++ plane_layout frame.red 320 s.chroma 240 0) in
      (pack_yuv420 frame s ≡ some packed) × (length packed ≡ s.frame_size)
unfolding pack_yuv420
pack_yuv420-layout frame s l luma blue red =
    let y = plane_layout frame.luma 640 s.luma 480 0 in
    let length_y =
      length-plane_layout frame.luma 640 s.luma 480 480 0 luma (omega arith) l.luma_fits in
    let length_u =
      length-plane_layout frame.blue 320 s.chroma 240 240 0 blue (omega arith) l.chroma_fits in
    let length_v =
      length-plane_layout frame.red 320 s.chroma 240 240 0 red (omega arith) l.chroma_fits in
    let blank : Bytes = replicate s.frame_size 0 in
    let length_blank : length blank ≡ s.frame_size = length-replicate s.frame_size 0 in
    let y0 = take (480 * s.luma) blank in
    let rest = drop (480 * s.luma) blank in
    let u0 = take (240 * s.chroma) rest in
    let v0 = drop (240 * s.chroma) rest in
    let size_y : length y0 ≡ 480 * s.luma =
      omega (arith, length-take (480 * s.luma) blank, length_blank, l.whole) in
    let size_rest : length rest ≡ 240 * s.chroma + 240 * s.chroma =
      omega (arith, length-drop (480 * s.luma) blank, length_blank, l.whole) in
    let size_u : length u0 ≡ 240 * s.chroma =
      omega (arith, length-take (240 * s.chroma) rest, size_rest) in
    let size_v : length v0 ≡ 240 * s.chroma =
      omega (arith, length-drop (240 * s.chroma) rest, size_rest) in
    let splits : blank ≡ y0 ++ rest = sym (take-append-drop (480 * s.luma) blank) in
    let splits' : y ++ rest ≡ y ++ (u0 ++ ([] ++ (v0 ++ []))) =
      ap (λ t. y ++ t)
        (sym (take-append-drop (240 * s.chroma) rest) ∙ ap (λ t. u0 ++ t) (sym (append-nil v0))) in
    let first =
      luma_rows-layout frame.luma 640 s.luma 480 480 0 [] y0 rest luma (omega arith) l.luma_fits
        (omega arith) size_y in
    let second =
      chroma_rows-layout frame.blue frame.red (s.luma * 480) (s.luma * 480 + s.chroma * 240) 320
        s.chroma 240 240 0 y u0 [] v0 [] blue red (omega arith) l.chroma_fits
        (omega (arith, length_y)) (omega (arith, length_y, size_u)) size_u size_v in
    (
      ap
            (λ t. luma_rows frame.luma 640 s.luma 480 0 t >>= λ buffer.
              chroma_rows frame.blue frame.red (s.luma * 480) (s.luma * 480 + s.chroma * 240) 320
                s.chroma 240 0 buffer)
            splits
          ∙ bind-some (luma_rows frame.luma 640 s.luma 480 0 (y0 ++ rest)) _ (y ++ rest) first
          ∙ ap
              (chroma_rows frame.blue frame.red (s.luma * 480) (s.luma * 480 + s.chroma * 240) 320
                s.chroma 240 0)
              splits'
          ∙ second
          ∙ ap (λ t. some (y ++ (plane_layout frame.blue 320 s.chroma 240 0 ++ t)))
              (append-nil (plane_layout frame.red 320 s.chroma 240 0)),
      omega (
        arith,
        length-append y (
            plane_layout frame.blue 320 s.chroma 240 0
            ++ plane_layout frame.red 320 s.chroma 240 0),
        length-append (plane_layout frame.blue 320 s.chroma 240 0)
            (plane_layout frame.red 320 s.chroma 240 0),
        length_y,
        length_u,
        length_v,
        l.whole,
      ),
    )
