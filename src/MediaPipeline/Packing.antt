-- ===== src/MediaPipeline/Packing.antt =====
-- The packing of a converted frame in `writePackedYuv420` of linux/src/media_pipeline.cpp. A copy
-- that would read or write out of bounds gives `none`.
pub mod Rows
mod Planes
pub mod Layout
use open_cam.Prelude.{
  ℕ, zero, suc, ◌+◌, ◌-◌, ◌*◌, ◌/◌, List, [], ◌∷◌, ◌++◌, Option, none, some, ltb, leb,
  if◌then◌else◌, Bytes, length, take, drop, replicate,
}
use open_cam.Prelude.{◌>>=◌}
use open_cam.MediaPipeline.Media.{Plane, Frame}
use open_cam.MediaPipeline.Output.{Strides, output_width, output_height}

-- The bytes that `memcpy` reads.
unfoldable pub read_at : ℕ → ℕ → Bytes → Option Bytes
read_at offset size bytes =
    if leb (offset + size) (length bytes) then some (take size (drop offset bytes)) else none

-- The buffer after `memcpy` or `memset` at an offset.
unfoldable pub write_at : ℕ → Bytes → Bytes → Option Bytes
write_at offset new buffer =
    if leb (offset + length new) (length buffer)
    then some (take offset buffer ++ (new ++ drop (offset + length new) buffer))
    else none

-- The `memcpy` of one row.
unfoldable pub copy_row : Plane → ℕ → ℕ → ℕ → Bytes → Option Bytes
copy_row plane width row offset buffer = do
  source ← read_at (row * plane.linesize) width plane.bytes
  write_at offset source buffer

-- The `memset` behind a row, where its stride is longer.
unfoldable pub pad_row : ℕ → ℕ → ℕ → Bytes → Option Bytes
pad_row width stride offset buffer =
    if ltb width stride then write_at offset (replicate (stride - width) 0) buffer else some buffer

-- The loop over the luma rows, with the rounds that are left.
unfoldable pub luma_rows : Plane → ℕ → ℕ → ℕ → ℕ → Bytes → Option Bytes
luma_rows plane width stride zero row buffer = some buffer
luma_rows plane width stride (suc rounds) row buffer = do
  buffer ← copy_row plane width row (row * stride) buffer
  buffer ← pad_row width stride (row * stride + width) buffer
  luma_rows plane width stride rounds (suc row) buffer

-- The loop over the chroma rows; `u` and `v` are the offsets of the two planes.
unfoldable pub chroma_rows : Plane → Plane → ℕ → ℕ → ℕ → ℕ → ℕ → ℕ → Bytes → Option Bytes
chroma_rows blue red u v width stride zero row buffer = some buffer
chroma_rows blue red u v width stride (suc rounds) row buffer = do
  buffer ← copy_row blue width row (u + row * stride) buffer
  buffer ← copy_row red width row (v + row * stride) buffer
  buffer ← pad_row width stride (u + row * stride + width) buffer
  buffer ← pad_row width stride (v + row * stride + width) buffer
  chroma_rows blue red u v width stride rounds (suc row) buffer

unfoldable pub pack_yuv420 : Frame → Strides → Option Bytes
pack_yuv420 frame strides = do
  let u : ℕ = strides.luma * output_height
  let v : ℕ = u + strides.chroma * (output_height / 2)
  buffer ←
      luma_rows frame.luma output_width strides.luma output_height 0
        (replicate strides.frame_size 0)
  chroma_rows frame.blue frame.red u v (output_width / 2) strides.chroma (output_height / 2) 0
      buffer
