-- ===== src/MediaPipeline/Output.antt =====
-- `ioctlRetry` and `configureV4L2Output` of linux/src/media_pipeline.cpp.
pub mod Bounds
use Prim.Native.Nat.{bit_and}
use open_cam.Prelude.{
  ℕ, zero, suc, ◌+◌, ◌*◌, ◌/◌, ◌%◌, ◌^◌, Bool, true, false, not, ◌&&◌, ◌||◌, Option, none, some,
  ◌==◌, ltb, if◌then◌else◌,
}
use open_cam.Control.Os.{Errno, eintr}
use open_cam.MediaPipeline.Media.{Media, Answer, done, refused, Capability, PixFormat}

abbrev pub output_width : ℕ
output_width = 640

abbrev pub output_height : ℕ
output_height = 480

abbrev pub output_fps : ℕ
output_fps = 30

-- The constants of <linux/videodev2.h>.
abbrev pub cap_device_caps : ℕ
cap_device_caps = 2 ^ 31

abbrev pub cap_video_output : ℕ
cap_video_output = 2

abbrev pub pix_fmt_yuv420 : ℕ
pix_fmt_yuv420 = 0x32315559

abbrev pub field_none : ℕ
field_none = 1

abbrev pub colorspace_smpte170m : ℕ
colorspace_smpte170m = 1

-- The messages of `setFailure`.
pub data Failure : Type 0 where
  capability_query no_video_output format_rejected incompatible_format : Failure
  unsupported_stride undersized_buffer : Failure
  output_polling frame_write : Failure
  network_init context_allocation : Failure
  source_open source_metadata : ℕ → Failure
  no_video_stream decoder_init device_open buffer_allocation frame_allocation : Failure
  decoder_failed frame_preparation incomplete_frame source_ended packet_rejected : Failure
  source_read : ℕ → Failure
  pipeline_failed stopped_unexpectedly : Failure

-- `yStride`, `chromaStride` and `packedFrameSize`, or the message.
pub record Strides : Type 0 where
  pub luma : ℕ
  pub chroma : ℕ
  pub frame_size : ℕ

pub data Configured : Type 0 where
  configured : Strides → Configured
  not_configured : Failure → Configured

-- A loop takes fuel, and `none` means that it ran out.
unfoldable pub ioctl_retry : {W A : Type 0} → (W → Answer A × W) → ℕ → W → Option (Option A × W)
ioctl_retry ioctl zero w = none
ioctl_retry ioctl (suc fuel) w =
    let (answer, w1) = ioctl w in
    elim answer [
      | done a ↦ some (some a, w1)
      | refused errno ↦ elim errno [ eintr ↦ ioctl_retry ioctl fuel w1 | _ ↦ some (none, w1) ]
    ]

-- The format that is asked for.
abbrev pub asked_format : PixFormat
asked_format = record {
  width = output_width;
  height = output_height;
  pixelformat = pix_fmt_yuv420;
  field = field_none;
  bytesperline = output_width;
  sizeimage = output_width * output_height * 3 / 2;
  colorspace = colorspace_smpte170m;
}

unfoldable pub has_video_output : Capability → Bool
has_video_output c =
    let caps =
      if not (bit_and c.capabilities cap_device_caps == 0) then c.device_caps else c.capabilities in
    not (bit_and caps cap_video_output == 0)

-- What follows from the format that the device answers with.
unfoldable pub strides_of : PixFormat → Configured
strides_of format =
    if not (format.width == output_width)
      || not (format.height == output_height)
      || not (format.pixelformat == pix_fmt_yuv420)
    then not_configured incompatible_format
    else let y_stride =
        if ltb format.bytesperline output_width then output_width else format.bytesperline in
      if not (y_stride % 2 == 0)
      then not_configured unsupported_stride
      else let chroma_stride = y_stride / 2 in
        let frame_size = y_stride * output_height + 2 * chroma_stride * (output_height / 2) in
        if not (format.sizeimage == 0) && ltb format.sizeimage frame_size
        then not_configured undersized_buffer
        else configured
            (record { luma = y_stride; chroma = chroma_stride; frame_size = frame_size })

module _ (m : Media) where
  open m use {World}

  -- `VIDIOC_S_PARM`, whose outcome is ignored, where the format was accepted.
  unfoldable pub set_frame_rate : ℕ → Configured → World → Option (Configured × World)
  set_frame_rate fuel (not_configured e) w = some (not_configured e, w)
  set_frame_rate fuel (configured s) w = elim (ioctl_retry (m.set_rate output_fps) fuel w) [
    | none ↦ none
    | some (_, w1) ↦ some (configured s, w1)
  ]

  unfoldable pub configure_v4l2_output : ℕ → World → Option (Configured × World)
  configure_v4l2_output fuel w = elim (ioctl_retry m.query_capability fuel w) [
    | none ↦ none
    | some (none, w1) ↦ some (not_configured capability_query, w1)
    | some (some capability, w1) ↦
        if not (has_video_output capability)
        then some (not_configured no_video_output, w1)
        else elim (ioctl_retry (m.set_format asked_format) fuel w1) [
          | none ↦ none
          | some (none, w2) ↦ some (not_configured format_rejected, w2)
          | some (some format, w2) ↦ set_frame_rate fuel (strides_of format) w2
        ]
  ]
