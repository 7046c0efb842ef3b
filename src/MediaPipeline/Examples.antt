-- ===== src/MediaPipeline/Examples.antt =====
-- A machine with one stream, on which the pipeline runs, and instances of the theorems.
use open_cam.Prelude.{
  ℕ, zero, suc, ◌*◌, ◌≡◌, refl, true, false, [], ◌∷◌, ◌++◌, Bytes, length, replicate,
  length-replicate, none, some, arith, ◌<◌, ◌^◌,
}
use open_cam.Host.{starting}
use open_cam.MediaPipeline.Media.{
  Media, format, done, PixFormat, Plane, Frame, written, polled, nothing_decoded, sent, Read,
  packet_read, ended, Opened, opened, not_opened, Held, nothing_held, hold, Owns,
}
use open_cam.MediaPipeline.Output.{
  Strides, configured, configure_v4l2_output, asked_format, ioctl_retry, has_video_output,
  strides_of, set_frame_rate, Failure, source_open, source_ended,
}
use open_cam.MediaPipeline.Output.Bounds.{IsLayout, configure_v4l2_output-IsLayout}
use open_cam.MediaPipeline.Packing.{pack_yuv420}
use open_cam.MediaPipeline.Packing.Layout.{pack_yuv420-layout}
use open_cam.MediaPipeline.Packing.Rows.{plane_layout}
use open_cam.MediaPipeline.Worker.{
  run, run_context, run_input, run_decoder, run_device, run_frames, run_streaming, read_loop,
  decode_packet, drain, conclude, close_frames, close_device, close_decoder, close_input,
  video_stream,
}
use open_cam.MediaPipeline.Worker.Release.{run-releases}
use open_cam.MediaPipeline.Worker.Ending.{run-ends}
use open_cam.MediaPipeline.{
  MediaPipeline, new_pipeline, start, is_joinable, is_empty, request_stop, after_join, preparing,
  finished, Reach, here, next, starts, requests, returns_early, joins,
}
use open_cam.MediaPipeline.Coherence.{IsCoherent, Reach-IsCoherent}

-- What is held, and how many packets are left.
abbrev Small : Type 0
Small = Held × ℕ

abbrev open_small : Bytes → Small → Opened × Small
open_small [] (h, n) = (not_opened 5, (hold format false h, n))
open_small (_ ∷ _) w = (opened, w)

abbrev read_small : Small → Read × Small
read_small (h, zero) = (ended, (h, zero))
read_small (h, suc n) = (packet_read 1, (h, n))

-- The stop flag is never set; each packet is taken, and no frame comes out.
abbrev small_media : Media
small_media = record {
  World = Small;
  stop_requested = λ w. (false, w);
  acquire = λ r (h, n). (true, (hold r true h, n));
  release = λ r (h, n). (hold r false h, n);
  open_input = open_small;
  find_stream_info = λ w. (opened, w);
  streams = λ w. (false ∷ true ∷ [], w);
  parameters_to_context = λ i w. (true, w);
  open_decoder = λ w. (true, w);
  frame_buffer = λ w. (true, w);
  query_capability = λ w. (done (record { capabilities = 2; device_caps = 0 }), w);
  set_format = λ f w. (done f, w);
  set_rate = λ rate w. (done tt, w);
  write = λ bytes w. (written (length bytes), w);
  poll_output = λ w. (polled, w);
  read_frame = read_small;
  send_packet = λ w. (sent, w);
  receive_frame = λ w. (nothing_decoded, w);
  make_writable = λ w. (true, w);
  scale = λ w. ((0, record { luma = no_plane; blue = no_plane; red = no_plane }), w);
  unref_frame = λ w. w;
  unref_packet = λ w. w;
}
  where
    no_plane : Plane
    no_plane = record { bytes = []; linesize = 0 }

small_owns : Owns small_media
small_owns = record {
  held = λ w. w.0;
  acquired = λ r w h. refl;
  not_acquired = λ r w h. absurd (cc);
  released = λ r w. refl;
  input_opened = when_opened;
  input_not_opened = when_not;
  stop_held = λ w. refl;
  info_held = λ w. refl;
  streams_held = λ w. refl;
  parameters_held = λ i w. refl;
  decoder_held = λ w. refl;
  buffer_held = λ w. refl;
  capability_held = λ w. refl;
  set_format_held = λ f w. refl;
  set_rate_held = λ rate w. refl;
  write_held = λ bytes w. refl;
  poll_held = λ w. refl;
  read_held = when_read;
  send_held = λ w. refl;
  receive_held = λ w. refl;
  writable_held = λ w. refl;
  scale_held = λ w. refl;
  unref_frame_held = λ w. refl;
  unref_packet_held = λ w. refl;
}
  where
    when_opened :
        (url : Bytes) (w : Small) → (open_small url w).0 ≡ opened → (open_small url w).1.0 ≡ w.0
    when_opened [] w h = absurd (cc)
    when_opened (_ ∷ _) w h = refl

    when_not :
        (url : Bytes) (w : Small) (code : ℕ)
        → (open_small url w).0 ≡ not_opened code
        → (open_small url w).1.0 ≡ hold format false w.0
    when_not [] w code h = refl
    when_not (_ ∷ _) w code h = absurd (cc)

    when_read : (w : Small) → (read_small w).1.0 ≡ w.0
    when_read (h, zero) = refl
    when_read (h, suc n) = refl

-- The whole run: a packet of the video stream is read and decoded, then the source ends.
small_run :
    run small_media 9 (1 ∷ []) (nothing_held, 1)
    ≡ some (record { ran = true; failure = some source_ended }, (nothing_held, 0))
unfolding run run_context run_input run_decoder run_device run_frames run_streaming read_loop
    decode_packet drain conclude close_frames close_device close_decoder close_input video_stream
    configure_v4l2_output ioctl_retry has_video_output strides_of set_frame_rate
small_run = refl

unopened_run :
    run small_media 9 [] (nothing_held, 1)
    ≡ some (record { ran = false; failure = some (source_open 5) }, (nothing_held, 1))
unfolding run run_context
unopened_run = refl

run-releases_example : small_owns.held (nothing_held, 0) ≡ nothing_held
unfolding small_owns
run-releases_example =
    run-releases small_media small_owns 9 (1 ∷ []) (nothing_held, 1)
      (record { ran = true; failure = some source_ended }) (nothing_held, 0) refl small_run

run-ends_example : (e : Failure) × (some source_ended ≡ some e)
run-ends_example =
    run-ends small_media 9 (1 ∷ []) (nothing_held, 1)
      (record { ran = true; failure = some source_ended }) (nothing_held, 0) (λ v. refl) small_run

abbrev small_strides : Strides
small_strides = record { luma = 640; chroma = 320; frame_size = 460800 }

small_configured :
    configure_v4l2_output small_media 1 (nothing_held, 0)
    ≡ some (configured small_strides, (nothing_held, 0))
unfolding configure_v4l2_output ioctl_retry has_video_output strides_of set_frame_rate
small_configured = refl

narrow_format :
    (v : Small) (f : PixFormat)
    → (small_media.set_format asked_format v).0 ≡ done f
    → f.bytesperline < 2 ^ 32
narrow_format v f h = ground arith

configure_v4l2_output-IsLayout_example :
    IsLayout small_strides × (small_strides.frame_size < 2 ^ 64)
configure_v4l2_output-IsLayout_example =
    configure_v4l2_output-IsLayout small_media 1 (nothing_held, 0) small_strides (nothing_held, 0)
      narrow_format small_configured

-- A grey picture whose rows are as long as the strides allow.
abbrev grey : ℕ → ℕ → Plane
grey stride rows = record { bytes = replicate (rows * stride) 128; linesize = stride }

pack_yuv420-layout_example :
    let frame : Frame = record { luma = grey 640 480; blue = grey 320 240; red = grey 384 240 } in
    let packed =
      plane_layout frame.luma 640 640 480 0
      ++ (plane_layout frame.blue 320 320 240 0 ++ plane_layout frame.red 320 320 240 0) in
    (pack_yuv420 frame small_strides ≡ some packed) × (length packed ≡ 460800)
pack_yuv420-layout_example =
    pack_yuv420-layout (record { luma = grey 640 480; blue = grey 320 240; red = grey 384 240 })
      small_strides
      (record { luma_fits = omega arith; halves = refl; chroma_fits = omega arith; whole = refl })
      (omega arith, omega (arith, length-replicate {A = ℕ} (480 * 640) 128))
      (omega arith, omega (arith, length-replicate {A = ℕ} (240 * 320) 128))
      (omega arith, omega (arith, length-replicate {A = ℕ} (240 * 384) 128))

abbrev started : MediaPipeline
started = record {
  stop_requested = false;
  state = starting;
  error_message = none;
  phase = preparing;
}

-- It is started and asked to stop, and its worker returns and is joined.
stopping : Reach new_pipeline (record new_pipeline { stop_requested = true })
unfolding start is_joinable is_empty request_stop after_join
stopping =
    next
      (next (next (next here (starts (1 ∷ []) (2 ∷ []) new_pipeline refl)) (requests started))
        (returns_early (record started { stop_requested = true }) refl refl))
      (joins (record started { stop_requested = true; phase = finished }) refl refl)

Reach-IsCoherent_example : IsCoherent (record new_pipeline { stop_requested = true })
Reach-IsCoherent_example = Reach-IsCoherent stopping
