-- ===== src/MediaPipeline/Media.antt =====
-- What the media worker uses of FFmpeg, V4L2 and the stop flag. They are libraries, the kernel and
-- another thread, so they are a parameter; `Owns` states which call acquires and which releases.
use open_cam.Prelude.{ℕ, ◌≡◌, Bool, true, false, Bytes, List}
use open_cam.Control.Os.{Errno}

-- The things that a worker acquires and has to release.
pub data Resource : Type 0 where
  network format decoder device decoded_frame converted_frame packet scaler : Resource

-- The result of `ioctl`, with what it writes into its argument.
pub data Answer (A : Type 0) : Type 0 where
  done : A → Answer A
  refused : Errno → Answer A

-- `v4l2_capability`
pub record Capability : Type 0 where
  pub capabilities : ℕ
  pub device_caps : ℕ

-- `v4l2_pix_format`
pub record PixFormat : Type 0 where
  pub width : ℕ
  pub height : ℕ
  pub pixelformat : ℕ
  pub field : ℕ
  pub bytesperline : ℕ
  pub sizeimage : ℕ
  pub colorspace : ℕ

-- One plane of an `AVFrame`: the bytes from `data[i]` on, and `linesize[i]`.
pub record Plane : Type 0 where
  pub bytes : Bytes
  pub linesize : ℕ

pub record Frame : Type 0 where
  pub luma : Plane
  pub blue : Plane
  pub red : Plane

-- The result of `write`: a count, or an error.
pub data WriteAnswer : Type 0 where
  written : ℕ → WriteAnswer
  write_failed : Errno → WriteAnswer

-- The result of `poll` for output: an error, or any other.
pub data OutputPoll : Type 0 where
  polled : OutputPoll
  poll_failed : Errno → OutputPoll

-- `avcodec_receive_frame`: AVERROR(EAGAIN) or AVERROR_EOF, another error, or a frame.
pub data Received : Type 0 where
  nothing_decoded decode_failed decoded : Received

-- `avcodec_send_packet`: AVERROR(EAGAIN), another error, or success.
pub data Sent : Type 0 where
  try_again send_refused sent : Sent

-- `av_read_frame`: the end, another error, or a packet with the index of its stream.
pub data Read : Type 0 where
  ended : Read
  read_failed : ℕ → Read
  packet_read : ℕ → Read

-- The result of `avformat_open_input` and of `avformat_find_stream_info`: success, or an error code.
pub data Opened : Type 0 where
  opened : Opened
  not_opened : ℕ → Opened

pub record Media : Type 1 where
  pub World : Type 0
  -- `stopRequested_.load()`; another thread sets the flag
  pub stop_requested : World → Bool × World
  -- `avformat_network_init`, or the call that allocates: `avformat_alloc_context`,
  -- `avcodec_find_decoder` with `avcodec_alloc_context3`, `open`, `av_frame_alloc`,
  -- `av_packet_alloc`, `sws_getCachedContext`; false where it fails
  pub acquire : Resource → World → Bool × World
  -- the call that frees, which does nothing on a null pointer
  pub release : Resource → World → World
  -- with the options, which are constants and are freed
  pub open_input : Bytes → World → Opened × World
  pub find_stream_info : World → Opened × World
  -- the codec types of the streams, true for video
  pub streams : World → List Bool × World
  -- `avcodec_parameters_to_context` and `avcodec_open2` for a stream
  pub parameters_to_context : ℕ → World → Bool × World
  pub open_decoder : World → Bool × World
  -- `av_frame_get_buffer` for the converted frame
  pub frame_buffer : World → Bool × World
  pub query_capability : World → Answer Capability × World
  pub set_format : PixFormat → World → Answer PixFormat × World
  pub set_rate : ℕ → World → Answer (Unit {0}) × World
  pub write : Bytes → World → WriteAnswer × World
  pub poll_output : World → OutputPoll × World
  pub read_frame : World → Read × World
  pub send_packet : World → Sent × World
  pub receive_frame : World → Received × World
  -- `av_frame_make_writable` on the converted frame
  pub make_writable : World → Bool × World
  -- `sws_scale`: the rows it made, and the converted frame
  pub scale : World → (ℕ × Frame) × World
  pub unref_frame : World → World
  pub unref_packet : World → World

-- What is held.
pub record Held : Type 0 where
  pub network : Bool
  pub format : Bool
  pub decoder : Bool
  pub device : Bool
  pub decoded_frame : Bool
  pub converted_frame : Bool
  pub packet : Bool
  pub scaler : Bool

abbrev pub nothing_held : Held
nothing_held = record {
  network = false;
  format = false;
  decoder = false;
  device = false;
  decoded_frame = false;
  converted_frame = false;
  packet = false;
  scaler = false;
}

abbrev pub hold : Resource → Bool → Held → Held
hold network b h = record h { network = b }
hold format b h = record h { format = b }
hold decoder b h = record h { decoder = b }
hold device b h = record h { device = b }
hold decoded_frame b h = record h { decoded_frame = b }
hold converted_frame b h = record h { converted_frame = b }
hold packet b h = record h { packet = b }
hold scaler b h = record h { scaler = b }

-- A call that fails acquires nothing; `sws_getCachedContext` has then freed the old context.
abbrev pub after_failure : Resource → Held → Held
after_failure scaler h = hold scaler false h
after_failure _ h = h

-- `held` is what is held: each call changes it as documented, and the other calls leave it.
pub record Owns (m : Media) : Type 0 where
  pub held : m.World → Held
  pub acquired :
      (r : Resource) (w : m.World)
      → (m.acquire r w).0 ≡ true
      → held (m.acquire r w).1 ≡ hold r true (held w)
  pub not_acquired :
      (r : Resource) (w : m.World)
      → (m.acquire r w).0 ≡ false
      → held (m.acquire r w).1 ≡ after_failure r (held w)
  pub released : (r : Resource) (w : m.World) → held (m.release r w) ≡ hold r false (held w)
  -- a context that was passed in is freed where it cannot be opened
  pub input_opened :
      (url : Bytes) (w : m.World)
      → (m.open_input url w).0 ≡ opened
      → held (m.open_input url w).1 ≡ held w
  pub input_not_opened :
      (url : Bytes) (w : m.World) (code : ℕ)
      → (m.open_input url w).0 ≡ not_opened code
      → held (m.open_input url w).1 ≡ hold format false (held w)
  pub stop_held : (w : m.World) → held (m.stop_requested w).1 ≡ held w
  pub info_held : (w : m.World) → held (m.find_stream_info w).1 ≡ held w
  pub streams_held : (w : m.World) → held (m.streams w).1 ≡ held w
  pub parameters_held : (i : ℕ) (w : m.World) → held (m.parameters_to_context i w).1 ≡ held w
  pub decoder_held : (w : m.World) → held (m.open_decoder w).1 ≡ held w
  pub buffer_held : (w : m.World) → held (m.frame_buffer w).1 ≡ held w
  pub capability_held : (w : m.World) → held (m.query_capability w).1 ≡ held w
  pub set_format_held : (f : PixFormat) (w : m.World) → held (m.set_format f w).1 ≡ held w
  pub set_rate_held : (rate : ℕ) (w : m.World) → held (m.set_rate rate w).1 ≡ held w
  pub write_held : (bytes : Bytes) (w : m.World) → held (m.write bytes w).1 ≡ held w
  pub poll_held : (w : m.World) → held (m.poll_output w).1 ≡ held w
  pub read_held : (w : m.World) → held (m.read_frame w).1 ≡ held w
  pub send_held : (w : m.World) → held (m.send_packet w).1 ≡ held w
  pub receive_held : (w : m.World) → held (m.receive_frame w).1 ≡ held w
  pub writable_held : (w : m.World) → held (m.make_writable w).1 ≡ held w
  pub scale_held : (w : m.World) → held (m.scale w).1 ≡ held w
  pub unref_frame_held : (w : m.World) → held (m.unref_frame w) ≡ held w
  pub unref_packet_held : (w : m.World) → held (m.unref_packet w) ≡ held w
