-- ===== src/Host.antt =====
-- What the controller uses beyond the sockets: random bytes, the address parser, the camera
-- device, the probe of the media source, the media worker, the QR code and the listener. They reach
-- into libraries and the kernel, so they are a parameter.
use open_cam.Prelude.{ℕ, Bool, Option, Bytes, ◌≡◌}
use open_cam.Control.Os.{Os, Errno, Stream}

-- `MediaPipelineState` of linux/src/media_pipeline.hpp
pub data PipelineState : Type 0 where
  starting running stopped failed : PipelineState

-- The result of `accept4`: the socket and the peer's address as text, or the error.
pub data AcceptAnswer : Type 0 where
  connected : ℕ → Bytes → AcceptAnswer
  accept_failed : Errno → AcceptAnswer

pub record Host (os : Os) : Type 0 where
  -- `randomSecret`: 32 bytes of `RAND_bytes`, `none` where it fails
  pub random : os.World → Option Bytes × os.World
  pub inet_pton : Bytes → Bool
  pub find_device : os.World → Bytes × os.World
  pub wait_for_rtsp : Bytes → os.World → Bool × os.World
  pub pipeline_start : Bytes → Bytes → os.World → Bool × os.World
  pub pipeline_state : os.World → PipelineState × os.World
  pub pipeline_stop : os.World → os.World
  pub display_qr : Bytes → os.World → Bool × os.World
  pub accept : ℕ → os.World → AcceptAnswer × os.World
  pub close : ℕ → os.World → os.World

-- Drawing random bytes leaves a descriptor's stream alone.
pub record Quiet (os : Os) (host : Host os) (fd : ℕ) (stream : Stream os fd) : Type 0 where
  pub random_sent : (w : os.World) → stream.sent (host.random w).1 ≡ stream.sent w
  pub random_inbox : (w : os.World) → stream.inbox (host.random w).1 ≡ stream.inbox w
