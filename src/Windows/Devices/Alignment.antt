-- ===== src/Windows/Devices/Alignment.antt =====
-- The connections of the server and the descriptors of the manager stay aligned, so that a stream is
-- asked of the device that was chosen.
use open_cam.Prelude.{ℕ, ◌≡◌, Bool, true, false, [], ◌∷◌, ◌++◌, some, Bytes, drop, get_elem?}
use open_cam.Windows.Reader.{ok}
use open_cam.Windows.Activation.{StreamOptions, serialize_stream_options}
use open_cam.Windows.Activation.Accepted.{put_activation}
use open_cam.Windows.Descriptor.{DeviceDescriptor}
use open_cam.Windows.Devices.{Peer, Devices, send, activation}

-- Choosing a stream, taken apart: the packet was sent, or an exception was thrown before.
data Chosen (i : ℕ) (options : StreamOptions) (s : Devices) : Bool → Devices → Type 0 where
  gone_out :
      (packet : Bytes) (descriptor : DeviceDescriptor) (s' : Devices)
      → serialize_stream_options options ≡ ok packet
      → get_elem? s.descriptors i ≡ some descriptor
      → send i (activation ∷ drop 1 packet) (record s { streaming_device = some i }) ≡ some s'
      → Chosen i options s true s'
  thrown : Chosen i options s false (record s { streaming_device = some i })

abbrev with_activation : ℕ → StreamOptions → Peer → Devices → Devices
with_activation i options peer s = record s {
  streaming_device = some i;
  sent = s.sent ++ (record { to = peer.id; bytes = 2 ∷ drop 1 (put_activation options) } ∷ []);
}
