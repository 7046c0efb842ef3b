-- ===== src/Windows/Accept.antt =====
-- How the Windows program takes a device that connects: the handler of `TCPDoAccept` in
-- windows/src/net/server.cpp for a socket that was accepted. Its log lines are left out.
pub mod Received
pub mod Liveness
mod Examples
use open_cam.Prelude.{
  ℕ, zero, suc, ◌+◌, ◌-◌, ◌*◌, ◌/◌, ◌^◌, ◌≤◌, ◌≡◌, Bool, true, false, ◌||◌, List, [], ◌∷◌, ◌++◌,
  Option, none, some, ltb, leb, ◌==◌, if◌then◌else◌, Bytes, length,
}
use open_cam.Windows.Reader.{Result, ok, incomplete, rejected, max_message}
use open_cam.Windows.Descriptor.{DeviceDescriptor, deserialize_device_descriptor}
use open_cam.Windows.Devices.{Devices, connect}

-- What the handler uses of Winsock, asio and the clock, for the one socket.
pub record Sockets : Type 1 where
  pub World : Type 0
  -- `std::chrono::steady_clock::now()`, in nanoseconds
  pub now : World → ℕ × World
  -- whether `select` with this timeout in microseconds gives a positive number
  pub select : ℕ → World → Bool × World
  -- `socket.read_some` into a buffer of this size, `none` where it throws
  pub read_some : ℕ → World → Option Bytes × World
  -- `socket.close`
  pub close : World → World

-- The connection is a byte stream: `inbox` is all that it will still deliver.
pub record Stream (net : Sockets) : Type 0 where
  pub inbox : net.World → Bytes
  pub now_inbox : (w : net.World) → inbox (net.now w).1 ≡ inbox w
  pub select_inbox : (timeout : ℕ) (w : net.World) → inbox (net.select timeout w).1 ≡ inbox w
  pub read_some_got :
      (size : ℕ) (w : net.World) (bytes : Bytes)
      → (net.read_some size w).0 ≡ some bytes
      → (length bytes ≤ size) × (inbox w ≡ bytes ++ inbox (net.read_some size w).1)

-- `std::chrono::seconds(8)`
abbrev pub patience : ℕ
patience = 8 * 1000000000

-- `descriptorLength` of the four bytes
abbrev pub frame_length : Bytes → ℕ
frame_length (a ∷ b ∷ c ∷ d ∷ []) = a * 2 ^ 24 + b * 2 ^ 16 + c * 2 ^ 8 + d
frame_length other = 0

-- A descriptor, or an exception, which the handler catches whichever it is.
abbrev pub descriptor_of : Result DeviceDescriptor → Option DeviceDescriptor
descriptor_of (ok descriptor) = some descriptor
descriptor_of incomplete = none
descriptor_of (rejected reason) = none

module _ (net : Sockets) where
  open net use {World, now, select, read_some, close}

  -- `readExact`; `got` is what stands in front of the offset. `none` is an exception, and outside
  -- it is fuel that ran out.
  unfoldable pub read_exact : ℕ → ℕ → ℕ → Bytes → World → Option (Option Bytes × World)
  read_exact zero deadline size got w = if ltb (length got) size then none else some (some got, w)
  read_exact (suc fuel) deadline size got w = elim (ltb (length got) size) [
    | false ↦ some (some got, w)
    | true ↦
        let w1 = (now w).1 in
        elim (leb deadline (now w).0) [
          | true ↦ some (none, w1)
          | false ↦
              let remaining = (deadline - (now w).0) / 1000 in
              let w2 = (select remaining w1).1 in
              elim (select remaining w1).0 [
                | false ↦ some (none, w2)
                | true ↦
                    let w3 = (read_some (size - length got) w2).1 in
                    elim (read_some (size - length got) w2).0 [
                      | none ↦ some (none, w3)
                      | some [] ↦ some (none, w3)
                      | some (b ∷ bs) ↦ read_exact fuel deadline size (got ++ b ∷ bs) w3
                    ]
              ]
        ]
  ]

  -- `Serializer::DeserializeDeviceDescriptor` of what was read.
  abbrev pub parse_received :
      Option (Option Bytes × World) → Option (Option DeviceDescriptor × World)
  parse_received none = none
  parse_received (some (none, w)) = some (none, w)
  parse_received (some (some received, w)) =
      some (descriptor_of (deserialize_device_descriptor received), w)

  -- What follows the four bytes. Each round of `readExact` reads a byte, so that as many rounds as
  -- bytes are enough.
  unfoldable pub read_descriptor :
      ℕ → Option (Option Bytes × World) → Option (Option DeviceDescriptor × World)
  read_descriptor deadline none = none
  read_descriptor deadline (some (none, w)) = some (none, w)
  read_descriptor deadline (some (some length_bytes, w)) =
      let descriptor_length = frame_length length_bytes in
      if descriptor_length == 0 || ltb max_message descriptor_length
      then some (none, w)
      else parse_received (read_exact descriptor_length deadline descriptor_length [] w)

  unfoldable pub receive_descriptor : World → Option (Option DeviceDescriptor × World)
  receive_descriptor w =
      let deadline = (now w).0 + patience in
      read_descriptor deadline (read_exact 4 deadline 4 [] (now w).1)

  -- The device is connected, or the socket is closed.
  abbrev pub settle : Devices → Option (Option DeviceDescriptor × World) → Option (Devices × World)
  settle s none = none
  settle s (some (none, w)) = some (s, close w)
  settle s (some (some descriptor, w)) = some (connect descriptor s, w)

  -- The body of the handler.
  unfoldable pub on_accept : Devices → World → Option (Devices × World)
  on_accept s w = settle s (receive_descriptor w)
