-- ===== src/Windows/Devices.antt =====
-- The devices that the Windows program knows: the connections of windows/src/net/server.cpp, the
-- descriptors of windows/src/rtsp/manager.cpp, and the listener of windows/src/application.cpp between
-- them. A connection's address is a number of its own, and what is sent to it is recorded.
mod Lists
pub mod Peers
pub mod Alignment
use open_cam.Prelude.{
  ℕ, zero, suc, Bool, true, false, not, ◌&&◌, ◌||◌, ◌==◌, ltb, if◌then◌else◌, List, [], ◌∷◌, ◌++◌,
  Option, none, some, Bytes, equal_bytes, length, drop, get_elem?, All, ◌≡◌,
}
use open_cam.Prelude.{◌>>=◌}
use open_cam.Windows.Reader.{ok, incomplete, rejected, max_message}
use open_cam.Windows.Activation.{StreamOptions, serialize_stream_options}
use open_cam.Windows.Descriptor.{DeviceDescriptor}

pub record Peer : Type 0 where
  pub id : ℕ
  pub descriptor : DeviceDescriptor

-- A packet and the connection that it was sent to.
pub record Packet : Type 0 where
  pub to : ℕ
  pub bytes : Bytes

-- `streamingDevice` is `none` for -1.
pub record Devices : Type 0 where
  pub connections : List Peer
  pub next_id : ℕ
  pub sent : List Packet
  pub descriptors : List DeviceDescriptor
  pub streaming_device : Option ℕ

abbrev pub no_devices : Devices
no_devices = record {
  connections = [];
  next_id = 0;
  sent = [];
  descriptors = [];
  streaming_device = none;
}

-- `operator==` of a descriptor
unfoldable pub same_descriptor : DeviceDescriptor → DeviceDescriptor → Bool
same_descriptor d e = equal_bytes d.rtsp_url e.rtsp_url && equal_bytes d.device_name e.device_name

-- `std::remove` with the erasure of all that it leaves behind.
abbrev pub remove_all {ℓ} : {A : Type ℓ} → (A → Bool) → List A → List A
remove_all p [] = []
remove_all p (x ∷ xs) = if p x then remove_all p xs else x ∷ remove_all p xs

abbrev pub count_all {ℓ} : {A : Type ℓ} → (A → Bool) → List A → ℕ
count_all p [] = 0
count_all p (x ∷ xs) = if p x then suc (count_all p xs) else count_all p xs

-- `AddDescriptor`
unfoldable pub add_descriptor : DeviceDescriptor → List DeviceDescriptor → List DeviceDescriptor
add_descriptor d descriptors = descriptors ++ (d ∷ [])

-- `RemoveDescriptor` erases the one element behind those that are kept. `none` where there is no such
-- element, which is undefined, and where more than one matches, which leaves moved-from values.
unfoldable pub remove_descriptor :
    DeviceDescriptor → List DeviceDescriptor → Option (List DeviceDescriptor)
remove_descriptor d descriptors =
    if count_all (λ e. same_descriptor e d) descriptors == 1
    then some (remove_all (λ e. same_descriptor e d) descriptors)
    else none

-- A device connects: the end of the handler of an accepted socket, and `OnDeviceConnected`.
unfoldable pub connect : DeviceDescriptor → Devices → Devices
connect d s = record s {
  connections = s.connections ++ (record { id = s.next_id; descriptor = d } ∷ []);
  next_id = suc s.next_id;
  descriptors = add_descriptor d s.descriptors;
}

-- `OnDeviceDisconnected`: whether the canvas is cleared. `none` is an index out of range.
unfoldable pub clears_canvas : DeviceDescriptor → Devices → Option Bool
clears_canvas d s = elim s.streaming_device [
  | none ↦ some false
  | some i ↦ elim (get_elem? s.descriptors i) [
    | none ↦ none
    | some streaming ↦ some (same_descriptor streaming d)
  ]
]

-- `OnConnectionDisconnected` with `OnDeviceDisconnected`.
unfoldable pub disconnect : Peer → Devices → Option (Bool × Devices)
disconnect peer s = do
  clears ← clears_canvas peer.descriptor s
  descriptors ← remove_descriptor peer.descriptor s.descriptors
  some (
    clears,
    record s {
      connections = remove_all (λ c. c.id == peer.id) s.connections;
      descriptors = descriptors;
    },
  )

-- `Server::Send`, `none` where the message is too large and `Connection::Send` throws.
unfoldable pub send : ℕ → Bytes → Devices → Option Devices
send i bytes s = elim (get_elem? s.connections i) [
  | none ↦ some s
  | some peer ↦
      if ltb max_message (length bytes)
      then none
      else some (record s { sent = s.sent ++ (record { to = peer.id; bytes = bytes } ∷ []) })
]

-- `Command::ACTIVATION`
abbrev pub activation : ℕ
activation = 2

-- `Connect2Stream` up to the start of the receiver, and whether it gets there: false is an exception.
-- `none` is an index out of range.
unfoldable pub connect2_stream : ℕ → StreamOptions → Devices → Option (Bool × Devices)
connect2_stream i options s =
    let s1 : Devices = record s { streaming_device = some i } in
    elim (get_elem? s.descriptors i) [
      | none ↦ none
      | some descriptor ↦ elim (serialize_stream_options options) [
        | ok packet ↦ elim (send i (activation ∷ drop 1 packet) s1) [
          | none ↦ some (false, s1)
          | some s2 ↦ some (true, s2)
        ]
        | incomplete ↦ some (false, s1)
        | rejected _ ↦ some (false, s1)
      ]
    ]

-- A device connects that is none of the known ones, one of the connected ones disconnects, or a
-- stream is chosen.
pub data Step : Devices → Devices → Type 0 where
  connects :
      (d : DeviceDescriptor) (s : Devices)
      → All (λ e. same_descriptor e d ≡ false) s.descriptors
      → Step s (connect d s)
  disconnects :
      (before after : List Peer) (peer : Peer) (clears : Bool) (s s' : Devices)
      → s.connections ≡ before ++ (peer ∷ after)
      → disconnect peer s ≡ some (clears, s')
      → Step s s'
  chooses :
      (i : ℕ) (options : StreamOptions) (succeeds : Bool) (s s' : Devices)
      → connect2_stream i options s ≡ some (succeeds, s')
      → Step s s'

pub data Reach (s : Devices) : Devices → Type 0 where
  here : Reach s s
  next : {t u : Devices} → Reach s t → Step t u → Reach s u
