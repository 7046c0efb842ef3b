-- ===== src/Windows/Accept/Examples.antt =====
-- The theorems on an accepted socket, at a device that sends its frame in small pieces.
use open_cam.Prelude.{
  ℕ, zero, suc, ap, subst, ◌<◌, ◌+◌, ◌≤◌, ◌≡◌, ◌≢◌, refl, true, not, [], ◌∷◌, ◌++◌, Option, some,
  Bytes, length, length-take, take-append-drop, take, drop, min, arith, sym,
}
use open_cam.Descriptor.{is_empty}
use open_cam.Windows.Devices.{no_devices, connect}
use open_cam.Windows.Accept.{Sockets, Stream, on_accept}
use open_cam.Windows.Accept.Liveness.{Prompt, on_accept-connects}
use open_cam.Windows.Accept.Received.{Accepts, on_accept-Accepts}
use open_cam.Windows.Examples.{message, legacy, deserialize-legacy}

record Machine : Type 0 where
  time : ℕ
  inbox : Bytes

abbrev later : Machine → Machine
later m = record m { time = suc m.time }

-- A read gives at most 64 bytes.
abbrev piece : ℕ → ℕ
piece size = min size 64

abbrev read_piece : ℕ → Machine → Option Bytes × Machine
read_piece size m = (
  some (take (piece size) m.inbox),
  record { time = suc m.time; inbox = drop (piece size) m.inbox },
)

take-cons : (n : ℕ) (s : Bytes) → 0 < n → s ≢ [] → (b : ℕ) × (bs : Bytes) × (take n s ≡ b ∷ bs)
take-cons n [] h e = absurd (e refl)
take-cons zero (b ∷ bs) h e = absurd (omega arith)
take-cons (suc n) (b ∷ bs) h e = (b, take n bs, refl)

read_piece-fits :
    (size : ℕ) (m : Machine) (bytes : Bytes)
    → (read_piece size m).0 ≡ some bytes
    → (length bytes ≤ size) × (m.inbox ≡ bytes ++ (read_piece size m).1.inbox)
read_piece-fits size m bytes e =
    subst (λ b. (length b ≤ size) × (m.inbox ≡ b ++ (read_piece size m).1.inbox)) (cc)
      (omega (arith, length-take (piece size) m.inbox), sym (take-append-drop (piece size) m.inbox))

read_piece-reads :
    (size : ℕ) (m : Machine)
    → 0 < size
    → m.inbox ≢ []
    → (b : ℕ) × (bs : Bytes) × ((read_piece size m).0 ≡ some (b ∷ bs)) × (suc m.time ≤ m.time + 1)
read_piece-reads size m h e =
    let (b, bs, same) = take-cons (piece size) m.inbox (omega arith) e in
    (b, bs, ap some same, omega arith)

is_full : (s : Bytes) → s ≢ [] → not (is_empty s) ≡ true
is_full [] e = absurd (e refl)
is_full (b ∷ bs) e = refl

abbrev small_net : Sockets
small_net = record {
  World = Machine;
  now = λ m. (m.time, later m);
  select = λ t m. (not (is_empty m.inbox), later m);
  read_some = read_piece;
  close = λ m. record m { inbox = [] };
}

abbrev small_stream : Stream small_net
small_stream = record {
  inbox = λ m. m.inbox;
  now_inbox = λ m. refl;
  select_inbox = λ t m. refl;
  read_some_got = read_piece-fits;
}

abbrev small_prompt : Prompt small_net small_stream
small_prompt = record {
  clock = λ m. m.time;
  cost = 1;
  now_time = λ m. refl;
  after_now = λ m. omega arith;
  ready = λ t m filled. (is_full m.inbox filled, omega arith);
  reads = read_piece-reads;
}

abbrev frame : Bytes
frame = 0 ∷ 0 ∷ 0 ∷ length message ∷ []

abbrev offered : Machine
offered = record { time = 7; inbox = frame ++ (message ++ 9 ∷ []) }

on_accept-Accepts_example :
    Accepts small_net small_stream no_devices offered (on_accept small_net no_devices offered)
on_accept-Accepts_example = on_accept-Accepts small_net small_stream no_devices offered

on_accept-connects_example :
    (w' : Machine) × (on_accept small_net no_devices offered ≡ some (connect legacy no_devices, w'))
    × (w'.inbox ≡ 9 ∷ [])
on_accept-connects_example =
    on_accept-connects small_net small_stream small_prompt no_devices offered frame message (9 ∷ [])
      legacy refl refl (omega arith) (omega arith) refl deserialize-legacy (omega arith)
