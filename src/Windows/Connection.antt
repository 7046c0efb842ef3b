-- ===== src/Windows/Connection.antt =====
-- The connection to a phone: windows/src/net/connection.cpp and connection.h. The calls of its two
-- listeners are recorded in the state, and the socket's answers are arguments.
pub mod Delivery
pub mod Soundness
use open_cam.Prelude.{
  ℕ, zero, suc, ◌+◌, Bool, true, false, not, ◌&&◌, ◌||◌, ◌==◌, ltb, if◌then◌else◌, List, [], ◌∷◌,
  ◌++◌, Option, none, some, Bytes, length, drop, ◌≡◌, ◌≤◌,
}
use open_cam.Windows.Reader.{ok, incomplete, rejected}
use open_cam.Windows.ErrorReports.{ErrorReport, deserialize_error_report}

-- `reading` tells whether a read of the socket is under way; `delivered` is what `onBytesReceived`
-- was called with, in order, and `notified` how often `onDisconnectedListener` was called.
pub record Connection : Type 0 where
  pub pending_bytes : Bytes
  pub closed : Bool
  pub has_listener : Bool
  pub reading : Bool
  pub delivered : List ErrorReport
  pub notified : ℕ

-- After the constructor and the first `Read`.
abbrev pub new_connection : Bool → Connection
new_connection has_listener = record {
  pending_bytes = [];
  closed = false;
  has_listener = has_listener;
  reading = true;
  delivered = [];
  notified = 0;
}

unfoldable pub close : Bool → Connection → Connection
close stopped_by_server c = if c.closed then c else record c {
  closed = true;
  notified = if not stopped_by_server && c.has_listener then suc c.notified else c.notified;
}

-- How the loop over the pending bytes ends: with what is kept, after a break or on none, or with a
-- malformed report. The reports are those delivered so far.
pub data Drained : Type 0 where
  kept : Bytes → List ErrorReport → Drained
  malformed : Bytes → List ErrorReport → Drained

-- A loop takes fuel, and `none` means that it ran out.
unfoldable pub report_loop : ℕ → Bytes → List ErrorReport → Option Drained
report_loop fuel [] delivered = some (kept [] delivered)
report_loop zero (b ∷ bs) delivered = none
report_loop (suc fuel) (b ∷ bs) delivered = elim (deserialize_error_report (b ∷ bs)) [
  | ok (report, consumed) ↦
      let rest = report_loop fuel (drop consumed (b ∷ bs)) (delivered ++ (report ∷ [])) in
      if consumed == 0 || ltb (length (b ∷ bs)) consumed
      then some (malformed (b ∷ bs) delivered)
      else rest
  | incomplete ↦ some (kept (b ∷ bs) delivered)
  | rejected _ ↦ some (malformed (b ∷ bs) delivered)
]

-- After the loop: the next read, or the end.
unfoldable pub after_drain : Drained → Connection → Connection
after_drain (kept bytes delivered) c = record c {
  pending_bytes = bytes;
  delivered = delivered;
  reading = true;
}
after_drain (malformed bytes delivered) c =
    close false (record c { pending_bytes = bytes; delivered = delivered })

-- What `async_read_some` completes with.
pub data ReadAnswer : Type 0 where
  received : Bytes → ReadAnswer
  read_failed : ReadAnswer

-- The handler of a read.
unfoldable pub on_read : ReadAnswer → Connection → Option Connection
on_read read_failed c = some (close false (record c { reading = false }))
on_read (received bytes) c =
    let c1 : Connection = record c { reading = false } in
    let all = c.pending_bytes ++ bytes in
    if ltb 4096 (length c.pending_bytes + length bytes)
    then some (close false c1)
    else elim (report_loop (length all) all c.delivered) [
      | none ↦ none
      | some drained ↦ some (after_drain drained c1)
    ]

-- The handlers of several reads, one after the other.
unfoldable pub on_reads : List Bytes → Connection → Option Connection
on_reads [] c = some c
on_reads (bytes ∷ later) c = elim (on_read (received bytes) c) [
  | none ↦ none
  | some c' ↦ on_reads later c'
]

-- The size of `byteBuffer`.
abbrev pub buffer_size : ℕ
buffer_size = 512

-- A read that is under way completes, or someone closes the connection.
pub data Step : Connection → Connection → Type 0 where
  completes :
      (bytes : Bytes) (c c' : Connection)
      → c.reading ≡ true
      → length bytes ≤ buffer_size
      → on_read (received bytes) c ≡ some c'
      → Step c c'
  breaks : (c c' : Connection) → c.reading ≡ true → on_read read_failed c ≡ some c' → Step c c'
  closes : (stopped_by_server : Bool) (c : Connection) → Step c (close stopped_by_server c)

pub data Reach (c : Connection) : Connection → Type 0 where
  here : Reach c c
  next : {d e : Connection} → Reach c d → Step d e → Reach c e
