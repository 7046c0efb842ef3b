-- ===== src/Control/Transfer.antt =====
-- `waitFor`, `transfer` and `deadlineFor` of linux/src/control_protocol.cpp. A loop takes fuel, and
-- `none` means that it ran out; `Terminates` shows how much is enough.
pub mod Terminates
pub mod Moves
pub mod Keeps
mod Rounds
use Prim.Native.Nat.{bit_and, bit_or}
use open_cam.Prelude.{
  ℕ, zero, suc, ◌+◌, ◌-◌, ◌*◌, ◌/◌, ◌%◌, ◌^◌, Bool, true, false, not, List, [], ◌∷◌, ◌++◌, ◌==◌,
  leb, if◌then◌else◌, Bytes, length, take, drop, Option, none, some,
}
use open_cam.Prelude.Int.{ℤ, pos, negsuc, signed32}
use open_cam.Control.Os.{
  Errno, eintr, eagain, ewouldblock, PollAnswer, ready, timed_out, poll_failed, SendAnswer,
  accepted, send_failed, RecvAnswer, got, recv_failed, Os,
}

-- The event bits of <poll.h>.
abbrev pub pollin : ℕ
pollin = 1

abbrev pub pollout : ℕ
pollout = 4

abbrev pub pollerr : ℕ
pollerr = 8

abbrev pub pollhup : ℕ
pollhup = 16

-- `static_cast<int>(count)`
abbrev to_int : ℕ → ℤ
to_int count = signed32 (count % 2 ^ 32)

-- `if (remaining < 1) remaining = 1;`
abbrev at_least_one : ℤ → ℤ
at_least_one (pos n) = if n == 0 then pos 1 else pos n
at_least_one (negsuc n) = pos 1

-- `steady_clock::time_point::max()`, in nanoseconds
abbrev pub time_max : ℕ
time_max = 2 ^ 63 - 1

module _ (os : Os) where
  open os use {World, now, poll, send, recv}

  unfoldable pub deadline_for : ℤ → World → ℕ × World
  deadline_for (negsuc n) w = (time_max, w)
  deadline_for (pos timeout) w = ((now w).0 + timeout * 1000000, (now w).1)

  -- The head of a round of `waitFor`: the timeout for `poll`, `none` past the deadline.
  unfoldable pub remaining_time : ℤ → ℕ → World → Option ℤ × World
  remaining_time (negsuc n) deadline w = (some (negsuc n), w)
  remaining_time (pos timeout) deadline w = (
    if leb deadline (now w).0
        then none
        else some (at_least_one (to_int ((deadline - (now w).0) / 1000000))),
    (now w).1,
  )

  unfoldable pub wait_for : ℕ → ℕ → ℕ → ℤ → ℕ → World → Option (Bool × World)
  wait_for zero fd events timeout deadline w = none
  wait_for (suc fuel) fd events timeout deadline w =
      let head = remaining_time timeout deadline w in
      elim head.0 [
        | none ↦ some (false, head.1)
        | some remaining ↦
            let result = poll fd events remaining head.1 in
            elim result.0 [
              | ready revents ↦
                  some
                    (not (bit_and revents (bit_or events (bit_or pollerr pollhup)) == 0), result.1)
              | timed_out ↦ some (false, result.1)
              | poll_failed errno ↦ elim errno [
                | eintr ↦ wait_for fuel fd events timeout deadline result.1
                | _ ↦ some (false, result.1)
              ]
            ]
      ]

  -- What one call of `send` or `recv` did: the bytes that it moved, or its error.
  pub data Moved : Type 0 where
    moved : Bytes → Moved
    failed : Errno → Moved

  -- `left` is the buffer from `data + offset` on.
  unfoldable pub move : Bool → ℕ → Bytes → World → Moved × World
  move true fd left w =
      let result = send fd left w in
      (
        elim result.0 [ accepted count ↦ moved (take count left) | send_failed e ↦ failed e ],
        result.1,
      )
  move false fd left w =
      let result = recv fd (length left) w in
      (elim result.0 [ got bytes ↦ moved bytes | recv_failed e ↦ failed e ], result.1)

  -- `done` is the buffer before `data + offset`. The result has the whole buffer.
  unfoldable pub transfer :
      ℕ → ℕ → Bytes → Bytes → Bool → ℤ → ℕ → World → Option (Bool × Bytes × World)
  transfer fuel fd done [] writing timeout deadline w = some (true, done, w)
  transfer zero fd done (b ∷ left) writing timeout deadline w = none
  transfer (suc fuel) fd done (b ∷ left) writing timeout deadline w =
      elim (wait_for fuel fd (if writing then pollout else pollin) timeout deadline w) [
        | none ↦ none
        | some (false, w1) ↦ some (false, done ++ b ∷ left, w1)
        | some (true, w1) ↦
            let result = move writing fd (b ∷ left) w1 in
            elim result.0 [
              | moved [] ↦ some (false, done ++ b ∷ left, result.1)
              | moved (x ∷ bytes) ↦
                  transfer fuel fd (done ++ x ∷ bytes) (drop (length (x ∷ bytes)) (b ∷ left))
                    writing timeout deadline result.1
              | failed errno ↦ elim errno [
                | eintr ↦ transfer fuel fd done (b ∷ left) writing timeout deadline result.1
                | eagain ↦ transfer fuel fd done (b ∷ left) writing timeout deadline result.1
                | ewouldblock ↦ transfer fuel fd done (b ∷ left) writing timeout deadline result.1
                | _ ↦ some (false, done ++ b ∷ left, result.1)
              ]
            ]
      ]
