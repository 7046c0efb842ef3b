-- ===== src/Control/Transfer/Terminates.antt =====
-- With a finite timeout the loops end: every round of `waitFor` and of `transfer` calls `poll`, which
-- takes time, so there are no more rounds than nanoseconds up to the deadline.
use Prim.Native.Nat.{bit_and, bit_or}
use open_cam.Prelude.{
  ℕ, zero, suc, ◌+◌, ◌-◌, ◌≤◌, ◌<◌, ◌≡◌, refl, ◌⊎◌, inl, inr, Bool, true, false, [], ◌∷◌, ◌++◌,
  if◌then◌else◌, not, ◌==◌, ap, ◌∙◌, Bytes, length, drop, none, some, arith, Bool-cases,
  Option-cases,
}
use open_cam.Prelude.Int.{ℤ, pos}
use open_cam.Control.Os.{
  eintr, eagain, ewouldblock, other_errno, PollAnswer, ready, timed_out, poll_failed, Os, Progress,
}
use open_cam.Control.Transfer.{
  pollin, pollout, pollerr, pollhup, remaining_time, wait_for, Moved, moved, failed, move, transfer,
}

module _ (os : Os) (progress : Progress os) where
  open os use {World, now, poll}
  open progress use {time}

  -- How a round of waiting starts: before the deadline, or not.
  remaining_time_cases :
      (t deadline : ℕ) (w : World)
      → (((remaining_time os (pos t) deadline w).0 ≡ none)
          ⊎ ((r : ℤ) × ((remaining_time os (pos t) deadline w).0 ≡ some r) × (time w < deadline)))
        × (time w ≤ time (remaining_time os (pos t) deadline w).1)
  unfolding remaining_time
  remaining_time_cases t deadline w =
      let clock = progress.now_time w in
      elim (Option-cases (remaining_time os (pos t) deadline w).0) [
        | inl late ↦ (inl late, progress.after_now w)
        | inr (r, early) ↦ (inr (r, early, ground arith), progress.after_now w)
      ]

  -- What waiting gives: an answer, later, and a positive one only before the deadline.
  pub record Waits (fuel fd events t deadline : ℕ) (w : World) : Type 0 where
    pub answer : Bool
    pub after : World
    pub returns : wait_for os fuel fd events (pos t) deadline w ≡ some (answer, after)
    pub later : time w ≤ time after
    pub strictly : answer ≡ true → (time w < time after) × (time w < deadline)

  module _ (fuel fd events t deadline : ℕ) (w : World) (r : ℤ)
      (early : (remaining_time os (pos t) deadline w).0 ≡ some r) (before : time w < deadline) where
    abbrev w1 : World
    w1 = (remaining_time os (pos t) deadline w).1

    abbrev w2 : World
    w2 = (poll fd events r w1).1

    answered :
        (b : Bool)
        → time w ≤ time w1
        → wait_for os (suc fuel) fd events (pos t) deadline w ≡ some (b, w2)
        → Waits (suc fuel) fd events t deadline w
    answered b later e = record {
      answer = b;
      after = w2;
      returns = e;
      later = omega (arith, progress.after_poll fd events r w1);
      strictly = λ h. omega (arith, progress.after_poll fd events r w1, before);
    }

    polled :
        (a : PollAnswer)
        → time w ≤ time w1
        → (poll fd events r w1).0 ≡ a
        → Waits fuel fd events t deadline w2
        → Waits (suc fuel) fd events t deadline w
    unfolding wait_for
    polled (ready revents) later e next =
        answered (not (bit_and revents (bit_or events (bit_or pollerr pollhup)) == 0)) later
          (rw (early, e, wait_for))
    polled timed_out later e next = answered false later (rw (early, e, wait_for))
    polled (poll_failed eintr) later e next = record {
      answer = next.answer;
      after = next.after;
      returns = rw (early, e, wait_for) next.returns;
      later = omega (arith, progress.after_poll fd events r w1, next.later);
      strictly = λ h.
          omega (arith, progress.after_poll fd events r w1, next.later, next.strictly h, before);
    }
    polled (poll_failed eagain) later e next = answered false later (rw (early, e, wait_for))
    polled (poll_failed ewouldblock) later e next = answered false later (rw (early, e, wait_for))
    polled (poll_failed other_errno) later e next = answered false later (rw (early, e, wait_for))

  pub wait_for-Waits :
      (fuel fd events t deadline : ℕ) (w : World)
      → deadline - time w < fuel
      → Waits fuel fd events t deadline w
  unfolding wait_for
  wait_for-Waits zero fd events t deadline w h = absurd (omega arith)
  wait_for-Waits (suc fuel) fd events t deadline w h =
      let head = remaining_time os (pos t) deadline w in
      let (cases, later) = remaining_time_cases t deadline w in
      elim cases [
        | inl late ↦ record {
          answer = false;
          after = head.1;
          returns = rw (late, wait_for);
          later = later;
          strictly = λ h. absurd (cc);
        }
        | inr (r, early, before) ↦
            polled fuel fd events t deadline w r early before (poll fd events r head.1).0 later refl
              (wait_for-Waits fuel fd events t deadline (poll fd events r head.1).1
                (omega (arith, later, before, progress.after_poll fd events r head.1)))
      ]

  after_move :
      (writing : Bool) (fd : ℕ) (left : Bytes) (w : World)
      → time w ≤ time (move os writing fd left w).1
  unfolding move
  after_move true fd left w = progress.after_send fd left w
  after_move false fd left w = progress.after_recv fd (length left) w

  -- With this fuel the transfer returns, at a time that is not earlier.
  abbrev pub Transfers :
      (fuel fd : ℕ) (done left : Bytes) (writing : Bool) (t deadline : ℕ) (w : World) → Type 0
  Transfers fuel fd done left writing t deadline w =
      (result : Bool × Bytes × World) × (transfer os fuel fd done left writing (pos t) deadline w
        ≡ some result)
      × (time w ≤ time result.2)

  module _ (fuel fd : ℕ) (done : Bytes) (b : ℕ) (left : Bytes) (writing : Bool) (t deadline : ℕ)
      (w w1 : World)
      (waited : wait_for os fuel fd (if writing then pollout else pollin) (pos t) deadline w
        ≡ some (true, w1))
      (later : time w ≤ time w1) where
    abbrev w3 : World
    w3 = (move os writing fd (b ∷ left) w1).1

    stops :
        transfer os (suc fuel) fd done (b ∷ left) writing (pos t) deadline w
          ≡ some (false, done ++ b ∷ left, w3)
        → Transfers (suc fuel) fd done (b ∷ left) writing t deadline w
    stops e = ((false, done ++ b ∷ left, w3), e, omega (arith, after_move writing fd (b ∷ left) w1))

    goes_on :
        (done' left' : Bytes)
        → transfer os (suc fuel) fd done (b ∷ left) writing (pos t) deadline w
          ≡ transfer os fuel fd done' left' writing (pos t) deadline w3
        → Transfers fuel fd done' left' writing t deadline w3
        → Transfers (suc fuel) fd done (b ∷ left) writing t deadline w
    goes_on done' left' e next =
        (next.0, e ∙ next.1, omega (arith, after_move writing fd (b ∷ left) w1, next.2))

    moves :
        (m : Moved os)
        → (move os writing fd (b ∷ left) w1).0 ≡ m
        → ((done' left' : Bytes) → Transfers fuel fd done' left' writing t deadline w3)
        → Transfers (suc fuel) fd done (b ∷ left) writing t deadline w
    unfolding transfer
    moves (moved []) e next = stops (rw (waited, e, transfer))
    moves (moved (x ∷ bytes)) e next =
        goes_on (done ++ x ∷ bytes) (drop (length (x ∷ bytes)) (b ∷ left))
          (rw (waited, e, transfer)) (next _ _)
    moves (failed eintr) e next =
        goes_on done (b ∷ left) (rw (waited, e, transfer)) (next done (b ∷ left))
    moves (failed eagain) e next =
        goes_on done (b ∷ left) (rw (waited, e, transfer)) (next done (b ∷ left))
    moves (failed ewouldblock) e next =
        goes_on done (b ∷ left) (rw (waited, e, transfer)) (next done (b ∷ left))
    moves (failed other_errno) e next = stops (rw (waited, e, transfer))

  -- Fuel for the nanoseconds up to the deadline and two rounds more lets a transfer with a finite
  -- timeout return, whatever the system calls answer.
  pub transfer-returns :
      (fuel fd : ℕ) (done left : Bytes) (writing : Bool) (t deadline : ℕ) (w : World)
      → deadline - time w + 2 ≤ fuel
      → Transfers fuel fd done left writing t deadline w
  unfolding transfer
  transfer-returns fuel fd done [] writing t deadline w h = ((true, done, w), refl, omega arith)
  transfer-returns zero fd done (b ∷ left) writing t deadline w h = absurd (omega arith)
  transfer-returns (suc fuel) fd done (b ∷ left) writing t deadline w h =
      let events = if writing then pollout else pollin in
      let v = wait_for-Waits fuel fd events t deadline w (omega arith) in
      elim (Bool-cases v.answer) [
        | inl went ↦
            let waited = v.returns ∙ ap (λ a. some (a, v.after)) went in
            let w3' = (move os writing fd (b ∷ left) v.after).1 in
            moves fuel fd done b left writing t deadline w v.after waited v.later
              (move os writing fd (b ∷ left) v.after).0 refl
              (λ done' left'.
                transfer-returns fuel fd done' left' writing t deadline w3'
                  (omega (arith, v.strictly went, after_move writing fd (b ∷ left) v.after)))
        | inr stopped ↦
            let waited = v.returns ∙ ap (λ a. some (a, v.after)) stopped in
            ((false, done ++ b ∷ left, v.after), rw (waited, transfer), v.later)
      ]
