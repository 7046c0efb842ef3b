-- ===== src/Control/Transfer/Rounds.antt =====
-- The rounds of the loop in `transfer`, taken apart: what a round did, and how the loop went on.
use open_cam.Prelude.{
  ℕ, suc, ◌≡◌, refl, sym, ap, ◌⊎◌, inl, inr, Bool, true, false, [], ◌∷◌, ◌++◌, if◌then◌else◌, Bytes,
  length, drop, none, some, Option-cases,
}
use open_cam.Prelude.Int.{ℤ}
use open_cam.Control.Os.{Errno, eintr, eagain, ewouldblock, other_errno, Os}
use open_cam.Control.Transfer.{pollin, pollout, wait_for, Moved, moved, failed, move, transfer}

Moved-cases :
    (os : Os) (m : Moved os)
    → (m ≡ moved [])
      ⊎ (((x : ℕ) × (bytes : Bytes) × (m ≡ moved (x ∷ bytes))) ⊎ ((e : Errno) × (m ≡ failed e)))
Moved-cases os (moved []) = inl refl
Moved-cases os (moved (x ∷ bytes)) = inr (inl (x, bytes, refl))
Moved-cases os (failed e) = inr (inr (e, refl))

given {ℓ} : {A : Type ℓ} {a b : A} → some a ≡ some b → b ≡ a
given {b = b} e = sym (ap (λ o. elim o [ none ↦ b | some x ↦ x ]) e)

module _ (os : Os) (fuel fd : ℕ) (done : Bytes) (b : ℕ) (left : Bytes) (writing : Bool)
    (timeout : ℤ) (deadline : ℕ) (w : os.World) where
  -- One round waits, then moves bytes; `result` is what the loop returns in the end.
  pub data Round (result : Bool × Bytes × os.World) : Type 0 where
    gave_up :
        (w1 : os.World)
        → wait_for os fuel fd (if writing then pollout else pollin) timeout deadline w
          ≡ some (false, w1)
        → result ≡ (false, done ++ b ∷ left, w1)
        → Round result
    closed :
        (w1 : os.World)
        → wait_for os fuel fd (if writing then pollout else pollin) timeout deadline w
          ≡ some (true, w1)
        → (move os writing fd (b ∷ left) w1).0 ≡ moved []
        → result ≡ (false, done ++ b ∷ left, (move os writing fd (b ∷ left) w1).1)
        → Round result
    went_on :
        (w1 : os.World)
        → wait_for os fuel fd (if writing then pollout else pollin) timeout deadline w
          ≡ some (true, w1)
        → (x : ℕ) (bytes : Bytes) → (move os writing fd (b ∷ left) w1).0 ≡ moved (x ∷ bytes)
        → transfer os fuel fd
            (done ++ x ∷ bytes)
            (drop (length (x ∷ bytes)) (b ∷ left))
            writing
            timeout
            deadline
            (move os writing fd (b ∷ left) w1).1
          ≡ some result
        → Round result
    again :
        (w1 : os.World)
        → wait_for os fuel fd (if writing then pollout else pollin) timeout deadline w
          ≡ some (true, w1)
        → (errno : Errno) → (move os writing fd (b ∷ left) w1).0 ≡ failed errno
        → transfer os fuel fd done
            (b ∷ left)
            writing
            timeout
            deadline
            (move os writing fd (b ∷ left) w1).1
          ≡ some result
        → Round result
    broke :
        (w1 : os.World)
        → wait_for os fuel fd (if writing then pollout else pollin) timeout deadline w
          ≡ some (true, w1)
        → (errno : Errno) → (move os writing fd (b ∷ left) w1).0 ≡ failed errno
        → result ≡ (false, done ++ b ∷ left, (move os writing fd (b ∷ left) w1).1)
        → Round result

  failed-Round :
      (result : Bool × Bytes × os.World) (w1 : os.World) (errno : Errno)
      → wait_for os fuel fd (if writing then pollout else pollin) timeout deadline w
        ≡ some (true, w1)
      → (move os writing fd (b ∷ left) w1).0 ≡ failed errno
      → transfer os (suc fuel) fd done (b ∷ left) writing timeout deadline w ≡ some result
      → Round result
  unfolding transfer
  failed-Round result w1 eintr went m e = again w1 went eintr m (rw (went, m, transfer) at e)
  failed-Round result w1 eagain went m e = again w1 went eagain m (rw (went, m, transfer) at e)
  failed-Round result w1 ewouldblock went m e =
      again w1 went ewouldblock m (rw (went, m, transfer) at e)
  failed-Round result w1 other_errno went m e =
      broke w1 went other_errno m (given (rw (went, m, transfer) at e))

  pub transfer-Round :
      (result : Bool × Bytes × os.World)
      → transfer os (suc fuel) fd done (b ∷ left) writing timeout deadline w ≡ some result
      → Round result
  unfolding transfer
  transfer-Round result e =
      elim (Option-cases
        (wait_for os fuel fd (if writing then pollout else pollin) timeout deadline w)) [
          | inl stuck ↦ absurd (cc (rw (stuck, transfer) at e))
          | inr ((false, w1), went) ↦ gave_up w1 went (given (rw (went, transfer) at e))
          | inr ((true, w1), went) ↦ elim (Moved-cases os (move os writing fd (b ∷ left) w1).0) [
            | inl m ↦ closed w1 went m (given (rw (went, m, transfer) at e))
            | inr (inl (x, bytes, m)) ↦ went_on w1 went x bytes m (rw (went, m, transfer) at e)
            | inr (inr (errno, m)) ↦ failed-Round result w1 errno went m e
          ]
        ]
