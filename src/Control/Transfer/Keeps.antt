-- ===== src/Control/Transfer/Keeps.antt =====
-- Sending leaves what is to be received, and receiving leaves what was sent.
use open_cam.Prelude.{
  ℕ, zero, suc, ◌≡◌, ap, ◌∙◌, Bool, true, false, [], ◌∷◌, if◌then◌else◌, Bytes, length, some, arith,
}
use open_cam.Prelude.Int.{ℤ}
use open_cam.Control.Os.{Os, Stream}
use open_cam.Control.Transfer.{pollin, pollout, wait_for, move, transfer}
use open_cam.Control.Transfer.Rounds.{gave_up, closed, went_on, again, broke, transfer-Round}
use open_cam.Control.Transfer.Moves.{wait_for_keeps}

module _ (os : Os) (fd : ℕ) (stream : Stream os fd) where
  open os use {World, now, poll, send, recv}
  open stream use {sent, inbox}

  module _ (writing : Bool) (view : World → Bytes)
      (now_keeps : (w : World) → view (now w).1 ≡ view w)
      (poll_keeps : (events : ℕ) (timeout : ℤ) (w : World)
        → view (poll fd events timeout w).1 ≡ view w)
      (move_keeps : (left : Bytes) (w : World) → view (move os writing fd left w).1 ≡ view w) where
    -- A transfer leaves alone whatever its calls leave alone.
    transfer_keeps :
        (fuel : ℕ) (done left : Bytes) (timeout : ℤ) (deadline : ℕ) (w : World) (success : Bool)
        (buffer : Bytes) (w' : World)
        → transfer os fuel fd done left writing timeout deadline w ≡ some (success, buffer, w')
        → view w' ≡ view w
    unfolding transfer
    transfer_keeps fuel done [] timeout deadline w success buffer w' e = ground arith
    transfer_keeps zero done (b ∷ left) timeout deadline w success buffer w' e = absurd (cc)
    transfer_keeps (suc fuel) done (b ∷ left) timeout deadline w success buffer w' e =
        elim (transfer-Round os fuel fd done b left writing timeout deadline w (success, buffer, w')
          e) [
            | gave_up w1 waited r ↦ ap (λ q. view q.2) r ∙ kept waited
            | closed w1 waited m r ↦ ap (λ q. view q.2) r ∙ move_keeps (b ∷ left) w1 ∙ kept waited
            | went_on w1 waited x bytes m later ↦
                transfer_keeps fuel _ _ timeout deadline _ success buffer w' later
                ∙ move_keeps (b ∷ left) w1
                ∙ kept waited
            | again w1 waited errno m later ↦
                transfer_keeps fuel done (b ∷ left) timeout deadline _ success buffer w' later
                ∙ move_keeps (b ∷ left) w1
                ∙ kept waited
            | broke w1 waited errno m r ↦
                ap (λ q. view q.2) r ∙ move_keeps (b ∷ left) w1 ∙ kept waited
          ]
      where
        kept :
            {v : Bool} {w1 : World}
            → wait_for os fuel fd (if writing then pollout else pollin) timeout deadline w
              ≡ some (v, w1)
            → view w1 ≡ view w
        kept {v} {w1} waited =
            wait_for_keeps os fd stream view now_keeps poll_keeps fuel
              (if writing then pollout else pollin) timeout deadline w v w1 waited

  move_inbox : (left : Bytes) (w : World) → inbox (move os true fd left w).1 ≡ inbox w
  unfolding move
  move_inbox left w = stream.send_inbox left w

  move_sent : (left : Bytes) (w : World) → sent (move os false fd left w).1 ≡ sent w
  unfolding move
  move_sent left w = stream.recv_sent (length left) w

  pub transfer-inbox :
      (fuel : ℕ) (done left : Bytes) (timeout : ℤ) (deadline : ℕ) (w : World) (success : Bool)
      (buffer : Bytes) (w' : World)
      → transfer os fuel fd done left true timeout deadline w ≡ some (success, buffer, w')
      → inbox w' ≡ inbox w
  transfer-inbox = transfer_keeps true inbox stream.now_inbox stream.poll_inbox move_inbox

  pub transfer-sent :
      (fuel : ℕ) (done left : Bytes) (timeout : ℤ) (deadline : ℕ) (w : World) (success : Bool)
      (buffer : Bytes) (w' : World)
      → transfer os fuel fd done left false timeout deadline w ≡ some (success, buffer, w')
      → sent w' ≡ sent w
  transfer-sent = transfer_keeps false sent stream.now_sent stream.poll_sent move_sent
