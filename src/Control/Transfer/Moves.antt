-- ===== src/Control/Transfer/Moves.antt =====
-- What a transfer moves, on every outcome: the bytes it sends are the front of the buffer, and the
-- bytes it receives are the front of the stream, put into the buffer in order.
use open_cam.Prelude.{
  ℕ, zero, suc, ◌≤◌, ◌≡◌, refl, sym, ap, ◌∙◌, subst, ◌⊎◌, inl, inr, Bool, true, false, [], ◌∷◌,
  ◌++◌, append_assoc, append-nil, Bytes, length, take, drop, take-append-drop, drop-drop-length,
  length-append, length-drop, length-take, some, arith, Option-cases,
}
use open_cam.Prelude.Int.{ℤ, pos, negsuc}
use open_cam.Control.Os.{
  Errno, SendAnswer, accepted, send_failed, RecvAnswer, got, recv_failed, Os, Stream,
}
use open_cam.Control.Transfer.{
  pollin, pollout, remaining_time, wait_for, moved, failed, move, transfer,
}
use open_cam.Control.Transfer.Rounds.{gave_up, closed, went_on, again, broke, transfer-Round}

SendAnswer-cases :
    (a : SendAnswer) → ((n : ℕ) × (a ≡ accepted n)) ⊎ ((e : Errno) × (a ≡ send_failed e))
SendAnswer-cases (accepted n) = inl (n, refl)
SendAnswer-cases (send_failed e) = inr (e, refl)

RecvAnswer-cases :
    (a : RecvAnswer) → ((bytes : Bytes) × (a ≡ got bytes)) ⊎ ((e : Errno) × (a ≡ recv_failed e))
RecvAnswer-cases (got bytes) = inl (bytes, refl)
RecvAnswer-cases (recv_failed e) = inr (e, refl)

take-drop-length :
    (n : ℕ) (left : Bytes)
    → n ≤ length left
    → left ≡ take n left ++ drop (length (take n left)) left
take-drop-length n left h =
    let size : length (take n left) ≡ n = omega (arith, length-take n left) in
    rw (size, take-append-drop n left)

module _ (os : Os) (fd : ℕ) (stream : Stream os fd) where
  open os use {World, now, poll, send, recv}
  open stream use {sent, inbox}

  module _ (view : World → Bytes) (now_keeps : (w : World) → view (now w).1 ≡ view w)
      (poll_keeps : (events : ℕ) (timeout : ℤ) (w : World)
        → view (poll fd events timeout w).1 ≡ view w) where
    remaining_time_keeps :
        (timeout : ℤ) (deadline : ℕ) (w : World)
        → view (remaining_time os timeout deadline w).1 ≡ view w
    unfolding remaining_time
    remaining_time_keeps (pos t) deadline w = now_keeps w
    remaining_time_keeps (negsuc t) deadline w = refl

    -- Waiting leaves alone whatever the clock and `poll` leave alone.
    pub wait_for_keeps :
        (fuel events : ℕ) (timeout : ℤ) (deadline : ℕ) (w : World) (b : Bool) (w' : World)
        → wait_for os fuel fd events timeout deadline w ≡ some (b, w')
        → view w' ≡ view w
    unfolding wait_for
    wait_for_keeps zero events timeout deadline w b w' e = absurd (cc)
    wait_for_keeps (suc fuel) events timeout deadline w b w' e =
        let head = remaining_time os timeout deadline w in
        let kept = remaining_time_keeps timeout deadline w in
        elim (Option-cases head.0) [
          | inl late ↦ ground arith
          | inr (r, early) ↦
              let answer = poll fd events r head.1 in
              ground (
                arith,
                poll_keeps events r head.1,
                wait_for_keeps fuel events timeout deadline answer.1 b w',
              )
        ]

  wait_for-sent :
      (fuel events : ℕ) (timeout : ℤ) (deadline : ℕ) (w : World) (b : Bool) (w' : World)
      → wait_for os fuel fd events timeout deadline w ≡ some (b, w')
      → sent w' ≡ sent w
  wait_for-sent = wait_for_keeps sent stream.now_sent stream.poll_sent

  wait_for-inbox :
      (fuel events : ℕ) (timeout : ℤ) (deadline : ℕ) (w : World) (b : Bool) (w' : World)
      → wait_for os fuel fd events timeout deadline w ≡ some (b, w')
      → inbox w' ≡ inbox w
  wait_for-inbox = wait_for_keeps inbox stream.now_inbox stream.poll_inbox

  -- The outcome of sending `left`: a front part of it was accepted, all of it on success.
  pub record Sends (w : World) (left : Bytes) (success : Bool) (w' : World) : Type 0 where
    pub front : Bytes
    pub back : Bytes
    pub splits : left ≡ front ++ back
    pub accepted_front : sent w' ≡ sent w ++ front
    pub complete : (success ≡ false) ⊎ (back ≡ [])

  Sends-nothing : (w w' : World) (left : Bytes) → sent w' ≡ sent w → Sends w left false w'
  Sends-nothing w w' left e = record {
    front = [];
    back = left;
    splits = refl;
    accepted_front = e ∙ sym (append-nil (sent w));
    complete = inl refl;
  }

  Sends-more :
      (w w1 w' : World) (part left rest : Bytes) (success : Bool)
      → left ≡ part ++ rest
      → sent w1 ≡ sent w ++ part
      → Sends w1 rest success w'
      → Sends w left success w'
  Sends-more w w1 w' part left rest success e kept s = record {
    front = part ++ s.front;
    back = s.back;
    splits = e ∙ ap (λ t. part ++ t) s.splits ∙ sym (append_assoc part s.front s.back);
    accepted_front =
        s.accepted_front ∙ ap (λ t. t ++ s.front) kept ∙ append_assoc (sent w) part s.front;
    complete = s.complete;
  }

  move_sends :
      (left bytes : Bytes) (w : World)
      → (move os true fd left w).0 ≡ moved bytes
      → (left ≡ bytes ++ drop (length bytes) left)
        × (sent (move os true fd left w).1 ≡ sent w ++ bytes)
  unfolding move
  move_sends left bytes w e = elim (SendAnswer-cases (send fd left w).0) [
    | inl (n, a) ↦
        let (few, kept) = stream.send_accepted left w n a in
        let same : take n left ≡ bytes = ground arith in
        (
          subst (λ t. left ≡ t ++ drop (length t) left) same (take-drop-length n left few),
          subst (λ t. sent (send fd left w).1 ≡ sent w ++ t) same kept,
        )
    | inr (x, a) ↦ absurd (ground arith)
  ]

  move_sends_none :
      (left : Bytes) (errno : Errno) (w : World)
      → (move os true fd left w).0 ≡ failed errno
      → sent (move os true fd left w).1 ≡ sent w
  unfolding move
  move_sends_none left errno w e = elim (SendAnswer-cases (send fd left w).0) [
    | inl (n, a) ↦ absurd (ground arith)
    | inr (x, a) ↦ stream.send_rejected left w x a
  ]

  -- On every outcome the descriptor has accepted a front part of the buffer and nothing else, and
  -- all of it if the transfer succeeded.
  pub transfer-Sends :
      (fuel : ℕ) (done left : Bytes) (timeout : ℤ) (deadline : ℕ) (w : World) (success : Bool)
      (buffer : Bytes) (w' : World)
      → transfer os fuel fd done left true timeout deadline w ≡ some (success, buffer, w')
      → Sends w left success w'
  unfolding transfer
  transfer-Sends fuel done [] timeout deadline w success buffer w' e = record {
    front = [];
    back = [];
    splits = refl;
    accepted_front = ground (arith, append-nil (sent w));
    complete = inr refl;
  }
  transfer-Sends zero done (b ∷ left) timeout deadline w success buffer w' e = absurd (cc)
  transfer-Sends (suc fuel) done (b ∷ left) timeout deadline w success buffer w' e =
      elim (transfer-Round os fuel fd done b left true timeout deadline w (success, buffer, w') e) [
        | gave_up w1 waited r ↦ gives_up w1 w1 waited refl r
        | closed w1 waited m r ↦
            let (whole, kept) = move_sends (b ∷ left) [] w1 m in
            gives_up w1 _ waited (kept ∙ append-nil (sent w1)) r
        | went_on w1 waited x bytes m later ↦
            let (whole, kept) = move_sends (b ∷ left) (x ∷ bytes) w1 m in
            Sends-more w (move os true fd (b ∷ left) w1).1 w' (x ∷ bytes) (b ∷ left) _ success whole
              (kept
                ∙ ap (λ t. t ++ x ∷ bytes)
                    (wait_for-sent fuel pollout timeout deadline w true w1 waited))
              (transfer-Sends fuel _ _ timeout deadline _ success buffer w' later)
        | again w1 waited errno m later ↦
            Sends-more w (move os true fd (b ∷ left) w1).1 w' [] (b ∷ left) (b ∷ left) success refl
              (move_sends_none (b ∷ left) errno w1 m
                ∙ wait_for-sent fuel pollout timeout deadline w true w1 waited
                ∙ sym (append-nil (sent w)))
              (transfer-Sends fuel done (b ∷ left) timeout deadline _ success buffer w' later)
        | broke w1 waited errno m r ↦ gives_up w1 _ waited (move_sends_none (b ∷ left) errno w1 m) r
      ]
    where
      gives_up :
          {v : Bool} (w1 w2 : World)
          → wait_for os fuel fd pollout timeout deadline w ≡ some (v, w1)
          → sent w2 ≡ sent w1
          → ◌≡◌ {A = Bool × Bytes × World} (success, buffer, w') (false, done ++ b ∷ left, w2)
          → Sends w (b ∷ left) success w'
      gives_up {v} w1 w2 waited kept r =
          subst (λ q. Sends w (b ∷ left) q.0 q.2) (sym r)
            (Sends-nothing w w2 (b ∷ left)
              (kept ∙ wait_for-sent fuel pollout timeout deadline w v w1 waited))

  -- The outcome of receiving into `left` behind `done`: some bytes came off the front of the stream
  -- and stand in the buffer in order, as many as the buffer takes on success.
  pub record Receives (w : World) (done left : Bytes) (success : Bool) (buffer : Bytes) (w' : World)
      : Type 0 where
    pub taken : Bytes
    pub from_stream : inbox w ≡ taken ++ inbox w'
    pub in_buffer : buffer ≡ done ++ (taken ++ drop (length taken) left)
    pub within : length taken ≤ length left
    pub complete : (success ≡ false) ⊎ (length taken ≡ length left)

  Receives-nothing :
      (w w' : World) (done left : Bytes)
      → inbox w' ≡ inbox w
      → Receives w done left false (done ++ left) w'
  Receives-nothing w w' done left e = record {
    taken = [];
    from_stream = sym e;
    in_buffer = refl;
    within = omega arith;
    complete = inl refl;
  }

  Receives-more :
      (w w1 w' : World) (done part left : Bytes) (success : Bool) (buffer : Bytes)
      → inbox w ≡ part ++ inbox w1
      → length part ≤ length left
      → Receives w1 (done ++ part) (drop (length part) left) success buffer w'
      → Receives w done left success buffer w'
  Receives-more w w1 w' done part left success buffer e few s = record {
    taken = part ++ s.taken;
    from_stream =
        e ∙ ap (λ t. part ++ t) s.from_stream ∙ sym (append_assoc part s.taken (inbox w'));
    in_buffer = s.in_buffer ∙ rw (drop-drop-length part s.taken left) (simp append_assoc);
    within = omega (arith, length-append part s.taken, length-drop (length part) left, s.within);
    complete = elim s.complete [
      | inl e' ↦ inl e'
      | inr e' ↦ inr (omega (arith, length-append part s.taken, length-drop (length part) left, e'))
    ];
  }

  move_receives :
      (left bytes : Bytes) (w : World)
      → (move os false fd left w).0 ≡ moved bytes
      → (length bytes ≤ length left) × (inbox w ≡ bytes ++ inbox (move os false fd left w).1)
  unfolding move
  move_receives left bytes w e = elim (RecvAnswer-cases (recv fd (length left) w).0) [
    | inl (got', a) ↦
        let same : got' ≡ bytes = ground arith in
        stream.recv_got (length left) w bytes (a ∙ ap got same)
    | inr (x, a) ↦ absurd (ground arith)
  ]

  move_receives_none :
      (left : Bytes) (errno : Errno) (w : World)
      → (move os false fd left w).0 ≡ failed errno
      → inbox (move os false fd left w).1 ≡ inbox w
  unfolding move
  move_receives_none left errno w e = elim (RecvAnswer-cases (recv fd (length left) w).0) [
    | inl (bytes, a) ↦ absurd (ground arith)
    | inr (x, a) ↦ stream.recv_rejected (length left) w x a
  ]

  -- On every outcome the transfer took bytes off the front of the stream and put exactly these, in
  -- order, behind what the buffer held; on success they fill the buffer.
  pub transfer-Receives :
      (fuel : ℕ) (done left : Bytes) (timeout : ℤ) (deadline : ℕ) (w : World) (success : Bool)
      (buffer : Bytes) (w' : World)
      → transfer os fuel fd done left false timeout deadline w ≡ some (success, buffer, w')
      → Receives w done left success buffer w'
  unfolding transfer
  transfer-Receives fuel done [] timeout deadline w success buffer w' e = record {
    taken = [];
    from_stream = ground arith;
    in_buffer = ground (arith, append-nil done);
    within = omega arith;
    complete = inr refl;
  }
  transfer-Receives zero done (b ∷ left) timeout deadline w success buffer w' e = absurd (cc)
  transfer-Receives (suc fuel) done (b ∷ left) timeout deadline w success buffer w' e =
      elim (transfer-Round os fuel fd done b left false timeout deadline w (success, buffer, w')
        e) [
          | gave_up w1 waited r ↦ gives_up w1 w1 waited refl r
          | closed w1 waited m r ↦ gives_up w1 _ waited (sym (move_receives (b ∷ left) [] w1 m).1) r
          | went_on w1 waited x bytes m later ↦
              let (few, taken) = move_receives (b ∷ left) (x ∷ bytes) w1 m in
              Receives-more w (move os false fd (b ∷ left) w1).1 w' done (x ∷ bytes) (b ∷ left)
                success buffer
                (sym (wait_for-inbox fuel pollin timeout deadline w true w1 waited) ∙ taken) few
                (transfer-Receives fuel _ _ timeout deadline _ success buffer w' later)
          | again w1 waited errno m later ↦
              let same = move_receives_none (b ∷ left) errno w1 m in
              Receives-more w (move os false fd (b ∷ left) w1).1 w' done [] (b ∷ left) success
                buffer (sym (same ∙ wait_for-inbox fuel pollin timeout deadline w true w1 waited))
                (omega arith)
                (rw append-nil (
                  transfer-Receives fuel done (b ∷ left) timeout deadline _ success buffer w'
                    later))
          | broke w1 waited errno m r ↦
              gives_up w1 _ waited (move_receives_none (b ∷ left) errno w1 m) r
        ]
    where
      gives_up :
          {v : Bool} (w1 w2 : World)
          → wait_for os fuel fd pollin timeout deadline w ≡ some (v, w1)
          → inbox w2 ≡ inbox w1
          → ◌≡◌ {A = Bool × Bytes × World} (success, buffer, w') (false, done ++ b ∷ left, w2)
          → Receives w done (b ∷ left) success buffer w'
      gives_up {v} w1 w2 waited kept r =
          subst (λ q. Receives w done (b ∷ left) q.0 q.1 q.2) (sym r)
            (Receives-nothing w w2 done (b ∷ left)
              (kept ∙ wait_for-inbox fuel pollin timeout deadline w v w1 waited))
