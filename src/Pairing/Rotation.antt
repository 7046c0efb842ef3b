-- ===== src/Pairing/Rotation.antt =====
-- Which secret and which expiry a client is held to.
use open_cam.Prelude.{
  ℕ, ◌+◌, ◌<◌, ◌≡◌, refl, sym, ap, ◌∙◌, subst, ◌⊎◌, inl, inr, Bool, true, false, Option, none, some,
  leb, Bytes, arith, Bool-cases, Option-cases,
}
use open_cam.Control.Os.{Os, PollAnswer, ready, timed_out, poll_failed}
use open_cam.Control.Evp.{Evp}
use open_cam.Control.Transfer.{pollin}
use open_cam.Host.{Host, AcceptAnswer, connected, accept_failed}
use open_cam.Session.{Ended, returned, threw, authenticate, handle_client}
use open_cam.Session.Authentication.{Authenticated, authenticate-eq_some}
use open_cam.Pairing.{
  pairing_lifetime, pairing_payload, listen_timeout, Round, served, renew, renewed, handle, listen,
  pairing_round,
}

module _ (evp : Evp) (os : Os) (host : Host os) where
  open os use {World, now, poll}

  handle_client-Authenticated :
      (fuel fd : ℕ) (client_ip secret : Bytes) (expires : ℕ) (w : World) (ended : Ended)
      (w' : World)
      → handle_client evp os host fuel fd client_ip secret expires w ≡ some (ended, true, w')
      → (session_key : Bytes) × (w1 : World) × Authenticated evp os host fuel fd secret expires
          session_key w w1
  unfolding handle_client
  handle_client-Authenticated fuel fd client_ip secret expires w ended w' e =
      elim (Option-cases (authenticate evp os host fuel fd secret expires w)) [
        | inl stuck ↦ absurd (ground arith)
        | inr ((none, w1), refused) ↦ absurd (ground arith)
        | inr ((some key, w1), accepted) ↦
            (key, w1, authenticate-eq_some evp os host fuel fd secret expires key w w1 accepted)
      ]

  -- What a client was held to who was accepted in a world: the token had not expired when it was
  -- handled, and only where it proved knowledge of the secret the expiry is set anew, by the clock
  -- behind the drawing of the next secret.
  pub record Handled (fuel client_socket : ℕ) (client_ip secret : Bytes) (expires : ℕ)
      (accepted : World) (authenticated : Bool) (expires' : ℕ) : Type 0 where
    pub result : Bool
    pub after : World
    pub in_time : (now accepted).0 < expires
    pub handled :
        handle_client evp os host fuel client_socket client_ip secret expires (now accepted).1
        ≡ some (returned result, authenticated, after)
    pub outcome :
        ((authenticated ≡ true)
          × ((session_key : Bytes) × (proved : World) × Authenticated evp os host fuel client_socket
                secret expires session_key
                (now accepted).1
                proved)
          × (expires'
              ≡ (now (host.random (host.close client_socket after)).1).0 + pairing_lifetime))
        ⊎ ((authenticated ≡ false) × (expires' ≡ expires))

  -- The world behind the poll of a round, and behind a look at its clock.
  abbrev polled_at : ℕ → ℕ → World → World
  polled_at server_socket expires w =
      (now (poll server_socket pollin (listen_timeout expires (now w).0) (now w).1).1).1

  -- What a round that handled a client did behind the display of its secret: the client is that of
  -- the round's own `accept`.
  pub record Served (fuel server_socket : ℕ) (secret : Bytes) (expires : ℕ) (shown : World)
      (authenticated : Bool) (expires' : ℕ) : Type 0 where
    pub client_socket : ℕ
    pub client_ip : Bytes
    pub accepts :
        (host.accept server_socket (polled_at server_socket expires shown)).0
        ≡ connected client_socket client_ip
    pub client :
        Handled fuel client_socket client_ip secret expires
          (host.accept server_socket (polled_at server_socket expires shown)).1
          authenticated
          expires'

  renew-eq_some :
      (w : World) (expires : ℕ)
      → (renew evp os host w).0 ≡ some expires
      → expires ≡ (now (host.random w).1).0 + pairing_lifetime
  unfolding renew
  renew-eq_some w expires e = elim (Option-cases (host.random w).0) [
    | inl failed ↦ absurd (ground arith)
    | inr (secret, drawn) ↦ ground arith
  ]

  renewed-served :
      (q : Option ℕ × World) (secret : Bytes) (authenticated : Bool) (expires : ℕ) (w' : World)
      → ◌≡◌ {A = Option (Round × World)}
          (some (renewed evp os host q))
          (some (served secret authenticated expires, w'))
      → ⊥
  renewed-served (none, w) secret authenticated expires w' e = absurd (cc)
  renewed-served (some t, w) secret authenticated expires w' e = absurd (cc)

  handle-served :
      (fuel client_socket : ℕ) (client_ip secret : Bytes) (expires : ℕ) (w : World)
      (secret' : Bytes) (authenticated : Bool) (expires' : ℕ) (w' : World)
      → handle evp os host fuel client_socket client_ip secret expires w
        ≡ some (served secret' authenticated expires', w')
      → (secret' ≡ secret)
        × Handled fuel client_socket client_ip secret expires w authenticated expires'
  unfolding handle
  handle-served fuel client_socket client_ip secret expires w secret' authenticated expires' w' e =
      elim (Bool-cases (leb expires (now w).0)) [
        | inl late ↦ absurd (
            renewed-served (renew evp os host (host.close client_socket (now w).1)) secret'
              authenticated expires' w' (rw (late, handle) at e))
        | inr early ↦
            elim (Option-cases
              (handle_client evp os host fuel client_socket client_ip secret expires (now w).1)) [
                | inl stuck ↦ absurd (cc (rw (early, stuck, handle) at e))
                | inr ((threw, a, w2), done) ↦ absurd (cc (rw (early, done, handle) at e))
                | inr ((returned result, false, w2), done) ↦
                    let all : ◌≡◌ {A = Option (Round × World)}
                        (some (served secret false expires, host.close client_socket w2))
                        (some (served secret' authenticated expires', w')) =
                      rw (early, done, handle) at e in
                    let not_authenticated : authenticated ≡ false = cc in
                    (
                      cc,
                      record {
                        result = result;
                        after = w2;
                        in_time = ground arith;
                        handled =
                            done ∙ ap (λ a. some (returned result, a, w2)) (sym not_authenticated);
                        outcome = inr (not_authenticated, cc);
                      },
                    )
                | inr ((returned result, true, w2), done) ↦
                    let (key, w1, proof) =
                      handle_client-Authenticated fuel client_socket client_ip secret expires
                        (now w).1 (returned result) w2 done in
                    elim (Option-cases (renew evp os host (host.close client_socket w2)).0) [
                      | inl failed ↦ absurd (cc (rw (early, done, failed, handle) at e))
                      | inr (t, again) ↦
                          let all : ◌≡◌ {A = Option (Round × World)}
                              (some (
                                served secret true t,
                                (renew evp os host (host.close client_socket w2)).1,
                              ))
                              (some (served secret' authenticated expires', w')) =
                            rw (early, done, again, handle) at e in
                          let fresh = renew-eq_some (host.close client_socket w2) t again in
                          let is_authenticated : authenticated ≡ true = cc in
                          let same_expiry : expires' ≡ t = cc in
                          (
                            cc,
                            record {
                              result = result;
                              after = w2;
                              in_time = ground arith;
                              handled =
                                  done
                                  ∙ ap (λ a. some (returned result, a, w2)) (sym is_authenticated);
                              outcome =
                                  inl (is_authenticated, (key, w1, proof), same_expiry ∙ fresh);
                            },
                          )
                    ]
              ]
      ]

  listen-served :
      (fuel server_socket : ℕ) (secret : Bytes) (expires : ℕ) (w : World) (secret' : Bytes)
      (authenticated : Bool) (expires' : ℕ) (w' : World)
      → listen evp os host fuel server_socket secret expires w
        ≡ some (served secret' authenticated expires', w')
      → (secret' ≡ secret) × Served fuel server_socket secret expires w authenticated expires'
  unfolding listen
  listen-served fuel server_socket secret expires w secret' authenticated expires' w' e =
      polled (poll server_socket pollin (listen_timeout expires (now w).0) (now w).1).0 refl
    where
      w2 : World
      w2 = (poll server_socket pollin (listen_timeout expires (now w).0) (now w).1).1

      w3 : World
      w3 = (now w2).1

      asked :
          (a : AcceptAnswer)
          → (host.accept server_socket w3).0 ≡ a
          → (revents : ℕ)
          → (poll server_socket pollin (listen_timeout expires (now w).0) (now w).1).0
            ≡ ready revents
          → leb expires (now w2).0 ≡ false
          → (secret' ≡ secret) × Served fuel server_socket secret expires w authenticated expires'
      asked (accept_failed errno) answer revents p early =
          absurd (cc (rw (p, early, answer, listen) at e))
      asked (connected client_socket client_ip) answer revents p early =
          let (same, client) =
            handle-served fuel client_socket client_ip secret expires
              (host.accept server_socket w3).1 secret' authenticated expires' w'
              (rw (p, early, answer, listen) at e) in
          (
            same,
            record {
              client_socket = client_socket;
              client_ip = client_ip;
              accepts = answer;
              client = client;
            },
          )

      polled :
          (a : PollAnswer)
          → (poll server_socket pollin (listen_timeout expires (now w).0) (now w).1).0 ≡ a
          → (secret' ≡ secret) × Served fuel server_socket secret expires w authenticated expires'
      polled timed_out p = absurd (
          renewed-served (renew evp os host w2) secret' authenticated expires' w'
            (rw (p, listen) at e))
      polled (poll_failed errno) p = elim (Bool-cases (leb expires (now w2).0)) [
        | inl late ↦ absurd (
            renewed-served (renew evp os host w3) secret' authenticated expires' w'
              (rw (p, late, listen) at e))
        | inr early ↦ absurd (cc (rw (p, early, listen) at e))
      ]
      polled (ready revents) p = elim (Bool-cases (leb expires (now w2).0)) [
        | inl late ↦ absurd (
            renewed-served (renew evp os host w3) secret' authenticated expires' w'
              (rw (p, late, listen) at e))
        | inr early ↦ asked (host.accept server_socket w3).0 refl revents p early
      ]

  -- A round that handles a client handles the one that it accepted, with the secret that was drawn
  -- and shown in the same round; behind `accept` the clock is looked at again, and the token had not
  -- expired then. The client counts as authenticated only if it proved knowledge of that secret on
  -- its connection, and then the token's lifetime begins again by the clock at the end of the round;
  -- otherwise the expiry stays.
  pub pairing_round-served :
      (fuel server_socket : ℕ) (local_ip : Bytes) (expires : ℕ) (w : World) (secret : Bytes)
      (authenticated : Bool) (expires' : ℕ) (w' : World)
      → pairing_round evp os host fuel server_socket local_ip expires w
        ≡ some (served secret authenticated expires', w')
      → ((host.random w).0 ≡ some secret)
        × ((host.display_qr (pairing_payload local_ip secret) (host.random w).1).0 ≡ true)
        × Served fuel server_socket secret expires
            (host.display_qr (pairing_payload local_ip secret) (host.random w).1).1
            authenticated
            expires'
  unfolding pairing_round
  pairing_round-served fuel server_socket local_ip expires w secret authenticated expires' w' e =
      elim (Option-cases (host.random w).0) [
        | inl failed ↦ absurd (ground arith)
        | inr (drawn, random) ↦
            let qr = host.display_qr (pairing_payload local_ip drawn) (host.random w).1 in
            elim (Bool-cases qr.0) [
              | inl shown ↦
                  let (same, handled) =
                    listen-served fuel server_socket drawn expires qr.1 secret authenticated
                      expires' w' (rw (random, shown, pairing_round) at e) in
                  (
                    random ∙ ap some (sym same),
                    ap (λ s. (host.display_qr (pairing_payload local_ip s) (host.random w).1).0)
                          same
                        ∙ shown,
                    subst
                        (λ s.
                          Served fuel server_socket s expires
                            (host.display_qr (pairing_payload local_ip s) (host.random w).1).1
                            authenticated expires')
                        (sym same) handled,
                  )
              | inr hidden ↦ absurd (cc (rw (random, hidden, pairing_round) at e))
            ]
      ]
