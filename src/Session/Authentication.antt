-- ===== src/Session/Authentication.antt =====
-- Who is authenticated: a client that proved knowledge of the secret, before the token expired.
use open_cam.Prelude.{
  ℕ, ◌<◌, ◌≡◌, refl, sym, ap, ◌∙◌, subst, inl, inr, Bool, true, false, not, ◌||◌, ◌++◌, ◌==◌, leb,
  Bytes, IsByte, All, equal_bytes, equal_bytes_iff, length, take, drop, take-append-drop, take_all,
  length-drop, length-take, some, arith, Bool-cases, Option-cases,
}
use open_cam.Control.Os.{Os, Stream}
use open_cam.Control.Evp.{Evp}
use open_cam.Control.Wire.{Frame, empty_frame, nonce_size, server_hello, client_auth, server_auth}
use open_cam.Control.Frames.{send_frame, receive_frame}
use open_cam.Control.Frames.Delivery.{frame_bytes, send_frame-sent, receive_frame-received}
use open_cam.Control.Frames.Keeps.{send_frame-inbox, receive_frame-sent}
use open_cam.Control.Keys.{make_proof, derive_session_key, constant_time_equal}
use open_cam.Host.{Host, Quiet}
use open_cam.Session.{
  handshake_timeout, client_domain, server_domain, confirm, is_client_proof, authenticate,
}

module _ (evp : Evp) (os : Os) (host : Host os) where
  open os use {World, now}

  -- The frame has the type, the size and the proof that a holder of the secret computes.
  is_client_proof-eq_true :
      (secret server_nonce : Bytes) (frame : Frame)
      → is_client_proof evp os host secret server_nonce frame ≡ true
      → (client_nonce : Bytes) × (proof : Bytes) × (take nonce_size frame.payload ≡ client_nonce)
        × (length client_nonce ≡ nonce_size)
        × (make_proof evp secret client_domain server_nonce client_nonce ≡ some proof)
        × (frame ≡ record { type = client_auth; payload = client_nonce ++ proof })
  unfolding is_client_proof constant_time_equal
  is_client_proof-eq_true secret server_nonce frame e =
      elim (Bool-cases (not (frame.type == client_auth) || not (length frame.payload == 64))) [
        | inl bad ↦ absurd (cc (rw bad at e))
        | inr good ↦
            let client_nonce = take nonce_size frame.payload in
            let is_type : frame.type ≡ client_auth = ground arith in
            let is_long : length frame.payload ≡ 64 = ground arith in
            elim (Option-cases (make_proof evp secret client_domain server_nonce client_nonce)) [
              | inl failed ↦ absurd (ground arith)
              | inr (proof, made) ↦
                  let equal : equal_bytes proof (take 32 (drop nonce_size frame.payload)) ≡ true =
                    ground arith in
                  let same = (equal_bytes_iff proof _).0 equal in
                  let whole : take 32 (drop nonce_size frame.payload)
                      ≡ drop nonce_size frame.payload =
                    take_all 32 (drop nonce_size frame.payload)
                      (omega (arith, length-drop nonce_size frame.payload, is_long)) in
                  let parts : frame.payload ≡ client_nonce ++ proof =
                    sym (take-append-drop nonce_size frame.payload)
                    ∙ ap (λ t. client_nonce ++ t) (sym (same ∙ whole)) in
                  (
                    client_nonce,
                    proof,
                    refl,
                    omega (arith, length-take nonce_size frame.payload, is_long),
                    made,
                    ground (arith, is_type, parts),
                  )
            ]
      ]

  -- What was drawn, shown and sent where a client was authenticated.
  pub record Confirmed (fuel fd : ℕ) (secret : Bytes) (expires : ℕ)
      (server_nonce client_nonce session_key : Bytes) (w w' : World) : Type 0 where
    pub in_time : (now w).0 < expires
    pub server_proof : Bytes
    pub made : make_proof evp secret server_domain server_nonce client_nonce ≡ some server_proof
    pub key : derive_session_key evp secret server_nonce client_nonce ≡ some session_key
    pub put :
        send_frame os fuel fd server_auth server_proof handshake_timeout (now w).1 ≡ some (true, w')

  confirm-eq_some :
      (fuel fd : ℕ) (secret : Bytes) (expires : ℕ) (server_nonce client_nonce session_key : Bytes)
      (w w' : World)
      → confirm evp os host fuel fd secret expires server_nonce client_nonce w
        ≡ some (some session_key, w')
      → Confirmed fuel fd secret expires server_nonce client_nonce session_key w w'
  unfolding confirm
  confirm-eq_some fuel fd secret expires server_nonce client_nonce session_key w w' e =
      elim (Bool-cases (leb expires (now w).0)) [
        | inl late ↦ absurd (cc (rw late at e))
        | inr early ↦
            elim (Option-cases (make_proof evp secret server_domain server_nonce client_nonce)) [
              | inl failed ↦ absurd (ground arith)
              | inr (server_proof, made) ↦
                  elim (Option-cases (derive_session_key evp secret server_nonce client_nonce)) [
                    | inl failed ↦ absurd (ground arith)
                    | inr (key', derived) ↦
                        elim (Option-cases (
                          send_frame os fuel fd server_auth server_proof handshake_timeout
                            (now w).1)) [
                              | inl stuck ↦ absurd (ground arith)
                              | inr ((false, w2), unsent) ↦ absurd (ground arith)
                              | inr ((true, w2), sent) ↦ record {
                                in_time = ground arith;
                                server_proof = server_proof;
                                made = made;
                                key = ground arith;
                                put = ground arith;
                              }
                            ]
                  ]
            ]
      ]

  -- The four steps of an authentication: the nonce that was drawn, the frame that the client
  -- answered with, and the confirmation.
  pub record Authenticated (fuel fd : ℕ) (secret : Bytes) (expires : ℕ) (session_key : Bytes)
      (w w' : World) : Type 0 where
    pub server_nonce : Bytes
    pub client_nonce : Bytes
    pub client_proof : Bytes
    pub greeted : World
    pub answered : World
    pub drawn : (host.random w).0 ≡ some server_nonce
    pub greeting :
        send_frame os fuel fd server_hello server_nonce handshake_timeout (host.random w).1
        ≡ some (true, greeted)
    pub answer :
        receive_frame os fuel fd empty_frame handshake_timeout greeted
        ≡ some
            (true, record { type = client_auth; payload = client_nonce ++ client_proof }, answered)
    pub length_nonce : length client_nonce ≡ nonce_size
    pub proved : make_proof evp secret client_domain server_nonce client_nonce ≡ some client_proof
    pub confirmed :
        Confirmed fuel fd secret expires server_nonce client_nonce session_key answered w'

  -- A client is authenticated only if its answer to the nonce that was drawn for it holds the proof
  -- that the pairing secret gives for that nonce, before the token expires; the session key is then
  -- derived from the secret and both nonces.
  pub authenticate-eq_some :
      (fuel fd : ℕ) (secret : Bytes) (expires : ℕ) (session_key : Bytes) (w w' : World)
      → authenticate evp os host fuel fd secret expires w ≡ some (some session_key, w')
      → Authenticated fuel fd secret expires session_key w w'
  unfolding authenticate
  authenticate-eq_some fuel fd secret expires session_key w w' e =
      elim (Option-cases (host.random w).0) [
        | inl failed ↦ absurd (ground arith)
        | inr (server_nonce, drawn) ↦
            elim (Option-cases (
              send_frame os fuel fd server_hello server_nonce handshake_timeout
                (host.random w).1)) [
                  | inl stuck ↦ absurd (ground arith)
                  | inr ((false, w2), unsent) ↦ absurd (ground arith)
                  | inr ((true, w2), greeting) ↦
                      elim (Option-cases
                        (receive_frame os fuel fd empty_frame handshake_timeout w2)) [
                          | inl stuck ↦ absurd (ground arith)
                          | inr ((success, frame, w3), came) ↦
                              elim (Bool-cases (
                                not success
                                || not (is_client_proof evp os host secret server_nonce frame))) [
                                  | inl bad ↦ absurd (ground arith)
                                  | inr good ↦
                                      answered_frame server_nonce drawn w2 greeting success frame w3
                                        came good
                                        (rw (drawn, greeting, came, good, authenticate) at e)
                                ]
                        ]
                ]
      ]
    where
      answered_frame :
          (server_nonce : Bytes)
          → (host.random w).0 ≡ some server_nonce
          → (w2 : World)
          → send_frame os fuel fd server_hello server_nonce handshake_timeout (host.random w).1
            ≡ some (true, w2)
          → (success : Bool) (frame : Frame) (w3 : World)
          → receive_frame os fuel fd empty_frame handshake_timeout w2 ≡ some (success, frame, w3)
          → (not success || not (is_client_proof evp os host secret server_nonce frame)) ≡ false
          → confirm evp os host fuel fd secret expires server_nonce
              (take nonce_size frame.payload)
              w3
            ≡ some (some session_key, w')
          → Authenticated fuel fd secret expires session_key w w'
      answered_frame server_nonce drawn w2 greeting success frame w3 came good rest =
          let got : success ≡ true = ground arith in
          let (client_nonce, client_proof, front, long, proved, is_frame) =
            is_client_proof-eq_true secret server_nonce frame (ground arith) in
          record {
            server_nonce = server_nonce;
            client_nonce = client_nonce;
            client_proof = client_proof;
            greeted = w2;
            answered = w3;
            drawn = drawn;
            greeting = greeting;
            answer =
                came ∙ ap (λ b. some (b, frame, w3)) got ∙ ap (λ f. some (true, f, w3)) is_frame;
            length_nonce = long;
            proved = proved;
            confirmed =
                confirm-eq_some fuel fd secret expires server_nonce client_nonce session_key w3 w' (
                  subst
                    (λ n.
                      confirm evp os host fuel fd secret expires server_nonce n w3
                      ≡ some (some session_key, w'))
                    front rest);
          }

  -- On the wire, for a stream of bytes that drawing random bytes leaves alone: if a client is
  -- authenticated, its stream began with its answer to the nonce that was drawn, and the controller
  -- has put the greeting and then its own proof on the stream, and nothing else.
  pub authenticate-wire :
      (fuel fd : ℕ) (stream : Stream os fd) (secret : Bytes) (expires : ℕ) (session_key : Bytes)
      (w w' : World)
      → Quiet os host fd stream
      → All IsByte (stream.inbox w)
      → authenticate evp os host fuel fd secret expires w ≡ some (some session_key, w')
      → (server_nonce : Bytes) × (client_nonce : Bytes) × (client_proof : Bytes)
        × (server_proof : Bytes) × ((host.random w).0 ≡ some server_nonce)
        × (make_proof evp secret client_domain server_nonce client_nonce ≡ some client_proof)
        × (make_proof evp secret server_domain server_nonce client_nonce ≡ some server_proof)
        × (derive_session_key evp secret server_nonce client_nonce ≡ some session_key)
        × (stream.sent w'
            ≡ (stream.sent w ++ frame_bytes server_hello server_nonce)
              ++ frame_bytes server_auth server_proof)
        × (stream.inbox w
            ≡ frame_bytes client_auth (client_nonce ++ client_proof) ++ stream.inbox w')
  authenticate-wire fuel fd stream secret expires session_key w w' quiet bytes e =
      let a = authenticate-eq_some fuel fd secret expires session_key w w' e in
      let c = a.confirmed in
      let (greeting_sent, _) =
        send_frame-sent os fd stream fuel server_hello a.server_nonce handshake_timeout
          (host.random w).1 a.greeted a.greeting in
      let greeting_inbox =
        send_frame-inbox os fd stream fuel server_hello a.server_nonce handshake_timeout
          (host.random w).1 true a.greeted a.greeting in
      let before = greeting_inbox ∙ quiet.random_inbox w in
      let (answer_taken, _) =
        receive_frame-received os fd stream fuel empty_frame handshake_timeout a.greeted _
          a.answered (subst (All IsByte) (sym before) bytes) a.answer in
      let answer_sent =
        receive_frame-sent os fd stream fuel empty_frame handshake_timeout a.greeted true _
          a.answered a.answer in
      let (proof_sent, _) =
        send_frame-sent os fd stream fuel server_auth c.server_proof handshake_timeout
          (now a.answered).1 w' c.put in
      let proof_inbox =
        send_frame-inbox os fd stream fuel server_auth c.server_proof handshake_timeout
          (now a.answered).1 true w' c.put in
      (
        a.server_nonce,
        a.client_nonce,
        a.client_proof,
        c.server_proof,
        a.drawn,
        a.proved,
        c.made,
        c.key,
        proof_sent
            ∙ ap (λ t. t ++ frame_bytes server_auth c.server_proof)
                (stream.now_sent a.answered
                  ∙ answer_sent
                  ∙ greeting_sent
                  ∙ ap (λ t. t ++ frame_bytes server_hello a.server_nonce) (quiet.random_sent w)),
        sym before
            ∙ answer_taken
            ∙ ap (λ t. frame_bytes client_auth (a.client_nonce ++ a.client_proof) ++ t)
                (sym (proof_inbox ∙ stream.now_inbox a.answered)),
      )
