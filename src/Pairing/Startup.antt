-- ===== src/Pairing/Startup.antt =====
-- The beginning and the end of `main` in linux/src/main.cpp: the listening socket that the pairing loop
-- works with.
mod Examples
use open_cam.Prelude.{
  ℕ, ◌+◌, ◌≡◌, ◌≢◌, refl, ap, ◌∙◌, Bool, true, false, not, inl, inr, List, [], ◌∷◌, Option, none,
  some, if◌then◌else◌, Bytes, Bool-cases, Option-cases, arith,
}
use open_cam.Strings.{c_str}
use open_cam.Descriptor.{is_empty}
use open_cam.Control.Os.{Os}
use open_cam.Control.Evp.{Evp}
use open_cam.Host.{Host}
use open_cam.Pairing.{Round, quits, pairing_loop, pairing_lifetime}

-- What `main` uses of the network besides the rest of the host.
pub record Network (os : Os) : Type 0 where
  -- `getLocalIpAddress`, of linux/src/network.cpp
  pub local_ip_address : os.World → Bytes × os.World
  -- `socket`, `none` where it is negative
  pub socket : os.World → Option ℕ × os.World
  -- `setsockopt` with `SO_REUSEADDR`
  pub reuse_address : ℕ → os.World → os.World
  -- whether `bind` to this address and `SERVER_PORT` succeeds
  pub bind : ℕ → Bytes → os.World → Bool × os.World
  -- whether `listen` with `BACKLOG` succeeds
  pub listen : ℕ → os.World → Bool × os.World

-- The open sockets, of which `socket` adds one and `close` takes the last one away. A socket is
-- bound to an address or not, and listens or not, as the calls say.
pub record Opened (os : Os) (host : Host os) (network : Network os) : Type 1 where
  pub open_sockets : os.World → List ℕ
  pub IsListening : os.World → ℕ → Bytes → Type 0
  pub after_address : (w : os.World) → open_sockets (network.local_ip_address w).1 ≡ open_sockets w
  pub after_socket :
      (w : os.World) (fd : ℕ)
      → (network.socket w).0 ≡ some fd
      → open_sockets (network.socket w).1 ≡ fd ∷ open_sockets w
  pub no_socket :
      (w : os.World)
      → (network.socket w).0 ≡ none
      → open_sockets (network.socket w).1 ≡ open_sockets w
  pub after_reuse :
      (fd : ℕ) (w : os.World) → open_sockets (network.reuse_address fd w) ≡ open_sockets w
  pub after_bind :
      (fd : ℕ) (ip : Bytes) (w : os.World) → open_sockets (network.bind fd ip w).1 ≡ open_sockets w
  pub after_listen : (fd : ℕ) (w : os.World) → open_sockets (network.listen fd w).1 ≡ open_sockets w
  pub listens :
      (fd : ℕ) (ip : Bytes) (w : os.World)
      → (network.bind fd ip w).0 ≡ true
      → (network.listen fd (network.bind fd ip w).1).0 ≡ true
      → IsListening (network.listen fd (network.bind fd ip w).1).1 fd ip
  pub after_close :
      (fd : ℕ) (sockets : List ℕ) (w : os.World)
      → open_sockets w ≡ fd ∷ sockets
      → open_sockets (host.close fd w) ≡ sockets

module _ (os : Os) (host : Host os) (network : Network os) where
  open os use {World, now}
  open network use {local_ip_address, socket, reuse_address, bind}

  -- The socket that was created.
  unfoldable pub set_up : ℕ → Bytes → World → Option (ℕ × Bytes) × World
  set_up fd ip w =
      if not (host.inet_pton (c_str ip))
      then (none, host.close fd w)
      else (let (bound, w1) = bind fd ip w in
          if not bound
          then (none, host.close fd w1)
          else (let (listening, w2) = network.listen fd w1 in
              if not listening then (none, host.close fd w2) else (some (fd, ip), w2)))

  -- `main` up to the pairing loop; `none` is a return of 1.
  unfoldable pub open_listener : World → Option (ℕ × Bytes) × World
  open_listener w =
      let (ip, w1) = local_ip_address w in
      if is_empty ip
      then (none, w1)
      else (let (created, w2) = socket w1 in
          elim created [ none ↦ (none, w2) | some fd ↦ set_up fd ip (reuse_address fd w2) ])

  -- Whether the loop ended by a break or a return, and not by an exception or for want of rounds.
  abbrev pub has_quit : List Round → Bool
  has_quit [] = false
  has_quit (quits ∷ []) = true
  has_quit (round ∷ rounds) = has_quit rounds

  -- `main`, with a bound on the rounds that are looked at; `none` is a call without fuel.
  unfoldable pub run_main : Evp → ℕ → ℕ → World → Option (List Round × World)
  run_main evp rounds fuel w =
      let (opened, w1) = open_listener w in
      elim opened [
        | none ↦ some ([], w1)
        | some (fd, ip) ↦
            let (time, w2) = now w1 in
            elim (pairing_loop evp os host rounds fuel fd ip (time + pairing_lifetime) w2) [
              | none ↦ none
              | some (done, w3) ↦ some (done, if has_quit done then host.close fd w3 else w3)
            ]
      ]

  module _ (opened : Opened os host network) where
    open opened use {open_sockets, IsListening}

    -- What the set-up leaves: one more socket, which listens on the local address, or none.
    pub data SetsUp (sockets : List ℕ) (ip : Bytes) : Option (ℕ × Bytes) × World → Type 0 where
      listens_on :
          (fd : ℕ) (w' : World)
          → open_sockets w' ≡ fd ∷ sockets
          → IsListening w' fd ip
          → SetsUp sockets ip (some (fd, ip), w')
      gives_up : (w' : World) → open_sockets w' ≡ sockets → SetsUp sockets ip (none, w')

    set_up-SetsUp :
        (fd : ℕ) (ip : Bytes) (sockets : List ℕ) (w : World)
        → open_sockets w ≡ fd ∷ sockets
        → SetsUp sockets ip (set_up fd ip w)
    unfolding set_up
    set_up-SetsUp fd ip sockets w one =
        let w1 = (bind fd ip w).1 in
        let w2 = (network.listen fd w1).1 in
        let one1 = opened.after_bind fd ip w ∙ one in
        let one2 = opened.after_listen fd w1 ∙ one1 in
        elim (Bool-cases (host.inet_pton (c_str ip))) [
          | inr bad ↦
              rw (set_up, bad) (gives_up (host.close fd w) (opened.after_close fd sockets w one))
          | inl good ↦ elim (Bool-cases (bind fd ip w).0) [
            | inr taken ↦
                rw (set_up, good, taken)
                  (gives_up (host.close fd w1) (opened.after_close fd sockets w1 one1))
            | inl bound ↦ elim (Bool-cases (network.listen fd w1).0) [
              | inr deaf ↦
                  rw (set_up, good, bound, deaf)
                    (gives_up (host.close fd w2) (opened.after_close fd sockets w2 one2))
              | inl hears ↦
                  rw (set_up, good, bound, hears)
                    (listens_on fd w2 one2 (opened.listens fd ip w bound hears))
            ]
          ]
        ]

    -- However the set-up ends, either the socket that the pairing loop gets is the one more that is
    -- open, and it listens on the local address, or no socket was left open.
    pub open_listener-SetsUp :
        (w : World) → SetsUp (open_sockets w) (local_ip_address w).0 (open_listener w)
    unfolding open_listener
    open_listener-SetsUp w =
        let w1 = (local_ip_address w).1 in
        let same = opened.after_address w in
        elim (Bool-cases (is_empty (local_ip_address w).0)) [
          | inl nowhere ↦ rw (open_listener, nowhere) (gives_up w1 same)
          | inr somewhere ↦ elim (Option-cases (socket w1).0) [
            | inl failed ↦
                rw (open_listener, somewhere, failed)
                  (gives_up (socket w1).1 (opened.no_socket w1 failed ∙ same))
            | inr (fd, created) ↦
                rw (open_listener, somewhere, created)
                  (set_up-SetsUp fd (local_ip_address w).0 (open_sockets w)
                    (reuse_address fd (socket w1).1)
                    (opened.after_reuse fd (socket w1).1
                      ∙ opened.after_socket w1 fd created
                      ∙ ap (λ s. fd ∷ s) same))
          ]
        ]
