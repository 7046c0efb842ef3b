-- ===== src/Pairing.antt =====
-- The pairing loop of the controller: `showPairingQr` and the loop of `main` in
-- linux/src/main.cpp. `none` means that a call ran out of fuel.
pub mod Rotation
pub mod Startup
mod Examples
use open_cam.Prelude.{
  ℕ, zero, suc, ◌+◌, ◌-◌, ◌*◌, ◌/◌, ◌%◌, ◌^◌, Bool, true, false, ◌||◌, List, [], ◌∷◌, ◌++◌, Option,
  none, some, ◌==◌, leb, if◌then◌else◌, Bytes, codes, length,
}
use open_cam.Prelude.Int.{ℤ, signed32}
use open_cam.Control.Os.{Os, Errno, eintr, PollAnswer, ready, timed_out, poll_failed}
use open_cam.Control.Evp.{Evp}
use open_cam.Control.Hex.{encode_hex}
use open_cam.Control.Transfer.{pollin}
use open_cam.Host.{Host, AcceptAnswer, connected, accept_failed}
use open_cam.Session.{Ended, returned, threw, handle_client}

-- `std::to_string(SERVER_PORT)`
abbrev pub server_port : Bytes
server_port = codes "6969"

-- `PAIRING_LIFETIME`, ten minutes in nanoseconds
abbrev pub pairing_lifetime : ℕ
pairing_lifetime = 10 * 60 * 1000000000

-- The text of the QR code.
unfoldable pub pairing_payload : Bytes → Bytes → Bytes
pairing_payload address secret =
    codes "OCAM1|" ++ (address ++ (codes "|" ++ (server_port ++ (codes "|" ++ encode_hex secret))))

-- `static_cast<int>(std::max<int64_t>(0, remaining))`, in milliseconds
abbrev pub listen_timeout : ℕ → ℕ → ℤ
listen_timeout expires time = signed32 ((expires - time) / 1000000 % 2 ^ 32)

-- What a round of the loop does: it goes on with an expiry, it ends the program, or an exception
-- ends it. A round that handled a client names the secret that it used.
pub data Round : Type 0 where
  goes_on : ℕ → Round
  served : Bytes → Bool → ℕ → Round
  quits : Round
  throws : Bytes → Round

module _ (evp : Evp) (os : Os) (host : Host os) where
  open os use {World, now, poll}

  -- A new secret, which the head of the loop replaces before it is shown, and a new expiry.
  unfoldable pub renew : World → Option ℕ × World
  renew w =
      let (drawn, w1) = host.random w in
      let (time, w2) = now w1 in
      elim drawn [ none ↦ (none, w1) | some _ ↦ (some (time + pairing_lifetime), w2) ]

  abbrev pub renewed : Option ℕ × World → Round × World
  renewed (none, w) = (quits, w)
  renewed (some expires, w) = (goes_on expires, w)

  -- A client that was accepted.
  unfoldable pub handle : ℕ → ℕ → Bytes → Bytes → ℕ → World → Option (Round × World)
  handle fuel client_socket client_ip secret expires w =
      let (time, w1) = now w in
      if leb expires time
      then some (renewed (renew (host.close client_socket w1)))
      else elim (handle_client evp os host fuel client_socket client_ip secret expires w1) [
        | none ↦ none
        | some (threw, authenticated, w2) ↦ some (throws secret, w2)
        | some (returned _, authenticated, w2) ↦
            let w3 = host.close client_socket w2 in
            let (expires', w4) = renew w3 in
            if authenticated
            then elim expires' [
              | none ↦ some (quits, w4)
              | some expires'' ↦ some (served secret true expires'', w4)
            ]
            else some (served secret false expires, w3)
      ]

  -- The wait for a client.
  unfoldable pub listen : ℕ → ℕ → Bytes → ℕ → World → Option (Round × World)
  listen fuel server_socket secret expires w =
      let (time, w1) = now w in
      let (answer, w2) = poll server_socket pollin (listen_timeout expires time) w1 in
      let (time', w3) = now w2 in
      elim answer [
        | timed_out ↦ some (renewed (renew w2))
        | poll_failed errno ↦
            if leb expires time' then some (renewed (renew w3)) else some (goes_on expires, w3)
        | ready _ ↦
            if leb expires time'
            then some (renewed (renew w3))
            else let (client, w4) = host.accept server_socket w3 in
              elim client [
                | accept_failed errno ↦ some (goes_on expires, w4)
                | connected client_socket client_ip ↦
                    handle fuel client_socket client_ip secret expires w4
              ]
      ]

  -- One round of the loop of `main`.
  unfoldable pub pairing_round : ℕ → ℕ → Bytes → ℕ → World → Option (Round × World)
  pairing_round fuel server_socket local_ip expires w =
      let (drawn, w1) = host.random w in
      elim drawn [
        | none ↦ some (quits, w1)
        | some secret ↦
            let (shown, w2) = host.display_qr (pairing_payload local_ip secret) w1 in
            if shown then listen fuel server_socket secret expires w2 else some (quits, w2)
      ]

  -- Rounds of the loop, at most as many as the first fuel says; the rounds are the result.
  unfoldable pub pairing_loop : ℕ → ℕ → ℕ → Bytes → ℕ → World → Option (List Round × World)
  pairing_loop zero fuel server_socket local_ip expires w = some ([], w)
  pairing_loop (suc rounds) fuel server_socket local_ip expires w =
      elim (pairing_round fuel server_socket local_ip expires w) [
        | none ↦ none
        | some (quits, w1) ↦ some (quits ∷ [], w1)
        | some (throws secret, w1) ↦ some (throws secret ∷ [], w1)
        | some (goes_on expires', w1) ↦
            elim (pairing_loop rounds fuel server_socket local_ip expires' w1) [
              | none ↦ none
              | some (later, w2) ↦ some (goes_on expires' ∷ later, w2)
            ]
        | some (served secret authenticated expires', w1) ↦
            elim (pairing_loop rounds fuel server_socket local_ip expires' w1) [
              | none ↦ none
              | some (later, w2) ↦ some (served secret authenticated expires' ∷ later, w2)
            ]
      ]
