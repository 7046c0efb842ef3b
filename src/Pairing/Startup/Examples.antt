-- ===== src/Pairing/Startup/Examples.antt =====
-- The set-up of the listening socket on a machine that only counts its sockets.
use open_cam.Prelude.{
  ℕ, ◌≡◌, refl, ap, Bool, true, false, List, [], ◌∷◌, Option, none, some, Bytes, codes,
}
use open_cam.Control.Os.{Os, timed_out, accepted, got, eintr}
use open_cam.Host.{Host, accept_failed, stopped}
use open_cam.Pairing.Startup.{Network, Opened, SetsUp, set_up, open_listener, open_listener-SetsUp}

record Sockets : Type 0 where
  open_ones : List ℕ
  bound : Option (ℕ × Bytes)
  listening : Bool

abbrev os : Os
os = record {
  World = Sockets;
  now = λ w. (0, w);
  poll = λ fd events timeout w. (timed_out, w);
  send = λ fd bytes w. (accepted 0, w);
  recv = λ fd size w. (got [], w);
}

abbrev last_away : List ℕ → List ℕ
last_away [] = []
last_away (fd ∷ sockets) = sockets

abbrev host : Host os
host = record {
  random = λ w. (none, w);
  inet_pton = λ text. true;
  find_device = λ w. ([], w);
  wait_for_rtsp = λ url w. (false, w);
  pipeline_start = λ url device w. (false, w);
  pipeline_state = λ w. (stopped, w);
  pipeline_stop = λ w. w;
  display_qr = λ text w. (false, w);
  accept = λ fd w. (accept_failed eintr, w);
  close = λ fd w. record w { open_ones = last_away w.open_ones };
}

abbrev network : Network os
network = record {
  local_ip_address = λ w. (codes "10.0.0.1", w);
  socket = λ w. (some 3, record w { open_ones = 3 ∷ w.open_ones });
  reuse_address = λ fd w. w;
  bind = λ fd ip w. (true, record w { bound = some (fd, ip) });
  listen = λ fd w. (true, record w { listening = true });
}

abbrev opened : Opened os host network
opened = record {
  open_sockets = λ w. w.open_ones;
  IsListening = λ w fd ip. (w.bound ≡ some (fd, ip)) × (w.listening ≡ true);
  after_address = λ w. refl;
  after_socket = λ w fd e. cc;
  no_socket = λ w e. absurd (cc);
  after_reuse = λ fd w. refl;
  after_bind = λ fd ip w. refl;
  after_listen = λ fd w. refl;
  listens = λ fd ip w bound hears. (refl, refl);
  after_close = λ fd sockets w e. ap last_away e;
}

abbrev begun : Sockets
begun = record { open_ones = 7 ∷ []; bound = none; listening = false }

-- Another program has the port.
closed_test :
    (open_listener os host (record network { bind = λ fd ip w. (false, w) }) begun).1 ≡ begun
unfolding open_listener set_up
closed_test = refl

open_listener-SetsUp_example :
    SetsUp os host network opened (7 ∷ []) (codes "10.0.0.1") (open_listener os host network begun)
open_listener-SetsUp_example = open_listener-SetsUp os host network opened begun
