-- ===== src/Control/Os.antt =====
-- What the control protocol uses of the operating system: the steady clock, `poll`, `send` and
-- `recv`. They are not the program's code, so they are a parameter, with the documented behaviour
-- that the proofs rely on as the records `Progress` and `Stream`.
use open_cam.Prelude.{ℕ, ◌≤◌, ◌<◌, ◌≡◌, ◌++◌, Bytes, length, take}
use open_cam.Prelude.Int.{ℤ}

pub data Errno : Type 0 where
  eintr eagain ewouldblock other_errno : Errno

-- The result of `poll` on one descriptor: positive with the returned events, zero, or negative.
pub data PollAnswer : Type 0 where
  ready : ℕ → PollAnswer
  timed_out : PollAnswer
  poll_failed : Errno → PollAnswer

pub data SendAnswer : Type 0 where
  accepted : ℕ → SendAnswer
  send_failed : Errno → SendAnswer

-- `got []` is the end of the stream, a count of 0.
pub data RecvAnswer : Type 0 where
  got : Bytes → RecvAnswer
  recv_failed : Errno → RecvAnswer

pub record Os : Type 1 where
  pub World : Type 0
  -- `std::chrono::steady_clock::now()`, in nanoseconds
  pub now : World → ℕ × World
  -- `poll(&descriptor, 1, timeout)` with the descriptor's `fd` and `events`
  pub poll : ℕ → ℕ → ℤ → World → PollAnswer × World
  -- `send(fd, data, size, MSG_NOSIGNAL)`
  pub send : ℕ → Bytes → World → SendAnswer × World
  -- `recv(fd, data, size, 0)`
  pub recv : ℕ → ℕ → World → RecvAnswer × World

-- The clock never goes back, and a call of `poll` takes some time.
pub record Progress (os : Os) : Type 0 where
  pub time : os.World → ℕ
  pub now_time : (w : os.World) → (os.now w).0 ≡ time w
  pub after_now : (w : os.World) → time w ≤ time (os.now w).1
  pub after_poll :
      (fd events : ℕ) (timeout : ℤ) (w : os.World) → time w < time (os.poll fd events timeout w).1
  pub after_send : (fd : ℕ) (bytes : Bytes) (w : os.World) → time w ≤ time (os.send fd bytes w).1
  pub after_recv : (fd size : ℕ) (w : os.World) → time w ≤ time (os.recv fd size w).1

-- A descriptor is a byte stream: `sent` is all that it has accepted, `inbox` all that it will
-- still deliver. What `send` counts was accepted from the front of its data, and `recv` takes from
-- the front of the stream.
pub record Stream (os : Os) (fd : ℕ) : Type 0 where
  pub sent : os.World → Bytes
  pub inbox : os.World → Bytes
  pub now_sent : (w : os.World) → sent (os.now w).1 ≡ sent w
  pub now_inbox : (w : os.World) → inbox (os.now w).1 ≡ inbox w
  pub poll_sent :
      (events : ℕ) (timeout : ℤ) (w : os.World) → sent (os.poll fd events timeout w).1 ≡ sent w
  pub poll_inbox :
      (events : ℕ) (timeout : ℤ) (w : os.World) → inbox (os.poll fd events timeout w).1 ≡ inbox w
  pub send_accepted :
      (bytes : Bytes) (w : os.World) (n : ℕ)
      → (os.send fd bytes w).0 ≡ accepted n
      → (n ≤ length bytes) × (sent (os.send fd bytes w).1 ≡ sent w ++ take n bytes)
  pub send_rejected :
      (bytes : Bytes) (w : os.World) (e : Errno)
      → (os.send fd bytes w).0 ≡ send_failed e
      → sent (os.send fd bytes w).1 ≡ sent w
  pub send_inbox : (bytes : Bytes) (w : os.World) → inbox (os.send fd bytes w).1 ≡ inbox w
  pub recv_got :
      (size : ℕ) (w : os.World) (bytes : Bytes)
      → (os.recv fd size w).0 ≡ got bytes
      → (length bytes ≤ size) × (inbox w ≡ bytes ++ inbox (os.recv fd size w).1)
  pub recv_rejected :
      (size : ℕ) (w : os.World) (e : Errno)
      → (os.recv fd size w).0 ≡ recv_failed e
      → inbox (os.recv fd size w).1 ≡ inbox w
  pub recv_sent : (size : ℕ) (w : os.World) → sent (os.recv fd size w).1 ≡ sent w
