-- ===== src/Windows/Accept/Liveness.antt =====
-- That a device which sends a proper frame is connected, where its bytes are there and the calls are
-- quick enough.
use open_cam.Prelude.{
  ℕ, zero, suc, ◌+◌, ◌-◌, ◌*◌, ◌/◌, ◌≤◌, ◌<◌, ◌≡◌, ◌≢◌, ◌||◌, refl, sym, ap, ◌∙◌, true, false, inl,
  inr, [], ◌∷◌, ◌++◌, append_assoc, append-nil, some, ltb, leb, ◌==◌, Bytes, length, length-append,
  le→ltb, lt→ltb, arith,
}
use open_cam.Windows.Reader.{ok, max_message}
use open_cam.Windows.Reader.Cut.{append-cases}
use open_cam.Windows.Descriptor.{DeviceDescriptor, deserialize_device_descriptor}
use open_cam.Windows.Devices.{Devices, connect}
use open_cam.Windows.Accept.{
  Sockets, Stream, frame_length, patience, read_exact, read_descriptor, receive_descriptor, settle,
  on_accept,
}

-- Where bytes are there, `select` is ready and a read gives at least one of them; no call takes
-- longer than `cost` nanoseconds then.
pub record Prompt (net : Sockets) (stream : Stream net) : Type 0 where
  pub clock : net.World → ℕ
  pub cost : ℕ
  pub now_time : (w : net.World) → (net.now w).0 ≡ clock w
  pub after_now : (w : net.World) → clock (net.now w).1 ≤ clock w + cost
  pub ready :
      (timeout : ℕ) (w : net.World)
      → stream.inbox w ≢ []
      → ((net.select timeout w).0 ≡ true) × (clock (net.select timeout w).1 ≤ clock w + cost)
  pub reads :
      (size : ℕ) (w : net.World)
      → 0 < size
      → stream.inbox w ≢ []
      → (b : ℕ) × (bs : Bytes) × ((net.read_some size w).0 ≡ some (b ∷ bs))
        × (clock (net.read_some size w).1 ≤ clock w + cost)

module _ (net : Sockets) (stream : Stream net) (prompt : Prompt net stream) where
  open net use {World, now, select, read_some}
  open stream use {inbox}
  open prompt use {clock, cost}

  abbrev round : ℕ
  round = 3 * cost

  times : (a m : ℕ) → suc (a + m) * round ≡ round + a * round + m * round
  times a m = grind arith

  -- What the rounds that are left may cost, after one that took some bytes.
  round-budget :
      (before after a m n : ℕ)
      → n ≡ suc (a + m)
      → after ≤ before + round
      → after + m * round ≤ before + n * round
  round-budget before after a m n h later =
      let whole = ap (λ k. k * round) h ∙ times a m in grind (arith, whole, later)

  -- One round that reads a front part of the bytes that are due.
  record Round (deadline size : ℕ) (got need rest : Bytes) (w : World) : Type 0 where
    bytes : Bytes
    left : Bytes
    after : World
    splits : need ≡ bytes ++ left
    some_bytes : 0 < length bytes
    in_front : inbox after ≡ left ++ rest
    quick : clock after ≤ clock w + round
    goes_on :
        (fuel : ℕ)
        → read_exact net (suc fuel) deadline size got w
          ≡ read_exact net fuel deadline size (got ++ bytes) after

  read_exact-Round :
      (deadline size : ℕ) (got : Bytes) (n : ℕ) (need rest : Bytes) (w : World)
      → length got + length (n ∷ need) ≡ size
      → inbox w ≡ n ∷ need ++ rest
      → clock w < deadline
      → Round deadline size got (n ∷ need) rest w
  unfolding read_exact
  read_exact-Round deadline size got n need rest w sized i intime =
      let early : leb deadline (now w).0 ≡ false = ground (arith, prompt.now_time w) in
      let short = lt→ltb (length got) size (omega (arith, sized)) in
      let w1 = (now w).1 in
      let remaining = (deadline - (now w).0) / 1000 in
      let i1 = stream.now_inbox w ∙ i in
      let (readable, t2) = prompt.ready remaining w1 (λ e. absurd (cc (i1, e))) in
      let w2 = (select remaining w1).1 in
      let i2 = stream.select_inbox remaining w1 ∙ i1 in
      let due = size - length got in
      let (b, bs, came, t3) =
        prompt.reads due w2 (omega (arith, sized)) (λ e. absurd (cc (i2, e))) in
      let (fits, front) = stream.read_some_got due w2 (b ∷ bs) came in
      elim (append-cases (n ∷ need) rest (b ∷ bs) (inbox (read_some due w2).1) (sym i2 ∙ front)) [
        | inr shorter ↦ absurd (omega (arith, shorter, fits, sized))
        | inl (r, split, back) ↦ record {
          bytes = b ∷ bs;
          left = r;
          after = (read_some due w2).1;
          splits = split;
          some_bytes = omega arith;
          in_front = sym back;
          quick = omega (arith, prompt.after_now w, t2, t3);
          goes_on = λ fuel. rw (read_exact, short, early, readable, came) refl;
        }
      ]

  regroup :
      (got bytes left need : Bytes) → need ≡ bytes ++ left → (got ++ bytes) ++ left ≡ got ++ need
  regroup got bytes left need e = append_assoc got bytes left ∙ ap (λ s. got ++ s) (sym e)

  -- All bytes that are due are read, in time.
  abbrev Filled : (fuel deadline size : ℕ) (got need rest : Bytes) (w : World) → Type 0
  Filled fuel deadline size got need rest w =
      (w' : World) × (read_exact net fuel deadline size got w ≡ some (some (got ++ need), w'))
      × (inbox w' ≡ rest)
      × (clock w' ≤ clock w + length need * round)

  length-Round :
      {deadline size : ℕ} {got need rest : Bytes} {w : World}
      (r : Round deadline size got need rest w)
      → length need ≡ length r.bytes + length r.left
  length-Round r = ap length r.splits ∙ length-append r.bytes r.left

  Round-budget :
      {deadline size : ℕ} {got need rest : Bytes} {w : World}
      (r : Round deadline size got need rest w)
      → clock r.after + length r.left * round ≤ clock w + length need * round
  Round-budget {need} {w} r =
      round-budget (clock w) (clock r.after) (length r.bytes - 1) (length r.left) (length need)
        (omega (arith, length-Round r, r.some_bytes)) r.quick

  Round-Filled :
      (fuel deadline size : ℕ) (got need rest : Bytes) (w : World)
      (r : Round deadline size got need rest w)
      → Filled fuel deadline size (got ++ r.bytes) r.left rest r.after
      → Filled (suc fuel) deadline size got need rest w
  Round-Filled fuel deadline size got need rest w r (w', filled, i, t) = (
    w',
    r.goes_on fuel
        ∙ filled
        ∙ ap (λ s. some (some s, w')) (regroup got r.bytes r.left need r.splits),
    i,
    omega (arith, Round-budget r, t),
  )

  read_exact-Filled :
      (fuel deadline size : ℕ) (got need rest : Bytes) (w : World)
      → length need ≤ fuel
      → length got + length need ≡ size
      → inbox w ≡ need ++ rest
      → clock w + length need * round < deadline
      → Filled fuel deadline size got need rest w
  unfolding read_exact
  read_exact-Filled zero deadline size got [] rest w enough sized i intime = (
    w,
    rw (read_exact, le→ltb (length got) size (omega arith), append-nil got) refl,
    i,
    omega arith,
  )
  read_exact-Filled zero deadline size got (n ∷ need) rest w enough sized i intime =
      absurd (omega arith)
  read_exact-Filled (suc fuel) deadline size got [] rest w enough sized i intime = (
    w,
    rw (read_exact, le→ltb (length got) size (omega arith), append-nil got) refl,
    i,
    omega arith,
  )
  read_exact-Filled (suc fuel) deadline size got (n ∷ need) rest w enough sized i intime =
      let r = read_exact-Round deadline size got n need rest w sized i (omega (arith, intime)) in
      Round-Filled fuel deadline size got (n ∷ need) rest w r (
        read_exact-Filled fuel deadline size (got ++ r.bytes) r.left rest r.after
          (omega (arith, length-Round r, r.some_bytes, enough))
          (omega (arith, length-Round r, sized, length-append got r.bytes)) r.in_front
          (omega (arith, Round-budget r, intime)))

  read_descriptor-connects :
      (deadline : ℕ) (s : Devices) (length_bytes packet : Bytes) (d : DeviceDescriptor)
      (w w' : World)
      → frame_length length_bytes ≡ length packet
      → 0 < length packet
      → length packet ≤ max_message
      → deserialize_device_descriptor packet ≡ ok d
      → read_exact net (length packet) deadline (length packet) [] w ≡ some (some packet, w')
      → settle net s (read_descriptor net deadline (some (some length_bytes, w)))
        ≡ some (connect d s, w')
  unfolding read_descriptor
  read_descriptor-connects deadline s lb packet d w w' counted filled limited parses came =
      let proper : (length packet == 0 || ltb max_message (length packet)) ≡ false = ground arith in
      rw (counted, proper, came, parses) refl

  -- A device whose stream begins with a proper frame is connected, and what follows the frame is left
  -- in the stream: the four bytes give the length of the packet, which is not empty, within 64 KiB and
  -- of a descriptor, bytes that are there are read, and all calls together are quicker than the
  -- eight seconds.
  pub on_accept-connects :
      (s : Devices) (w : World) (length_bytes packet rest : Bytes) (d : DeviceDescriptor)
      → length length_bytes ≡ 4
      → frame_length length_bytes ≡ length packet
      → 0 < length packet
      → length packet ≤ max_message
      → inbox w ≡ length_bytes ++ (packet ++ rest)
      → deserialize_device_descriptor packet ≡ ok d
      → cost + (4 * round + length packet * round) < patience
      → (w' : World) × (on_accept net s w ≡ some (connect d s, w')) × (inbox w' ≡ rest)
  unfolding on_accept receive_descriptor
  on_accept-connects s w lb packet rest d four counted filled limited i parses quick =
      let deadline = (now w).0 + patience in
      let before = prompt.after_now w in
      let start = prompt.now_time w in
      let first = ap (λ k. k * round) four in
      let (w1, read, i1, t1) =
        read_exact-Filled 4 deadline 4 [] lb (packet ++ rest) (now w).1 (omega (arith, four))
          (omega (arith, four)) (stream.now_inbox w ∙ i)
          (omega (arith, first, before, start, quick)) in
      let (w2, came, i2, t2) =
        read_exact-Filled (length packet) deadline (length packet) [] packet rest w1 (omega arith)
          (omega arith) i1 (omega (arith, t1, first, before, start, quick)) in
      (
        w2,
        ap (λ o. settle net s (read_descriptor net deadline o)) read
            ∙ read_descriptor-connects deadline s lb packet d w1 w2 counted filled limited parses
                came,
        i2,
      )
