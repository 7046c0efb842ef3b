-- ===== src/Windows/Accept/Received.antt =====
-- The bytes behind what `readExact` and the handler of an accepted socket give: the handler always
-- ends, and only a well-formed frame connects a device.
use open_cam.Prelude.{
  ℕ, zero, suc, ◌+◌, ◌-◌, ◌/◌, ◌≤◌, ◌<◌, ◌||◌, ◌≡◌, refl, sym, ap, subst, ◌∙◌, inl, inr, [], ◌∷◌,
  ◌++◌, append_assoc, append-nil, Option, none, some, ltb, leb, ◌==◌, Bytes, length, length-append,
  Bool-cases, Option-cases, le→ltb, arith,
}
use open_cam.Windows.Reader.{Result, ok, incomplete, rejected, max_message}
use open_cam.Windows.Descriptor.{DeviceDescriptor, deserialize_device_descriptor}
use open_cam.Windows.Devices.{Devices, connect}
use open_cam.Windows.Accept.{
  Sockets, Stream, frame_length, patience, descriptor_of, parse_received, settle, read_exact,
  read_descriptor, receive_descriptor, on_accept,
}

module _ (net : Sockets) (stream : Stream net) where
  open net use {World, now, select, read_some, close}
  open stream use {inbox}

  -- What `readExact` gives: as many bytes as asked for, off the front of the stream, or an
  -- exception.
  pub data Reads (size : ℕ) (got : Bytes) (w : World) : Option (Option Bytes × World) → Type 0 where
    fills :
        (more all : Bytes) (w' : World)
        → all ≡ got ++ more
        → length all ≡ size
        → inbox w ≡ more ++ inbox w'
        → Reads size got w (some (some all, w'))
    fails : (w' : World) → Reads size got w (some (none, w'))

  Reads-later :
      (size : ℕ) (got bytes : Bytes) (w w3 : World) (o : Option (Option Bytes × World))
      → inbox w ≡ bytes ++ inbox w3
      → Reads size (got ++ bytes) w3 o
      → Reads size got w o
  Reads-later size got bytes w w3 _ e (fills more all w' whole full i) =
      fills (bytes ++ more) all w' (whole ∙ append_assoc got bytes more) full
        (e ∙ ap (λ s. bytes ++ s) i ∙ sym (append_assoc bytes more (inbox w')))
  Reads-later size got bytes w w3 _ e (fails w') = fails w'

  inbox-select : (timeout : ℕ) (w : World) → inbox (select timeout (now w).1).1 ≡ inbox w
  inbox-select timeout w = stream.select_inbox timeout (now w).1 ∙ stream.now_inbox w

  pub read_exact-Reads :
      (fuel deadline size : ℕ) (got : Bytes) (w : World)
      → length got ≤ size
      → size ≤ fuel + length got
      → Reads size got w (read_exact net fuel deadline size got w)
  unfolding read_exact
  read_exact-Reads zero deadline size got w within enough =
      rw (le→ltb (length got) size (omega arith))
        (fills [] got w (sym (append-nil got)) (omega arith) refl)
  read_exact-Reads (suc fuel) deadline size got w within enough =
      let time = (now w).0 in
      let remaining = (deadline - time) / 1000 in
      let w2 = (select remaining (now w).1).1 in
      elim (Bool-cases (ltb (length got) size)) [
        | inr full ↦
            rw (read_exact, full) (fills [] got w (sym (append-nil got)) (ground arith) refl)
        | inl short ↦ elim (Bool-cases (leb deadline time)) [
          | inl late ↦ rw (read_exact, short, late) (fails (now w).1)
          | inr early ↦ elim (Bool-cases (select remaining (now w).1).0) [
            | inr silent ↦ rw (read_exact, short, early, silent) (fails w2)
            | inl readable ↦ elim (Option-cases (read_some (size - length got) w2).0) [
              | inl broken ↦
                  rw (read_exact, short, early, readable, broken)
                    (fails (read_some (size - length got) w2).1)
              | inr ([], ended) ↦
                  rw (read_exact, short, early, readable, ended)
                    (fails (read_some (size - length got) w2).1)
              | inr (b ∷ bs, came) ↦
                  let (fits, front) = stream.read_some_got (size - length got) w2 (b ∷ bs) came in
                  rw (read_exact, short, early, readable, came)
                    (Reads-later size got (b ∷ bs) w (read_some (size - length got) w2).1 _
                      (sym (inbox-select remaining w) ∙ front)
                      (read_exact-Reads fuel deadline size (got ++ b ∷ bs)
                        (read_some (size - length got) w2).1
                        (omega (arith, length-append got (b ∷ bs)))
                        (omega (arith, length-append got (b ∷ bs)))))
            ]
          ]
        ]
      ]

  -- What the handler makes of the bytes behind the length.
  data Parses (n : ℕ) (w : World) : Option (Option DeviceDescriptor × World) → Type 0 where
    parses :
        (packet : Bytes) (d : DeviceDescriptor) (w' : World)
        → n ≡ length packet
        → inbox w ≡ packet ++ inbox w'
        → deserialize_device_descriptor packet ≡ ok d
        → Parses n w (some (some d, w'))
    unparsed : (w' : World) → Parses n w (some (none, w'))

  -- A frame at the front of the stream: four bytes for a length, and as many bytes as they say, of
  -- which the parser makes a descriptor.
  pub record IsFrame (w : World) (length_bytes packet : Bytes) (d : DeviceDescriptor) (w' : World)
      : Type 0 where
    pub four : length length_bytes ≡ 4
    pub counted : frame_length length_bytes ≡ length packet
    pub not_empty : 0 < length packet
    pub limited : length packet ≤ max_message
    pub in_front : inbox w ≡ length_bytes ++ (packet ++ inbox w')
    pub parses : deserialize_device_descriptor packet ≡ ok d

  descriptor_of-Parses :
      (r : Result DeviceDescriptor) (packet : Bytes) (w w' : World)
      → inbox w ≡ packet ++ inbox w'
      → deserialize_device_descriptor packet ≡ r
      → Parses (length packet) w (some (descriptor_of r, w'))
  descriptor_of-Parses (ok d) packet w w' i e = parses packet d w' refl i e
  descriptor_of-Parses incomplete packet w w' i e = unparsed w'
  descriptor_of-Parses (rejected reason) packet w w' i e = unparsed w'

  parse_received-Parses :
      (n : ℕ) (w : World) (o : Option (Option Bytes × World))
      → Reads n [] w o
      → Parses n w (parse_received net o)
  parse_received-Parses n w _ (fills more all w' whole full i) =
      subst (λ k. Parses k w (parse_received net (some (some all, w')))) full
        (descriptor_of-Parses (deserialize_device_descriptor all) all w w'
          (i ∙ ap (λ s. s ++ inbox w') (sym whole)) refl)
  parse_received-Parses n w _ (fails w') = unparsed w'

  -- What the handler does: it connects the device of the frame that it took off the stream, or
  -- closes the socket and leaves the devices as they were.
  pub data Accepts (s : Devices) (w : World) : Option (Devices × World) → Type 0 where
    accepts :
        (length_bytes packet : Bytes) (d : DeviceDescriptor) (w' : World)
        → IsFrame w length_bytes packet d w'
        → Accepts s w (some (connect d s, w'))
    refuses : (w' : World) → Accepts s w (some (s, close w'))

  settle-Accepts :
      (s : Devices) (w w1 : World) (length_bytes : Bytes)
      (o : Option (Option DeviceDescriptor × World))
      → length length_bytes ≡ 4
      → 0 < frame_length length_bytes
      → frame_length length_bytes ≤ max_message
      → inbox w ≡ length_bytes ++ inbox w1
      → Parses (frame_length length_bytes) w1 o
      → Accepts s w (settle net s o)
  settle-Accepts s w w1 lb _ four positive limited i (parses packet d w' n i' e) =
      accepts lb packet d w' (record {
        four = four;
        counted = n;
        not_empty = omega (arith, n, positive);
        limited = omega (arith, n, limited);
        in_front = i ∙ ap (λ s. lb ++ s) i';
        parses = e;
      })
  settle-Accepts s w w1 lb _ four positive limited i (unparsed w') = refuses w'

  read_descriptor-Accepts :
      (deadline : ℕ) (s : Devices) (w : World) (o : Option (Option Bytes × World))
      → Reads 4 [] w o
      → Accepts s w (settle net s (read_descriptor net deadline o))
  unfolding read_descriptor
  read_descriptor-Accepts deadline s w _ (fills more all w' whole full i) =
      let n = frame_length all in
      elim (Bool-cases (n == 0 || ltb max_message n)) [
        | inl bad ↦ rw bad (refuses w')
        | inr good ↦ rw good (
            settle-Accepts s w w' all _ full (ground arith) (ground arith)
              (i ∙ ap (λ s. s ++ inbox w') (sym whole))
              (parse_received-Parses n w' _
                (read_exact-Reads n deadline n [] w' (omega arith) (omega arith))))
      ]
  read_descriptor-Accepts deadline s w _ (fails w') = refuses w'

  Accepts-now :
      (s : Devices) (w : World) (o : Option (Devices × World))
      → Accepts s (now w).1 o
      → Accepts s w o
  Accepts-now s w _ (accepts lb packet d w' f) = accepts lb packet d w' (record {
    four = f.four;
    counted = f.counted;
    not_empty = f.not_empty;
    limited = f.limited;
    in_front = sym (stream.now_inbox w) ∙ f.in_front;
    parses = f.parses;
  })
  Accepts-now s w _ (refuses w') = refuses w'

  -- The handler of an accepted socket always ends, whatever the socket and the clock answer. It has
  -- taken a frame off the front of the stream, of at most 64 KiB and with the descriptor of the
  -- device that it connects, or it has closed the socket and connected nothing.
  pub on_accept-Accepts : (s : Devices) (w : World) → Accepts s w (on_accept net s w)
  unfolding on_accept receive_descriptor
  on_accept-Accepts s w =
      let deadline = (now w).0 + patience in
      Accepts-now s w _ (
        read_descriptor-Accepts deadline s (now w).1 _
          (read_exact-Reads 4 deadline 4 [] (now w).1 (omega arith) (omega arith)))
