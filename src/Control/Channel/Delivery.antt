-- ===== src/Control/Channel/Delivery.antt =====
-- Two channels of one session: what one seals the other opens, and what one sends the other
-- receives.
use open_cam.Prelude.{
  bind-eq_some, ℕ, suc, ◌+◌, ◌-◌, ◌≤◌, ◌≡◌, ◌≢◌, refl, sym, ap, ◌∙◌, inl, inr, Bool, true, false,
  not, ◌++◌, ◌==◌, ==_iff, ltb, if◌then◌else◌, Bytes, IsByte, All, length, take, drop, take-append,
  drop-append, length-append, some, arith, Bool-cases,
}
use open_cam.Prelude.Int.{ℤ}
use open_cam.Control.Os.{Os, Stream}
use open_cam.Control.Evp.{Evp}
use open_cam.Control.Wire.{
  FrameType, Frame, empty_frame, uint64_max, encrypted_overhead, gcm_tag_size, server_nonce_prefix,
  client_nonce_prefix, sequence_bytes, sequence_of_bytes, make_header, make_gcm_nonce,
}
use open_cam.Control.Wire.Headers.{length-sequence_bytes, sequence_of_bytes-sequence_bytes}
use open_cam.Control.Gcm.{encrypt_gcm, decrypt_gcm}
use open_cam.Control.Gcm.Law.{AesGcm, encrypt_gcm-eq_some, decrypt_gcm-tag}
use open_cam.Control.Frames.{receive_frame}
use open_cam.Control.Frames.Delivery.{receive_frame-send_frame}
use open_cam.Control.Channel.{Channel, seal, unseal, send, receive}
use open_cam.Control.Channel.Sequence.{sent_once, received_once, send_outcome}

-- The next frame that `a` sends is the one that `b` waits for.
pub record Matched (a b : Channel) : Type 0 where
  pub same_key : a.send_key ≡ b.receive_key
  pub same_sequence : a.send_sequence ≡ b.receive_sequence
  pub other_side : b.server_side ≡ not a.server_side
  pub in_uint64 : a.send_sequence ≤ uint64_max

abbrev prefix_of : Bool → Bytes
prefix_of server_side = if server_side then server_nonce_prefix else client_nonce_prefix

prefix-other_side :
    (s t : Bool)
    → t ≡ not s
    → (if t then client_nonce_prefix else server_nonce_prefix) ≡ prefix_of s
prefix-other_side true true e = absurd (cc)
prefix-other_side true false e = refl
prefix-other_side false true e = refl
prefix-other_side false false e = absurd (cc)

module _ (evp : Evp) (gcm : AesGcm evp) where
  open gcm use {stream, tag}

  -- What `seal` makes.
  seal-eq_some :
      (a : Channel) (type : FrameType) (payload wire : Bytes)
      → seal evp a type payload ≡ some wire
      → let sequence = sequence_bytes a.send_sequence in
        let nonce = make_gcm_nonce (prefix_of a.server_side) sequence in
        let header = make_header type (length sequence + (length payload + gcm_tag_size)) in
        let body = stream a.send_key nonce payload in
        wire ≡ sequence ++ (body ++ tag a.send_key nonce header body)
  unfolding seal
  seal-eq_some a type payload wire e =
      let sequence = sequence_bytes a.send_sequence in
      let nonce = make_gcm_nonce (prefix_of a.server_side) sequence in
      let header = make_header type (length sequence + (length payload + gcm_tag_size)) in
      let (out, made, rest) = bind-eq_some (encrypt_gcm evp a.send_key nonce header payload) _ e in
      let is_out = encrypt_gcm-eq_some evp gcm a.send_key nonce header payload out made in
      let is_wire : wire ≡ sequence ++ out = ground arith in
      is_wire ∙ ap (λ t. sequence ++ t) is_out

  -- A frame with the number that the channel waits for is opened with its three parts.
  unseal_parts :
      (b : Channel) (type : FrameType) (sequence body t : Bytes)
      → length sequence ≡ 8
      → length t ≡ 16
      → sequence_of_bytes 0 sequence ≡ b.receive_sequence
      → unseal evp b (record { type = type; payload = sequence ++ (body ++ t) })
        ≡ decrypt_gcm evp b.receive_key
            (make_gcm_nonce
              (if b.server_side then client_nonce_prefix else server_nonce_prefix)
              sequence)
            (make_header type (8 + (length body + 16)))
            body
            t
  unfolding unseal
  unseal_parts b type sequence body t h8 h16 number =
      let whole : length (sequence ++ (body ++ t)) ≡ 8 + (length body + 16) =
        omega (arith, length-append sequence (body ++ t), length-append body t, h8, h16) in
      let size : length (sequence ++ (body ++ t)) - 8 - 16 ≡ length body = omega (arith, whole) in
      let front : take 8 (sequence ++ (body ++ t)) ≡ sequence =
        ap (λ n. take n (sequence ++ (body ++ t))) (sym h8) ∙ take-append sequence (body ++ t) in
      let back : drop 8 (sequence ++ (body ++ t)) ≡ body ++ t =
        ap (λ n. drop n (sequence ++ (body ++ t))) (sym h8) ∙ drop-append sequence (body ++ t) in
      let equal = (==_iff (sequence_of_bytes 0 sequence) b.receive_sequence).1 number in
      rw (size, whole, front, back, take-append body t, drop-append body t, equal)

  -- What a channel seals, the channel that waits for its next frame opens to the same payload.
  pub unseal-seal :
      (a b : Channel) (type : FrameType) (payload wire : Bytes)
      → Matched a b
      → seal evp a type payload ≡ some wire
      → unseal evp b (record { type = type; payload = wire }) ≡ some payload
  unseal-seal a b type payload wire m e =
      let sequence = sequence_bytes a.send_sequence in
      let nonce = make_gcm_nonce (prefix_of a.server_side) sequence in
      let body = stream a.send_key nonce payload in
      let header = make_header type (length sequence + (length payload + gcm_tag_size)) in
      let t = tag a.send_key nonce header body in
      let long : length sequence ≡ 8 = length-sequence_bytes a.send_sequence in
      let same_size : length body ≡ length payload = gcm.length-stream a.send_key nonce payload in
      let number : sequence_of_bytes 0 sequence ≡ b.receive_sequence =
        sequence_of_bytes-sequence_bytes a.send_sequence (omega (arith, m.in_uint64))
        ∙ m.same_sequence in
      let same_header : make_header type (8 + (length body + 16)) ≡ header =
        ap (λ n. make_header type n) (omega (arith, long, same_size)) in
      ap (λ p. unseal evp b (record { type = type; payload = p }))
        (seal-eq_some a type payload wire e)
      ∙ unseal_parts b type sequence body t long (gcm.length-tag a.send_key nonce header body)
          number
      ∙ ap
          (λ p.
            decrypt_gcm evp b.receive_key (make_gcm_nonce p sequence)
              (make_header type (8 + (length body + 16))) body t)
          (prefix-other_side a.server_side b.server_side m.other_side)
      ∙ ap (λ h. decrypt_gcm evp b.receive_key nonce h body t) same_header
      ∙ ap (λ k. decrypt_gcm evp k nonce header body t) (sym m.same_key)
      ∙ decrypt_gcm-tag evp gcm a.send_key nonce header body
      ∙ ap some (gcm.stream_twice a.send_key nonce payload)

  length-seal :
      (a : Channel) (type : FrameType) (payload wire : Bytes)
      → seal evp a type payload ≡ some wire
      → length wire ≡ length payload + encrypted_overhead
  length-seal a type payload wire e =
      let sequence = sequence_bytes a.send_sequence in
      let nonce = make_gcm_nonce (prefix_of a.server_side) sequence in
      let body = stream a.send_key nonce payload in
      let header = make_header type (length sequence + (length payload + gcm_tag_size)) in
      let t = tag a.send_key nonce header body in
      omega (
        arith,
        ap length (seal-eq_some a type payload wire e),
        length-append sequence (body ++ t),
        length-append body t,
        length-sequence_bytes a.send_sequence,
        gcm.length-stream a.send_key nonce payload,
        gcm.length-tag a.send_key nonce header body,
      )

-- What is delivered when `b` receives: its outcome, and that the channels match as before.
abbrev pub Delivers :
    (evp : Evp) (os : Os) (stream : (fd : ℕ) → Stream os fd) (fuel : ℕ) (a b : Channel)
    (frame : Frame) (timeout : ℤ) (v v1 : os.World) (type : FrameType) (payload rest : Bytes)
    → Type 0
Delivers evp os stream fuel a b frame timeout v v1 type payload rest =
    (receive evp os fuel b frame timeout v
      ≡ some (true, received_once b, record { type = type; payload = payload }, v1))
    × Matched (sent_once a) (received_once b)
    × ((stream b.fd).inbox v1 ≡ rest)

-- Delivery, under the laws of the cipher and of the streams, for a stream of bytes: if `a` has sent
-- a payload, `b` waits for the next frame of `a` and finds it at the front of its stream, and the
-- transport gives `b` a frame, then `b` receives exactly that type and payload, the two channels
-- match again, and the rest of the stream is left.
pub receive-send :
    (evp : Evp) (gcm : AesGcm evp) (os : Os) (stream : (fd : ℕ) → Stream os fd) (fuel fuel' : ℕ)
    (a after b : Channel) (type : FrameType) (payload rest : Bytes) (timeout timeout' : ℤ)
    (w w' v v1 : os.World) (frame wire : Frame)
    → Matched a b
    → All IsByte ((stream b.fd).inbox v)
    → send evp os fuel a type payload timeout w ≡ some (true, after, w')
    → (stream a.fd).sent w ++ (stream b.fd).inbox v ≡ (stream a.fd).sent w' ++ rest
    → receive_frame os fuel' b.fd empty_frame timeout' v ≡ some (true, wire, v1)
    → Delivers evp os stream fuel' a b frame timeout' v v1 type payload rest
unfolding receive
receive-send evp gcm os stream fuel fuel' a after b type payload rest timeout timeout' w w' v v1
      frame wire m bytes sent linked came =
    elim (send_outcome evp os fuel a type payload timeout w true after w' sent) [
      | inr (no', _) ↦ absurd (cc)
      | inl (_, _, room, short, (packed, sealed, put)) ↦
          let (is_wire, left) =
            receive_frame-send_frame os a.fd b.fd (stream a.fd) (stream b.fd) fuel fuel' type packed
              timeout timeout' w w' v v1 empty_frame wire rest bytes put linked came in
          let opened = unseal-seal evp gcm a b type payload packed m sealed in
          let long = length-seal evp gcm a type payload packed sealed in
          let came' : receive_frame os fuel' b.fd empty_frame timeout' v
              ≡ some (true, record { type = type; payload = packed }, v1) =
            came ∙ ap (λ f. some (true, f, v1)) is_wire in
          let limit : (b.receive_sequence == uint64_max) ≡ false =
            other b.receive_sequence (λ e. room (m.same_sequence ∙ e)) in
          let enough : ltb (length packed) encrypted_overhead ≡ false = ground (arith, long) in
          (
            rw (limit, came', enough, opened),
            record {
              same_key = m.same_key;
              same_sequence = ap suc m.same_sequence;
              other_side = m.other_side;
              in_uint64 = below a.send_sequence m.in_uint64 room;
            },
            left,
          )
    ]
  where
    other : (n : ℕ) → n ≢ uint64_max → (n == uint64_max) ≡ false
    other n h = elim (Bool-cases (n == uint64_max)) [
      | inl e ↦ absurd (h ((==_iff n uint64_max).0 e))
      | inr e ↦ e
    ]

    below : (n : ℕ) → n ≤ uint64_max → n ≢ uint64_max → suc n ≤ uint64_max
    below n h e = ground arith
