-- ===== src/Control/Channel/Sequence.antt =====
-- The sequence numbers of a channel: what a call does to them on every outcome, and that a frame
-- is accepted at most once.
use open_cam.Prelude.{
  ℕ, suc, ◌+◌, ◌≤◌, ◌<◌, ◌≡◌, ◌≢◌, sym, ap, ◌∙◌, ◌⊎◌, inl, inr, Bool, true, false, not, ◌||◌, ◌++◌,
  ◌==◌, ==_iff, ltb, Bytes, IsByte, All, length, take, length-append, some, arith, Bool-cases,
  Option-cases,
}
use open_cam.Prelude.Int.{ℤ}
use open_cam.Control.Os.{Os, Stream}
use open_cam.Control.Evp.{Evp}
use open_cam.Control.Wire.{
  FrameType, Frame, empty_frame, uint64_max, max_payload, encrypted_overhead, sequence_size,
  sequence_of_bytes,
}
use open_cam.Control.Frames.{send_frame, receive_frame}
use open_cam.Control.Frames.Delivery.{
  append_injective, frame_bytes, frame_bytes_injective, receive_frame-received,
}
use open_cam.Control.Channel.{Channel, seal, unseal, send, receive}

-- What a successful or failed call may do to the channel.
abbrev pub sent_once : Channel → Channel
sent_once c = record c { send_sequence = suc c.send_sequence }

abbrev pub received_once : Channel → Channel
received_once c = record c { receive_sequence = suc c.receive_sequence }

module _ (evp : Evp) (os : Os) where
  open os use {World}

  -- Every outcome of `send`: on success the channel only counts one more sent frame and the frame
  -- sent was the sealed payload; on failure the channel is unchanged.
  pub send_outcome :
      (fuel : ℕ) (channel : Channel) (type : FrameType) (payload : Bytes) (timeout : ℤ) (w : World)
      (success : Bool) (after : Channel) (w' : World)
      → send evp os fuel channel type payload timeout w ≡ some (success, after, w')
      → ((success ≡ true)
          × (after ≡ sent_once channel)
          × (channel.send_sequence ≢ uint64_max)
          × (length payload + encrypted_overhead ≤ max_payload)
          × ((wire : Bytes) × (seal evp channel type payload ≡ some wire)
              × (send_frame os fuel channel.fd type wire timeout w ≡ some (true, w'))))
        ⊎ ((success ≡ false) × (after ≡ channel))
  unfolding send
  send_outcome fuel channel type payload timeout w success after w' e =
      elim (Bool-cases (channel.send_sequence == uint64_max)) [
        | inl full ↦ inr (ground arith)
        | inr room ↦ elim (Bool-cases (ltb max_payload (length payload + encrypted_overhead))) [
          | inl long ↦ inr (ground arith)
          | inr short ↦ elim (Option-cases (seal evp channel type payload)) [
            | inl failed ↦ inr (ground arith)
            | inr (wire, sealed) ↦
                elim (Option-cases (send_frame os fuel channel.fd type wire timeout w)) [
                  | inl stuck ↦ absurd (ground arith)
                  | inr ((false, w1), unsent) ↦ inr (ground arith)
                  | inr ((true, w1), sent) ↦ inl (
                    ground arith,
                    ground arith,
                    ground arith,
                    ground arith,
                    (wire, sealed, ground arith),
                  )
                ]
          ]
        ]
      ]

  pub unseal-sequence :
      (channel : Channel) (wire : Frame) (text : Bytes)
      → unseal evp channel wire ≡ some text
      → sequence_of_bytes 0 (take sequence_size wire.payload) ≡ channel.receive_sequence
  unfolding unseal
  unseal-sequence channel wire text e =
      let n = sequence_of_bytes 0 (take sequence_size wire.payload) in
      elim (Bool-cases (n == channel.receive_sequence)) [
        | inl same ↦ (==_iff n channel.receive_sequence).0 same
        | inr other ↦ absurd (cc (rw (other, unseal) at e))
      ]

  -- Every outcome of `receive`: on success the channel only counts one more received frame, whose
  -- number it was waiting for, and the caller's frame is the type and the text of the frame from
  -- the wire; on failure the channel and the caller's frame are unchanged.
  pub receive_outcome :
      (fuel : ℕ) (channel : Channel) (frame : Frame) (timeout : ℤ) (w : World) (success : Bool)
      (after : Channel) (frame' : Frame) (w' : World)
      → receive evp os fuel channel frame timeout w ≡ some (success, after, frame', w')
      → ((success ≡ true)
          × (after ≡ received_once channel)
          × ((wire : Frame) × (receive_frame os fuel channel.fd empty_frame timeout w
                ≡ some (true, wire, w'))
              × (unseal evp channel wire ≡ some frame'.payload)
              × (frame'.type ≡ wire.type)
              × (sequence_of_bytes 0 (take sequence_size wire.payload) ≡ channel.receive_sequence)))
        ⊎ ((success ≡ false) × (after ≡ channel) × (frame' ≡ frame))
  unfolding receive
  receive_outcome fuel channel frame timeout w success after frame' w' e =
      elim (Bool-cases (channel.receive_sequence == uint64_max)) [
        | inl full ↦ inr (ground arith)
        | inr room ↦ elim (Option-cases (receive_frame os fuel channel.fd empty_frame timeout w)) [
          | inl stuck ↦ absurd (ground arith)
          | inr ((got, wire, w1), came) ↦
              elim (Bool-cases (not got || ltb (length wire.payload) encrypted_overhead)) [
                | inl bad ↦ inr (ground arith)
                | inr fine ↦ elim (Option-cases (unseal evp channel wire)) [
                  | inl refused ↦ inr (ground arith)
                  | inr (text, opened) ↦ inl (
                    ground arith,
                    ground arith,
                    (
                      wire,
                      ground arith,
                      ground arith,
                      ground arith,
                      unseal-sequence channel wire text opened,
                    ),
                  )
                ]
              ]
        ]
      ]

  -- A replay is refused: where a channel has accepted a frame from a stream of bytes, a call that
  -- returns on any channel that counts further refuses the same bytes at the front of its stream of
  -- bytes, and leaves the channel and the caller's frame unchanged.
  pub receive-replayed :
      (fuel fuel' : ℕ) (channel later accepted refused : Channel) (f f' g g' : Frame)
      (timeout timeout' : ℤ) (w w' v v' : World) (success : Bool) (stream : Stream os channel.fd)
      (stream' : Stream os later.fd) (taken rest : Bytes)
      → receive evp os fuel channel f timeout w ≡ some (true, accepted, f', w')
      → All IsByte (stream.inbox w)
      → All IsByte (stream'.inbox v)
      → stream.inbox w ≡ taken ++ stream.inbox w'
      → stream'.inbox v ≡ taken ++ rest
      → channel.receive_sequence < later.receive_sequence
      → receive evp os fuel' later g timeout' v ≡ some (success, refused, g', v')
      → (success ≡ false) × (refused ≡ later) × (g' ≡ g)
  receive-replayed fuel fuel' channel later accepted refused f f' g g' timeout timeout' w w' v v'
        success stream stream' taken rest first bytes bytes' front front' more second =
      elim (receive_outcome fuel channel f timeout w true accepted f' w' first) [
        | inr (no', _, _) ↦ absurd (cc)
        | inl (_, _, (wire, came, opened, _, number)) ↦
            elim (receive_outcome fuel' later g timeout' v success refused g' v' second) [
              | inr failed ↦ failed
              | inl (_, _, (wire', came', opened', _, number')) ↦
                  let (whole, fits) =
                    receive_frame-received os channel.fd stream fuel empty_frame timeout w wire w'
                      bytes came in
                  let (whole', fits') =
                    receive_frame-received os later.fd stream' fuel' empty_frame timeout' v wire' v'
                      bytes' came' in
                  let same =
                    taken_frame taken (frame_bytes wire.type wire.payload) (stream.inbox w')
                      (sym front ∙ whole) in
                  let (t, p, r) =
                    frame_bytes_injective wire.type wire'.type wire.payload wire'.payload rest
                      (stream'.inbox v') fits fits'
                      (ap (λ b. b ++ rest) (sym same) ∙ sym front' ∙ whole') in
                  absurd (
                    omega (
                      arith,
                      number,
                      number',
                      more,
                      ap (λ b. sequence_of_bytes 0 (take sequence_size b)) p,
                    ))
            ]
      ]
    where
      taken_frame : (a b c : Bytes) → a ++ c ≡ b ++ c → a ≡ b
      taken_frame a b c e =
          (append_injective a b c c
            (omega (arith, ap length e, length-append a c, length-append b c)) e).0
