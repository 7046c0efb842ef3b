-- ===== src/Session/Admission.antt =====
-- What a paired client has to send before the controller answers it.
use open_cam.Prelude.{
  ℕ, ◌≡◌, refl, sym, ap, ◌∙◌, subst, ◌⊎◌, inl, inr, Bool, true, false, not, ◌||◌, ◌==◌,
  if◌then◌else◌, Bytes, Option, none, some, arith, Bool-cases, Option-cases,
}
use open_cam.Prelude.Int.{ℤ}
use open_cam.Control.Os.{Os, Stream}
use open_cam.Control.Evp.{Evp}
use open_cam.Control.Wire.{Frame, empty_frame, descriptor}
use open_cam.Control.Frames.{receive_frame}
use open_cam.Control.Frames.Keeps.{receive_frame-sent}
use open_cam.Prelude.{bind-eq_some}
use open_cam.Control.Keys.{hkdf_expand, server_to_client_kdf_info, client_to_server_kdf_info}
use open_cam.Control.Channel.{Channel, make_channel, unseal, receive}
use open_cam.Control.Channel.Sequence.{received_once, receive_outcome}
use open_cam.Descriptor.{DeviceDescriptor, Result, ok, err, parse_device_descriptor}
use open_cam.Endpoint.{is_allowed_rtsp_endpoint}
use open_cam.Endpoint.Shape.{IsMediaUrl, is_allowed_rtsp_endpoint_iff}
use open_cam.Host.{Host}
use open_cam.Session.{Ended, descriptor_timeout, admit, accept_descriptor, serve}

module _ (evp : Evp) (os : Os) (host : Host os) where
  open os use {World}

  -- An accepted frame is a descriptor that is parsed and announces a media URL of the peer.
  admit-eq_some :
      (client_ip : Bytes) (success : Bool) (frame : Frame) (device : DeviceDescriptor)
      → admit evp os host client_ip success frame ≡ some device
      → (success ≡ true)
        × (frame.type ≡ descriptor)
        × (parse_device_descriptor frame.payload ≡ ok device)
        × (is_allowed_rtsp_endpoint host.inet_pton device.rtsp_url client_ip ≡ true)
  unfolding admit
  admit-eq_some client_ip success frame device e =
      elim (Bool-cases (not success || not (frame.type == descriptor))) [
        | inl bad ↦ absurd (cc (rw bad at e))
        | inr good ↦ parsed good (parse_device_descriptor frame.payload) refl (rw good at e)
      ]
    where
      parsed :
          (not success || not (frame.type == descriptor)) ≡ false
          → (r : Result DeviceDescriptor) → parse_device_descriptor frame.payload ≡ r
          → elim r as (λ _. Option DeviceDescriptor) [
            | err _ ↦ none
            | ok d ↦
                if is_allowed_rtsp_endpoint host.inet_pton d.rtsp_url client_ip
                then some d
                else none
          ]
            ≡ some device
          → (success ≡ true)
            × (frame.type ≡ descriptor)
            × (parse_device_descriptor frame.payload ≡ ok device)
            × (is_allowed_rtsp_endpoint host.inet_pton device.rtsp_url client_ip ≡ true)
      parsed good (err x) p e = absurd (cc)
      parsed good (ok d) p e =
          elim (Bool-cases (is_allowed_rtsp_endpoint host.inet_pton d.rtsp_url client_ip)) [
            | inl yes' ↦ ground arith
            | inr no' ↦ absurd (ground arith)
          ]

  -- What an accepted descriptor was: the next frame of the client, opened with its key, with a
  -- descriptor that announces a media URL of the client's own address.
  pub record Admitted (fuel : ℕ) (client_ip : Bytes) (channel : Channel) (w : World)
      (device : DeviceDescriptor) (after : Channel) (w' : World) : Type 0 where
    pub wire : Frame
    pub text : Bytes
    pub came :
        receive_frame os fuel channel.fd empty_frame descriptor_timeout w ≡ some (true, wire, w')
    pub opened : unseal evp channel wire ≡ some text
    pub is_descriptor : wire.type ≡ descriptor
    pub parsed : parse_device_descriptor text ≡ ok device
    pub own_url : IsMediaUrl host.inet_pton device.rtsp_url client_ip
    pub counted : after ≡ received_once channel

  pub accept_descriptor-eq_some :
      (fuel : ℕ) (client_ip : Bytes) (channel : Channel) (w : World) (device : DeviceDescriptor)
      (after : Channel) (w' : World)
      → accept_descriptor evp os host fuel client_ip channel w ≡ some (some device, after, w')
      → Admitted fuel client_ip channel w device after w'
  unfolding accept_descriptor
  accept_descriptor-eq_some fuel client_ip channel w device after w' e =
      elim (Option-cases (receive evp os fuel channel empty_frame descriptor_timeout w)) [
        | inl stuck ↦ absurd (cc (rw (stuck, accept_descriptor) at e))
        | inr ((success, channel1, frame, w1), came) ↦
            let all : ◌≡◌ {A = Option (Option DeviceDescriptor × Channel × World)}
                (some (admit evp os host client_ip success frame, channel1, w1))
                (some (some device, after, w')) =
              rw (came, accept_descriptor) at e in
            let admitted : admit evp os host client_ip success frame ≡ some device = cc in
            let same_channel : channel1 ≡ after = cc in
            let same_world : w1 ≡ w' = cc in
            let (good, is_type, parsed, allowed) =
              admit-eq_some client_ip success frame device admitted in
            elim (receive_outcome evp os fuel channel empty_frame descriptor_timeout w success
              channel1 frame w1 came) [
                | inr (bad, _, _) ↦ absurd (cc)
                | inl (_, counted, (wire, from_wire, opened, type, _)) ↦ record {
                  wire = wire;
                  text = frame.payload;
                  came = from_wire ∙ ap (λ v. some (true, wire, v)) same_world;
                  opened = opened;
                  is_descriptor = sym type ∙ is_type;
                  parsed = parsed;
                  own_url =
                      (is_allowed_rtsp_endpoint_iff host.inet_pton device.rtsp_url client_ip).0
                        allowed;
                  counted = sym same_channel ∙ counted;
                }
              ]
      ]

  receive-sent :
      (fuel fd : ℕ) (stream : Stream os fd) (channel : Channel) (frame : Frame) (timeout : ℤ)
      (w : World) (success : Bool) (after : Channel) (frame' : Frame) (w' : World)
      → channel.fd ≡ fd
      → receive evp os fuel channel frame timeout w ≡ some (success, after, frame', w')
      → stream.sent w' ≡ stream.sent w
  unfolding receive
  receive-sent fuel fd stream channel frame timeout w success after frame' w' same e =
      elim (Option-cases (receive_frame os fuel channel.fd empty_frame timeout w)) [
        | inl stuck ↦ ground arith
        | inr ((got, wire, w1), came) ↦
            let came' = sym (ap (λ n. receive_frame os fuel n empty_frame timeout w) same) ∙ came in
            let kept =
              receive_frame-sent os fd stream fuel empty_frame timeout w got wire w1 came' in
            elim (Option-cases (unseal evp channel wire)) [
              | inl refused ↦ ground arith
              | inr (text, opened) ↦ ground arith
            ]
      ]

  accept_descriptor-sent :
      (fuel fd : ℕ) (stream : Stream os fd) (client_ip : Bytes) (channel : Channel) (w : World)
      (device : Option DeviceDescriptor) (after : Channel) (w' : World)
      → channel.fd ≡ fd
      → accept_descriptor evp os host fuel client_ip channel w ≡ some (device, after, w')
      → stream.sent w' ≡ stream.sent w
  unfolding accept_descriptor
  accept_descriptor-sent fuel fd stream client_ip channel w device after w' same e =
      elim (Option-cases (receive evp os fuel channel empty_frame descriptor_timeout w)) [
        | inl stuck ↦ absurd (cc (rw (stuck, accept_descriptor) at e))
        | inr ((success, channel1, frame, w1), came) ↦
            let kept =
              receive-sent fuel fd stream channel empty_frame descriptor_timeout w success channel1
                frame w1 same came in
            let all : ◌≡◌ {A = Option (Option DeviceDescriptor × Channel × World)}
                (some (admit evp os host client_ip success frame, channel1, w1))
                (some (device, after, w')) =
              rw (came, accept_descriptor) at e in
            let same_world : w1 ≡ w' = cc in
            subst (λ v. stream.sent v ≡ stream.sent w) same_world kept
      ]

  make_channel-fd :
      (fd : ℕ) (session_key : Bytes) (channel : Channel)
      → make_channel evp fd session_key true ≡ some channel
      → channel.fd ≡ fd
  unfolding make_channel
  make_channel-fd fd session_key channel e =
      let (send_key, _, e) =
        bind-eq_some (hkdf_expand evp session_key server_to_client_kdf_info) _ e in
      let (receive_key, _, e) =
        bind-eq_some (hkdf_expand evp session_key client_to_server_kdf_info) _ e in
      ground arith

  -- Nothing is sent to a paired client before it has sent a descriptor that is accepted: when the
  -- session is over, either nothing was sent since the authentication, or the first frame that the
  -- client sent on its channel was a valid descriptor with a media URL of its own address.
  pub serve-sent :
      (fuel fd : ℕ) (stream : Stream os fd) (client_ip session_key : Bytes) (w : World)
      (ended : Ended) (w' : World)
      → serve evp os host fuel fd client_ip session_key w ≡ some (ended, w')
      → (stream.sent w' ≡ stream.sent w)
        ⊎ ((channel : Channel) × (device : DeviceDescriptor) × (after : Channel) × (w1 : World)
            × (make_channel evp fd session_key true ≡ some channel)
            × Admitted fuel client_ip channel w device after w1)
  unfolding serve
  serve-sent fuel fd stream client_ip session_key w ended w' e =
      elim (Option-cases (make_channel evp fd session_key true)) [
        | inl failed ↦ inl (ground arith)
        | inr (channel, made) ↦
            let same = make_channel-fd fd session_key channel made in
            elim (Option-cases (accept_descriptor evp os host fuel client_ip channel w)) [
              | inl stuck ↦ absurd (ground arith)
              | inr ((none, channel1, w1), refused) ↦
                  let kept =
                    accept_descriptor-sent fuel fd stream client_ip channel w none channel1 w1 same
                      refused in
                  inl (ground arith)
              | inr ((some device, channel1, w1), accepted) ↦ inr (
                channel,
                device,
                channel1,
                w1,
                made,
                accept_descriptor-eq_some fuel client_ip channel w device channel1 w1 accepted,
              )
            ]
      ]
