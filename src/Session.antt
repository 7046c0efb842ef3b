-- ===== src/Session.antt =====
-- The session with one client: `handleClient` of linux/src/main.cpp. A loop and a call that loops
-- take fuel, and `none` means that it ran out.
pub mod Authentication
pub mod Admission
pub mod MediaUrl
pub mod Examples
use Prim.Native.Nat.{bit_and, bit_or}
use open_cam.Prelude.{
  ℕ, zero, suc, ◌+◌, Bool, true, false, not, ◌||◌, List, [], ◌∷◌, ◌++◌, Option, none, some, ◌==◌,
  leb, if◌then◌else◌, Bytes, codes, length, take, drop,
}
use open_cam.Prelude.Int.{ℤ, pos}
use open_cam.Control.Os.{Os, Errno, eintr, PollAnswer, ready, timed_out, poll_failed}
use open_cam.Control.Evp.{Evp}
use open_cam.Control.Wire.{
  Frame, empty_frame, nonce_size, server_hello, client_auth, server_auth, descriptor, activation,
  error_report,
}
use open_cam.Control.Transfer.{pollin, pollerr, pollhup}
use open_cam.Control.Frames.{send_frame, receive_frame}
use open_cam.Control.Keys.{
  make_proof, derive_session_key, derive_media_password, constant_time_equal,
}
use open_cam.Control.Channel.{Channel, make_channel, send, receive}
use open_cam.Descriptor.{DeviceDescriptor, Result, ok, err, parse_device_descriptor}
use open_cam.Endpoint.{is_allowed_rtsp_endpoint}
use open_cam.StreamOptions.{default_options, build_activation_packet}
use open_cam.Host.{Host, PipelineState, failed, stopped}

abbrev pub handshake_timeout : ℤ
handshake_timeout = pos 5000

abbrev pub descriptor_timeout : ℤ
descriptor_timeout = pos 30000

abbrev pub client_domain : Bytes
client_domain = codes "OpenCam client proof v2"

abbrev pub server_domain : Bytes
server_domain = codes "OpenCam server proof v2"

-- `pollfd::revents` with POLLNVAL
abbrev pub pollnval : ℕ
pollnval = 32

-- `"rtsp://opencam:" + mediaPassword + "@" + descriptor.rtspUrl.substr(7)`
unfoldable pub authenticated_rtsp_url : Bytes → Bytes → Bytes
authenticated_rtsp_url media_password rtsp_url =
    codes "rtsp://opencam:" ++ (media_password ++ (codes "@" ++ drop 7 rtsp_url))

-- How `handleClient` ends: it returns, or the channel's constructor throws.
pub data Ended : Type 0 where
  returned : Bool → Ended
  threw : Ended

module _ (evp : Evp) (os : Os) (host : Host os) where
  open os use {World, now, poll}

  -- From the second proof on: the session key, `none` where `handleClient` returns.
  unfoldable pub confirm : ℕ → ℕ → Bytes → ℕ → Bytes → Bytes → World → Option (Option Bytes × World)
  confirm fuel fd secret expires server_nonce client_nonce w =
      let (time, w1) = now w in
      if leb expires time
      then some (none, w1)
      else elim (make_proof evp secret server_domain server_nonce client_nonce) [
        | none ↦ some (none, w1)
        | some server_proof ↦ elim (derive_session_key evp secret server_nonce client_nonce) [
          | none ↦ some (none, w1)
          | some session_key ↦
              elim (send_frame os fuel fd server_auth server_proof handshake_timeout w1) [
                | none ↦ none
                | some (false, w2) ↦ some (none, w2)
                | some (true, w2) ↦ some (some session_key, w2)
              ]
        ]
      ]

  -- The check of the client's frame.
  unfoldable pub is_client_proof : Bytes → Bytes → Frame → Bool
  is_client_proof secret server_nonce frame =
      if not (frame.type == client_auth) || not (length frame.payload == 64)
      then false
      else elim (make_proof evp secret client_domain server_nonce (take nonce_size frame.payload)) [
        | none ↦ false
        | some expected ↦ constant_time_equal expected (take 32 (drop nonce_size frame.payload))
      ]

  -- Up to `authenticated = true`.
  unfoldable pub authenticate : ℕ → ℕ → Bytes → ℕ → World → Option (Option Bytes × World)
  authenticate fuel fd secret expires w =
      let (drawn, w1) = host.random w in
      elim drawn [
        | none ↦ some (none, w1)
        | some server_nonce ↦
            elim (send_frame os fuel fd server_hello server_nonce handshake_timeout w1) [
              | none ↦ none
              | some (false, w2) ↦ some (none, w2)
              | some (true, w2) ↦ elim (receive_frame os fuel fd empty_frame handshake_timeout w2) [
                | none ↦ none
                | some (success, frame, w3) ↦
                    if not success || not (is_client_proof secret server_nonce frame)
                    then some (none, w3)
                    else confirm fuel fd secret expires server_nonce (take nonce_size frame.payload)
                        w3
              ]
            ]
      ]

  -- The test of the frame with the descriptor: the descriptor, where it is accepted.
  unfoldable pub admit : Bytes → Bool → Frame → Option DeviceDescriptor
  admit client_ip success frame =
      if not success || not (frame.type == descriptor)
      then none
      else elim (parse_device_descriptor frame.payload) [
        | err _ ↦ none
        | ok device ↦
            if is_allowed_rtsp_endpoint host.inet_pton device.rtsp_url client_ip
            then some device
            else none
      ]

  unfoldable pub accept_descriptor :
      ℕ → Bytes → Channel → World → Option (Option DeviceDescriptor × Channel × World)
  accept_descriptor fuel client_ip channel w =
      elim (receive evp os fuel channel empty_frame descriptor_timeout w) [
        | none ↦ none
        | some (success, channel1, frame, w1) ↦ some (admit client_ip success frame, channel1, w1)
      ]

  -- The loop while the media pipeline runs.
  unfoldable pub watch : ℕ → ℕ → Channel → World → Option World
  watch zero fd channel w = none
  watch (suc fuel) fd channel w =
      let (state, w1) = host.pipeline_state w in
      elim state [
        | failed ↦ some w1
        | stopped ↦ some w1
        | _ ↦
            let (answer, w2) = poll fd pollin (pos 250) w1 in
            elim answer [
              | poll_failed eintr ↦ watch fuel fd channel w2
              | poll_failed _ ↦ some w2
              | timed_out ↦ watch fuel fd channel w2
              | ready revents ↦
                  if not (bit_and revents (bit_or pollerr (bit_or pollhup pollnval)) == 0)
                  then some w2
                  else elim (receive evp os fuel channel empty_frame (pos 2000) w2) [
                    | none ↦ none
                    | some (success, channel1, incoming, w3) ↦
                        if not success || not (incoming.type == error_report)
                        then some w3
                        else watch fuel fd channel1 w3
                  ]
            ]
      ]

  -- After the activation: readiness, the pipeline, its loop and its stop.
  unfoldable pub stream_media : ℕ → ℕ → Bytes → Bytes → Channel → World → Option (Bool × World)
  stream_media fuel fd url camera channel w =
      let (is_ready, w1) = host.wait_for_rtsp url w in
      let (is_started, w2) = host.pipeline_start url camera w1 in
      if not is_ready
      then some (false, w1)
      else if not is_started
      then some (false, w2)
      else elim (watch fuel fd channel w2) [
        | none ↦ none
        | some w3 ↦ some (true, host.pipeline_stop w3)
      ]

  unfoldable pub activate :
      ℕ → ℕ → Bytes → DeviceDescriptor → Channel → World → Option (Bool × World)
  activate fuel fd session_key device channel w =
      let media_password = derive_media_password evp session_key in
      if not (length media_password == 64)
      then some (false, w)
      else let url = authenticated_rtsp_url media_password device.rtsp_url in
        let (virtual_camera, w1) = host.find_device w in
        elim virtual_camera [
          | [] ↦ some (false, w1)
          | b ∷ camera ↦
              elim (send evp os fuel channel activation (build_activation_packet default_options)
                handshake_timeout w1) [
                  | none ↦ none
                  | some (false, _, w2) ↦ some (false, w2)
                  | some (true, channel1, w2) ↦ stream_media fuel fd url (b ∷ camera) channel1 w2
                ]
        ]

  -- After `authenticated = true`.
  unfoldable pub serve : ℕ → ℕ → Bytes → Bytes → World → Option (Ended × World)
  serve fuel fd client_ip session_key w = elim (make_channel evp fd session_key true) [
    | none ↦ some (threw, w)
    | some channel ↦ elim (accept_descriptor fuel client_ip channel w) [
      | none ↦ none
      | some (none, channel1, w1) ↦ some (returned false, w1)
      | some (some device, channel1, w1) ↦ elim (activate fuel fd session_key device channel1 w1) [
        | none ↦ none
        | some (result, w2) ↦ some (returned result, w2)
      ]
    ]
  ]

  -- `handleClient`, with the value it leaves in `authenticated`.
  unfoldable pub handle_client : ℕ → ℕ → Bytes → Bytes → ℕ → World → Option (Ended × Bool × World)
  handle_client fuel fd client_ip secret expires w = elim (authenticate fuel fd secret expires w) [
    | none ↦ none
    | some (none, w1) ↦ some (returned false, false, w1)
    | some (some session_key, w1) ↦ elim (serve fuel fd client_ip session_key w1) [
      | none ↦ none
      | some (ended, w2) ↦ some (ended, true, w2)
    ]
  ]
