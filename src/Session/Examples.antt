-- ===== src/Session/Examples.antt =====
-- Runs of a session and of a pairing round on a small machine, and instances of the theorems.
use open_cam.Prelude.{
  ℕ, ◌≡◌, refl, ◌⊎◌, true, [], ◌∷◌, ◌++◌, Bytes, codes, equal_bytes, replicate, Option, none, some,
  arith,
}
use open_cam.Strings.{find_first, rfind, starts_with, c_str}
use open_cam.Control.Examples.{Machine, small_os, small_stream, small_evp}
use open_cam.Control.Hex.{encode_hex}
use open_cam.Control.Wire.{
  sequence_loop, sequence_bytes, sequence_of_bytes, make_header, make_gcm_nonce, read_header,
}
use open_cam.Control.Transfer.{deadline_for, remaining_time, wait_for, move, transfer}
use open_cam.Control.Frames.{send_parts, send_frame, receive_payload, receive_frame}
use open_cam.Control.Frames.Delivery.{frame_bytes}
use open_cam.Control.Keys.{
  hmac, hkdf_expand, hkdf_extract_and_expand, derive_session_key, derive_media_password, make_proof,
  constant_time_equal,
}
use open_cam.Control.Gcm.{encrypt_gcm, decrypt_gcm}
use open_cam.Control.Channel.{Channel, make_channel, seal, unseal, send, receive}
use open_cam.Descriptor.{
  DeviceDescriptor, read_uint16, has_control, string_of_length, read_string, read_resolution,
  resolution_loop, read_resolutions, read_category, filter_loop, read_filters,
  parse_device_descriptor,
}
use open_cam.Descriptor.Utf8.{is_valid_utf8}
use open_cam.Endpoint.{is_allowed_rtsp_endpoint, is_allowed_after_scheme, is_allowed_host, all_hex}
use open_cam.StreamOptions.{build_activation_packet}
use open_cam.Host.{Host, Quiet, stopped, connected}
use open_cam.Session.{
  Ended, returned, client_domain, server_domain, confirm, is_client_proof, authenticate, admit,
  accept_descriptor, stream_media, activate, serve, watch, authenticated_rtsp_url,
}
use open_cam.Session.Authentication.{Authenticated, authenticate-eq_some, authenticate-wire}
use open_cam.Endpoint.Shape.{IsToken, IsMediaUrl, is_allowed_rtsp_endpoint_iff}
use open_cam.Session.MediaUrl.{endpoint_of, authenticated_rtsp_url-allowed}
use open_cam.Session.Admission.{Admitted, serve-sent}

abbrev pub nonce : Bytes
nonce = replicate 32 9

abbrev pub peer : Bytes
peer = codes "10.0.0.2"

-- A host whose devices work, whose random bytes are all 9, and whose media worker stops at once.
abbrev pub small_host : Host small_os
small_host = record {
  random = λ w. (some nonce, w);
  inet_pton = λ text. true;
  find_device = λ w. (codes "/dev/video0", w);
  wait_for_rtsp = λ url w. (true, w);
  pipeline_start = λ url camera w. (true, w);
  pipeline_state = λ w. (stopped, w);
  pipeline_stop = λ w. w;
  display_qr = λ payload w. (true, w);
  accept = λ fd w. (connected 4 peer, w);
  close = λ fd w. w;
}

small-Quiet : (fd : ℕ) → Quiet small_os small_host fd (small_stream fd)
small-Quiet fd = record { random_sent = λ w. refl; random_inbox = λ w. refl }

-- The client's answer: its nonce and its proof.
abbrev pub answer : Bytes
answer = 79 ∷ 67 ∷ 65 ∷ 77 ∷ 2 ∷ 2 ∷ 0 ∷ 0 ∷ 0 ∷ 64 ∷ (replicate 32 3 ++ replicate 32 87)

abbrev pub asked : Machine
asked = record { time = 0; sent = []; inbox = answer }

abbrev session_key : Bytes
session_key = replicate 32 26

abbrev paired : Machine
paired = record {
  time = 10;
  sent =
      (79 ∷ 67 ∷ 65 ∷ 77 ∷ 2 ∷ 1 ∷ 0 ∷ 0 ∷ 0 ∷ 32 ∷ replicate 32 9)
      ++ (79 ∷ 67 ∷ 65 ∷ 77 ∷ 2 ∷ 3 ∷ 0 ∷ 0 ∷ 0 ∷ 32 ∷ replicate 32 87);
  inbox = [];
}

authenticate-eq_some_example :
    Authenticated small_evp small_os small_host 10 4 nonce 100 session_key asked paired
unfolding authenticate is_client_proof confirm make_proof hmac derive_session_key
    hkdf_extract_and_expand constant_time_equal equal_bytes send_frame send_parts receive_frame
    receive_payload transfer wait_for remaining_time move deadline_for make_header read_header
authenticate-eq_some_example =
    authenticate-eq_some small_evp small_os small_host 10 4 nonce 100 session_key asked paired refl

authenticate-wire_example :
    (server_nonce : Bytes) × (client_nonce : Bytes) × (client_proof : Bytes)
    × (server_proof : Bytes) × ((small_host.random asked).0 ≡ some server_nonce)
    × (make_proof small_evp nonce client_domain server_nonce client_nonce ≡ some client_proof)
    × (make_proof small_evp nonce server_domain server_nonce client_nonce ≡ some server_proof)
    × (derive_session_key small_evp nonce server_nonce client_nonce ≡ some session_key)
    × (paired.sent ≡ ([] ++ frame_bytes 1 server_nonce) ++ frame_bytes 3 server_proof)
    × (asked.inbox ≡ frame_bytes 2 (client_nonce ++ client_proof) ++ [])
unfolding authenticate is_client_proof confirm make_proof hmac derive_session_key
    hkdf_extract_and_expand constant_time_equal equal_bytes send_frame send_parts receive_frame
    receive_payload transfer wait_for remaining_time move deadline_for make_header read_header
authenticate-wire_example =
    authenticate-wire small_evp small_os small_host 10 4 (small_stream 4) nonce 100 session_key
      asked paired (small-Quiet 4) (ground arith) refl

-- A descriptor without resolutions and filters, sealed by the client.
abbrev described : Bytes
described =
    0
    ∷ 1
    ∷ b'n'
    ∷ 0
    ∷ 58
    ∷ (codes "rtsp://10.0.0.2:8554/live/0123456789abcdef0123456789abcdef"
        ++ (0 ∷ 0 ∷ 0 ∷ 0 ∷ 0 ∷ 0 ∷ []))

abbrev offered : Machine
offered = record {
  time = 0;
  sent = [];
  inbox =
      79
      ∷ 67
      ∷ 65
      ∷ 77
      ∷ 2
      ∷ 4
      ∷ 0
      ∷ 0
      ∷ 0
      ∷ 93
      ∷ (replicate 8 0 ++ (described ++ replicate 16 69));
}

abbrev machine_of : Option (Ended × Machine) → Machine
machine_of none = offered
machine_of (some (_, w)) = w

abbrev over : Machine
over = machine_of (serve small_evp small_os small_host 10 4 peer session_key offered)

serve-sent_example :
    (over.sent ≡ [])
    ⊎ ((channel : Channel) × (device : DeviceDescriptor) × (after : Channel) × (w1 : Machine)
        × (make_channel small_evp 4 session_key true ≡ some channel)
        × Admitted small_evp small_os small_host 10 peer channel offered device after w1)
unfolding serve make_channel hkdf_expand accept_descriptor admit activate stream_media watch receive
    unseal send seal encrypt_gcm decrypt_gcm sequence_bytes sequence_loop sequence_of_bytes
    make_gcm_nonce derive_media_password encode_hex equal_bytes send_frame send_parts receive_frame
    receive_payload transfer wait_for remaining_time move deadline_for make_header read_header
    parse_device_descriptor read_uint16 has_control string_of_length read_string read_resolution
    resolution_loop read_resolutions read_category filter_loop read_filters is_valid_utf8
    is_allowed_rtsp_endpoint is_allowed_after_scheme is_allowed_host all_hex find_first rfind
    starts_with c_str hmac build_activation_packet
serve-sent_example =
    serve-sent small_evp small_os small_host 10 4 (small_stream 4) peer session_key offered
      (returned true) over refl

-- An `rtsps` URL of the peer, which is allowed.
abbrev secure_url : Bytes
secure_url = codes "rtsps://10.0.0.2:8554/live/0123456789abcdef0123456789abcdef"

secure_url-IsMediaUrl : IsMediaUrl (λ text. true) secure_url peer
unfolding is_allowed_rtsp_endpoint is_allowed_after_scheme is_allowed_host all_hex find_first rfind
    starts_with c_str equal_bytes
secure_url-IsMediaUrl = (is_allowed_rtsp_endpoint_iff (λ text. true) secure_url peer).0 refl

authenticated_rtsp_url-allowed_example :
    (token : Bytes) × IsToken token
    × (((secure_url ≡ codes "rtsp://" ++ endpoint_of peer token)
          × (authenticated_rtsp_url (codes "pw") secure_url
              ≡ codes "rtsp://opencam:" ++ (codes "pw" ++ (codes "@" ++ endpoint_of peer token))))
        ⊎ ((secure_url ≡ codes "rtsps://" ++ endpoint_of peer token)
            × (authenticated_rtsp_url (codes "pw") secure_url
                ≡ codes "rtsp://opencam:"
                  ++ (codes "pw" ++ (codes "@/" ++ endpoint_of peer token)))))
authenticated_rtsp_url-allowed_example =
    authenticated_rtsp_url-allowed (λ text. true) (codes "pw") secure_url peer secure_url-IsMediaUrl
