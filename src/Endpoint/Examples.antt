-- ===== src/Endpoint/Examples.antt =====
-- The endpoint check at the addresses of the tests, with a parser that accepts any text.
use open_cam.Prelude.{◌≡◌, refl, ◌↔◌, true, false, Bytes, Bool, codes, ◌++◌, equal_bytes}
use open_cam.Strings.{find_first, rfind, starts_with, c_str}
use open_cam.Endpoint.{is_allowed_rtsp_endpoint, is_allowed_after_scheme, is_allowed_host, all_hex}
use open_cam.Endpoint.Shape.{IsMediaUrl, is_allowed_rtsp_endpoint_iff}

abbrev any_address : Bytes → Bool
any_address text = true

abbrev peer : Bytes
peer = codes "10.0.0.2"

abbrev url : Bytes
url = codes "rtsp://10.0.0.2:8554/live/0123456789abcdef0123456789abcdef"

allowed : is_allowed_rtsp_endpoint any_address url peer ≡ true
unfolding is_allowed_rtsp_endpoint is_allowed_after_scheme is_allowed_host find_first rfind
    starts_with c_str all_hex equal_bytes
allowed = refl

other_host :
    is_allowed_rtsp_endpoint any_address
      (codes "rtsp://10.0.0.3:8554/live/0123456789abcdef0123456789abcdef")
      peer
    ≡ false
unfolding is_allowed_rtsp_endpoint is_allowed_after_scheme is_allowed_host find_first rfind
    starts_with c_str all_hex equal_bytes
other_host = refl

query_added : is_allowed_rtsp_endpoint any_address (url ++ codes "?x=1") peer ≡ false
unfolding is_allowed_rtsp_endpoint is_allowed_after_scheme is_allowed_host find_first rfind
    starts_with c_str all_hex equal_bytes
query_added = refl

is_allowed_rtsp_endpoint_iff_example :
    (is_allowed_rtsp_endpoint any_address url peer ≡ true) ↔ IsMediaUrl any_address url peer
is_allowed_rtsp_endpoint_iff_example = is_allowed_rtsp_endpoint_iff any_address url peer
