-- ===== src/Endpoint.antt =====
-- Which media URLs a paired device may announce: linux/src/security_validation.cpp.
pub mod Shape
mod Examples
use open_cam.Prelude.{
  ℕ, ◌+◌, Bool, true, false, not, ◌&&◌, ◌||◌, List, [], ◌∷◌, Option, none, some, ◌==◌, leb,
  if◌then◌else◌, Bytes, codes, equal_bytes, take, drop, length,
}
use open_cam.Strings.{find, rfind, contains, starts_with, c_str}

abbrev pub rtsp_prefix : Bytes
rtsp_prefix = codes "rtsp://"

abbrev pub rtsps_prefix : Bytes
rtsps_prefix = codes "rtsps://"

-- The test of the loop over `path[i]`, from position 6 on.
unfoldable pub all_hex : Bytes → Bool
all_hex [] = true
all_hex (c ∷ cs) = ((leb b'0' c && leb c b'9') || (leb b'a' c && leb c b'f')) && all_hex cs

-- `inet_pton` says whether the text is an IPv4 address in dotted form.
module _ (inet_pton : Bytes → Bool) where
  -- The authority of the URL, from `authority.rfind(':')` on.
  unfoldable pub is_allowed_host : Bytes → Bytes → Bool
  is_allowed_host authority peer_ip = elim (rfind b':' authority) [
    | none ↦ false
    | some colon ↦
        if not (equal_bytes (drop (colon + 1) authority) (codes "8554"))
        then false
        else let host = take colon authority in inet_pton (c_str host) && equal_bytes host peer_ip
  ]

  -- What follows the scheme.
  unfoldable pub is_allowed_after_scheme : Bytes → Bytes → Bool
  is_allowed_after_scheme endpoint peer_ip = elim (find b'/' endpoint) [
    | none ↦ false
    | some slash ↦
        let path = drop slash endpoint in
        if not (length path == 38) || not (starts_with (codes "/live/") path)
        then false
        else if not (all_hex (drop 6 path))
        then false
        else let authority = take slash endpoint in
          if contains authority b'@' || contains authority b'?' || contains authority b'#'
          then false
          else is_allowed_host authority peer_ip
  ]

  unfoldable pub is_allowed_rtsp_endpoint : Bytes → Bytes → Bool
  is_allowed_rtsp_endpoint url peer_ip =
      if starts_with rtsps_prefix url
      then is_allowed_after_scheme (drop (length rtsps_prefix) url) peer_ip
      else if starts_with rtsp_prefix url
      then is_allowed_after_scheme (drop (length rtsp_prefix) url) peer_ip
      else false
