-- ===== src/Windows/MediaUrl.antt =====
-- `ValidLoopbackMediaUrl` of windows/src/net/serializer.cpp.
pub mod Shape
use open_cam.Prelude.{
  ℕ, ◌+◌, Bool, true, false, not, ◌&&◌, ◌||◌, List, [], ◌∷◌, Option, none, some, ◌==◌, leb,
  if◌then◌else◌, Bytes, codes, take, drop, length,
}
use open_cam.Strings.{find, contains, starts_with}

abbrev pub prefix : Bytes
prefix = codes "rtsp://opencam:"

abbrev pub endpoint : Bytes
endpoint = codes "127.0.0.1:8554/live/"

unfoldable pub is_credential_character : ℕ → Bool
is_credential_character c =
    (leb b'A' c && leb c b'Z')
    || (leb b'a' c && leb c b'z')
    || (leb b'0' c && leb c b'9')
    || c == b'-'
    || c == b'_'

unfoldable pub is_hex_character : ℕ → Bool
is_hex_character c = (leb b'0' c && leb c b'9') || (leb b'a' c && leb c b'f')

-- A loop that returns false at the first character that fails.
unfoldable pub all_characters : (ℕ → Bool) → Bytes → Bool
all_characters p [] = true
all_characters p (c ∷ cs) = p c && all_characters p cs

-- The test of what follows the `@`.
unfoldable pub valid_remainder : Bytes → Bool
valid_remainder remainder =
    if not (starts_with endpoint remainder) || not (length remainder == length endpoint + 32)
    then false
    else all_characters is_hex_character (drop (length endpoint) remainder)

unfoldable pub valid_loopback_media_url : Bytes → Bool
valid_loopback_media_url url =
    if not (starts_with prefix url)
    then false
    else let rest = drop (length prefix) url in
      elim (find b'@' rest) [
        | none ↦ false
        | some at ↦
            let credential = take at rest in
            let remainder = drop (at + 1) rest in
            if contains remainder b'@'
            then false
            else if not (length credential == 43)
            then false
            else if not (all_characters is_credential_character credential)
            then false
            else valid_remainder remainder
      ]
