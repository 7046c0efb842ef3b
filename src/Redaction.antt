-- ===== src/Redaction.antt =====
-- Removal of credentials from diagnostic text: linux/src/diagnostic_redaction.cpp and
-- diagnostic_redaction.hpp. A position in the line is kept as the part of the line from there on.
pub mod Urls
pub mod Lines
mod Examples
use open_cam.Prelude.{
  ℕ, zero, suc, ◌+◌, ◌-◌, Bool, true, false, not, ◌&&◌, ◌||◌, List, [], ◌∷◌, ◌++◌, Option, none,
  some, ◌==◌, leb, ltb, if◌then◌else◌, Bytes, codes, length, take, drop,
}
use open_cam.Strings.{shifted, find_first, find, rfind}

-- `std::tolower` in the "C" locale
abbrev pub tolower : ℕ → ℕ
tolower c = if leb b'A' c && leb c b'Z' then c + 32 else c

-- `matchesScheme`, at the front of the text
unfoldable pub matches_scheme : Bytes → Bytes → Bool
matches_scheme [] value = true
matches_scheme (s ∷ scheme) [] = false
matches_scheme (s ∷ scheme) (c ∷ value) = tolower c == s && matches_scheme scheme value

unfoldable pub starts_with_rtsp_scheme : Bytes → Bool
starts_with_rtsp_scheme value =
    matches_scheme (codes "rtsps://") value || matches_scheme (codes "rtsp://") value

-- The loop over `i`: the distance of the first scheme.
unfoldable pub find_scheme : Bytes → Option ℕ
find_scheme [] = none
find_scheme (c ∷ line) =
    let later = shifted (find_scheme line) in
    if not (leb 7 (length (c ∷ line)))
    then none
    else if starts_with_rtsp_scheme (c ∷ line)
    then some 0
    else later

abbrev is_member : Bytes → ℕ → Bool
is_member [] c = false
is_member (x ∷ xs) c = x == c || is_member xs c

-- `"/?# \t\r\n\"'<>)]}"`
abbrev pub is_delimiter : ℕ → Bool
is_delimiter c = is_member (codes "/?# " ++ (9 ∷ 13 ∷ 10 ∷ 34 ∷ 39 ∷ []) ++ codes "<>)]}") c

abbrev pub is_rtsps : Bytes → Bool
is_rtsps (_ ∷ _ ∷ _ ∷ _ ∷ c ∷ url) = leb 3 (length url) && tolower c == b's'
is_rtsps _ = false

abbrev pub scheme_length : Bytes → ℕ
scheme_length url = if is_rtsps url && starts_with_rtsp_scheme url then 8 else 7

abbrev pub redacted : Bytes
redacted = codes "[REDACTED]@"

-- The authority with the part up to its last `@` replaced.
unfoldable pub redact_authority : Bytes → Bytes
redact_authority authority = elim (rfind b'@' authority) [
  | none ↦ authority
  | some at ↦ redacted ++ drop (at + 1) authority
]

-- `authorityEnd`, counted from the authority's start
unfoldable pub authority_length : Bytes → ℕ
authority_length after = elim (find_first is_delimiter after) [ none ↦ length after | some i ↦ i ]

-- The loop from `cursor` on, with fuel.
unfoldable pub redact_from : ℕ → Bytes → Bytes
redact_from zero line = []
redact_from (suc fuel) [] = []
redact_from (suc fuel) (c ∷ line) = elim (find_scheme (c ∷ line)) [
  | none ↦ c ∷ line
  | some position ↦
      let url = drop position (c ∷ line) in
      let after = drop (scheme_length url) url in
      let end = authority_length after in
      take position (c ∷ line)
      ++ (take (scheme_length url) url
          ++ (redact_authority (take end after) ++ redact_from fuel (drop end after)))
]

unfoldable pub redact_complete_line : Bytes → Bytes
redact_complete_line line = redact_from (length line) line

abbrev pub redact_rtsp_credentials : Bytes → Bytes
redact_rtsp_credentials input = redact_complete_line input

abbrev pub sanitize_byte : ℕ → ℕ
sanitize_byte c = if c == 10 || (c == 13 || (c == 9 || (leb 32 c && leb c 126))) then c else b'?'

unfoldable pub sanitize : Bytes → Bytes
sanitize [] = []
sanitize (c ∷ input) = sanitize_byte c ∷ sanitize input

abbrev pub max_line_bytes : ℕ
max_line_bytes = 8192

-- `DiagnosticLineRedactor`
pub record Redactor : Type 0 where
  pub pending : Bytes
  pub discarding : Bool

abbrev pub fresh : Redactor
fresh = record { pending = []; discarding = false }

abbrev pub omitted : Bytes
omitted = codes "[diagnostic line omitted: exceeds limit]" ++ 10 ∷ []

-- One round of the loop of `consume`: the state after it, and what it appends to the output.
unfoldable pub consume_byte : Redactor → ℕ → Redactor × Bytes
consume_byte r c =
    let pending = r.pending ++ c ∷ [] in
    if r.discarding
    then (if c == 10 then (record r { discarding = false }, omitted) else (r, []))
    else if c == 10
    then (record r { pending = [] }, sanitize (redact_complete_line pending))
    else if ltb max_line_bytes (length pending)
    then (record { pending = []; discarding = true }, [])
    else (record r { pending = pending }, [])

unfoldable pub consume : Redactor → Bytes → Redactor × Bytes
consume r [] = (r, [])
consume r (c ∷ chunk) =
    let (next, output) = consume_byte r c in
    let rest = consume next chunk in (rest.0, output ++ rest.1)

unfoldable pub finish : Redactor → Redactor
finish r = record { pending = []; discarding = false }
