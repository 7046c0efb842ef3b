-- ===== src/Redaction/Urls.antt =====
-- What the redaction of a line does to the URLs in it.
use open_cam.Prelude.{
  ℕ, zero, suc, ◌+◌, ◌≤◌, ◌≡◌, refl, sym, ap, ◌∙◌, ◌⊎◌, inl, inr, true, false, ◌&&◌, [], ◌∷◌, ◌++◌,
  append_assoc, append-nil, some, Bytes, codes, length, take, drop, length-append, length-drop,
  take-append, drop-append, Bool-cases, Option-cases, arith,
}
use open_cam.Strings.Find.{NonePass, Lacks, find_first-append, NonePass-find_first, rfind-append}
use open_cam.Redaction.{
  matches_scheme, starts_with_rtsp_scheme, find_scheme, is_delimiter, is_rtsps, scheme_length,
  redacted, redact_authority, authority_length, redact_from, redact_complete_line,
}

scheme_length_pos : (url : Bytes) → 1 ≤ scheme_length url
scheme_length_pos url = elim (Bool-cases (is_rtsps url && starts_with_rtsp_scheme url)) [
  | inl e ↦ rw e (omega arith)
  | inr e ↦ rw e (omega arith)
]

-- The loop moves on in every round, so fuel for each byte of the line is enough, and more changes
-- nothing.
pub redact_from_enough :
    (fuel fuel' : ℕ) (line : Bytes)
    → length line ≤ fuel
    → length line ≤ fuel'
    → redact_from fuel line ≡ redact_from fuel' line
unfolding redact_from
redact_from_enough zero zero line h h' = refl
redact_from_enough zero (suc fuel') [] h h' = refl
redact_from_enough zero (suc fuel') (c ∷ line) h h' = absurd (omega arith)
redact_from_enough (suc fuel) zero [] h h' = refl
redact_from_enough (suc fuel) zero (c ∷ line) h h' = absurd (omega arith)
redact_from_enough (suc fuel) (suc fuel') [] h h' = refl
redact_from_enough (suc fuel) (suc fuel') (c ∷ line) h h' =
    elim (Option-cases (find_scheme (c ∷ line))) [
      | inl e ↦ rw (redact_from, e)
      | inr (position, e) ↦
          let url = drop position (c ∷ line) in
          let after = drop (scheme_length url) url in
          let rest = drop (authority_length after) after in
          let less : length rest ≤ length line = omega (
            arith,
            length-drop (authority_length after) after,
            length-drop (scheme_length url) url,
            length-drop position (c ∷ line),
            scheme_length_pos url,
          ) in
          let same = redact_from_enough fuel fuel' rest (omega arith) (omega arith) in
          rw (redact_from, e, same)
    ]

-- A text in which no scheme begins, whatever part of the text behind it belongs to the scheme.
abbrev pub NoScheme : Bytes → Bytes → Type 0
NoScheme [] behind = Unit {0}
NoScheme (c ∷ text) behind =
    (starts_with_rtsp_scheme (c ∷ (text ++ behind)) ≡ false) × NoScheme text behind

-- `rtsp://` or `rtsps://`, in any case.
abbrev pub IsScheme : Bytes → Type 0
IsScheme scheme =
    ((matches_scheme (codes "rtsp://") scheme ≡ true) × (length scheme ≡ 7))
    ⊎ ((matches_scheme (codes "rtsps://") scheme ≡ true) × (length scheme ≡ 8))

-- Where an authority may end: at the end of the text, or before a delimiter.
abbrev pub Ends : Bytes → Type 0
Ends [] = Unit {0}
Ends (c ∷ rest) = is_delimiter c ≡ true

matches_scheme-append :
    (scheme text behind : Bytes)
    → matches_scheme scheme text ≡ true
    → matches_scheme scheme (text ++ behind) ≡ true
unfolding matches_scheme
matches_scheme-append [] text behind e = refl
matches_scheme-append (s ∷ scheme) [] behind e = absurd (cc)
matches_scheme-append (s ∷ scheme) (c ∷ text) behind e =
    ground (arith, matches_scheme-append scheme text behind)

starts_with-IsScheme :
    (scheme behind : Bytes) → IsScheme scheme → starts_with_rtsp_scheme (scheme ++ behind) ≡ true
unfolding starts_with_rtsp_scheme
starts_with-IsScheme scheme behind (inl (e, _)) =
    ground (arith, matches_scheme-append (codes "rtsp://") scheme behind e)
starts_with-IsScheme scheme behind (inr (e, _)) =
    ground (arith, matches_scheme-append (codes "rtsps://") scheme behind e)

scheme_length-IsScheme :
    (scheme behind : Bytes) → IsScheme scheme → scheme_length (scheme ++ behind) ≡ length scheme
unfolding matches_scheme
scheme_length-IsScheme (a ∷ b ∷ c ∷ d ∷ e ∷ f ∷ g ∷ []) behind (inl (m, h)) = ground arith
scheme_length-IsScheme (a ∷ b ∷ c ∷ d ∷ e ∷ f ∷ g ∷ i ∷ []) behind (inr (m, h)) =
    let all = starts_with-IsScheme (a ∷ b ∷ c ∷ d ∷ e ∷ f ∷ g ∷ i ∷ []) behind (inr (m, h)) in
    ground (arith, all)
scheme_length-IsScheme _ behind (inl (m, h)) = absurd (omega (arith, h))
scheme_length-IsScheme _ behind (inr (m, h)) = absurd (omega (arith, h))

find_scheme-NoScheme :
    (before url : Bytes)
    → NoScheme before url
    → starts_with_rtsp_scheme url ≡ true
    → 7 ≤ length url
    → find_scheme (before ++ url) ≡ some (length before)
unfolding find_scheme
find_scheme-NoScheme [] [] n e h = absurd (omega arith)
find_scheme-NoScheme [] (c ∷ url) n e h = ground arith
find_scheme-NoScheme (c ∷ before) url n e h =
    ground (arith, find_scheme-NoScheme before url n.1 e h, length-append before url)

authority_length-Ends :
    (authority rest : Bytes)
    → NonePass is_delimiter authority
    → Ends rest
    → authority_length (authority ++ rest) ≡ length authority
unfolding authority_length
authority_length-Ends authority [] n e =
    let whole : authority_length authority ≡ length authority =
      ground (arith, NonePass-find_first is_delimiter authority n) in
    ap authority_length (append-nil authority) ∙ whole
authority_length-Ends authority (c ∷ rest) n e =
    ground (arith, find_first-append is_delimiter authority c rest n e)

redact_authority-user :
    (user host : Bytes)
    → Lacks b'@' host
    → redact_authority (user ++ b'@' ∷ host) ≡ redacted ++ host
unfolding redact_authority
redact_authority-user user host h =
    let size : length user + 1 ≡ length (user ++ b'@' ∷ []) =
      omega (arith, length-append user (b'@' ∷ [])) in
    let behind : drop (length user + 1) (user ++ b'@' ∷ host) ≡ host =
      ap (λ n. drop n (user ++ b'@' ∷ host)) size
      ∙ ap (λ t. drop (length (user ++ b'@' ∷ [])) t) (sym (append_assoc user (b'@' ∷ []) host))
      ∙ drop-append (user ++ b'@' ∷ []) host in
    ground (arith, rfind-append b'@' user host h, behind)

-- One round of the loop, at a URL that begins behind a text without a scheme.
redact_complete_line-url :
    (before scheme authority rest : Bytes)
    → IsScheme scheme
    → NoScheme before (scheme ++ (authority ++ rest))
    → NonePass is_delimiter authority
    → Ends rest
    → redact_complete_line (before ++ (scheme ++ (authority ++ rest)))
      ≡ before ++ (scheme ++ (redact_authority authority ++ redact_complete_line rest))
unfolding redact_complete_line redact_from redact_authority
redact_complete_line-url before scheme authority rest s n a e =
    let url = scheme ++ (authority ++ rest) in
    let seven : 7 ≤ length scheme = ground (arith, s) in
    let found =
      find_scheme-NoScheme before url n (starts_with-IsScheme scheme (authority ++ rest) s)
        (omega (arith, seven, length-append scheme (authority ++ rest))) in
    let split = scheme_length-IsScheme scheme (authority ++ rest) s in
    let ends = authority_length-Ends authority rest a e in
    let sizes : length (before ++ url)
        ≡ length before + (length scheme + (length authority + length rest)) =
      omega (
        arith,
        length-append before url,
        length-append scheme (authority ++ rest),
        length-append authority rest,
      ) in
    round (before ++ url) (length (before ++ url)) (length before) found refl
      (drop-append before url) (take-append before url) split ends (omega (arith, sizes, seven))
      (omega (arith, sizes, seven))
  where
    round :
        (line : Bytes) (fuel position : ℕ)
        → find_scheme line ≡ some position
        → length line ≡ fuel
        → drop position line ≡ scheme ++ (authority ++ rest)
        → take position line ≡ before
        → scheme_length (scheme ++ (authority ++ rest)) ≡ length scheme
        → authority_length (authority ++ rest) ≡ length authority
        → 1 ≤ length line
        → length rest + 1 ≤ fuel
        → redact_from fuel line
          ≡ before ++ (scheme ++ (redact_authority authority ++ redact_from (length rest) rest))
    round [] fuel position found full url front split ends pos enough = absurd (omega arith)
    round (c ∷ line) zero position found full url front split ends pos enough = absurd (omega arith)
    round (c ∷ line) (suc fuel) position found full url front split ends pos enough = rw (
      redact_from,
      found,
      url,
      front,
      split,
      take-append scheme (authority ++ rest),
      drop-append scheme (authority ++ rest),
      ends,
      take-append authority rest,
      drop-append authority rest,
      redact_from_enough fuel (length rest) rest (omega arith) (omega arith),
    )

-- The part of a URL's authority up to its last `@` is replaced, the text before the URL and its
-- scheme are kept, and the redaction goes on behind the authority: for a URL that begins behind a
-- text without a scheme, with an authority that has no delimiter and ends at one or with the line.
pub redact_complete_line-credentials :
    (before scheme user host rest : Bytes)
    → IsScheme scheme
    → NoScheme before (scheme ++ ((user ++ b'@' ∷ host) ++ rest))
    → NonePass is_delimiter (user ++ b'@' ∷ host)
    → Lacks b'@' host
    → Ends rest
    → redact_complete_line (before ++ (scheme ++ ((user ++ b'@' ∷ host) ++ rest)))
      ≡ before ++ (scheme ++ ((redacted ++ host) ++ redact_complete_line rest))
redact_complete_line-credentials before scheme user host rest s n a l e =
    redact_complete_line-url before scheme (user ++ b'@' ∷ host) rest s n a e
    ∙ ap (λ t. before ++ (scheme ++ (t ++ redact_complete_line rest)))
        (redact_authority-user user host l)
