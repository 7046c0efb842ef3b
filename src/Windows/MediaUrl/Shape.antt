-- ===== src/Windows/MediaUrl/Shape.antt =====
-- The loopback media URLs are exactly those of one shape.
use open_cam.Prelude.{
  ℕ, ◌+◌, ◌≡◌, refl, sym, ap, ◌∙◌, ◌↔◌, ◌⊎◌, ◌≤◌, codes, inl, inr, Bool, true, false, not, [], ◌∷◌,
  ◌++◌, ◌==◌, if◌then◌else◌, Bytes, subst, drop, length, All, take-append, drop-append,
  length-append, All-append, arith, Bool-cases, Option-cases, ==_iff, and→,
}
use open_cam.Strings.{find, find_first, contains, starts_with}
use open_cam.Strings.Find.{
  Lacks, find_first-eq_some, find_first-append, contains-eq_false, Lacks-contains,
  starts_with-append, starts_with-eq_true,
}
use open_cam.Endpoint.Shape.{drop_past}
use open_cam.Windows.MediaUrl.{
  prefix, endpoint, is_credential_character, is_hex_character, all_characters, valid_remainder,
  valid_loopback_media_url,
}

abbrev pub IsAll : (ℕ → Bool) → Bytes → Type 0
IsAll p = All (λ c. p c ≡ true)

-- A letter, a digit, a minus sign or an underscore: the URL-safe base64 alphabet.
abbrev pub IsBase64Url : ℕ → Type 0
IsBase64Url c =
    ((65 ≤ c) × (c ≤ 90)) ⊎ ((97 ≤ c) × (c ≤ 122)) ⊎ ((48 ≤ c) × (c ≤ 57)) ⊎ (c ≡ 45) ⊎ (c ≡ 95)

-- A digit or a letter from `a` to `f`.
abbrev pub IsLowerHex : ℕ → Type 0
IsLowerHex c = ((48 ≤ c) × (c ≤ 57)) ⊎ ((97 ≤ c) × (c ≤ 102))

-- A credential of 43 characters of the URL-safe base64 alphabet at the fixed loopback address and
-- path, with a token of 32 hexadecimal digits.
pub record IsLoopbackUrl (url : Bytes) : Type 0 where
  pub credential : Bytes
  pub token : Bytes
  pub shape :
      url
      ≡ codes "rtsp://opencam:" ++ (credential ++ b'@' ∷ (codes "127.0.0.1:8554/live/" ++ token))
  pub credential_length : length credential ≡ 43
  pub credential_characters : All IsBase64Url credential
  pub token_length : length token ≡ 32
  pub token_characters : All IsLowerHex token

all_characters_iff : (p : ℕ → Bool) (cs : Bytes) → (all_characters p cs ≡ true) ↔ IsAll p cs
unfolding all_characters
all_characters_iff p [] = ((λ h. tt), (λ h. refl))
all_characters_iff p (c ∷ cs) = (
  (λ h. let (here, later) = and→ _ _ h in (here, (all_characters_iff p cs).0 later)),
  (λ h. rw (h.0, (all_characters_iff p cs).1 h.1)),
)

is_credential_character_iff : (c : ℕ) → (is_credential_character c ≡ true) ↔ IsBase64Url c
unfolding is_credential_character
is_credential_character_iff c = ground arith

is_hex_character_iff : (c : ℕ) → (is_hex_character c ≡ true) ↔ IsLowerHex c
unfolding is_hex_character
is_hex_character_iff c = ground arith

-- A test at every character, and the description of the characters that pass it.
IsAll-iff :
    (p : ℕ → Bool) (P : ℕ → Type 0)
    → ((c : ℕ) → (p c ≡ true) ↔ P c)
    → (cs : Bytes) → IsAll p cs ↔ All P cs
IsAll-iff p P same [] = ((λ h. tt), (λ h. tt))
IsAll-iff p P same (c ∷ cs) =
    let later = IsAll-iff p P same cs in
    ((λ h. ((same c).0 h.0, later.0 h.1)), (λ h. ((same c).1 h.0, later.1 h.1)))

IsAll-credential : (cs : Bytes) → IsAll is_credential_character cs ↔ All IsBase64Url cs
IsAll-credential = IsAll-iff is_credential_character IsBase64Url is_credential_character_iff

IsAll-token : (cs : Bytes) → IsAll is_hex_character cs ↔ All IsLowerHex cs
IsAll-token = IsAll-iff is_hex_character IsLowerHex is_hex_character_iff

credential-Lacks : (cs : Bytes) → IsAll is_credential_character cs → Lacks b'@' cs
unfolding is_credential_character
credential-Lacks [] h = tt
credential-Lacks (c ∷ cs) h = (ground (arith, h.0), credential-Lacks cs h.1)

token-Lacks : (cs : Bytes) → IsAll is_hex_character cs → Lacks b'@' cs
unfolding is_hex_character
token-Lacks [] h = tt
token-Lacks (c ∷ cs) h = (ground (arith, h.0), token-Lacks cs h.1)

-- The tests of the two parts around the first `@`.
abbrev valid_parts : Bytes → Bytes → Bool
valid_parts credential remainder =
    if contains remainder b'@'
    then false
    else if not (length credential == 43)
    then false
    else if not (all_characters is_credential_character credential)
    then false
    else valid_remainder remainder

valid-split :
    (credential remainder : Bytes)
    → Lacks b'@' credential
    → valid_loopback_media_url (prefix ++ (credential ++ b'@' ∷ remainder))
      ≡ valid_parts credential remainder
unfolding valid_loopback_media_url
valid-split credential remainder h =
    let whole = credential ++ b'@' ∷ remainder in
    rw
      (
        starts_with-append prefix whole,
        drop-append prefix whole,
        find_first-append (λ x. x == b'@') credential b'@' remainder h refl,
        take-append credential (b'@' ∷ remainder),
        drop_past credential b'@' remainder,
      )
      refl

valid_remainder_iff :
    (remainder : Bytes)
    → (valid_remainder remainder ≡ true) ↔ (
        (token : Bytes) × (remainder ≡ endpoint ++ token)
        × (length token ≡ 32)
        × IsAll is_hex_character token)
unfolding valid_remainder
valid_remainder_iff remainder = (
  (λ e.
      let (token, same) = starts_with-eq_true endpoint remainder (ground arith) in
      let size : length remainder ≡ length endpoint + 32 = ground arith in
      let hex : all_characters is_hex_character (drop (length endpoint) remainder) ≡ true =
        ground arith in
      let tail : drop (length endpoint) remainder ≡ token =
        ap (drop (length endpoint)) same ∙ drop-append endpoint token in
      (
        token,
        same,
        omega (arith, size, ap length same, length-append endpoint token),
        (all_characters_iff is_hex_character token).0
            (ap (all_characters is_hex_character) (sym tail) ∙ hex),
      )),
  (λ (token, same, size, hex).
      let starts : starts_with endpoint remainder ≡ true =
        ap (starts_with endpoint) same ∙ starts_with-append endpoint token in
      let long : (length remainder == 52) ≡ true =
        (==_iff (length remainder) 52).1
          (omega (arith, size, ap length same, length-append endpoint token)) in
      let tail : drop (length endpoint) remainder ≡ token =
        ap (drop (length endpoint)) same ∙ drop-append endpoint token in
      rw (starts, long, tail) ((all_characters_iff is_hex_character token).1 hex)),
)

valid_parts-eq_true :
    (credential remainder : Bytes)
    → valid_parts credential remainder ≡ true
    → IsLoopbackUrl (prefix ++ (credential ++ b'@' ∷ remainder))
valid_parts-eq_true credential remainder e =
    let long : length credential ≡ 43 = ground arith in
    let characters : all_characters is_credential_character credential ≡ true = ground arith in
    let (token, same, size, hex) = (valid_remainder_iff remainder).0 (ground arith) in
    record {
      credential = credential;
      token = token;
      shape = ap (λ z. prefix ++ (credential ++ b'@' ∷ z)) same;
      credential_length = long;
      credential_characters =
          (IsAll-credential credential).0
            ((all_characters_iff is_credential_character credential).0 characters);
      token_length = size;
      token_characters = (IsAll-token token).0 hex;
    }

endpoint-Lacks : Lacks b'@' endpoint
unfolding find_first
endpoint-Lacks = contains-eq_false endpoint b'@' refl

IsLoopbackUrl-valid : (url : Bytes) → IsLoopbackUrl url → valid_loopback_media_url url ≡ true
IsLoopbackUrl-valid url u =
    let remainder = endpoint ++ u.token in
    let credential = (IsAll-credential u.credential).1 u.credential_characters in
    let token = (IsAll-token u.token).1 u.token_characters in
    let lacks =
      All-append (λ x. (x == b'@') ≡ false) endpoint u.token endpoint-Lacks
        (token-Lacks u.token token) in
    ap valid_loopback_media_url u.shape
    ∙ valid-split u.credential remainder (credential-Lacks u.credential credential)
    ∙ rw
        (
          Lacks-contains remainder b'@' lacks,
          (==_iff (length u.credential) 43).1 u.credential_length,
          (all_characters_iff is_credential_character u.credential).1 credential,
        )
        ((valid_remainder_iff remainder).1 (u.token, refl, u.token_length, token))

-- A URL is taken exactly where it has the one shape: the user `opencam`, a credential of 43
-- characters of the URL-safe base64 alphabet, the loopback address, the port 8554 and the live path
-- with a token of 32 hexadecimal digits.
pub valid_loopback_media_url_iff :
    (url : Bytes) → (valid_loopback_media_url url ≡ true) ↔ IsLoopbackUrl url
unfolding valid_loopback_media_url
valid_loopback_media_url_iff url = (accepted, IsLoopbackUrl-valid url)
  where
    accepted : valid_loopback_media_url url ≡ true → IsLoopbackUrl url
    accepted e = elim (Bool-cases (starts_with prefix url)) [
      | inr other ↦ absurd (ground arith)
      | inl scheme ↦
          let (rest, same) = starts_with-eq_true prefix url scheme in
          elim (Option-cases (find b'@' (drop (length prefix) url))) [
            | inl nowhere ↦ absurd (ground arith)
            | inr (i, found) ↦
                let f =
                  find_first-eq_some (λ x. x == b'@') rest i
                    (ap (find b'@') (sym (ap (drop (length prefix)) same ∙ drop-append prefix rest))
                      ∙ found) in
                let at : f.here ≡ b'@' = (==_iff f.here b'@').0 f.passes in
                let whole : url ≡ prefix ++ (f.before ++ b'@' ∷ f.after) =
                  same ∙ ap (λ z. prefix ++ z) (f.splits ∙ ap (λ c. f.before ++ c ∷ f.after) at) in
                subst IsLoopbackUrl (sym whole) (
                  valid_parts-eq_true f.before f.after (
                    sym (valid-split f.before f.after f.none_before)
                    ∙ ap valid_loopback_media_url (sym whole)
                    ∙ e))
          ]
    ]
