-- ===== src/Endpoint/Shape.antt =====
-- The URLs that are allowed for a peer are exactly those of one shape.
use open_cam.Prelude.{
  ℕ, suc, ◌+◌, ◌≡◌, refl, ap, ◌∙◌, ◌↔◌, ◌⊎◌, inl, inr, Bool, true, false, not, ◌&&◌, ◌||◌, [], ◌∷◌,
  ◌++◌, ◌==◌, leb, if◌then◌else◌, Bytes, codes, subst, equal_bytes, equal_bytes_iff,
  equal_bytes_refl, drop, length, All, take-append, drop-append, All-append, All-append_left, arith,
  Bool-cases, Option-cases, ==_iff, and→,
}
use native.Mathlib.Numerals.{add-one}
use mathlib.Core.Path.{ap₂}
use open_cam.Strings.{find, find_first, rfind, contains, starts_with, c_str}
use open_cam.Strings.Find.{
  Lacks, find_first-eq_some, find_first-append, contains-eq_false, Lacks-contains, rfind-append,
  rfind-eq_some, starts_with-append, starts_with-eq_true,
}
use open_cam.Endpoint.{
  rtsp_prefix, rtsps_prefix, all_hex, is_allowed_host, is_allowed_after_scheme,
  is_allowed_rtsp_endpoint,
}

-- A digit or a lower-case letter from a to f.
abbrev pub IsHex : ℕ → Type 0
IsHex c = ((leb b'0' c && leb c b'9') || (leb b'a' c && leb c b'f')) ≡ true

abbrev pub IsToken : Bytes → Type 0
IsToken token = All IsHex token × (length token ≡ 32)

-- What follows the scheme: the peer's address, which is an IPv4 address without the characters that
-- end an authority, the fixed port and path, and a token of 32 hexadecimal digits.
pub record IsEndpoint (inet_pton : Bytes → Bool) (endpoint peer_ip : Bytes) : Type 0 where
  pub token : Bytes
  pub token_IsToken : IsToken token
  pub shape : endpoint ≡ (peer_ip ++ codes ":8554") ++ (codes "/live/" ++ token)
  pub address : inet_pton (c_str peer_ip) ≡ true
  pub no_slash : Lacks b'/' peer_ip
  pub no_at : Lacks b'@' peer_ip
  pub no_query : Lacks b'?' peer_ip
  pub no_fragment : Lacks b'#' peer_ip

pub record IsMediaUrl (inet_pton : Bytes → Bool) (url peer_ip : Bytes) : Type 0 where
  pub endpoint : Bytes
  pub scheme : (url ≡ rtsp_prefix ++ endpoint) ⊎ (url ≡ rtsps_prefix ++ endpoint)
  pub endpoint_IsEndpoint : IsEndpoint inet_pton endpoint peer_ip

all_hex_iff : (cs : Bytes) → (all_hex cs ≡ true) ↔ All IsHex cs
unfolding all_hex
all_hex_iff [] = ((λ h. tt), (λ h. refl))
all_hex_iff (c ∷ cs) = (
  (λ h. let (here, later) = and→ _ _ h in (here, (all_hex_iff cs).0 later)),
  (λ h. rw (h.0, (all_hex_iff cs).1 h.1)),
)

pub drop_past :
    (before : Bytes) (c : ℕ) (after : Bytes)
    → drop (length before + 1) (before ++ c ∷ after) ≡ after
drop_past before c after = rw (add-one, drop_suc before c after)
  where
    drop_suc :
        (before : Bytes) (c : ℕ) (after : Bytes)
        → drop (suc (length before)) (before ++ c ∷ after) ≡ after
    drop_suc [] c after = refl
    drop_suc (x ∷ xs) c after = drop_suc xs c after

pub guards :
    (a b c x y z d : Bool)
    → (if not a || not b then false else if not c then false else if x || y || z then false else d)
      ≡ (a && (b && (c && (not x && (not y && (not z && d))))))
guards a b c x y z d = ground arith

not-true : (b : Bool) → not b ≡ true → b ≡ false
not-true b h = ground arith

-- What the authority lacks, the peer's address lacks.
part :
    (c : ℕ) {authority : Bytes} (peer : Bytes)
    → authority ≡ peer ++ codes ":8554"
    → Lacks c authority
    → Lacks c peer
part c peer e h = All-append_left (λ x. (x == c) ≡ false) peer (codes ":8554") (subst (Lacks c) e h)

module _ (inet_pton : Bytes → Bool) where
  -- The test of the authority, at a split around its last colon.
  host_at :
      (before after peer : Bytes)
      → Lacks b':' after
      → is_allowed_host inet_pton (before ++ b':' ∷ after) peer ≡ (
          equal_bytes after (codes "8554") && (inet_pton (c_str before) && equal_bytes before peer))
  unfolding is_allowed_host
  host_at before after peer h =
      rw (rfind-append b':' before after h, drop_past, take-append, is_allowed_host)
        (elim (Bool-cases (equal_bytes after (codes "8554"))) [
          | inl same ↦ rw same
          | inr other ↦ rw other
        ])

  host-eq_true :
      (authority peer : Bytes)
      → is_allowed_host inet_pton authority peer ≡ true
      → (authority ≡ peer ++ codes ":8554") × (inet_pton (c_str peer) ≡ true)
  host-eq_true authority peer e = elim (Option-cases (rfind b':' authority)) [
    | inl nothing ↦ unfold is_allowed_host in ground arith
    | inr (colon, found) ↦
        let r = rfind-eq_some b':' authority colon found in
        let e' = rw (r.splits, host_at r.before r.after peer r.none_after) at e in
        let (port, rest) = and→ _ _ e' in
        let (address, host) = and→ _ _ rest in
        let port_is = (equal_bytes_iff _ _).0 port in
        let host_is = (equal_bytes_iff _ _).0 host in
        (
          r.splits ∙ ap₂ (λ b a. b ++ b':' ∷ a) host_is port_is,
          subst (λ x. inet_pton (c_str x) ≡ true) host_is address,
        )
  ]

  lacks_suffix : (c : ℕ) → contains (codes ":8554") c ≡ false → Lacks c (codes ":8554")
  lacks_suffix c e = contains-eq_false (codes ":8554") c e

  host_accepts :
      (peer : Bytes)
      → inet_pton (c_str peer) ≡ true
      → is_allowed_host inet_pton (peer ++ codes ":8554") peer ≡ true
  unfolding find_first
  host_accepts peer h =
      host_at peer (codes "8554") peer (contains-eq_false (codes "8554") b':' refl)
      ∙ rw (equal_bytes_refl (codes "8554"), h, equal_bytes_refl peer)

  -- The tests of what follows the scheme, at a split around its first slash.
  after_at :
      (before after peer : Bytes)
      → Lacks b'/' before
      → is_allowed_after_scheme inet_pton (before ++ b'/' ∷ after) peer ≡ (
          (length (b'/' ∷ after) == 38)
          && (starts_with (codes "/live/") (b'/' ∷ after)
              && (all_hex (drop 6 (b'/' ∷ after))
                  && (not (contains before b'@')
                      && (not (contains before b'?')
                          && (not (contains before b'#')
                              && is_allowed_host inet_pton before peer))))))
  unfolding is_allowed_after_scheme
  after_at before after peer h =
      rw
        (
          find_first-append (λ x. x == b'/') before b'/' after h refl,
          take-append before (b'/' ∷ after),
          drop-append before (b'/' ∷ after),
          is_allowed_after_scheme,
        )
        (guards (length (b'/' ∷ after) == 38) (starts_with (codes "/live/") (b'/' ∷ after))
          (all_hex (drop 6 (b'/' ∷ after))) (contains before b'@') (contains before b'?')
          (contains before b'#') (is_allowed_host inet_pton before peer))

  after-eq_true :
      (endpoint peer : Bytes)
      → is_allowed_after_scheme inet_pton endpoint peer ≡ true
      → IsEndpoint inet_pton endpoint peer
  after-eq_true endpoint peer e = elim (Option-cases (find b'/' endpoint)) [
    | inl nothing ↦ unfold is_allowed_after_scheme in ground arith
    | inr (slash, found) ↦
        let r = find_first-eq_some (λ x. x == b'/') endpoint slash found in
        let is_slash = (==_iff _ _).0 r.passes in
        let splits = r.splits ∙ ap (λ c. r.before ++ c ∷ r.after) is_slash in
        let e' = rw (splits, after_at r.before r.after peer r.none_before) at e in
        let (long, e1) = and→ _ _ e' in
        let (live, e2) = and→ _ _ e1 in
        let (hex, e3) = and→ _ _ e2 in
        let (no_at, e4) = and→ _ _ e3 in
        let (no_query, e5) = and→ _ _ e4 in
        let (no_fragment, host) = and→ _ _ e5 in
        let (token, path_is) = starts_with-eq_true (codes "/live/") (b'/' ∷ r.after) live in
        let (authority_is, address) = host-eq_true r.before peer host in
        let size = (==_iff _ _).0 long in
        record {
          token = token;
          token_IsToken = (
            (all_hex_iff token).0 (subst (λ p. all_hex (drop 6 p) ≡ true) path_is hex),
            omega (arith, ap length path_is),
          );
          shape = splits ∙ ap₂ (λ b p. b ++ p) authority_is path_is;
          address = address;
          no_slash = part b'/' peer authority_is r.none_before;
          no_at = part b'@' peer authority_is (contains-eq_false r.before b'@' (not-true _ no_at));
          no_query =
              part b'?' peer authority_is (contains-eq_false r.before b'?' (not-true _ no_query));
          no_fragment =
              part b'#' peer authority_is
                (contains-eq_false r.before b'#' (not-true _ no_fragment));
        }
  ]

  after_accepts :
      (endpoint peer : Bytes)
      → IsEndpoint inet_pton endpoint peer
      → is_allowed_after_scheme inet_pton endpoint peer ≡ true
  unfolding find_first
  after_accepts endpoint peer v =
      let authority = peer ++ codes ":8554" in
      let whole = λ (c : ℕ) (h : Lacks c peer) (k : Lacks c (codes ":8554")).
        All-append (λ x. (x == c) ≡ false) peer (codes ":8554") h k in
      rw (
        v.shape,
        after_at authority (codes "live/" ++ v.token) peer
            (whole b'/' v.no_slash (lacks_suffix b'/' refl)),
        starts_with-append (codes "/live/") v.token,
        (all_hex_iff v.token).1 v.token_IsToken.0,
        Lacks-contains authority b'@' (whole b'@' v.no_at (lacks_suffix b'@' refl)),
        Lacks-contains authority b'?' (whole b'?' v.no_query (lacks_suffix b'?' refl)),
        Lacks-contains authority b'#' (whole b'#' v.no_fragment (lacks_suffix b'#' refl)),
        host_accepts peer v.address,
        v.token_IsToken.1,
      )

  allowed-IsMediaUrl :
      (url peer : Bytes)
      → is_allowed_rtsp_endpoint inet_pton url peer ≡ true
      → IsMediaUrl inet_pton url peer
  unfolding is_allowed_rtsp_endpoint
  allowed-IsMediaUrl url peer e = elim (Bool-cases (starts_with rtsps_prefix url)) [
    | inl secure ↦
        let (rest, same) = starts_with-eq_true rtsps_prefix url secure in
        record {
          endpoint = rest;
          scheme = inr same;
          endpoint_IsEndpoint = after-eq_true rest peer (
              subst (λ u. is_allowed_after_scheme inet_pton (drop 8 u) peer ≡ true) same
                (rw secure at e));
        }
    | inr other ↦ elim (Bool-cases (starts_with rtsp_prefix url)) [
      | inl plain ↦
          let (rest, same) = starts_with-eq_true rtsp_prefix url plain in
          record {
            endpoint = rest;
            scheme = inl same;
            endpoint_IsEndpoint = after-eq_true rest peer (
                subst (λ u. is_allowed_after_scheme inet_pton (drop 7 u) peer ≡ true) same
                  (rw (other, plain) at e));
          }
      | inr neither ↦ absurd (cc (rw (other, neither) at e))
    ]
  ]

  IsMediaUrl-allowed :
      (url peer : Bytes)
      → IsMediaUrl inet_pton url peer
      → is_allowed_rtsp_endpoint inet_pton url peer ≡ true
  unfolding is_allowed_rtsp_endpoint starts_with
  IsMediaUrl-allowed url peer v = elim v.scheme [
    | inl plain ↦ rw plain (after_accepts v.endpoint peer v.endpoint_IsEndpoint)
    | inr secure ↦ rw secure (after_accepts v.endpoint peer v.endpoint_IsEndpoint)
  ]

-- A URL is allowed for a peer exactly when it is `rtsp://` or `rtsps://`, the peer's own address,
-- `:8554/live/` and 32 hexadecimal digits in lower case, where the address is one that `inet_pton`
-- accepts and has no slash, at sign, question mark or number sign.
pub is_allowed_rtsp_endpoint_iff :
    (inet_pton : Bytes → Bool) (url peer_ip : Bytes)
    → (is_allowed_rtsp_endpoint inet_pton url peer_ip ≡ true) ↔ IsMediaUrl inet_pton url peer_ip
is_allowed_rtsp_endpoint_iff inet_pton url peer_ip =
    (allowed-IsMediaUrl inet_pton url peer_ip, IsMediaUrl-allowed inet_pton url peer_ip)
