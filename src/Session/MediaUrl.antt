-- ===== src/Session/MediaUrl.antt =====
-- The URL with the credential that the controller builds from an allowed one.
use open_cam.Prelude.{◌≡◌, ap, ◌∙◌, Bool, ◌⊎◌, inl, inr, ◌++◌, Bytes, codes, drop}
use open_cam.Endpoint.{rtsp_prefix, rtsps_prefix}
use open_cam.Endpoint.Shape.{IsToken, IsMediaUrl}
use open_cam.Session.{authenticated_rtsp_url}

-- The part of a media URL behind its scheme: the peer's address, the port and the path.
abbrev pub endpoint_of : Bytes → Bytes → Bytes
endpoint_of peer_ip token = (peer_ip ++ codes ":8554") ++ (codes "/live/" ++ token)

-- From an allowed `rtsp` URL the controller builds the URL of the same endpoint with the media
-- password before its host. From an allowed `rtsps` URL it builds an `rtsp` URL whose authority
-- ends right behind the `@`, with an empty host.
pub authenticated_rtsp_url-allowed :
    (inet_pton : Bytes → Bool) (media_password url peer_ip : Bytes)
    → IsMediaUrl inet_pton url peer_ip
    → (token : Bytes) × IsToken token
      × (((url ≡ codes "rtsp://" ++ endpoint_of peer_ip token)
            × (authenticated_rtsp_url media_password url
                ≡ codes "rtsp://opencam:"
                  ++ (media_password ++ (codes "@" ++ endpoint_of peer_ip token))))
          ⊎ ((url ≡ codes "rtsps://" ++ endpoint_of peer_ip token)
              × (authenticated_rtsp_url media_password url
                  ≡ codes "rtsp://opencam:"
                    ++ (media_password ++ (codes "@/" ++ endpoint_of peer_ip token)))))
unfolding authenticated_rtsp_url
authenticated_rtsp_url-allowed inet_pton media_password url peer_ip m =
    let e = m.endpoint_IsEndpoint in
    let head = codes "rtsp://opencam:" in
    (
      e.token,
      e.token_IsToken,
      elim m.scheme [
        | inl plain ↦
            let whole = plain ∙ ap (λ t. rtsp_prefix ++ t) e.shape in
            inl (whole, ap (λ u. head ++ (media_password ++ (codes "@" ++ drop 7 u))) whole)
        | inr secure ↦
            let whole = secure ∙ ap (λ t. rtsps_prefix ++ t) e.shape in
            inr (whole, ap (λ u. head ++ (media_password ++ (codes "@" ++ drop 7 u))) whole)
      ],
    )
