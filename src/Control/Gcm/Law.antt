-- ===== src/Control/Gcm/Law.antt =====
-- The documented behaviour of AES-256-GCM in OpenSSL, call by call, and what follows for
-- `encryptGcm` and `decryptGcm`. Encryption may fail at any call; decryption is taken with no
-- failure of the library itself, so that it fails exactly on a tag that does not match.
use open_cam.Prelude.{
  ◌>>=◌, bind-eq_some, ◌≡◌, ◌≢◌, refl, sym, ap, ◌∙◌, subst, [], ◌∷◌, ◌++◌, append-nil, none, some,
  Bytes, length, arith,
}
use open_cam.Control.Evp.{Evp}
use open_cam.Control.Wire.{gcm_nonce_size, gcm_tag_size}
use open_cam.Control.Gcm.{update_unless_empty, encrypt_gcm, decrypt_gcm}

pub record AesGcm (evp : Evp) : Type 1 where
  -- The text under the key stream of a key and a nonce, and the tag of a ciphertext.
  pub stream : Bytes → Bytes → Bytes → Bytes
  pub tag : Bytes → Bytes → Bytes → Bytes → Bytes
  pub stream_twice : (key nonce text : Bytes) → stream key nonce (stream key nonce text) ≡ text
  pub length-stream : (key nonce text : Bytes) → length (stream key nonce text) ≡ length text
  pub length-tag : (key nonce aad text : Bytes) → length (tag key nonce aad text) ≡ 16
  -- A context that has taken this key, nonce, associated data and ciphertext, and for decryption
  -- this expected tag.
  pub Sealing : evp.Cipher → Bytes → Bytes → Bytes → Bytes → Type 0
  pub Opening : evp.Cipher → Bytes → Bytes → Bytes → Bytes → Type 0
  pub Tagged : evp.Cipher → Bytes → Bytes → Bytes → Bytes → Bytes → Type 0
  pub sealing_key :
      (key nonce : Bytes) (c c' : evp.Cipher)
      → evp.encrypt_key key nonce c ≡ some c'
      → Sealing c' key nonce [] []
  pub sealing_aad :
      (key nonce aad : Bytes) (c c' : evp.Cipher)
      → Sealing c key nonce [] []
      → evp.encrypt_aad aad c ≡ some c'
      → Sealing c' key nonce aad []
  pub sealing_update :
      (key nonce aad text body : Bytes) (c c' : evp.Cipher)
      → Sealing c key nonce aad []
      → evp.encrypt_update text c ≡ some (body, c')
      → (body ≡ stream key nonce text) × Sealing c' key nonce aad body
  pub sealing_final :
      (key nonce aad body last : Bytes) (c c' : evp.Cipher)
      → Sealing c key nonce aad body
      → evp.encrypt_final c ≡ some (last, c')
      → (last ≡ []) × Sealing c' key nonce aad body
  pub sealing_tag :
      (key nonce aad body t : Bytes) (c : evp.Cipher)
      → Sealing c key nonce aad body
      → evp.get_tag gcm_tag_size c ≡ some t
      → t ≡ tag key nonce aad body
  pub new_context : (c : evp.Cipher) × (evp.cipher_new ≡ some c)
  pub opening_init : (c : evp.Cipher) → (c' : evp.Cipher) × (evp.decrypt_init c ≡ some c')
  pub opening_iv :
      (c : evp.Cipher) → (c' : evp.Cipher) × (evp.set_iv_length gcm_nonce_size c ≡ some c')
  pub opening_key :
      (key nonce : Bytes) (c : evp.Cipher)
      → (c' : evp.Cipher) × (evp.decrypt_key key nonce c ≡ some c') × Opening c' key nonce [] []
  pub opening_aad :
      (key nonce aad : Bytes) (c : evp.Cipher)
      → Opening c key nonce [] []
      → (c' : evp.Cipher) × (evp.decrypt_aad aad c ≡ some c') × Opening c' key nonce aad []
  pub opening_update :
      (key nonce aad body : Bytes) (c : evp.Cipher)
      → Opening c key nonce aad []
      → (c' : evp.Cipher) × (evp.decrypt_update body c ≡ some (stream key nonce body, c'))
        × Opening c' key nonce aad body
  pub opening_tag :
      (key nonce aad body t : Bytes) (c : evp.Cipher)
      → Opening c key nonce aad body
      → (c' : evp.Cipher) × (evp.set_tag gcm_tag_size t c ≡ some c')
        × Tagged c' key nonce aad body t
  pub opening_final :
      (key nonce aad body t : Bytes) (c : evp.Cipher)
      → Tagged c key nonce aad body t
      → t ≡ tag key nonce aad body
      → (c' : evp.Cipher) × (evp.decrypt_final c ≡ some ([], c'))
  pub opening_reject :
      (key nonce aad body t : Bytes) (c : evp.Cipher)
      → Tagged c key nonce aad body t
      → t ≢ tag key nonce aad body
      → evp.decrypt_final c ≡ none

module _ (evp : Evp) (gcm : AesGcm evp) where
  open evp use {Cipher}
  open gcm use {stream, tag, Sealing, Opening}

  stream-nil : (key nonce : Bytes) → stream key nonce [] ≡ []
  stream-nil key nonce = length_zero (stream key nonce []) (gcm.length-stream key nonce [])
    where
      length_zero : (s : Bytes) → length s ≡ 0 → s ≡ []
      length_zero [] e = refl
      length_zero (x ∷ s) e = absurd (omega arith)

  update_sealing :
      (key nonce aad text body : Bytes) (c c' : Cipher)
      → Sealing c key nonce aad []
      → update_unless_empty evp evp.encrypt_update text c ≡ some (body, c')
      → (body ≡ stream key nonce text) × Sealing c' key nonce aad body
  update_sealing key nonce aad [] body c c' s e =
      let same : body ≡ [] = ground arith in
      (
        same ∙ sym (stream-nil key nonce),
        rw same (subst (λ k. Sealing k key nonce aad []) (ground arith) s),
      )
  update_sealing key nonce aad (b ∷ text) body c c' s e =
      gcm.sealing_update key nonce aad (b ∷ text) body c c' s e

  update_opening :
      (key nonce aad body : Bytes) (c : Cipher)
      → Opening c key nonce aad []
      → (c' : Cipher) × (update_unless_empty evp evp.decrypt_update body c
          ≡ some (stream key nonce body, c'))
        × Opening c' key nonce aad body
  update_opening key nonce aad [] c s = (c, rw stream-nil, s)
  update_opening key nonce aad (b ∷ body) c s = gcm.opening_update key nonce aad (b ∷ body) c s

  -- What encryption gives, where it succeeds.
  pub encrypt_gcm-eq_some :
      (key nonce aad text out : Bytes)
      → encrypt_gcm evp key nonce aad text ≡ some out
      → out ≡ stream key nonce text ++ tag key nonce aad (stream key nonce text)
  unfolding encrypt_gcm
  encrypt_gcm-eq_some key nonce aad text out e =
      let (c, f, e) = bind-eq_some evp.cipher_new _ e in
      let (c1, f1, e) = bind-eq_some (evp.encrypt_init c) _ e in
      let (c2, f2, e) = bind-eq_some (evp.set_iv_length gcm_nonce_size c1) _ e in
      let (c3, f3, e) = bind-eq_some (evp.encrypt_key key nonce c2) _ e in
      let (c4, f4, e) = bind-eq_some (evp.encrypt_aad aad c3) _ e in
      let ((body, c5), f5, e) =
        bind-eq_some (update_unless_empty evp evp.encrypt_update text c4) _ e in
      let ((last, c6), f6, e) = bind-eq_some (evp.encrypt_final c5) _ e in
      let (t, f7, e) = bind-eq_some (evp.get_tag gcm_tag_size c6) _ e in
      let s3 = gcm.sealing_key key nonce c2 c3 f3 in
      let s4 = gcm.sealing_aad key nonce aad c3 c4 s3 f4 in
      let (is_body, s5) = update_sealing key nonce aad text body c4 c5 s4 f5 in
      let (is_last, s6) = gcm.sealing_final key nonce aad body last c5 c6 s5 f6 in
      let is_tag = gcm.sealing_tag key nonce aad body t c6 s6 f7 in
      let whole : out ≡ (body ++ last) ++ t = ground arith in
      whole
      ∙ ap (λ l. (body ++ l) ++ t) is_last
      ∙ ap (λ b. b ++ t) (append-nil body)
      ∙ ap (λ x. body ++ x) is_tag
      ∙ ap (λ b. b ++ tag key nonce aad b) is_body

  tagged :
      (key nonce aad body t : Bytes)
      → (c : Cipher) × gcm.Tagged c key nonce aad body t
        × (decrypt_gcm evp key nonce aad body t
            ≡ (evp.decrypt_final c >>= λ last. some (stream key nonce body ++ last.0)))
  unfolding decrypt_gcm
  tagged key nonce aad body t =
      let (c, e) = gcm.new_context in
      let (c1, e1) = gcm.opening_init c in
      let (c2, e2) = gcm.opening_iv c1 in
      let (c3, e3, s3) = gcm.opening_key key nonce c2 in
      let (c4, e4, s4) = gcm.opening_aad key nonce aad c3 s3 in
      let (c5, e5, s5) = update_opening key nonce aad body c4 s4 in
      let (c6, e6, s6) = gcm.opening_tag key nonce aad body t c5 s5 in
      (c6, s6, rw (e, e1, e2, e3, e4, e5, e6))

  -- Decryption succeeds with the tag of the ciphertext, and gives the text under the key stream.
  pub decrypt_gcm-tag :
      (key nonce aad body : Bytes)
      → decrypt_gcm evp key nonce aad body (tag key nonce aad body) ≡ some (stream key nonce body)
  decrypt_gcm-tag key nonce aad body =
      let (c, s, e) = tagged key nonce aad body (tag key nonce aad body) in
      let (c', f) = gcm.opening_final key nonce aad body _ c s refl in e ∙ rw (f, append-nil)

  -- Decryption fails with any other tag.
  pub decrypt_gcm-reject :
      (key nonce aad body t : Bytes)
      → t ≢ tag key nonce aad body
      → decrypt_gcm evp key nonce aad body t ≡ none
  decrypt_gcm-reject key nonce aad body t h =
      let (c, s, e) = tagged key nonce aad body t in
      e ∙ rw (gcm.opening_reject key nonce aad body t c s h)
