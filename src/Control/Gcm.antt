-- ===== src/Control/Gcm.antt =====
-- `encryptGcm` and `decryptGcm` of linux/src/control_protocol.cpp. The output vector is the result,
-- and `none` where the function returns false.
pub mod Law
use open_cam.Prelude.{
  ◌>>=◌, ◌>>◌, ℕ, ◌+◌, ◌≡◌, Bool, List, [], ◌∷◌, ◌++◌, Option, none, some, Bytes, length, take,
  drop,
}
use open_cam.Control.Evp.{Evp, require}
use open_cam.Control.Wire.{gcm_nonce_size, gcm_tag_size}

module _ (evp : Evp) where
  open evp use {Cipher}

  -- `EVP_EncryptUpdate` is skipped for an empty text, as `EVP_DecryptUpdate` is.
  abbrev update_unless_empty :
      (Bytes → Cipher → Option (Bytes × Cipher)) → Bytes → Cipher → Option (Bytes × Cipher)
  update_unless_empty update [] context = some ([], context)
  update_unless_empty update (b ∷ text) context = update (b ∷ text) context

  unfoldable pub encrypt_gcm : Bytes → Bytes → Bytes → Bytes → Option Bytes
  encrypt_gcm key nonce aad plaintext = do
    context ← evp.cipher_new
    context ← evp.encrypt_init context
    context ← evp.set_iv_length gcm_nonce_size context
    context ← evp.encrypt_key key nonce context
    context ← evp.encrypt_aad aad context
    (body, context) ← update_unless_empty evp.encrypt_update plaintext context
    (last, context) ← evp.encrypt_final context
    tag ← evp.get_tag gcm_tag_size context
    some ((body ++ last) ++ tag)

  unfoldable pub decrypt_gcm : Bytes → Bytes → Bytes → Bytes → Bytes → Option Bytes
  decrypt_gcm key nonce aad ciphertext tag = do
    context ← evp.cipher_new
    context ← evp.decrypt_init context
    context ← evp.set_iv_length gcm_nonce_size context
    context ← evp.decrypt_key key nonce context
    context ← evp.decrypt_aad aad context
    (body, context) ← update_unless_empty evp.decrypt_update ciphertext context
    context ← evp.set_tag gcm_tag_size tag context
    (last, context) ← evp.decrypt_final context
    some (body ++ last)
