-- ===== src/Control/Keys.antt =====
-- Keys and proofs: `hmac`, `hkdfExpand`, `hkdfExtractAndExpand`, `deriveSessionKey`,
-- `deriveMediaPassword`, `makeProof` and `constantTimeEqual` of linux/src/control_protocol.cpp.
-- The output array is the result, and `none` where the function returns false; the output of a
-- failed call is read by no caller.
use open_cam.Prelude.{
  ◌>>=◌, ◌>>◌, Bool, [], ◌++◌, ◌==◌, Option, none, some, Bytes, codes, equal_bytes, length,
}
use open_cam.Control.Evp.{Evp, expand_only, extract_and_expand, require}
use open_cam.Control.Hex.{encode_hex}
use open_cam.Control.Wire.{key_size}

abbrev session_kdf_info : Bytes
session_kdf_info = codes "OpenCam control v2 session"

abbrev pub server_to_client_kdf_info : Bytes
server_to_client_kdf_info = codes "OpenCam control v2 server-to-client"

abbrev pub client_to_server_kdf_info : Bytes
client_to_server_kdf_info = codes "OpenCam control v2 client-to-server"

abbrev media_credential_domain : Bytes
media_credential_domain = codes "OpenCam RTSP credential v2"

module _ (evp : Evp) where
  unfoldable pub hmac : Bytes → Bytes → Option Bytes
  hmac key input = do output ← evp.hmac key input; require (length output == 32); some output

  unfoldable pub hkdf_expand : Bytes → Bytes → Option Bytes
  hkdf_expand prk info = do
    context ← evp.kdf_new
    context ← evp.derive_init context
    context ← evp.set_mode expand_only context
    context ← evp.set_md context
    context ← evp.set_key prk context
    context ← evp.add_info info context
    output ← evp.derive key_size context
    require (length output == key_size)
    some output

  unfoldable pub hkdf_extract_and_expand : Bytes → Bytes → Bytes → Bytes → Option Bytes
  hkdf_extract_and_expand secret server_nonce client_nonce info = do
    let salt = server_nonce ++ client_nonce
    context ← evp.kdf_new
    context ← evp.derive_init context
    context ← evp.set_mode extract_and_expand context
    context ← evp.set_md context
    context ← evp.set_salt salt context
    context ← evp.set_key secret context
    context ← evp.add_info info context
    output ← evp.derive key_size context
    require (length output == key_size)
    some output

  unfoldable pub derive_session_key : Bytes → Bytes → Bytes → Option Bytes
  unfolding hkdf_extract_and_expand
  derive_session_key secret server_nonce client_nonce =
      hkdf_extract_and_expand secret server_nonce client_nonce session_kdf_info

  -- The empty string where the credential cannot be computed.
  unfoldable pub derive_media_password : Bytes → Bytes
  derive_media_password session_key = elim (hmac session_key media_credential_domain) [
    | none ↦ []
    | some credential ↦ encode_hex credential
  ]

  unfoldable pub make_proof : Bytes → Bytes → Bytes → Bytes → Option Bytes
  unfolding hmac
  make_proof secret domain server_nonce client_nonce =
      hmac secret ((domain ++ server_nonce) ++ client_nonce)

-- `CRYPTO_memcmp` is 0 exactly on equal contents.
unfoldable pub constant_time_equal : Bytes → Bytes → Bool
constant_time_equal left right = equal_bytes left right
