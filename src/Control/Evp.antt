-- ===== src/Control/Evp.antt =====
-- What the control protocol uses of OpenSSL: HMAC, HKDF contexts and cipher contexts. They are not
-- the program's code, so they are a parameter: a call on a context returns the context that follows
-- it, and `none` is a failed call.
use open_cam.Prelude.{ℕ, Bool, true, false, Option, none, some, Bytes}

-- `if (!test) break;`
abbrev pub require : Bool → Option (Unit {0})
require true = some tt
require false = none

pub data HkdfMode : Type 0 where
  expand_only extract_and_expand : HkdfMode

pub record Evp : Type 1 where
  -- `HMAC(EVP_sha256(), key, input)`; the digest has `outputSize` bytes
  pub hmac : Bytes → Bytes → Option Bytes
  pub Kdf : Type 0
  pub kdf_new : Option Kdf
  pub derive_init : Kdf → Option Kdf
  pub set_mode : HkdfMode → Kdf → Option Kdf
  pub set_md : Kdf → Option Kdf
  pub set_salt : Bytes → Kdf → Option Kdf
  pub set_key : Bytes → Kdf → Option Kdf
  pub add_info : Bytes → Kdf → Option Kdf
  -- `EVP_PKEY_derive` into a buffer of this size
  pub derive : ℕ → Kdf → Option Bytes
  pub Cipher : Type 0
  pub cipher_new : Option Cipher
  -- `EVP_EncryptInit_ex` with AES-256-GCM and no key, and the same for decryption
  pub encrypt_init : Cipher → Option Cipher
  pub decrypt_init : Cipher → Option Cipher
  pub set_iv_length : ℕ → Cipher → Option Cipher
  -- the second `Init_ex`, with the key and the nonce
  pub encrypt_key : Bytes → Bytes → Cipher → Option Cipher
  pub decrypt_key : Bytes → Bytes → Cipher → Option Cipher
  pub encrypt_aad : Bytes → Cipher → Option Cipher
  pub decrypt_aad : Bytes → Cipher → Option Cipher
  -- the bytes that a call writes, and the context
  pub encrypt_update : Bytes → Cipher → Option (Bytes × Cipher)
  pub decrypt_update : Bytes → Cipher → Option (Bytes × Cipher)
  pub encrypt_final : Cipher → Option (Bytes × Cipher)
  pub decrypt_final : Cipher → Option (Bytes × Cipher)
  pub get_tag : ℕ → Cipher → Option Bytes
  pub set_tag : ℕ → Bytes → Cipher → Option Cipher
