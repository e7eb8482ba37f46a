-- ===== src/SecretBox/Encryption.antt =====
-- private_email/encryption.rs: the encryption of a tenant's credentials under a key that is derived
-- from the master secret of the environment. SHA-256, AES-256-GCM and Base64 are libraries.
use Prim.Native.String
use core_swift_crm.Prelude.{
  ℕ, zero, suc, String, ◌≡◌, Option, none, some, [], ◌∷◌, ◌++◌, Bool, true, false, ltb, leb,
  if◌then◌else◌, length, Result, ok, err, ◌>>=◌,
}
use core_swift_crm.Text.{Text, byte_len, codes}
use core_swift_crm.Text.Utf8.{Bytes, as_bytes, from_utf8}

-- `encrypt` and `decrypt` take the key, the nonce and the message; an error is what it prints.
pub record Crypto : Type 0 where
  pub sha256 : Bytes → Bytes
  pub encrypt : Bytes → Bytes → Bytes → Result Bytes String
  pub decrypt : Bytes → Bytes → Bytes → Result Bytes String
  pub encode : Bytes → Text
  pub decode : Text → Result Bytes String
  pub tenant_bytes : ℕ → Bytes
  pub utf8_error : String

-- `[0u8; 12]`
abbrev pub Nonce : Type 0
Nonce = (bytes : Bytes) × (length bytes ≡ 12)

-- What the libraries document: what was encrypted is decrypted under the same key and nonce, and
-- what was encoded is decoded.
pub record CryptoLaws (c : Crypto) : Type 0 where
  pub decrypt-encrypt :
      (key nonce message ciphertext : Bytes)
      → c.encrypt key nonce message ≡ ok ciphertext
      → c.decrypt key nonce ciphertext ≡ ok message
  pub decode-encode : (bytes : Bytes) → c.decode (c.encode bytes) ≡ ok bytes

abbrev pub legacy_default_secret : Text
legacy_default_secret = codes "coreswift-default-secret"

abbrev min_secret_len : ℕ
min_secret_len = 32

-- `var` is the environment's CORESWIFT_SECRET.
unfoldable pub env_secret : Option Text → Option Text
env_secret none = none
env_secret (some v) = if leb min_secret_len (byte_len v) then some v else none

abbrev is_some : Option Text → Bool
is_some none = false
is_some (some v) = true

unfoldable pub is_configured : Option Text → Bool
unfolding env_secret
is_configured var = is_some (env_secret var)

-- `slice.split_at(n)`
unfoldable pub split_at : ℕ → Bytes → Bytes × Bytes
split_at zero bytes = ([], bytes)
split_at (suc n) [] = ([], [])
split_at (suc n) (b ∷ bytes) = let (front, rest) = split_at n bytes in (b ∷ front, rest)

abbrev pub ok_or : Option Text → String → Result Text String
ok_or none why = err why
ok_or (some v) why = ok v

abbrev pub map_err {ℓ} : {A : Type ℓ} → String → Result A String → Result A String
map_err what (ok a) = ok a
map_err what (err e) = err (String.◌++◌ what e)

module _ (c : Crypto) where
  unfoldable pub derive_key_from : Text → ℕ → Bytes
  derive_key_from secret tenant_id = c.sha256 (as_bytes secret ++ (b':' ∷ c.tenant_bytes tenant_id))

  -- `nonce` is the random one.
  unfoldable pub encrypt_with : Nonce → Text → ℕ → Text → Result Text String
  unfolding derive_key_from
  encrypt_with nonce secret tenant_id plaintext =
      map_err "encrypt: "
        (c.encrypt (derive_key_from secret tenant_id) nonce.0 (as_bytes plaintext))
      >>= λ ciphertext. ok (c.encode (nonce.0 ++ ciphertext))

  -- From the nonce and the ciphertext on.
  unfoldable pub decrypt_parts : Bytes → Bytes × Bytes → Result Text String
  decrypt_parts key (nonce, ciphertext) =
      map_err "decrypt: " (c.decrypt key nonce ciphertext) >>= λ plaintext.
      ok_or (from_utf8 plaintext) (String.◌++◌ "utf8: " c.utf8_error)

  -- From the bytes on.
  unfoldable pub decrypt_bytes : Bytes → Bytes → Result Text String
  unfolding split_at decrypt_parts
  decrypt_bytes key combined =
      if ltb (length combined) 12
      then err "ciphertext too short"
      else decrypt_parts key (split_at 12 combined)

  unfoldable pub decrypt_with : Text → ℕ → Text → Result Text String
  unfolding decrypt_bytes derive_key_from
  decrypt_with secret tenant_id encrypted =
      map_err "base64 decode: " (c.decode encrypted) >>= λ combined.
      decrypt_bytes (derive_key_from secret tenant_id) combined

  unfoldable pub encrypt_api_key : Option Text → Nonce → ℕ → Text → Result Text String
  unfolding encrypt_with env_secret
  encrypt_api_key var nonce tenant_id plaintext =
      ok_or (env_secret var)
        "CORESWIFT_SECRET is not set (needs >= 32 chars): refusing to encrypt a credential with the built-in default key"
      >>= λ secret. encrypt_with nonce secret tenant_id plaintext

  unfoldable pub decrypt_api_key : Option Text → ℕ → Text → Result Text String
  unfolding decrypt_with env_secret
  decrypt_api_key var tenant_id encrypted =
      ok_or (env_secret var) "CORESWIFT_SECRET is not set" >>= λ secret.
      decrypt_with secret tenant_id encrypted

  unfoldable pub decrypt_api_key_legacy : ℕ → Text → Result Text String
  unfolding decrypt_with
  decrypt_api_key_legacy tenant_id encrypted =
      decrypt_with legacy_default_secret tenant_id encrypted
