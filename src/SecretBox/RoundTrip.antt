-- ===== src/SecretBox/RoundTrip.antt =====
-- What `encrypt_with` returns is decrypted to the same text.
use core_swift_crm.Prelude.{
  ℕ, zero, suc, ◌≡◌, refl, Option, none, some, [], ◌∷◌, ◌++◌, length, length-append, arith, Result,
  ok, err, with_ok, ap, ok-inj,
}
use core_swift_crm.Text.{Text}
use core_swift_crm.Text.Utf8.{Bytes, as_bytes, IsStr, from_utf8-as_bytes}
use core_swift_crm.SecretBox.Encryption.{
  Crypto, CryptoLaws, Nonce, split_at, encrypt_with, decrypt_with, decrypt_bytes, decrypt_parts,
  derive_key_from, encrypt_api_key, decrypt_api_key, env_secret, map_err, ok_or,
}

split_at-append :
    (n : ℕ) (front rest : Bytes) → length front ≡ n → split_at n (front ++ rest) ≡ (front, rest)
unfolding split_at
split_at-append zero [] rest h = refl
split_at-append zero (b ∷ front) rest h = absurd (omega arith)
split_at-append (suc n) [] rest h = absurd (omega arith)
split_at-append (suc n) (b ∷ front) rest h = rw (split_at-append n front rest (omega arith)) refl

map_err-ok {ℓ} : {A : Type ℓ} (what : _) (r : Result A _) (a : A) → map_err what r ≡ ok a → r ≡ ok a
map_err-ok what (ok b) a h = ap (λ b. ok b) (ok-inj b a h)
map_err-ok what (err e) a h = absurd (cc h)

pub ok_or-ok : (why : _) (r : Option Text) (v : Text) → ok_or r why ≡ ok v → r ≡ some v
ok_or-ok why none v h = absurd (cc h)
ok_or-ok why (some w) v h = ap (λ w. some w) (ok-inj w v h)

module _ (c : Crypto) (laws : CryptoLaws c) where
  decrypt_bytes-encrypt :
      (nonce : Nonce) (key ciphertext : Bytes) (p : Text)
      → IsStr p
      → c.encrypt key nonce.0 (as_bytes p) ≡ ok ciphertext
      → decrypt_bytes c key (nonce.0 ++ ciphertext) ≡ ok p
  unfolding decrypt_bytes decrypt_parts
  decrypt_bytes-encrypt nonce key ciphertext p str h =
      rw
        (
          split_at-append 12 nonce.0 ciphertext nonce.1,
          laws.decrypt-encrypt key nonce.0 (as_bytes p) ciphertext h,
          from_utf8-as_bytes p str,
          length-append nonce.0 ciphertext,
          nonce.1,
        )
        (ground arith)

  pub decrypt_with-encrypt_with :
      (nonce : Nonce) (secret : Text) (tenant_id : ℕ) (p ct : Text)
      → IsStr p
      → encrypt_with c nonce secret tenant_id p ≡ ok ct
      → decrypt_with c secret tenant_id ct ≡ ok p
  unfolding encrypt_with decrypt_with
  decrypt_with-encrypt_with nonce secret tenant_id p ct str h =
      with_ok
        (map_err "encrypt: " (c.encrypt (derive_key_from c secret tenant_id) nonce.0 (as_bytes p)))
        _ h
        λ ciphertext e r.
          let e' = map_err-ok _ _ ciphertext e in
          rw (← ok-inj _ ct r, laws.decode-encode (nonce.0 ++ ciphertext))
            (decrypt_bytes-encrypt nonce (derive_key_from c secret tenant_id) ciphertext p str e')

  pub decrypt_api_key-encrypt_api_key :
      (var : Option Text) (nonce : Nonce) (tenant_id : ℕ) (p ct : Text)
      → IsStr p
      → encrypt_api_key c var nonce tenant_id p ≡ ok ct
      → decrypt_api_key c var tenant_id ct ≡ ok p
  unfolding encrypt_api_key decrypt_api_key
  decrypt_api_key-encrypt_api_key var nonce tenant_id p ct str h =
      with_ok (ok_or (env_secret var) _) _ h λ secret e r.
        rw (ok_or-ok _ (env_secret var) secret e)
          (decrypt_with-encrypt_with nonce secret tenant_id p ct str r)
