-- ===== src/SecretBox/Sealed.antt =====
-- What a sealed secret is opened to.
use core_swift_crm.Prelude.{
  ℕ, String, with_ok, ◌≡◌, refl, ap, true, false, Option, none, some, [], ◌∷◌, ◌++◌, arith, Result,
  ok, err, inl, inr, ok-inj, Bool-cases,
}
use core_swift_crm.Text.{Text, is_empty, starts_with, strip_prefix}
use core_swift_crm.Text.Prefix.{strip_prefix_iff}
use core_swift_crm.Text.Utf8.{Bytes, from_utf8, IsStr, from_utf8-IsStr}
use core_swift_crm.SecretBox.{
  seal, open_configured, opens_with_configured, open_legacy, open_secret, is_sealed, sealed_prefix,
  to_option, unwrap_or, or_else,
}
use core_swift_crm.SecretBox.Encryption.{
  Crypto, CryptoLaws, Nonce, decrypt_with, decrypt_bytes, decrypt_parts, decrypt_api_key_legacy,
  derive_key_from, env_secret, legacy_default_secret, split_at, map_err, ok_or, encrypt_api_key,
  decrypt_api_key,
}
use core_swift_crm.SecretBox.RoundTrip.{ok_or-ok, decrypt_api_key-encrypt_api_key}

pub starts_with-append : (p t : Text) → starts_with (p ++ t) p ≡ true
unfolding starts_with
starts_with-append [] t = refl
starts_with-append (c ∷ p) t = ground (arith, starts_with-append p t)

module _ (c : Crypto) (laws : CryptoLaws c) (var : Option Text) where
  -- A secret that is not empty is sealed only as the prefix and its encryption.
  seal-eq-ok :
      (nonce : Nonce) (tenant_id : ℕ) (p s : Text)
      → is_empty p ≡ false
      → seal c var nonce tenant_id p ≡ ok s
      → (ct : Text) × (encrypt_api_key c var nonce tenant_id p ≡ ok ct) × (s ≡ sealed_prefix ++ ct)
  unfolding seal
  seal-eq-ok nonce tenant_id p s full h = ground arith

  module _ (nonce : Nonce) (tenant_id : ℕ) (p s : Text) (str : IsStr p) where
    open_configured-seal :
        (ct : Text)
        → encrypt_api_key c var nonce tenant_id p ≡ ok ct
        → open_configured c var tenant_id ct ≡ some p
    unfolding open_configured
    open_configured-seal ct e =
        rw (decrypt_api_key-encrypt_api_key c laws var nonce tenant_id p ct str e) refl

    pub seal-IsSealed :
        is_empty p ≡ false
        → seal c var nonce tenant_id p ≡ ok s
        → (is_sealed s ≡ true)
          × (opens_with_configured c var tenant_id s ≡ true)
          × (open_secret c var tenant_id s ≡ p)
    unfolding is_sealed opens_with_configured open_secret
    seal-IsSealed full h =
        let (ct, e, eq) = seal-eq-ok nonce tenant_id p s full h in
        let stripped = (strip_prefix_iff s sealed_prefix ct).1 eq in
        (
          rw eq (starts_with-append sealed_prefix ct),
          rw (stripped, open_configured-seal ct e) refl,
          rw (stripped, open_configured-seal ct e, eq) refl,
        )

  seal_empty :
      (nonce : Nonce) (tenant_id : ℕ) (p s : Text)
      → is_empty p ≡ true
      → seal c var nonce tenant_id p ≡ ok s
      → open_secret c var tenant_id s ≡ p
  unfolding seal open_secret
  seal_empty nonce tenant_id [] s e h = rw (← ok-inj [] s h) refl
  seal_empty nonce tenant_id (ch ∷ p) s e h = absurd (cc e)

  -- What `seal` returns for a text, with any nonce, opens to that text, if what the libraries encrypt
  -- and encode they decrypt and decode.
  pub open_secret-seal :
      (nonce : Nonce) (tenant_id : ℕ) (p s : Text)
      → IsStr p
      → seal c var nonce tenant_id p ≡ ok s
      → open_secret c var tenant_id s ≡ p
  open_secret-seal nonce tenant_id p s str h = elim (Bool-cases (is_empty p)) [
    | inl nothing ↦ seal_empty nonce tenant_id p s nothing h
    | inr full ↦ (seal-IsSealed nonce tenant_id p s str full h).2
  ]

module _ (c : Crypto) (secret : Text) (tenant_id : ℕ) (value p : Text) where
  decrypt_parts-IsStr :
      (key : Bytes) (parts : Bytes × Bytes) → decrypt_parts c key parts ≡ ok p → IsStr p
  unfolding decrypt_parts
  decrypt_parts-IsStr key parts h =
      with_ok (map_err "decrypt: " (c.decrypt key parts.0 parts.1)) _ h
        λ plaintext _ here. from_utf8-IsStr plaintext p (ok_or-ok _ (from_utf8 plaintext) p here)

  pub decrypt_with-IsStr : decrypt_with c secret tenant_id value ≡ ok p → IsStr p
  unfolding decrypt_with decrypt_bytes
  decrypt_with-IsStr h =
      let key = derive_key_from c secret tenant_id in
      with_ok (map_err "base64 decode: " (c.decode value)) _ h
        λ combined _ here. decrypt_parts-IsStr key (split_at 12 combined) (ground (arith, here))

to_option-eq-some : (r : Result Text String) (p : Text) → to_option r ≡ some p → r ≡ ok p
to_option-eq-some (ok t) p h = ap (λ t. elim t [ none ↦ ok p | some t ↦ ok t ]) h
to_option-eq-some (err e) p h = absurd (cc h)

module _ (c : Crypto) (var : Option Text) (tenant_id : ℕ) where
  open_legacy-IsStr : (value p : Text) → open_legacy c var tenant_id value ≡ some p → IsStr p
  unfolding open_legacy decrypt_api_key_legacy
  open_legacy-IsStr value p h =
      decrypt_with-IsStr c legacy_default_secret tenant_id value p (to_option-eq-some _ p h)

  open_configured-IsStr :
      (value p : Text) → open_configured c var tenant_id value ≡ some p → IsStr p
  unfolding open_configured decrypt_api_key
  open_configured-IsStr value p h =
      with_ok (ok_or (env_secret var) _) _ (to_option-eq-some _ p h)
        λ secret _ here. decrypt_with-IsStr c secret tenant_id value p here

  -- Either key, and otherwise a text that stands in.
  either_key-IsStr :
      (value d : Text)
      → IsStr d
      → IsStr (
          unwrap_or
            (or_else (open_configured c var tenant_id value) (open_legacy c var tenant_id value))
            d)
  either_key-IsStr value d str =
      found (open_configured c var tenant_id value) (open_legacy c var tenant_id value)
        (open_configured-IsStr value) (open_legacy-IsStr value)
    where
      found :
          (a b : Option Text)
          → ((t : Text) → a ≡ some t → IsStr t)
          → ((t : Text) → b ≡ some t → IsStr t)
          → IsStr (unwrap_or (or_else a b) d)
      found (some t) b ha hb = ha t refl
      found none (some t) ha hb = hb t refl
      found none none ha hb = str

  -- What opens is a text, if what was stored is one.
  pub open_secret-IsStr :
      (stored : Text) → IsStr stored → IsStr (open_secret c var tenant_id stored)
  unfolding open_secret
  open_secret-IsStr [] str = tt
  open_secret-IsStr (ch ∷ stored) str = found (strip_prefix (ch ∷ stored) sealed_prefix)
    where
      found :
          (o : Option Text)
          → IsStr (elim o [
            | some ct ↦
                unwrap_or
                  (or_else (open_configured c var tenant_id ct) (open_legacy c var tenant_id ct))
                  []
            | none ↦
                unwrap_or
                  (or_else
                    (open_configured c var tenant_id (ch ∷ stored))
                    (open_legacy c var tenant_id (ch ∷ stored)))
                  (ch ∷ stored)
          ])
      found (some ct) = either_key-IsStr ct [] tt
      found none = either_key-IsStr (ch ∷ stored) (ch ∷ stored) str
