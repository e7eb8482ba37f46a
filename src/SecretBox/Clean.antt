-- ===== src/SecretBox/Clean.antt =====
-- What the audit finds, after a backfill and in general.
use core_swift_crm.Prelude.{
  ℕ, ◌≡◌, ◌≢◌, refl, ◌∙◌, true, false, Option, none, some, List, [], ◌∷◌, ◌++◌, arith, All,
  Bool-cases, Option-cases, inl, inr, ok, ◌⊎◌, String,
}
use core_swift_crm.Prelude.Tables.{select}
use core_swift_crm.Text.{Text, is_empty, starts_with, strip_prefix}
use core_swift_crm.Text.Utf8.{Bytes, IsStr, as_bytes}
use core_swift_crm.SecretBox.{
  SecretRow, stored_of, is_set, is_some, is_sealed, open_configured, open_legacy,
  opens_with_configured, open_secret, resealed, seal, backfill_provider_keys, to_option,
  sealed_prefix,
}
use core_swift_crm.SecretBox.Audit.{
  SecretAudit, audit_row, audit_each, audit_one_tenant_secret_column, no_finding,
}
use core_swift_crm.SecretBox.Encryption.{
  Crypto, CryptoLaws, Nonce, is_configured, env_secret, encrypt_with, encrypt_api_key,
  derive_key_from,
}
use core_swift_crm.SecretBox.Backfill.{
  HasKey, rewrite, after, after_all, set_secret, backfill_each_row, after-none, after-some,
}
use core_swift_crm.SecretBox.Kept.{rewrite-IsSealed}

strip_prefix-unsealed : (s p : Text) → starts_with s p ≡ false → strip_prefix s p ≡ none
unfolding starts_with strip_prefix
strip_prefix-unsealed s [] h = absurd (cc h)
strip_prefix-unsealed [] (q ∷ p) h = refl
strip_prefix-unsealed (ch ∷ s) (q ∷ p) h = ground (arith, strip_prefix-unsealed s p)

module _ (c : Crypto) (var : Option Text) where
  -- The column is not in the clear at this row.
  abbrev IsProtected : SecretRow → Type 0
  IsProtected r =
      (is_set r ≡ false)
      ⊎ (is_sealed (stored_of r) ≡ true)
      ⊎ (is_some (open_configured c var r.tenant_id (stored_of r)) ≡ true)
      ⊎ (is_some (open_legacy c var r.tenant_id (stored_of r)) ≡ true)

  audit_row-plaintext :
      (table column : String) (r : SecretRow) (out : SecretAudit)
      → is_set r ≡ true
      → IsProtected r
      → (audit_row c var table column r out).plaintext ≡ out.plaintext
  unfolding audit_row
  audit_row-plaintext table column r out set p = ground arith

  audit_each-plaintext :
      (table column : String) (rows : List SecretRow) (out : SecretAudit)
      → All IsProtected rows
      → (audit_each c var table column (select is_set rows) out).plaintext ≡ out.plaintext
  unfolding audit_each select
  audit_each-plaintext table column [] out h = refl
  audit_each-plaintext table column (r ∷ rows) out h = elim (Bool-cases (is_set r)) [
    | inl set ↦ rw set (
        audit_each-plaintext table column rows (audit_row c var table column r out) h.1
        ∙ audit_row-plaintext table column r out set h.0)
    | inr unset ↦ rw unset (audit_each-plaintext table column rows out h.1)
  ]

  module _ (r : SecretRow) (set : is_set r ≡ true) (unsealed : is_sealed (stored_of r) ≡ false)
      (shut : is_some (open_configured c var r.tenant_id (stored_of r)) ≡ false)
      (shut_legacy : is_some (open_legacy c var r.tenant_id (stored_of r)) ≡ false) where
    stripped : strip_prefix (stored_of r) sealed_prefix ≡ none
    unfolding is_sealed
    stripped = strip_prefix-unsealed (stored_of r) sealed_prefix unsealed

    plaintext-unopened : opens_with_configured c var r.tenant_id (stored_of r) ≡ false
    unfolding opens_with_configured
    plaintext-unopened = rw stripped shut

    -- A secret in the clear is opened to itself.
    plaintext-opened : is_empty (open_secret c var r.tenant_id (stored_of r)) ≡ false
    unfolding open_secret
    plaintext-opened = rw stripped (ground (arith, set, shut, shut_legacy))

-- The encryption of the library succeeds.
abbrev pub Encrypts : Crypto → Type 0
Encrypts c = (key nonce message : Bytes) → (ct : Bytes) × (c.encrypt key nonce message ≡ ok ct)

module _ (c : Crypto) (total : Encrypts c) (var : Option Text)
    (set : is_configured var ≡ true) where
  encrypt_with-total :
      (nonce : Nonce) (secret : Text) (tenant_id : ℕ) (p : Text)
      → (ct : Text) × (encrypt_with c nonce secret tenant_id p ≡ ok ct)
  unfolding encrypt_with
  encrypt_with-total nonce secret tenant_id p =
      let (ct, e) = total (derive_key_from c secret tenant_id) nonce.0 (as_bytes p) in
      (c.encode (nonce.0 ++ ct), rw e refl)

  encrypt_api_key-total :
      (nonce : Nonce) (tenant_id : ℕ) (p : Text)
      → (ct : Text) × (encrypt_api_key c var nonce tenant_id p ≡ ok ct)
  unfolding encrypt_api_key is_configured
  encrypt_api_key-total nonce tenant_id p = elim (Option-cases (env_secret var)) [
    | inl missing ↦ absurd (ground (arith, missing, set))
    | inr (secret, e) ↦ rw e (encrypt_with-total nonce secret tenant_id p)
  ]

  pub seal-total :
      (nonce : Nonce) (tenant_id : ℕ) (p : Text)
      → (s : Text) × (to_option (seal c var nonce tenant_id p) ≡ some s)
  unfolding seal
  seal-total nonce tenant_id [] = ([], refl)
  seal-total nonce tenant_id (ch ∷ p) =
      let (ct, e) = encrypt_api_key-total nonce tenant_id (ch ∷ p) in
      (sealed_prefix ++ ct, rw (set, e) refl)

  module _ (laws : CryptoLaws c) (draw : ℕ → Nonce) where
    -- A secret in the clear is written.
    written :
        (r : SecretRow)
        → is_set r ≡ true
        → is_sealed (stored_of r) ≡ false
        → is_some (open_configured c var r.tenant_id (stored_of r)) ≡ false
        → is_some (open_legacy c var r.tenant_id (stored_of r)) ≡ false
        → rewrite c var draw r ≢ none
    unfolding rewrite resealed
    written r here unsealed shut shut_legacy h =
        let unopened = plaintext-unopened c var r here unsealed shut shut_legacy in
        let opens = plaintext-opened c var r here unsealed shut shut_legacy in
        let (out, e) =
          seal-total (draw r.id) r.tenant_id (open_secret c var r.tenant_id (stored_of r)) in
        absurd (ground (arith, unopened, opens, e, h))

    -- A row that the backfill leaves alone is protected.
    unwritten-IsProtected : (r : SecretRow) → rewrite c var draw r ≡ none → IsProtected c var r
    unwritten-IsProtected r h = elim (Bool-cases (is_set r)) [
      | inr unset ↦ inl unset
      | inl set_here ↦ elim (Bool-cases (is_sealed (stored_of r))) [
        | inl sealed_here ↦ inr (inl sealed_here)
        | inr unsealed ↦
            elim (Bool-cases (is_some (open_configured c var r.tenant_id (stored_of r)))) [
              | inl opens ↦ inr (inr (inl opens))
              | inr shut ↦
                  elim (Bool-cases (is_some (open_legacy c var r.tenant_id (stored_of r)))) [
                    | inl opens ↦ inr (inr (inr opens))
                    | inr shut_legacy ↦ absurd (written r set_here unsealed shut shut_legacy h)
                  ]
            ]
      ]
    ]

    after-IsProtected :
        (r : SecretRow) → IsStr (stored_of r) → IsProtected c var (after c var draw r)
    unfolding set_secret
    after-IsProtected r str = elim (Option-cases (rewrite c var draw r)) [
      | inl same ↦ rw (after-none c var draw r same) (unwritten-IsProtected r same)
      | inr (out, new) ↦
          rw (after-some c var draw r out new)
            (inr (inl (rewrite-IsSealed c laws var draw r out str new).0))
    ]

    after_all-IsProtected :
        (rows : List SecretRow)
        → All (λ r. IsStr (stored_of r)) rows
        → All (IsProtected c var) (after_all c var draw rows)
    after_all-IsProtected [] h = tt
    after_all-IsProtected (r ∷ rows) h = (after-IsProtected r h.0, after_all-IsProtected rows h.1)

    -- With a configured master secret, the audit of a column after its backfill finds no secret in
    -- the clear.
    pub audit-backfill :
        (table column : String) (rows : List SecretRow)
        → HasKey rows
        → All (λ r. IsStr (stored_of r)) rows
        → (audit_one_tenant_secret_column c var table column
            (backfill_provider_keys c var draw rows).1
            no_finding).plaintext
          ≡ []
    unfolding audit_one_tenant_secret_column
    audit-backfill table column rows hk str = rw (backfill_each_row c var draw rows hk) (
        audit_each-plaintext c var table column (after_all c var draw rows) no_finding
          (after_all-IsProtected rows str))
