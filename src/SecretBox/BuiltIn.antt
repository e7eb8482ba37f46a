-- ===== src/SecretBox/BuiltIn.antt =====
-- What the audit makes of a secret that was sealed under the built-in key.
use core_swift_crm.Prelude.{ℕ, ◌≡◌, refl, true, Option, none, some, ◌∷◌, [], ◌++◌, err, String}
use core_swift_crm.Text.{Text, contains_char}
use core_swift_crm.Text.Prefix.{strip_prefix_iff}
use core_swift_crm.SecretBox.{
  SecretRow, stored_of, is_sealed, open_configured, open_legacy, opens_with_configured, open_secret,
  sealed_prefix,
}
use core_swift_crm.SecretBox.Audit.{SecretAudit, audit_row, sealed_unopened}
use core_swift_crm.SecretBox.Encryption.{Crypto, decrypt_api_key_legacy, decrypt_with}
use core_swift_crm.SecretBox.Sealed.{starts_with-append}

-- Base64 has no colon in its alphabet.
abbrev pub RefusesColon : Crypto → Type 0
RefusesColon c = (s : Text) → contains_char s b':' ≡ true → (why : String) × (c.decode s ≡ err why)

module _ (c : Crypto) (refuses : RefusesColon c) (var : Option Text) where
  -- The built-in key is tried on the whole value, prefix and all.
  open_legacy-sealed :
      (tenant_id : ℕ) (ct : Text) → open_legacy c var tenant_id (sealed_prefix ++ ct) ≡ none
  unfolding open_legacy decrypt_api_key_legacy decrypt_with contains_char
  open_legacy-sealed tenant_id ct = let (why, e) = refuses (sealed_prefix ++ ct) refl in rw e refl

  -- A secret that was sealed under the built-in key, so that `open` reads it, is reported by the
  -- audit as one that neither the configured nor the built-in key opens.
  pub audit-legacy :
      (table column : String) (r : SecretRow) (out : SecretAudit) (ct p : Text)
      → stored_of r ≡ sealed_prefix ++ ct
      → open_configured c var r.tenant_id ct ≡ none
      → open_legacy c var r.tenant_id ct ≡ some p
      → (open_secret c var r.tenant_id (stored_of r) ≡ p)
        × (audit_row c var table column r out ≡ record out {
          unreadable =
              out.unreadable
              ++ record {
                table = table;
                column = column;
                row_id = r.id;
                tenant_id = some r.tenant_id;
                reason = sealed_unopened;
              }
                ∷ [];
        })
  unfolding open_secret audit_row opens_with_configured is_sealed
  audit-legacy table column r out ct p stored shut opens =
      let stripped = (strip_prefix_iff (stored_of r) sealed_prefix ct).1 stored in
      (
        rw (stripped, shut, opens, stored) refl,
        rw
            (
              stripped,
              shut,
              stored,
              starts_with-append sealed_prefix ct,
              open_legacy-sealed r.tenant_id ct,
            )
            refl,
      )
