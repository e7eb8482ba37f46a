-- ===== src/SecretBox/Audit.antt =====
-- secret_box.rs: the audit of every stored secret that is in the clear or that cannot be opened.
-- `column` gives the rows of a table with one of its columns.
use core_swift_crm.Prelude.{
  ℕ, String, Bool, false, ◌||◌, Option, none, some, List, [], ◌∷◌, ◌++◌, if◌then◌else◌, leb, length,
  ok, err,
}
use core_swift_crm.Prelude.Tables.{select}
use core_swift_crm.Text.{Text}
use core_swift_crm.SecretBox.{
  SecretRow, is_set, stored_of, is_some, is_sealed, open_configured, opens_with_configured,
  open_legacy,
}
use core_swift_crm.SecretBox.Encryption.{Crypto}

pub record SecretFinding : Type 0 where
  pub table : String
  pub column : String
  pub row_id : ℕ
  pub tenant_id : Option ℕ
  pub reason : String

pub record SecretAudit : Type 0 where
  pub plaintext : List SecretFinding
  pub unreadable : List SecretFinding

abbrev pub no_finding : SecretAudit
no_finding = record { plaintext = []; unreadable = [] }

abbrev pub sealed_unopened : String
sealed_unopened =
    "enc:v1:-sealed but neither the configured nor the built-in key opens it (rotated or lost master key, or written by another deployment)"

abbrev pub shaped_unopened : String
shaped_unopened =
    "ciphertext this tenant's key cannot open (rotated secret, or written by another deployment)"

abbrev pub in_the_clear : String
in_the_clear =
    "not enc:v1:-sealed and not decryptable ciphertext — this looks like a plaintext credential"

abbrev global_row : String
global_row = "global config row: no tenant key to seal with, so the value must stay empty"

module _ (c : Crypto) (var : Option Text) where
  unfoldable pub ciphertext_shaped : Text → Bool
  ciphertext_shaped stored = elim (c.decode stored) [
    | ok bytes ↦ leb 28 (length bytes)
    | err e ↦ false
  ]

  -- One round of the loop.
  unfoldable pub audit_row : String → String → SecretRow → SecretAudit → SecretAudit
  unfolding is_sealed opens_with_configured open_configured open_legacy ciphertext_shaped
  audit_row table column r out =
      if is_sealed stored
      then (if opens_with_configured c var tenant_id stored
            || is_some (open_legacy c var tenant_id stored)
          then out
          else record out { unreadable = out.unreadable ++ finding sealed_unopened ∷ [] })
      else if is_some (open_configured c var tenant_id stored)
          || is_some (open_legacy c var tenant_id stored)
      then out
      else if ciphertext_shaped stored
      then record out { unreadable = out.unreadable ++ finding shaped_unopened ∷ [] }
      else record out { plaintext = out.plaintext ++ finding in_the_clear ∷ [] }
    where
      stored : Text
      stored = stored_of r

      open r use {tenant_id}

      finding : String → SecretFinding
      finding reason = record {
        table = table;
        column = column;
        row_id = r.id;
        tenant_id = some tenant_id;
        reason = reason;
      }

  unfoldable pub audit_each : String → String → List SecretRow → SecretAudit → SecretAudit
  unfolding audit_row
  audit_each table column [] out = out
  audit_each table column (r ∷ rows) out =
      audit_each table column rows (audit_row table column r out)

  unfoldable pub audit_one_tenant_secret_column :
      String → String → List SecretRow → SecretAudit → SecretAudit
  unfolding audit_each
  audit_one_tenant_secret_column table column rows out =
      audit_each table column (select is_set rows) out

abbrev audit_global_each : String → String → List SecretRow → SecretAudit → SecretAudit
audit_global_each table column [] out = out
audit_global_each table column (r ∷ rows) out =
    audit_global_each table column rows (record out { plaintext = out.plaintext ++ found ∷ [] })
  where
    found : SecretFinding
    found = record {
      table = table;
      column = column;
      row_id = r.id;
      tenant_id = none;
      reason = global_row;
    }

-- A row of a global table has no tenant, and `tenant_id` of the row is not read.
unfoldable pub audit_one_global_secret_column :
    String → String → List SecretRow → SecretAudit → SecretAudit
audit_one_global_secret_column table column rows out =
    audit_global_each table column (select is_set rows) out

abbrev pub tenant_secret_columns : List (String × String)
tenant_secret_columns =
    ("provider_keys", "api_key")
    ∷ ("private_email_api_keys", "api_key_encrypted")
    ∷ ("private_email_domains", "mailgun_api_key")
    ∷ ("private_email_domains", "smtp_password_encrypted")
    ∷ ("private_email_domains", "webhook_signing_key_encrypted")
    ∷ ("integration_targets", "api_key")
    ∷ ("webhook_endpoints", "secret")
    ∷ ("booking_calendars", "google_refresh_token")
    ∷ []

abbrev pub global_secret_columns : List (String × String)
global_secret_columns = ("telnyx_config", "api_key") ∷ ("telnyx_config", "webhook_secret") ∷ []

abbrev each_column :
    (String → String → SecretAudit → SecretAudit)
    → List (String × String)
    → SecretAudit
    → SecretAudit
each_column audit [] out = out
each_column audit ((table, column) ∷ rest) out = each_column audit rest (audit table column out)

unfoldable pub audit_plaintext_secrets :
    Crypto → Option Text → (String → String → List SecretRow) → SecretAudit
unfolding audit_one_tenant_secret_column audit_one_global_secret_column
audit_plaintext_secrets c var rows_of =
    each_column (λ table column. audit_one_global_secret_column table column (rows_of table column))
      global_secret_columns
      (each_column
        (λ table column. audit_one_tenant_secret_column c var table column (rows_of table column))
        tenant_secret_columns no_finding)
