-- ===== src/SecretBox.antt =====
-- secret_box.rs: third-party credentials at rest, sealed under the master secret of the
-- environment; the startup backfills, and the storage guards that they make valid. A statement
-- succeeds; `draw` gives the random nonce of a seal by the row that it is for.
pub mod Audit
pub mod Backfill
pub mod BuiltIn
pub mod Clean
pub mod Encryption
pub mod Kept
pub mod RoundTrip
pub mod Sealed
pub mod Settled
mod Tests
use Prim.Native.String
use core_swift_crm.Prelude.{
  ℕ, suc, ◌+◌, String, Bool, true, false, not, ◌&&◌, Option, none, some, List, [], ◌∷◌, ◌++◌, ◌==◌,
  if◌then◌else◌, ltb, length, Result, ok, err,
}
use core_swift_crm.Prelude.Tables.{select, update}
use core_swift_crm.Errors.{AppError, internal}
use core_swift_crm.Text.{Text, codes, is_empty, starts_with, strip_prefix}
use core_swift_crm.Text.Trim.{trim}
use Encryption.{
  Crypto, Nonce, is_configured, encrypt_api_key, decrypt_api_key, decrypt_api_key_legacy,
}

abbrev pub sealed_prefix : Text
sealed_prefix = codes "enc:v1:"

unfoldable pub is_sealed : Text → Bool
is_sealed stored = starts_with stored sealed_prefix

-- `.ok()`
abbrev pub to_option {ℓ κ} : {A : Type ℓ} {E : Type κ} → Result A E → Option A
to_option (ok a) = some a
to_option (err e) = none

abbrev pub is_some : Option Text → Bool
is_some none = false
is_some (some v) = true

abbrev pub unwrap_or : Option Text → Text → Text
unwrap_or none d = d
unwrap_or (some v) d = v

abbrev pub or_else : Option Text → Option Text → Option Text
or_else none d = d
or_else (some v) d = some v

-- A row of a table with one secret column; the column may be NULL.
pub record SecretRow : Type 0 where
  pub id : ℕ
  pub tenant_id : ℕ
  pub secret : Option Text

-- `COALESCE(secret, '')`
abbrev pub stored_of : SecretRow → Text
stored_of r = unwrap_or r.secret []

-- `secret IS NOT NULL AND secret <> ''`
abbrev pub is_set : SecretRow → Bool
is_set r = not (is_empty (stored_of r))

pub record Backfilled : Type 0 where
  pub rows : List SecretRow
  pub sealed : ℕ
  pub rekeyed : ℕ
  pub unreadable : ℕ

abbrev write_secret : ℕ → Text → List SecretRow → List SecretRow
write_secret id out rows = update (λ r. r.id == id) (λ r. record r { secret = some out }) rows

module _ (c : Crypto) (var : Option Text) where
  unfoldable pub seal : Nonce → ℕ → Text → Result Text AppError
  seal nonce tenant_id plaintext =
      if is_empty plaintext
      then ok []
      else if not (is_configured var)
      then err (
          internal
            "Refusing to store a credential: the server's encryption key is not configured. An operator must set CORESWIFT_SECRET in the environment.")
      else elim (encrypt_api_key c var nonce tenant_id plaintext) [
        | ok ct ↦ ok (sealed_prefix ++ ct)
        | err e ↦ err (internal (String.◌++◌ "failed to seal provider key: " e))
      ]

  unfoldable pub open_configured : ℕ → Text → Option Text
  open_configured tenant_id value = to_option (decrypt_api_key c var tenant_id value)

  unfoldable pub opens_with_configured : ℕ → Text → Bool
  unfolding open_configured
  opens_with_configured tenant_id stored =
      let body = unwrap_or (strip_prefix stored sealed_prefix) stored in
      is_some (open_configured tenant_id body)

  unfoldable pub open_legacy : ℕ → Text → Option Text
  open_legacy tenant_id value = to_option (decrypt_api_key_legacy c tenant_id value)

  unfoldable pub open_secret : ℕ → Text → Text
  unfolding open_configured open_legacy
  open_secret tenant_id stored =
      if is_empty stored then [] else elim (strip_prefix stored sealed_prefix) [
        | some ct ↦ unwrap_or (or_else (open_configured tenant_id ct) (open_legacy tenant_id ct)) []
        | none ↦
            unwrap_or (or_else (open_configured tenant_id stored) (open_legacy tenant_id stored))
              stored
      ]

  pub open_is_empty : ℕ → Text → Bool
  unfolding open_secret
  open_is_empty tenant_id stored = is_empty (trim (open_secret tenant_id stored))

  -- What is written to a row, if anything is.
  unfoldable pub resealed : Nonce → SecretRow → Option Text
  unfolding seal open_secret
  resealed nonce r = to_option (seal nonce r.tenant_id (open_secret r.tenant_id (stored_of r)))

  -- One round of the loop.
  unfoldable pub backfill_row : (ℕ → Nonce) → SecretRow → Backfilled → Backfilled
  unfolding opens_with_configured open_secret resealed is_sealed
  backfill_row draw r st =
      if opens_with_configured r.tenant_id (stored_of r)
      then st
      else if is_empty (open_secret r.tenant_id (stored_of r))
      then record st { unreadable = suc st.unreadable }
      else elim (resealed (draw r.id) r) [
        | none ↦ st
        | some out ↦
            let written = record st { rows = write_secret r.id out st.rows } in
            if is_sealed (stored_of r)
            then record written { rekeyed = suc st.rekeyed }
            else record written { sealed = suc st.sealed }
      ]

  unfoldable pub backfill_each : (ℕ → Nonce) → List SecretRow → Backfilled → Backfilled
  unfolding backfill_row
  backfill_each draw [] st = st
  backfill_each draw (r ∷ rows) st = backfill_each draw rows (backfill_row draw r st)

  unfoldable pub backfill : (ℕ → Nonce) → List SecretRow → Backfilled
  unfolding backfill_each
  backfill draw rows =
      backfill_each draw (select is_set rows)
        (record { rows = rows; sealed = 0; rekeyed = 0; unreadable = 0 })

  unfoldable pub backfill_provider_keys : (ℕ → Nonce) → List SecretRow → ℕ × List SecretRow
  unfolding backfill
  backfill_provider_keys draw rows =
      let st = backfill draw rows in (st.sealed + st.rekeyed, st.rows)

  unfoldable pub backfill_booking_calendar_tokens :
      (ℕ → Nonce) → List SecretRow → ℕ × List SecretRow
  unfolding backfill
  backfill_booking_calendar_tokens draw rows =
      let st = backfill draw rows in (st.sealed + st.rekeyed, st.rows)

  unfoldable pub backfill_integration_target_keys :
      (ℕ → Nonce) → List SecretRow → ℕ × List SecretRow
  unfolding backfill
  backfill_integration_target_keys draw rows =
      let st = backfill draw rows in (st.sealed + st.rekeyed, st.rows)

-- The CHECK constraint of a column, as the catalogue has it.
pub data Guard : Type 0 where
  missing not_valid validated : Guard

abbrev pub is_plaintext_row : SecretRow → Bool
is_plaintext_row r = is_set r && not (starts_with (stored_of r) sealed_prefix)

-- `ALTER TABLE … VALIDATE CONSTRAINT` refuses a constraint that is missing or that a row violates.
abbrev pub validate_constraint : List SecretRow → Guard → Result Guard AppError
validate_constraint rows missing = err (AppError.database "constraint does not exist")
validate_constraint rows _ =
    if ltb 0 (length (select is_plaintext_row rows))
    then err (AppError.database "check constraint is violated by some row")
    else ok validated

-- The answer, and the guard afterwards.
abbrev pub validate_armed : List SecretRow → Guard → Result (Bool × Guard) AppError
validate_armed rows guard =
    if ltb 0 (length (select is_plaintext_row rows))
    then ok (false, guard)
    else elim (validate_constraint rows guard) [ ok g ↦ ok (true, g) | err e ↦ err e ]

unfoldable pub validate_provider_key_guard : List SecretRow → Guard → Result (Bool × Guard) AppError
validate_provider_key_guard rows guard = validate_armed rows guard

unfoldable pub validate_webhook_guard : List SecretRow → Guard → Result (Bool × Guard) AppError
validate_webhook_guard rows guard = validate_armed rows guard

-- A missing guard is armed first.
abbrev pub armed : Guard → Guard
armed missing = not_valid
armed g = g

unfoldable pub validate_booking_calendar_guard :
    List SecretRow → Guard → Result (Bool × Guard) AppError
validate_booking_calendar_guard rows guard = validate_armed rows (armed guard)

unfoldable pub validate_integration_target_guard :
    List SecretRow → Guard → Result (Bool × Guard) AppError
validate_integration_target_guard rows guard = validate_armed rows (armed guard)
