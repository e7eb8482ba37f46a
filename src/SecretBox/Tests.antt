-- ===== src/SecretBox/Tests.antt =====
-- A cipher that adds a tag of the key, four rows, and the theorems at them.
use core_swift_crm.Prelude.{
  ℕ, ◌+◌, ◌-◌, ◌%◌, ◌≡◌, refl, arith, String, true, false, Option, none, some, List, [], ◌∷◌, ◌++◌,
  ◌==◌, leb, if◌then◌else◌, map, length, All, Result, ok, err, ok-inj,
}
use core_swift_crm.Prelude.Tables.{select, update}
use core_swift_crm.Text.{
  Text, codes, starts_with, strip_prefix, contains_char, byte_len, utf8_width,
}
use core_swift_crm.Text.Utf8.{Bytes, IsStr, as_bytes, char_bytes, from_utf8, decode_from, lead}
use core_swift_crm.SecretBox.{
  SecretRow, seal, open_secret, open_configured, open_legacy, opens_with_configured, is_sealed,
  sealed_prefix, backfill, backfill_each, backfill_row, resealed, backfill_provider_keys,
  validate_provider_key_guard, validate_integration_target_guard, missing, not_valid, validated,
  stored_of,
}
use core_swift_crm.SecretBox.Audit.{
  audit_row, audit_each, audit_one_tenant_secret_column, ciphertext_shaped, no_finding,
  sealed_unopened,
}
use core_swift_crm.SecretBox.Encryption.{
  Crypto, CryptoLaws, Nonce, env_secret, is_configured, split_at, derive_key_from, encrypt_with,
  decrypt_parts, decrypt_bytes, decrypt_with, encrypt_api_key, decrypt_api_key,
  decrypt_api_key_legacy,
}
use core_swift_crm.SecretBox.Sealed.{open_secret-seal}
use core_swift_crm.SecretBox.Backfill.{HasKey, backfill_each_row, count, after_all}
use core_swift_crm.SecretBox.Kept.{opened, backfill-opened}
use core_swift_crm.SecretBox.Clean.{Encrypts, audit-backfill}
use core_swift_crm.SecretBox.Settled.{backfill_idem}
use core_swift_crm.SecretBox.BuiltIn.{RefusesColon, audit-legacy}

abbrev tag : Bytes → ℕ
tag [] = 0
tag (b ∷ key) = (b + tag key) % 256

abbrev tagged : Bytes → Bytes → Bytes → Result Bytes String
tagged key fresh m = ok (tag key ∷ m)

abbrev untag : Bytes → Bytes → Bytes → Result Bytes String
untag key fresh [] = err "aead::Error"
untag key fresh (t ∷ m) = if t == tag key then ok m else err "aead::Error"

abbrev shift : Bytes → Text
shift [] = []
shift (b ∷ bytes) = (256 + b) ∷ shift bytes

abbrev unshift : Text → Result Bytes String
unshift [] = ok []
unshift (ch ∷ s) =
    let rest = unshift s in
    if leb 256 ch
    then elim rest [ ok bytes ↦ ok ((ch - 256) ∷ bytes) | err e ↦ err e ]
    else err "Invalid byte"

abbrev toy : Crypto
toy = record {
  sha256 = λ key. key;
  encrypt = tagged;
  decrypt = untag;
  encode = shift;
  decode = unshift;
  tenant_bytes = λ t. t ∷ [];
  utf8_error = "invalid utf-8";
}

unshift-shift : (bytes : Bytes) → unshift (shift bytes) ≡ ok bytes
unshift-shift [] = refl
unshift-shift (b ∷ bytes) = ground (arith, unshift-shift bytes)

untag-tagged : (key fresh m ct : Bytes) → tagged key fresh m ≡ ok ct → untag key fresh ct ≡ ok m
untag-tagged key fresh m ct h = rw (← ok-inj _ ct h) (ground arith)

toy_laws : CryptoLaws toy
toy_laws = record { decrypt-encrypt = untag-tagged; decode-encode = unshift-shift }

unshift-colon : (s : Text) → contains_char s b':' ≡ true → unshift s ≡ err "Invalid byte"
unfolding contains_char
unshift-colon [] h = absurd (cc h)
unshift-colon (ch ∷ s) h = ground (arith, unshift-colon s)

toy_refuses : RefusesColon toy
toy_refuses s h = ("Invalid byte", unshift-colon s h)

abbrev nonce : Nonce
nonce = (1 ∷ 2 ∷ 3 ∷ 4 ∷ 5 ∷ 6 ∷ 7 ∷ 8 ∷ 9 ∷ 10 ∷ 11 ∷ 12 ∷ [], refl)

abbrev draw : ℕ → Nonce
draw id = nonce

abbrev draw_zero : ℕ → Nonce
draw_zero id = (0 ∷ 0 ∷ 0 ∷ 0 ∷ 0 ∷ 0 ∷ 0 ∷ 0 ∷ 0 ∷ 0 ∷ 0 ∷ 0 ∷ [], refl)

-- 32 characters, one of them of two bytes.
abbrev var : Option Text
var = some (codes "0123456789abcdef0123456789abcdé")

abbrev unwrap : Result Text String → Text
unwrap (ok s) = s
unwrap (err e) = []

abbrev row : ℕ → Option Text → SecretRow
row id secret = record { id = id; tenant_id = 5; secret = secret }

-- The ciphertext of "old" under the built-in key, with the bytes of the key added up to the tag.
abbrev old_ciphertext : Text
old_ciphertext = shift (nonce.0 ++ (218 ∷ 111 ∷ 108 ∷ 100 ∷ []))

abbrev old_row : SecretRow
old_row = row 2 (some (sealed_prefix ++ old_ciphertext))

abbrev rows : List SecretRow
rows = row 1 (some (codes "clé")) ∷ old_row ∷ row 3 none ∷ row 4 (some []) ∷ []

toy_total : Encrypts toy
toy_total key fresh m = (tag key ∷ m, refl)

rows-HasKey : HasKey rows
rows-HasKey = ground arith

rows-IsStr : All (λ r. IsStr (stored_of r)) rows
rows-IsStr = ground arith

run : Unit {0}
unfolding seal open_secret open_configured open_legacy opens_with_configured is_sealed backfill
    backfill_each backfill_row resealed backfill_provider_keys audit_row audit_each
    ciphertext_shaped env_secret is_configured split_at derive_key_from encrypt_with decrypt_parts
    decrypt_bytes decrypt_with encrypt_api_key decrypt_api_key decrypt_api_key_legacy as_bytes
    char_bytes from_utf8 decode_from lead starts_with strip_prefix byte_len utf8_width select update
run = tt

opens : open_legacy toy var 5 old_ciphertext ≡ some (codes "old")
unfolding run
opens = refl

unopened : open_configured toy var 5 old_ciphertext ≡ none
unfolding run
unopened = refl

two_written : (backfill_provider_keys toy var draw rows).0 ≡ 2
unfolding run
two_written = refl

fails_closed : backfill_provider_keys toy none draw rows ≡ (0, rows)
unfolding run
fails_closed = refl

too_short : is_configured (some (codes "0123456789abcdef0123456789abcde")) ≡ false
unfolding run
too_short = refl

in_the_clear : length (audit_one_tenant_secret_column toy var "t" "c" rows no_finding).plaintext ≡ 1
unfolding run audit_one_tenant_secret_column
in_the_clear = refl

stays_armed : validate_provider_key_guard rows not_valid ≡ ok (false, not_valid)
unfolding run validate_provider_key_guard
stays_armed = refl

becomes_valid :
    validate_integration_target_guard (backfill_provider_keys toy var draw rows).1 missing
    ≡ ok (true, validated)
unfolding run validate_integration_target_guard
becomes_valid = refl

sealed_text : Text
unfolding run
sealed_text = sealed_prefix ++ unwrap (encrypt_api_key toy var nonce 5 (codes "clé"))

backfill_each_row_example :
    backfill_provider_keys toy var draw rows
    ≡ (count toy var draw rows, after_all toy var draw rows)
backfill_each_row_example = backfill_each_row toy var draw rows rows-HasKey

open_secret-seal_example : open_secret toy var 5 sealed_text ≡ codes "clé"
unfolding run sealed_text
open_secret-seal_example =
    open_secret-seal toy toy_laws var nonce 5 (codes "clé") sealed_text (refl, (refl, (refl, tt)))
      refl

backfill-opened_example :
    map (opened toy var) (backfill_provider_keys toy var draw rows).1 ≡ map (opened toy var) rows
backfill-opened_example = backfill-opened toy toy_laws var draw rows rows-HasKey rows-IsStr

audit-backfill_example :
    (audit_one_tenant_secret_column toy var "provider_keys" "api_key"
      (backfill_provider_keys toy var draw rows).1
      no_finding).plaintext
    ≡ []
unfolding run
audit-backfill_example =
    audit-backfill toy toy_total var refl toy_laws draw "provider_keys" "api_key" rows rows-HasKey
      rows-IsStr

backfill_idem_example :
    backfill_provider_keys toy var draw_zero (backfill_provider_keys toy var draw rows).1
    ≡ (0, (backfill_provider_keys toy var draw rows).1)
unfolding run
backfill_idem_example =
    backfill_idem toy toy_laws toy_total var refl draw draw_zero rows rows-HasKey rows-IsStr

audit-legacy_example :
    (open_secret toy var 5 (stored_of old_row) ≡ codes "old")
    × (audit_row toy var "provider_keys" "api_key" old_row no_finding ≡ record no_finding {
      unreadable =
          record {
            table = "provider_keys";
            column = "api_key";
            row_id = 2;
            tenant_id = some 5;
            reason = sealed_unopened;
          }
          ∷ [];
    })
unfolding run
audit-legacy_example =
    audit-legacy toy toy_refuses var "provider_keys" "api_key" old_row no_finding old_ciphertext
      (codes "old") refl refl refl
