-- ===== src/Telnyx.antt =====
-- telnyx/verify.rs: the check of a signed delivery, and the guard against a replay.
-- `decode` is the base64 engine, `verify_signature` is ring's Ed25519 check of a key, a message and
-- a signature, and `parse` reads an `i64`. The detail texts of a refusal are left out.
pub mod Verified
pub mod Replay
mod Tests
use core_swift_crm.Prelude.{
  ℕ, suc, String, Bool, true, false, not, Option, none, some, List, ◌∷◌, ◌++◌, ◌==◌, if◌then◌else◌,
  any, length, Result, ok, err, ◌>>=◌,
}
use core_swift_crm.Prelude.Int.{ℤ, pos, negsuc, ◌-ℤ◌, leb_ℤ, max_ℤ, min_ℤ, wrap, i64_modulus}
use core_swift_crm.Prelude.Tables.{select}
use core_swift_crm.Text.{Text, is_empty, text_eq}
use core_swift_crm.Text.Trim.{trim}

abbrev pub ed25519_public_key_len : ℕ
ed25519_public_key_len = 32

abbrev pub ed25519_signature_len : ℕ
ed25519_signature_len = 64

abbrev i64_min : ℤ
i64_min = negsuc 0x7fffffffffffffff

abbrev i64_max : ℤ
i64_max = pos 0x7fffffffffffffff

-- `i64::saturating_sub`
unfoldable pub saturating_sub : ℤ → ℤ → ℤ
saturating_sub a b = min_ℤ (max_ℤ (a -ℤ b) i64_min) i64_max

-- `i64::abs`, which wraps at the least value.
unfoldable pub abs : ℤ → ℤ
abs (pos n) = pos n
abs (negsuc n) = wrap i64_modulus (pos (suc n))

pub record VerifiedDelivery : Type 0 where
  pub signature : Text
  pub timestamp : ℤ

pub record TelnyxRejection : Type 0 where
  pub status : ℕ
  pub reason : String

pub data HeaderName : Type 0 where
  telnyx_signature_ed25519 telnyx_timestamp : HeaderName

pub is_configuration : TelnyxRejection → Bool
is_configuration r = r.status == 503

-- A header, read as `to_str().ok()`, and the bytes of a text.
pub record Env : Type 0 where
  pub decode : Text → Option (List ℕ)
  pub verify_signature : (key message signature : List ℕ) → Bool
  pub parse : Text → Option ℤ
  pub as_bytes : Text → List ℕ

abbrev refusal : ℕ → String → TelnyxRejection
refusal status reason = record { status = status; reason = reason }

abbrev some_or {ℓ} : {A : Type ℓ} → TelnyxRejection → Option A → Result A TelnyxRejection
some_or e none = err e
some_or e (some a) = ok a

abbrev keep_if {ℓ} : {A : Type ℓ} → (A → Bool) → Option A → Option A
keep_if p none = none
keep_if p (some a) = if p a then some a else none

abbrev require : Bool → TelnyxRejection → Result (Unit {0}) TelnyxRejection
require true e = ok tt
require false e = err e

pub configured_key : Option Text → Result Text TelnyxRejection
configured_key none = err (refusal 503 "telnyx_verification_not_configured")
configured_key (some key) =
    if is_empty (trim key)
    then err (refusal 503 "telnyx_verification_not_configured")
    else ok (trim key)

pub header : (HeaderName → Option Text) → HeaderName → Result Text TelnyxRejection
header headers name =
    some_or (refusal 401 "telnyx_signature_missing")
      (keep_if (λ v. not (is_empty (trim v))) (headers name))

abbrev signed_message : Env → Text → List ℕ → List ℕ
signed_message env timestamp_raw body = env.as_bytes timestamp_raw ++ b'|' ∷ body

pub verify :
    Env
    → Option Text
    → (HeaderName → Option Text)
    → List ℕ
    → ℤ
    → ℤ
    → Result VerifiedDelivery TelnyxRejection
unfolding configured_key header saturating_sub abs
verify env public_key headers body now_unix tolerance_secs = configured_key public_key >>= λ key.
    header headers telnyx_signature_ed25519 >>= λ signature.
    header headers telnyx_timestamp >>= λ timestamp_raw.
    some_or (refusal 503 "telnyx_public_key_invalid")
      (keep_if (λ b. length b == ed25519_public_key_len) (env.decode key))
    >>= λ key_bytes.
        some_or (refusal 401 "telnyx_signature_verification_failed")
          (keep_if (λ b. length b == ed25519_signature_len) (env.decode (trim signature)))
        >>= λ signature_bytes.
            require
              (env.verify_signature key_bytes (signed_message env timestamp_raw body)
                signature_bytes)
              (refusal 401 "telnyx_signature_verification_failed")
            >>= λ _.
                some_or (refusal 401 "telnyx_timestamp_invalid") (env.parse (trim timestamp_raw))
                >>= λ timestamp.
                    require (leb_ℤ (abs (saturating_sub now_unix timestamp)) tolerance_secs)
                      (refusal 401 "telnyx_timestamp_out_of_tolerance")
                    >>= λ _. ok (record { signature = signature; timestamp = timestamp })

-- The map of the guard, from a signature to the time when it was acknowledged.
abbrev pub Seen : Type 0
Seen = List (Text × ℤ)

abbrev in_window : ℤ → ℤ → ℤ → Bool
in_window now_unix tolerance_secs at =
    leb_ℤ (saturating_sub now_unix at) (max_ℤ tolerance_secs (pos 0))

pub prune : Seen → ℤ → ℤ → Seen
unfolding saturating_sub
prune seen now_unix tolerance_secs =
    select (λ entry. in_window now_unix tolerance_secs entry.1) seen

pub contains_key : Text → Seen → Bool
contains_key signature seen = any (λ entry. text_eq entry.0 signature) seen

pub insert : Text → ℤ → Seen → Seen
insert signature now_unix seen =
    (signature, now_unix) ∷ select (λ entry. not (text_eq entry.0 signature)) seen

pub is_replayed : Text → ℤ → ℤ → Seen → Bool × Seen
unfolding prune contains_key
is_replayed signature now_unix tolerance_secs seen =
    let kept = prune seen now_unix tolerance_secs in (contains_key signature kept, kept)

pub ack : Text → ℤ → ℤ → Seen → Seen
unfolding prune insert
ack signature now_unix tolerance_secs seen =
    insert signature now_unix (prune seen now_unix tolerance_secs)

abbrev pub replayed_rejection : TelnyxRejection
replayed_rejection = refusal 401 "telnyx_signature_replayed"
