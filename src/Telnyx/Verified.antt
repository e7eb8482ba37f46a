-- ===== src/Telnyx/Verified.antt =====
-- What an accepted delivery has shown.
use core_swift_crm.Prelude.{
  ℕ, Bool, true, false, Option, none, some, List, ◌≡◌, refl, arith, length, ok, with_ok, ok-inj,
  ◌==◌,
}
use mathlib.Core.Path.{subst}
use core_swift_crm.Prelude.Int.{
  ℤ, pos, negsuc, ◌-ℤ◌, ◌≤ℤ◌, ◌<ℤ◌, ◌+ℤ◌, +ℤ_parts, leb_ℤ, max_ℤ, min_ℤ, wrap, -ℤ_parts, pos_part,
  neg_part,
}
use core_swift_crm.Text.{Text}
use core_swift_crm.Text.Trim.{trim}
use core_swift_crm.Telnyx.{
  Env, HeaderName, telnyx_signature_ed25519, telnyx_timestamp, VerifiedDelivery, TelnyxRejection,
  some_or, keep_if, require, configured_key, header, signed_message, verify, saturating_sub, abs,
  ed25519_public_key_len, ed25519_signature_len,
}

some_or-eq-ok :
    {A : Type 0} (e : TelnyxRejection) (o : Option A) (a : A) → some_or e o ≡ ok a → o ≡ some a
some_or-eq-ok e none a h = ground arith
some_or-eq-ok e (some b) a h = ground arith

keep_if-eq-some :
    {A : Type 0} (p : A → Bool) (o : Option A) (a : A)
    → keep_if p o ≡ some a
    → (o ≡ some a) × (p a ≡ true)
keep_if-eq-some p none a h = ground arith
keep_if-eq-some p (some b) a h = ground arith

require-eq-ok : (b : Bool) (e : TelnyxRejection) {u : Unit {0}} → require b e ≡ ok u → b ≡ true
require-eq-ok true e h = refl
require-eq-ok false e h = ground arith

-- No further than `tolerance` from the clock, either way.
abbrev pub Near : ℤ → ℤ → ℤ → Type 0
Near now_unix timestamp tolerance =
    (now_unix -ℤ timestamp ≤ℤ tolerance) × (timestamp -ℤ now_unix ≤ℤ tolerance)

abs-clamped :
    (z tolerance : ℤ)
    → negsuc 0x7ffffffffffffffe ≤ℤ z
    → tolerance <ℤ pos 0x7fffffffffffffff
    → leb_ℤ (abs (min_ℤ (max_ℤ z (negsuc 0x7fffffffffffffff)) (pos 0x7fffffffffffffff))) tolerance
      ≡ true
    → (z ≤ℤ tolerance) × (pos (neg_part z) ≤ℤ pos (pos_part z) +ℤ tolerance)
unfolding abs wrap ◌+ℤ◌
abs-clamped (pos n) tolerance a b h = ground arith
abs-clamped (negsuc n) tolerance a b h = ground arith

Near-of :
    (now_unix timestamp tolerance : ℤ)
    → pos 0 ≤ℤ now_unix
    → timestamp ≤ℤ pos 0x7fffffffffffffff
    → tolerance <ℤ pos 0x7fffffffffffffff
    → leb_ℤ (abs (saturating_sub now_unix timestamp)) tolerance ≡ true
    → Near now_unix timestamp tolerance
unfolding saturating_sub
Near-of now_unix timestamp tolerance a b c h =
    let (low, high) =
      abs-clamped (now_unix -ℤ timestamp) tolerance
        (ground (arith, a, b, -ℤ_parts now_unix timestamp)) c h in
    (
      low,
      ground (
        arith,
        low,
        high,
        -ℤ_parts now_unix timestamp,
        -ℤ_parts timestamp now_unix,
        +ℤ_parts (pos (pos_part (now_unix -ℤ timestamp))) tolerance,
      ),
    )

-- What is true of a delivery that was accepted.
pub record IsVerified (env : Env) (public_key : Option Text) (headers : HeaderName → Option Text)
    (body : List ℕ) (now_unix tolerance : ℤ) (d : VerifiedDelivery) : Type 0 where
  pub key_text : Text
  pub key : List ℕ
  pub signature_bytes : List ℕ
  pub timestamp_raw : Text
  pub sent_signature : headers telnyx_signature_ed25519 ≡ some d.signature
  pub sent_timestamp : headers telnyx_timestamp ≡ some timestamp_raw
  pub configured : configured_key public_key ≡ ok key_text
  pub key_decoded : env.decode key_text ≡ some key
  pub key_length : length key ≡ ed25519_public_key_len
  pub signature_length : length signature_bytes ≡ ed25519_signature_len
  pub decoded : env.decode (trim d.signature) ≡ some signature_bytes
  pub signed :
      env.verify_signature key (signed_message env timestamp_raw body) signature_bytes ≡ true
  pub dated : env.parse (trim timestamp_raw) ≡ some d.timestamp
  pub in_tolerance : Near now_unix d.timestamp tolerance

header-eq-ok :
    (headers : HeaderName → Option Text) (name : HeaderName) (v : Text)
    → header headers name ≡ ok v
    → headers name ≡ some v
unfolding header
header-eq-ok headers name v h =
    (keep_if-eq-some _ (headers name) v (some_or-eq-ok _ (keep_if _ (headers name)) v h)).0

eq_of_== : (a b : ℕ) → (a == b) ≡ true → a ≡ b
eq_of_== a b h = ground arith

-- If the clock is not before 1970, the tolerance is less than the greatest `i64` and `parse` reads
-- an `i64`, an accepted delivery carries a signature by the 32-byte key of exactly its timestamp
-- header and body, and its time is within the tolerance of the clock.
pub verify-IsVerified :
    (env : Env) (public_key : Option Text) (headers : HeaderName → Option Text) (body : List ℕ)
    (now_unix tolerance : ℤ) (d : VerifiedDelivery)
    → pos 0 ≤ℤ now_unix
    → tolerance <ℤ pos 0x7fffffffffffffff
    → ((s : Text) (t : ℤ) → env.parse s ≡ some t → t ≤ℤ pos 0x7fffffffffffffff)
    → verify env public_key headers body now_unix tolerance ≡ ok d
    → IsVerified env public_key headers body now_unix tolerance d
unfolding verify
verify-IsVerified env public_key headers body now_unix tolerance d clock bounded parsed h =
    with_ok (configured_key public_key) _ h λ key h0 h1.
      with_ok (header headers telnyx_signature_ed25519) _ h1 λ signature h2 h3.
        with_ok (header headers telnyx_timestamp) _ h3 λ raw h4 h5.
          with_ok (some_or _ (keep_if _ (env.decode key))) _ h5 λ key_bytes h6 h7.
            with_ok (some_or _ (keep_if _ (env.decode (trim signature)))) _ h7 λ bytes h8 h9.
              with_ok
                (require (env.verify_signature key_bytes (signed_message env raw body) bytes) _) _
                h9
                λ u h10 h11. with_ok (some_or _ (env.parse (trim raw))) _ h11 λ timestamp h12 h13.
                  with_ok (require (leb_ℤ (abs (saturating_sub now_unix timestamp)) tolerance) _) _
                    h13
                    λ v h14 h15.
                      let key_kept =
                        keep_if-eq-some _ (env.decode key) key_bytes
                          (some_or-eq-ok _ _ key_bytes h6) in
                      let bytes_kept =
                        keep_if-eq-some _ (env.decode (trim signature)) bytes
                          (some_or-eq-ok _ _ bytes h8) in
                      let read = some_or-eq-ok _ (env.parse (trim raw)) timestamp h12 in
                      subst (IsVerified env public_key headers body now_unix tolerance)
                        (ok-inj _ d h15)
                        (record {
                          key_text = key;
                          key = key_bytes;
                          configured = h0;
                          key_decoded = key_kept.0;
                          signature_bytes = bytes;
                          timestamp_raw = raw;
                          sent_signature =
                              header-eq-ok headers telnyx_signature_ed25519 signature h2;
                          sent_timestamp = header-eq-ok headers telnyx_timestamp raw h4;
                          key_length =
                              eq_of_== (length key_bytes) ed25519_public_key_len key_kept.1;
                          signature_length =
                              eq_of_== (length bytes) ed25519_signature_len bytes_kept.1;
                          decoded = bytes_kept.0;
                          signed = require-eq-ok _ _ h10;
                          dated = read;
                          in_tolerance =
                              Near-of now_unix timestamp tolerance clock
                                (parsed (trim raw) timestamp read) bounded (require-eq-ok _ _ h14);
                        })
