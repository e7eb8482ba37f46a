-- ===== src/Telnyx/Tests.antt =====
-- A delivery and its replay, and the theorems at them.
use core_swift_crm.Prelude.{
  ℕ, suc, ◌≡◌, refl, true, false, if◌then◌else◌, Option, some, List, [], ◌∷◌, ok, err, arith,
}
use core_swift_crm.Prelude.Int.{ℤ, pos, ◌-ℤ◌, ◌≤ℤ◌, wrap}
use core_swift_crm.Prelude.Tables.{select}
use core_swift_crm.Text.{Text, codes, text_eq, is_whitespace}
use core_swift_crm.Text.Trim.{trim}
use core_swift_crm.Telnyx.{
  Env, HeaderName, telnyx_signature_ed25519, telnyx_timestamp, VerifiedDelivery, verify,
  is_replayed, ack, is_configuration,
}
use core_swift_crm.Telnyx.Verified.{IsVerified, verify-IsVerified}
use core_swift_crm.Telnyx.Replay.{ack_all, is_replayed-ack}

abbrev zeros : ℕ → List ℕ
zeros Prim.Native.Nat.zero = []
zeros (suc n) = 0 ∷ zeros n

abbrev decode : Text → Option (List ℕ)
decode s = if text_eq s (codes "key") then some (zeros 32) else some (zeros 64)

abbrev env : Env
env = record {
  decode = decode;
  verify_signature = λ _ _ _. true;
  parse = λ _. some (pos 1000);
  as_bytes = λ s. s;
}

abbrev headers : HeaderName → Option Text
headers telnyx_signature_ed25519 = some (codes "sig")
headers telnyx_timestamp = some (codes "1000")

abbrev delivery : VerifiedDelivery
delivery = record { signature = codes "sig"; timestamp = pos 1000 }

run : Unit {0}
unfolding verify trim is_whitespace select text_eq is_replayed ack wrap ◌-ℤ◌ is_configuration
run = tt

accepted : verify env (some (codes "key")) headers [] (pos 1200) (pos 300) ≡ ok delivery
unfolding run
accepted = refl

refused :
    (verify env (some (codes "key")) headers [] (pos 1301) (pos 300)
      ≡ err (record { status = 401; reason = "telnyx_timestamp_out_of_tolerance" }))
    × (verify env (some (codes " ")) headers [] (pos 1200) (pos 300)
        ≡ err (record { status = 503; reason = "telnyx_verification_not_configured" }))
unfolding run
refused = (refl, refl)

-- A delivery dated 300 seconds ahead is forgotten while its date is still in tolerance.
forgotten :
    ((is_replayed (codes "sig") (pos 1001) (pos 300) (ack (codes "sig") (pos 700) (pos 300) [])).0
      ≡ false)
    × (verify env (some (codes "key")) headers [] (pos 700) (pos 300) ≡ ok delivery)
    × (verify env (some (codes "key")) headers [] (pos 1001) (pos 300) ≡ ok delivery)
unfolding run
forgotten = (refl, refl, refl)

parsed : (s : Text) (t : ℤ) → env.parse s ≡ some t → t ≤ℤ pos 0x7fffffffffffffff
parsed s t e = ground (arith, e)

verify-IsVerified_example :
    IsVerified env (some (codes "key")) headers [] (pos 1200) (pos 300) delivery
verify-IsVerified_example =
    verify-IsVerified env (some (codes "key")) headers [] (pos 1200) (pos 300) delivery
      (omega arith) (omega arith) parsed accepted

in_window : pos 1200 -ℤ pos 1000 ≤ℤ pos 300
unfolding run
in_window = omega arith

is_replayed-ack_example :
    (is_replayed (codes "sig") (pos 1200) (pos 300) (
      ack_all
        (pos 300)
        ((codes "other", pos 1100) ∷ [])
        (ack (codes "sig") (pos 1000) (pos 300) []))).0
    ≡ true
is_replayed-ack_example =
    is_replayed-ack (codes "sig") (pos 1000) (pos 1200) (pos 300) ((codes "other", pos 1100) ∷ [])
      [] ((omega arith, omega arith), tt) in_window
