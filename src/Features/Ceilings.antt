-- ===== src/Features/Ceilings.antt =====
-- The gates and the readout decide by the same numbers.
use core_swift_crm.Prelude.{
  ℕ, String, Bool, true, false, ◌&&◌, not, Option, none, some, ◌≡◌, ◌≢◌, ◌↔◌, arith, Result, ok,
  err, if◌then◌else◌, ltb,
}
use core_swift_crm.Prelude.Int.{ℤ, pos, ◌<ℤ◌}
use core_swift_crm.Errors.{AppError}
use core_swift_crm.Text.{Text, codes}
use core_swift_crm.Entitlements.{Registry}
use core_swift_crm.Features.{
  Float, Usage, usage_ceiling, enforce_ceiling, over, enforce_usage_limit, feature_gate_open,
  enforce_feature_flag, get_usage_json, count_contacts, count_tickets,
}

-- A row may be added.
abbrev pub HasRoom : Option ℤ → ℤ → Type 0
HasRoom none usage = Unit
HasRoom (some limit) usage = usage <ℤ limit

abbrev pub is_ok {ℓ κ} : {A : Type ℓ} {E : Type κ} → Result A E → Bool
is_ok (ok a) = true
is_ok (err e) = false

enforce_ceiling_iff :
    (show : ℤ → String) (label plural : String) (usage : ℤ) (limit ceiling : Option ℤ)
    → (enforce_ceiling show label plural usage limit ≡ ok ceiling)
      ↔ ((limit ≡ ceiling) × HasRoom ceiling usage)
unfolding enforce_ceiling
enforce_ceiling_iff show label plural usage none none = ground arith
enforce_ceiling_iff show label plural usage none (some c) = ground arith
enforce_ceiling_iff show label plural usage (some limit) none = ground arith
enforce_ceiling_iff show label plural usage (some limit) (some c) = ground arith

enforce_ceiling-over :
    (show : ℤ → String) (label plural : String) (n : ℕ) (limit : Option ℤ)
    → over n limit ≡ true
    → is_ok (enforce_ceiling show label plural (pos n) limit) ≡ false
unfolding enforce_ceiling
enforce_ceiling-over show label plural n none h = ground arith
enforce_ceiling-over show label plural n (some limit) h = ground arith

abbrev gate_answer : Bool → AppError → Result (Unit {0}) AppError
gate_answer readable e = if readable then ok tt else err e

support :
    (n : ℕ) (readable : Bool) (e : AppError)
    → ((ltb 0 n && not readable) ≡ true) ↔ ((n ≢ 0) × (is_ok (gate_answer readable e) ≡ false))
support n true e = ground arith
support n false e = ground arith

module _ {F : Type 0} (fl : Float F) (show : ℤ → String) (reg : Registry F) (tenant_id : ℕ) where
  -- A request to add is let through exactly when the usage is under the ceiling, or there is none;
  -- it is told that ceiling.
  pub enforce_usage_limit_iff :
      (key : Text) (label plural : String) (usage : ℤ) (ceiling : Option ℤ)
      → (enforce_usage_limit fl show reg tenant_id key label plural usage ≡ ok ceiling)
        ↔ ((usage_ceiling fl reg tenant_id key ≡ ceiling) × HasRoom ceiling usage)
  unfolding enforce_usage_limit
  enforce_usage_limit_iff key label plural usage ceiling =
      enforce_ceiling_iff show label plural usage (usage_ceiling fl reg tenant_id key) ceiling

  -- Whenever the readout says that the contacts are over the limit, a call of `enforce_usage_limit`
  -- for the limit of the contacts, with the same count, is refused. This says nothing of the paths
  -- that add contacts without that call.
  pub contacts_over_limit-refused :
      (db : Usage) (label plural : String)
      → (get_usage_json fl reg db tenant_id).contacts_over_limit ≡ true
      → is_ok (
          enforce_usage_limit fl show reg tenant_id
            (codes "limit_max_contacts")
            label
            plural
            (pos (count_contacts db tenant_id)))
        ≡ false
  unfolding get_usage_json enforce_usage_limit
  contacts_over_limit-refused db label plural h =
      enforce_ceiling-over show label plural (count_contacts db tenant_id)
        (usage_ceiling fl reg tenant_id (codes "limit_max_contacts")) h

  -- The readout reports requests that the workspace cannot open exactly when it holds a ticket and
  -- the gate of the help desk refuses it.
  pub support_intake_unreadable_iff :
      (db : Usage) (label : String)
      → ((get_usage_json fl reg db tenant_id).support_intake_unreadable ≡ true) ↔ (
          (count_tickets db tenant_id ≢ 0)
          × (is_ok (enforce_feature_flag reg tenant_id (codes "tickets") label) ≡ false))
  unfolding get_usage_json enforce_feature_flag
  support_intake_unreadable_iff db label =
      support (count_tickets db tenant_id) (feature_gate_open reg tenant_id (codes "tickets")) _
