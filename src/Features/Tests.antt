-- ===== src/Features/Tests.antt =====
-- A workspace at a plan's limits, and the theorems at it. Numbers are natural ones here.
use core_swift_crm.Prelude.{
  ℕ, ◌+◌, ◌-◌, String, ◌≡◌, ◌↔◌, refl, true, false, none, some, [], ◌∷◌, ok,
}
use core_swift_crm.Prelude.Int.{ℤ, pos}
use core_swift_crm.Prelude.Tables.{select, select_one, update}
use core_swift_crm.Text.{codes, text_eq}
use core_swift_crm.Entitlements.{Registry, resolve}
use core_swift_crm.Features.{
  Float, Usage, usage_ceiling, enforce_usage_limit, get_usage_json, count_contacts,
  enforce_feature_flag, meter_api_call, api_calls_per_day_key, count_api_calls_today, gate_mw,
}
use core_swift_crm.Features.Ceilings.{
  is_ok, HasRoom, enforce_usage_limit_iff, contacts_over_limit-refused,
}
use core_swift_crm.Features.Meter.{min, meter_times, meter_times_budget}

abbrev natural : Float ℕ
natural = record { is_negative = λ _. false; floor_as_i64 = λ n. pos n }

abbrev show : ℤ → String
show n = "n"

abbrev registry : Registry ℕ
registry = record {
  tenant_plans =
      record { tenant_id = 5; plan_id = 2; is_active = true; feature_overrides = none } ∷ [];
  modules = record { id = 1; key = codes "tickets"; is_active = true } ∷ [];
  plan_modules = [];
  module_features =
      record { id = 9; key = codes "limit_max_contacts"; is_active = true }
      ∷ record { id = 8; key = codes "limit_api_calls_per_day"; is_active = true }
      ∷ [];
  plan_module_features =
      record { plan_id = 2; module_feature_id = 9; enabled = true; limit_value = some 1 }
      ∷ record { plan_id = 2; module_feature_id = 8; enabled = true; limit_value = some 3 }
      ∷ [];
}

abbrev usage : Usage
usage = record {
  contacts = 5 ∷ 5 ∷ 6 ∷ [];
  pipelines = [];
  integrations = [];
  tickets = 5 ∷ [];
  users = [];
  api_call_usage = record { tenant_id = 5; calls = 2 } ∷ [];
}

run : Unit {0}
unfolding resolve text_eq select_one select update usage_ceiling enforce_usage_limit get_usage_json
    enforce_feature_flag meter_api_call count_api_calls_today gate_mw
run = tt

over_limit : (get_usage_json natural registry usage 5).contacts_over_limit ≡ true
unfolding run
over_limit = refl

call_ceiling : usage_ceiling natural registry 5 api_calls_per_day_key ≡ some (pos 3)
unfolding run
call_ceiling = refl

gate_refuses :
    is_ok (gate_mw (λ _. some 5) registry (codes "tickets") "Tickets" (some (codes "5"))) ≡ false
unfolding run
gate_refuses = refl

enforce_usage_limit_iff_example :
    (enforce_usage_limit natural show registry 5
        (codes "limit_max_contacts")
        "Contact"
        "contacts"
        (pos 0)
      ≡ ok (some (pos 1)))
    ↔ ((usage_ceiling natural registry 5 (codes "limit_max_contacts") ≡ some (pos 1))
        × HasRoom (some (pos 1)) (pos 0))
enforce_usage_limit_iff_example =
    enforce_usage_limit_iff natural show registry 5 (codes "limit_max_contacts") "Contact"
      "contacts" (pos 0) (some (pos 1))

contacts_over_limit-refused_example :
    is_ok (
      enforce_usage_limit natural show registry 5
        (codes "limit_max_contacts")
        "Contact"
        "contacts"
        (pos (count_contacts usage 5)))
    ≡ false
contacts_over_limit-refused_example =
    contacts_over_limit-refused natural show registry 5 usage "Contact" "contacts" over_limit

meter_times_budget_example :
    ((meter_times natural show registry 5 "API" 4 usage.api_call_usage).0
      ≡ min 4 (3 - count_api_calls_today usage.api_call_usage 5))
    × (count_api_calls_today (meter_times natural show registry 5 "API" 4 usage.api_call_usage).1 5
        ≡ count_api_calls_today usage.api_call_usage 5
          + min 4 (3 - count_api_calls_today usage.api_call_usage 5))
meter_times_budget_example =
    meter_times_budget natural show registry 5 "API" 3 4 usage.api_call_usage call_ceiling
