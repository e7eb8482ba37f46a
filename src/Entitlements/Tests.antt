-- ===== src/Entitlements/Tests.antt =====
-- One plan with a module and a limit, and the theorem at it. Numbers are natural ones here.
use core_swift_crm.Prelude.{ℕ, ◌≡◌, ◌↔◌, refl, true, false, some, [], ◌∷◌}
use core_swift_crm.Prelude.Tables.{select_one}
use core_swift_crm.Text.{codes, text_eq}
use core_swift_crm.Entitlements.{Json, Fields, Registry, resolve, get}
use core_swift_crm.Entitlements.Granted.{Granted, resolve_enabled_iff}

abbrev ov : Json ℕ
ov = Json.object (Fields.field (codes "tickets") (Json.bool false) Fields.end)

abbrev registry : Registry ℕ
registry = record {
  tenant_plans =
      record { tenant_id = 5; plan_id = 2; is_active = true; feature_overrides = some ov } ∷ [];
  modules =
      record { id = 1; key = codes "tickets"; is_active = true }
      ∷ record { id = 4; key = codes "automation"; is_active = true }
      ∷ [];
  plan_modules =
      record { plan_id = 2; module_id = 1; enabled = true }
      ∷ record { plan_id = 2; module_id = 4; enabled = true }
      ∷ [];
  module_features = record { id = 9; key = codes "limit_max_contacts"; is_active = true } ∷ [];
  plan_module_features =
      record { plan_id = 2; module_feature_id = 9; enabled = true; limit_value = some 100 } ∷ [];
}

run : Unit {0}
unfolding resolve get text_eq select_one
run = tt

answers :
    ((resolve registry 5 (codes "tickets")).enabled ≡ false)
    × ((resolve registry 5 (codes "automation")).enabled ≡ true)
    × ((resolve registry 5 (codes "limit_max_contacts")).limit_value ≡ some 100)
    × ((resolve registry 5 (codes "campaigns")).enabled ≡ false)
    × ((resolve registry 6 (codes "campaigns")).enabled ≡ true)
unfolding run
answers = (refl, refl, refl, refl, refl)

resolve_enabled_iff_example :
    ((resolve registry 5 (codes "automation")).enabled ≡ true)
    ↔ Granted registry 5 (codes "automation")
resolve_enabled_iff_example = resolve_enabled_iff registry 5 (codes "automation")
