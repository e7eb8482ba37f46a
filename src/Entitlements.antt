-- ===== src/Entitlements.antt =====
-- module_registry/mod.rs: what a tenant's plan grants, read from six tables. Each statement
-- succeeds. A number of `f64` is a value of a parameter `F`.
pub mod Granted
mod Tests
use core_swift_crm.Prelude.{
  ℕ, Bool, true, false, ◌&&◌, Option, none, some, List, ◌==◌, if◌then◌else◌,
}
use core_swift_crm.Prelude.Tables.{select_one}
use core_swift_crm.Text.{Text, codes, text_eq}

-- `serde_json::Value`, as far as the overrides are read.
mutual
  pub data Json (F : Type 0) : Type 0 where
    null : Json F
    array : Items F → Json F
    bool : Bool → Json F
    number : F → Json F
    string : Text → Json F
    object : Fields F → Json F

  pub data Items (F : Type 0) : Type 0 where
    no_more : Items F
    item : Json F → Items F → Items F

  pub data Fields (F : Type 0) : Type 0 where
    end : Fields F
    field : Text → Json F → Fields F → Fields F

abbrev and_then {ℓ} : {A B : Type ℓ} → Option A → (A → Option B) → Option B
and_then none f = none
and_then (some a) f = f a

module _ {F : Type 0} where
  find_field : Text → Fields F → Option (Json F)
  find_field key end = none
  find_field key (field name v fields) = if text_eq name key then some v else find_field key fields

  unfoldable pub get : Text → Json F → Option (Json F)
  unfolding find_field
  get key (object fields) = find_field key fields
  get key _ = none

  abbrev pub as_bool : Json F → Option Bool
  as_bool (bool b) = some b
  as_bool _ = none

  abbrev as_f64 : Json F → Option F
  as_f64 (number n) = some n
  as_f64 _ = none

  pub override_value : Json F → Text → Option (Bool × Option F)
  unfolding get
  override_value ov key = and_then (get key ov) λ v. elim (as_bool v) [
    | some b ↦ some (b, none)
    | none ↦
        and_then (and_then (get (codes "enabled") v) as_bool)
          λ enabled. some (enabled, and_then (get (codes "limit_value") v) as_f64)
  ]

pub data Source : Type 0 where
  tenant_override plan_module plan_feature unassigned no_plan : Source

pub record Entitlement (F : Type 0) : Type 0 where
  pub key : Text
  pub enabled : Bool
  pub limit_value : Option F
  pub source : Source

-- `status` is whether the column reads 'active'; a missing `feature_overrides` is none.
pub record TenantPlan (F : Type 0) : Type 0 where
  pub tenant_id : ℕ
  pub plan_id : ℕ
  pub is_active : Bool
  pub feature_overrides : Option (Json F)

-- A row of `modules` or `module_features`.
pub record CatalogueRow : Type 0 where
  pub id : ℕ
  pub key : Text
  pub is_active : Bool

pub record PlanModule : Type 0 where
  pub plan_id : ℕ
  pub module_id : ℕ
  pub enabled : Bool

pub record PlanFeature (F : Type 0) : Type 0 where
  pub plan_id : ℕ
  pub module_feature_id : ℕ
  pub enabled : Bool
  pub limit_value : Option F

pub record Registry (F : Type 0) : Type 0 where
  pub tenant_plans : List (TenantPlan F)
  pub modules : List CatalogueRow
  pub plan_modules : List PlanModule
  pub module_features : List CatalogueRow
  pub plan_module_features : List (PlanFeature F)

abbrev pub by_key : Text → List CatalogueRow → Option CatalogueRow
by_key key rows = select_one (λ r. text_eq r.key key) rows

module _ {F : Type 0} where
  abbrev pub active_plan : Registry F → ℕ → Option (TenantPlan F)
  active_plan db tenant_id =
      select_one (λ tp. tp.tenant_id == tenant_id && tp.is_active) db.tenant_plans

  abbrev pub overrides : TenantPlan F → Json F
  overrides tp = elim tp.feature_overrides [ none ↦ object end | some ov ↦ ov ]

  -- `pm.enabled`, false where the join finds no row.
  abbrev pub module_enabled : Registry F → ℕ → ℕ → Bool
  module_enabled db plan_id module_id =
      elim (select_one (λ pm. pm.plan_id == plan_id && pm.module_id == module_id) db.plan_modules) [
        | none ↦ false
        | some pm ↦ pm.enabled
      ]

  abbrev pub plan_feature_row : Registry F → ℕ → ℕ → Option (PlanFeature F)
  plan_feature_row db plan_id feature_id =
      select_one (λ pf. pf.plan_id == plan_id && pf.module_feature_id == feature_id)
        db.plan_module_features

  abbrev pub feature_enabled : Registry F → ℕ → ℕ → Bool
  feature_enabled db plan_id feature_id = elim (plan_feature_row db plan_id feature_id) [
    | none ↦ false
    | some pf ↦ pf.enabled
  ]

  abbrev feature_limit : Registry F → ℕ → ℕ → Option F
  feature_limit db plan_id feature_id = elim (plan_feature_row db plan_id feature_id) [
    | none ↦ none
    | some pf ↦ pf.limit_value
  ]

  abbrev entitled : Text → Bool → Option F → Source → Entitlement F
  entitled key enabled limit source = record {
    key = key;
    enabled = enabled;
    limit_value = limit;
    source = source;
  }

  -- The plan's answer: the module's row, else the feature's, else a refusal.
  plan_entitlement : Registry F → ℕ → Text → Entitlement F
  plan_entitlement db plan_id key = elim (by_key key db.modules) [
    | some m ↦ entitled key (module_enabled db plan_id m.id) none plan_module
    | none ↦ elim (by_key key db.module_features) [
      | some f ↦
          entitled key (feature_enabled db plan_id f.id) (feature_limit db plan_id f.id)
            plan_feature
      | none ↦ entitled key false none unassigned
    ]
  ]

  unfoldable pub resolve : Registry F → ℕ → Text → Entitlement F
  unfolding override_value plan_entitlement
  resolve db tenant_id key = elim (active_plan db tenant_id) [
    | none ↦ entitled key true none no_plan
    | some tp ↦ elim (override_value (overrides tp) key) [
      | some (enabled, limit) ↦ entitled key enabled limit tenant_override
      | none ↦ plan_entitlement db tp.plan_id key
    ]
  ]
