-- ===== src/Entitlements/Granted.antt =====
-- When a key is granted: the order of the tenant's override, its plan and the refusal.
use core_swift_crm.Prelude.{
  ℕ, true, Option, none, some, ◌≡◌, ◌↔◌, ◌⊎◌, arith, inl, inr, Option-cases,
}
use core_swift_crm.Text.{Text}
use core_swift_crm.Entitlements.{
  Registry, TenantPlan, CatalogueRow, active_plan, overrides, by_key, override_value,
  module_enabled, feature_enabled, plan_entitlement, resolve,
}

module _ {F : Type 0} (db : Registry F) (tenant_id : ℕ) (key : Text) where
  -- By the plan alone: the module of that key is on it, or no module has the key and the feature is.
  abbrev GrantedByPlan : ℕ → Type 0
  GrantedByPlan plan_id =
      ((m : CatalogueRow) × (by_key key db.modules ≡ some m)
        × (module_enabled db plan_id m.id ≡ true))
      ⊎ ((by_key key db.modules ≡ none)
          × ((f : CatalogueRow) × (by_key key db.module_features ≡ some f)
              × (feature_enabled db plan_id f.id ≡ true)))

  -- No active plan, an override that grants, or no override and a plan that grants.
  abbrev pub Granted : Type 0
  Granted =
      (active_plan db tenant_id ≡ none)
      ⊎ ((tp : TenantPlan F) × (active_plan db tenant_id ≡ some tp)
          × (((limit : Option F) × (override_value (overrides tp) key ≡ some (true, limit)))
              ⊎ ((override_value (overrides tp) key ≡ none) × GrantedByPlan tp.plan_id)))

  GrantedByPlan-of :
      (plan_id : ℕ) → (plan_entitlement db plan_id key).enabled ≡ true → GrantedByPlan plan_id
  unfolding plan_entitlement
  GrantedByPlan-of plan_id h = elim (Option-cases (by_key key db.modules)) [
    | inr (m, e) ↦ inl (m, e, ground (arith, h, e))
    | inl no_module ↦ elim (Option-cases (by_key key db.module_features)) [
      | inl no_feature ↦ absurd (ground (arith, h, no_module, no_feature))
      | inr (f, e) ↦ inr (no_module, (f, e, ground (arith, h, no_module, e)))
    ]
  ]

  plan_entitlement_of :
      (plan_id : ℕ) → GrantedByPlan plan_id → (plan_entitlement db plan_id key).enabled ≡ true
  unfolding plan_entitlement
  plan_entitlement_of plan_id (inl (m, e, h)) = rw (e, plan_entitlement) h
  plan_entitlement_of plan_id (inr (no_module, (f, e, h))) = rw (no_module, plan_entitlement, e) h

  Granted_of : (resolve db tenant_id key).enabled ≡ true → Granted
  unfolding resolve
  Granted_of h = elim (Option-cases (active_plan db tenant_id)) [
    | inl no_row ↦ inl no_row
    | inr (tp, e) ↦ elim (Option-cases (override_value (overrides tp) key)) [
      | inl no_override ↦ inr (
        tp,
        e,
        inr (no_override, GrantedByPlan-of tp.plan_id (ground (arith, h, e, no_override))),
      )
      | inr ((enabled, limit), o) ↦ inr (tp, e, inl (limit, ground (arith, h, e, o)))
    ]
  ]

  resolve_of : Granted → (resolve db tenant_id key).enabled ≡ true
  unfolding resolve
  resolve_of (inl no_row) = ground (arith, no_row)
  resolve_of (inr (tp, e, inl (limit, o))) = ground (arith, e, o)
  resolve_of (inr (tp, e, inr (no_override, g))) =
      ground (arith, e, no_override, plan_entitlement_of tp.plan_id g)

  -- A key is enabled exactly when the tenant has no active plan, or its override says so, or there
  -- is no override for the key and the plan has the module of that key, or, if no module has the
  -- key, the feature of that key.
  pub resolve_enabled_iff : ((resolve db tenant_id key).enabled ≡ true) ↔ Granted
  resolve_enabled_iff = (Granted_of, resolve_of)
