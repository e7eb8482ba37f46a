-- ===== src/Automation/Fired.antt =====
-- Which rules an event fires.
use core_swift_crm.Prelude.{
  ℕ, Bool, true, false, Option, none, some, List, [], ◌∷◌, ◌++◌, ◌≡◌, ◌≢◌, ◌↔◌, ◌⊎◌, inl, inr, refl,
  arith, All, Any, Bool-cases,
}
use mathlib.Core.Path.{subst}
use core_swift_crm.Prelude.Tables.{select, All-map, All-rows}
use core_swift_crm.Text.{Text, codes}
use core_swift_crm.Text.Equality.{text_eq_iff}
use core_swift_crm.Entitlements.{Json, Registry, resolve}
use core_swift_crm.Automation.{
  AutomationRule, str_field, listens, matches_tag, one_tag, trigger_types, fire_each,
  evaluate_tag_triggers,
}
use core_swift_crm.Automation.Meaning.{NamesTag, matches_tag_iff, IsEventName, trigger_types_iff}

-- The element is one of the list.
abbrev pub Among : {A : Type 0} → A → List A → Type 0
Among x xs = Any (λ y. y ≡ x) xs

Among-select :
    {A : Type 0} (p : A → Bool) (x : A) (xs : List A)
    → Among x (select p xs) ↔ (Among x xs × (p x ≡ true))
unfolding select
Among-select p x [] = ((λ h. absurd h), (λ h. absurd h.0))
Among-select p x (y ∷ xs) = elim (Bool-cases (p y)) [
  | inl here ↦ rw here (
    (λ h. elim h [
      | inl e ↦ (inl e, subst (λ z. p z ≡ true) e here)
      | inr there ↦ let m = (Among-select p x xs).0 there in (inr m.0, m.1)
    ]),
    (λ h. elim h.0 [ inl e ↦ inl e | inr there ↦ inr ((Among-select p x xs).1 (there, h.1)) ]),
  )
  | inr away ↦ rw away (
    (λ there. let m = (Among-select p x xs).0 there in (inr m.0, m.1)),
    (λ h. elim h.0 [
      | inl e ↦ absurd (cc (subst (λ z. p z ≡ false) e away, h.1))
      | inr there ↦ (Among-select p x xs).1 (there, h.1)
    ]),
  )
]

Among-append :
    {A : Type 0} (x : A) (xs ys : List A) → Among x (xs ++ ys) ↔ (Among x xs ⊎ Among x ys)
Among-append x [] ys = ((λ h. inr h), (λ h. elim h [ inl e ↦ absurd e | inr e ↦ e ]))
Among-append x (z ∷ xs) ys = (
  (λ h. elim h [
    | inl e ↦ inl (inl e)
    | inr there ↦ elim ((Among-append x xs ys).0 there) [ inl e ↦ inl (inr e) | inr e ↦ inr e ]
  ]),
  (λ h. elim h [
    | inl (inl e) ↦ inl e
    | inl (inr e) ↦ inr ((Among-append x xs ys).1 (inl e))
    | inr e ↦ inr ((Among-append x xs ys).1 (inr e))
  ]),
)

module _ {F : Type 0} (parse_uuid : Text → Option ℕ) (reg : Registry F)
    (rules : List (AutomationRule F)) (tenant_id tag_id : ℕ) where
  -- The rule is the tenant's, is active, listens to the event under one of its names and names the
  -- tag.
  abbrev pub IsMeant : Text → AutomationRule F → Type 0
  IsMeant trigger_type r =
      (r.tenant_id ≡ tenant_id)
      × (r.is_active ≡ true)
      × IsEventName trigger_type r.trigger_type
      × NamesTag parse_uuid tag_id r.trigger_config

  listens_iff :
      (t : Text) (r : AutomationRule F)
      → (listens tenant_id t r ≡ true)
        ↔ ((r.tenant_id ≡ tenant_id) × (r.is_active ≡ true) × (r.trigger_type ≡ t))
  listens_iff t r = ground (arith, text_eq_iff r.trigger_type t)

  -- One of the queries, with the test of its rows.
  abbrev fired_by : Text → List (AutomationRule F)
  fired_by t =
      select (λ r. matches_tag parse_uuid tag_id r.trigger_config)
        (select (listens tenant_id t) rules)

  abbrev Meant : AutomationRule F → Type 0 → Type 0
  Meant r Type_meant =
      Among r rules
      × (r.tenant_id ≡ tenant_id)
      × (r.is_active ≡ true)
      × Type_meant
      × NamesTag parse_uuid tag_id r.trigger_config

  fired_by_iff :
      (t : Text) (r : AutomationRule F) → Among r (fired_by t) ↔ Meant r (r.trigger_type ≡ t)
  fired_by_iff t r =
      let outer =
        Among-select (λ x. matches_tag parse_uuid tag_id x.trigger_config) r
          (select (listens tenant_id t) rules) in
      let inner = Among-select (listens tenant_id t) r rules in
      let named = matches_tag_iff parse_uuid tag_id r.trigger_config in
      let heard = listens_iff t r in
      (
        (λ h.
            let row = inner.0 (outer.0 h).0 in
            let (tenant, active, type) = heard.0 row.1 in
            (row.0, tenant, active, type, named.0 (outer.0 h).1)),
        (λ h. outer.1 (inner.1 (h.0, heard.1 (h.1, h.2, h.3)), named.1 h.4)),
      )

  fire_each_iff :
      (r : AutomationRule F) (types : List Text)
      → Among r (fire_each parse_uuid rules tenant_id tag_id types)
        ↔ Meant r (Any (λ t. r.trigger_type ≡ t) types)
  unfolding fire_each
  fire_each_iff r [] = ((λ h. absurd h), (λ h. absurd h.3))
  fire_each_iff r (t ∷ types) =
      let both = Among-append r (fired_by t) (fire_each parse_uuid rules tenant_id tag_id types) in
      (
        (λ h. elim (both.0 h) [
          | inl here ↦
              let (row, tenant, active, type, named) = (fired_by_iff t r).0 here in
              (row, tenant, active, inl type, named)
          | inr there ↦
              let (row, tenant, active, type, named) = (fire_each_iff r types).0 there in
              (row, tenant, active, inr type, named)
        ]),
        (λ h. elim h.3 [
          | inl type ↦ both.1 (inl ((fired_by_iff t r).1 (h.0, h.1, h.2, type, h.4)))
          | inr type ↦ both.1 (inr ((fire_each_iff r types).1 (h.0, h.1, h.2, type, h.4)))
        ]),
      )

  -- A tag event fires exactly the rules of the table that are the tenant's, are active, listen to
  -- the event, under its old or its new name, and name the tag; and none on a plan without
  -- automations.
  pub evaluate_tag_triggers-IsMeant :
      (trigger_type : Text) (r : AutomationRule F)
      → Among r (evaluate_tag_triggers parse_uuid reg rules tenant_id tag_id trigger_type) ↔ (
          Among r rules
          × IsMeant trigger_type r
          × ((resolve reg tenant_id (codes "automation")).enabled ≡ true))
  unfolding evaluate_tag_triggers
  evaluate_tag_triggers-IsMeant trigger_type r =
      let named = trigger_types_iff trigger_type r.trigger_type in
      elim (Bool-cases (resolve reg tenant_id (codes "automation")).enabled) [
        | inl on ↦ rw on (
          (λ h.
              let (row, tenant, active, type, tag) =
                (fire_each_iff r (trigger_types trigger_type)).0 h in
              (row, (tenant, active, named.0 type, tag), refl)),
          (λ h.
              let (tenant, active, type, tag) = h.1 in
              (fire_each_iff r (trigger_types trigger_type)).1
                (h.0, tenant, active, named.1 type, tag)),
        )
        | inr off ↦ rw off ((λ h. absurd h), (λ h. absurd (cc h.2)))
      ]

  matches_tag_wildcard :
      (config : Json F)
      → parse_uuid (codes "*") ≡ none
      → matches_tag parse_uuid tag_id config ≡ true
      → str_field (codes "tag_id") config ≢ some (codes "*")
  unfolding matches_tag one_tag
  matches_tag_wildcard config h k e = ground (arith, h, k, e)

  -- If `parse_uuid` refuses "*", no tag event fires a rule whose `tag_id` is "*".
  pub wildcard_never_fires :
      (trigger_type : Text)
      → parse_uuid (codes "*") ≡ none
      → All
          (λ r. str_field (codes "tag_id") r.trigger_config ≢ some (codes "*"))
          (evaluate_tag_triggers parse_uuid reg rules tenant_id tag_id trigger_type)
  wildcard_never_fires trigger_type h =
      All-map _ _
        (λ r fired.
          let (row, meant, on) = (evaluate_tag_triggers-IsMeant trigger_type r).0 fired in
          matches_tag_wildcard r.trigger_config h
            ((matches_tag_iff parse_uuid tag_id r.trigger_config).1 meant.3))
        _ (All-rows (evaluate_tag_triggers parse_uuid reg rules tenant_id tag_id trigger_type))
