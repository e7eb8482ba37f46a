-- ===== src/Checklists/Started.antt =====
-- What a trigger writes.
use core_swift_crm.Prelude.{
  ℕ, ◌≡◌, refl, sym, none, some, List, [], ◌∷◌, ◌++◌, map, Option-cases, inl, inr, ◌⊎◌, All, Any,
  Bool, true, ◌&&◌, ◌==◌, ◌↔◌, ◌∙◌, arith, Option,
}
use mathlib.Core.Path.{subst}
use core_swift_crm.Prelude.Int.{ℤ, pos, negsuc, ◌+ℤ◌}
use core_swift_crm.Prelude.Tables.{
  All-append, All-map, All-rows, select_one, select_one-All, select_one-eq-some, select_one-none,
}
use core_swift_crm.Text.{Text, text_eq}
use core_swift_crm.Text.Equality.{text_eq_iff}
use core_swift_crm.Checklists.{
  Db, ChecklistInstance, ChecklistStage, ChecklistTemplate, DelayedAction, hours, found,
  lookup_entity, stages_of, stage_action, new_instance, template_for, trigger_checklist,
}
use core_swift_crm.Checklists.Entities.{HasEntity, lookup_entity_iff}
use core_swift_crm.Checklists.Stages.{IsStagesOf, stages_of-IsStagesOf}
use core_swift_crm.Checklists.Cases.{found-cases, trigger_checklist-cases}

-- When a stage is due, without a delay or with one.
abbrev pub due : ℤ → Option ℤ → ℤ
due now none = now
due now (some delay) = now +ℤ delay

abbrev pub planned : ℤ → ℕ → Text → ℕ → ChecklistStage → DelayedAction
planned now tenant_id entity_type entity_id s = record {
  tenant_id = tenant_id;
  to_entity = entity_type;
  entity_id = entity_id;
  stage_title = s.title;
  message = s.message_template;
  execute_at = due now s.delay_hours;
}

+ℤ_zero : (a : ℤ) → a +ℤ pos 0 ≡ a
unfolding ◌+ℤ◌
+ℤ_zero (pos n) = ground arith
+ℤ_zero (negsuc n) = ground arith

hours-due : (now : ℤ) (delay : Option ℤ) → now +ℤ hours delay ≡ due now delay
hours-due now none = +ℤ_zero now
hours-due now (some n) = refl

map-planned :
    (now : ℤ) (inst : ChecklistInstance) (stages : List ChecklistStage)
    → map (stage_action now inst) stages
      ≡ map (planned now inst.tenant_id inst.entity_type inst.entity_id) stages
map-planned now inst [] = refl
map-planned now inst (s ∷ stages) =
    rw (hours-due now s.delay_hours, map-planned now inst stages) refl

select_one-Any :
    {A : Type 0} (p : A → Bool) (xs : List A) (a : A)
    → select_one p xs ≡ some a
    → Any (λ x. x ≡ a) xs
select_one-Any p xs a e = select_one-All (λ x. Any (λ y. y ≡ x) xs) p xs a e (All-rows xs)

module _ (fresh : ℕ) (now : ℤ) (db : Db) (tenant_id : ℕ) (trigger_type entity_type : Text)
    (entity_id : ℕ) where
  -- An active template of the tenant for the event.
  abbrev pub IsTemplateFor : ChecklistTemplate → Type 0
  IsTemplateFor t =
      (t.tenant_id ≡ tenant_id) × (t.trigger_type ≡ trigger_type) × (t.is_active ≡ true)

  -- A template of the event has been started for an entity that the tenant has: one instance, and
  -- for each stage of the template, in their order, one row of progress and one action, due when the
  -- delay of the stage says.
  pub record IsLaunched (after : Db) : Type 0 where
    pub template : ChecklistTemplate
    pub is_row : Any (λ t. t ≡ template) db.templates
    pub is_for : IsTemplateFor template
    pub entity : HasEntity db tenant_id entity_type entity_id
    pub stages : List ChecklistStage
    pub are_stages : IsStagesOf template.id db.stages stages
    pub written : after ≡ record db {
      instances =
          db.instances
          ++ record {
            id = fresh;
            tenant_id = tenant_id;
            template_id = template.id;
            entity_type = entity_type;
            entity_id = entity_id;
          }
            ∷ [];
      progress =
          db.progress
          ++ map (λ s. record { instance_id = fresh; stage_order = s.stage_order }) stages;
      delayed_actions =
          db.delayed_actions ++ map (planned now tenant_id entity_type entity_id) stages;
    }

  -- There is no such template, or the tenant has no such entity.
  abbrev pub CannotStart : Type 0
  CannotStart =
      All (λ t. IsTemplateFor t → ⊥) db.templates
      ⊎ (HasEntity db tenant_id entity_type entity_id → ⊥)

  matching_iff :
      (t : ChecklistTemplate)
      → ((t.tenant_id == tenant_id && text_eq t.trigger_type trigger_type && t.is_active) ≡ true)
        ↔ IsTemplateFor t
  matching_iff t = ground (arith, text_eq_iff t.trigger_type trigger_type)

  found-IsLaunched :
      (t : ChecklistTemplate)
      → template_for db tenant_id trigger_type ≡ some t
      → lookup_entity db tenant_id entity_type entity_id ≡ found
      → IsLaunched (trigger_checklist fresh now db tenant_id trigger_type entity_type entity_id)
  found-IsLaunched t e here = record {
    template = t;
    is_row = select_one-Any _ db.templates t e;
    is_for = (matching_iff t).0 (select_one-eq-some _ db.templates t e);
    entity = (lookup_entity_iff db tenant_id entity_type entity_id).0 here;
    stages = stages_of db t.id;
    are_stages = stages_of-IsStagesOf db t.id;
    written =
        (trigger_checklist-cases fresh now db tenant_id trigger_type entity_type entity_id).0 t e
          here
        ∙ rw
            (map-planned now (new_instance fresh tenant_id t.id entity_type entity_id)
              (stages_of db t.id))
            refl;
  }

  -- A trigger either starts a checklist or writes nothing, and it writes nothing only if there is no
  -- active template of the tenant for the event or the tenant has no such entity. A started
  -- checklist belongs to such a template and to an entity that the tenant has. Its instance is
  -- written and, for each stage of the template, once and by rising stage order, one row of progress
  -- and one delayed action, which is due after the delay of the stage, or at once without one.
  pub trigger_checklist-started :
      let after = trigger_checklist fresh now db tenant_id trigger_type entity_type entity_id in
      IsLaunched after ⊎ ((after ≡ db) × CannotStart)
  trigger_checklist-started =
      let lem = trigger_checklist-cases fresh now db tenant_id trigger_type entity_type entity_id in
      elim (Option-cases (template_for db tenant_id trigger_type)) [
        | inl e ↦ inr (
          lem.1 (inl e),
          inl (
              All-map _ (λ t. IsTemplateFor t → ⊥)
                (λ t out is_for. absurd (cc ((matching_iff t).1 is_for, out))) db.templates
                (select_one-none _ db.templates e)),
        )
        | inr (t, e) ↦ elim (found-cases (lookup_entity db tenant_id entity_type entity_id)) [
          | inl here ↦ inl (found-IsLaunched t e here)
          | inr other ↦ inr (
            lem.1 (inr other),
            inr (λ has. other ((lookup_entity_iff db tenant_id entity_type entity_id).1 has)),
          )
        ]
      ]

-- The entity of an instance exists in the instance's tenant.
abbrev pub IsAnchored : Db → ChecklistInstance → Type 0
IsAnchored db i = lookup_entity db i.tenant_id i.entity_type i.entity_id ≡ found

-- If the entity of every instance exists in its tenant, it does so after any trigger.
pub trigger_checklist-IsAnchored :
    (fresh : ℕ) (now : ℤ) (db : Db) (tenant_id : ℕ) (trigger_type entity_type : Text)
    (entity_id : ℕ)
    → All (IsAnchored db) db.instances
    → let after = trigger_checklist fresh now db tenant_id trigger_type entity_type entity_id in
      All (IsAnchored after) after.instances
unfolding lookup_entity
trigger_checklist-IsAnchored fresh now db tenant_id trigger_type entity_type entity_id h =
    let lem = trigger_checklist-cases fresh now db tenant_id trigger_type entity_type entity_id in
    elim (Option-cases (template_for db tenant_id trigger_type)) [
      | inl e ↦ kept (lem.1 (inl e))
      | inr (t, e) ↦ elim (found-cases (lookup_entity db tenant_id entity_type entity_id)) [
        | inl here ↦ subst Anchored (sym (lem.0 t e here)) (
            All-append (IsAnchored db) db.instances
              (new_instance fresh tenant_id t.id entity_type entity_id ∷ []) h (here, tt))
        | inr other ↦ kept (lem.1 (inr other))
      ]
    ]
  where
    Anchored : Db → Type 0
    Anchored d = All (IsAnchored d) d.instances

    after : Db
    after = trigger_checklist fresh now db tenant_id trigger_type entity_type entity_id

    kept : after ≡ db → Anchored after
    kept e = subst Anchored (sym e) h
