-- ===== src/Checklists/Cases.antt =====
-- The rows that a trigger writes, as one update of the tables.
use core_swift_crm.Prelude.{
  ℕ, ◌≡◌, ◌≢◌, refl, ap, none, some, List, [], ◌∷◌, ◌++◌, map, Option-cases, inl, inr, ◌⊎◌,
}
use core_swift_crm.Prelude.Int.{ℤ}
use core_swift_crm.Text.{Text}
use core_swift_crm.Checklists.{
  Db, ChecklistInstance, ChecklistStage, ChecklistTemplate, EntityLookup, found, missing, unknown,
  lookup_entity, stages_of, stage_progress, stage_action, write_stages, new_instance,
  start_template, template_for, trigger_checklist,
}

append_assoc : {A : Type 0} (xs ys zs : List A) → (xs ++ ys) ++ zs ≡ xs ++ (ys ++ zs)
append_assoc [] ys zs = refl
append_assoc (x ∷ xs) ys zs = ap (λ l. x ∷ l) (append_assoc xs ys zs)

append_nil : {A : Type 0} (xs : List A) → xs ++ [] ≡ xs
append_nil [] = refl
append_nil (x ∷ xs) = ap (λ l. x ∷ l) (append_nil xs)

abbrev pub with_stages : ℤ → ChecklistInstance → List ChecklistStage → Db → Db
with_stages now inst stages db = record db {
  progress = db.progress ++ map (stage_progress inst) stages;
  delayed_actions = db.delayed_actions ++ map (stage_action now inst) stages;
}

write_stages-lem :
    (now : ℤ) (inst : ChecklistInstance) (stages : List ChecklistStage) (db : Db)
    → write_stages now inst stages db ≡ with_stages now inst stages db
unfolding write_stages
write_stages-lem now inst [] db = rw (append_nil db.progress, append_nil db.delayed_actions) refl
write_stages-lem now inst (s ∷ stages) db =
    rw
      (
        write_stages-lem now inst stages,
        append_assoc db.progress (stage_progress inst s ∷ []) (map (stage_progress inst) stages),
        append_assoc db.delayed_actions (stage_action now inst s ∷ [])
            (map (stage_action now inst) stages),
      )
      refl

pub found-cases : (l : EntityLookup) → (l ≡ found) ⊎ (l ≢ found)
found-cases found = inl refl
found-cases missing = inr (λ e. cc e)
found-cases unknown = inr (λ e. cc e)

module _ (fresh : ℕ) (now : ℤ) (db : Db) (tenant_id : ℕ) (trigger_type entity_type : Text)
    (entity_id : ℕ) where
  -- The rows of one started checklist.
  abbrev pub started : ChecklistTemplate → Db
  started t =
      let inst = new_instance fresh tenant_id t.id entity_type entity_id in
      with_stages now inst (stages_of db t.id) (record db { instances = db.instances ++ inst ∷ [] })

  start_template-found :
      (t : ChecklistTemplate)
      → lookup_entity db tenant_id entity_type entity_id ≡ found
      → start_template fresh now db tenant_id t.id entity_type entity_id ≡ started t
  unfolding start_template
  start_template-found t e =
      rw (e, start_template)
        (write_stages-lem now (new_instance fresh tenant_id t.id entity_type entity_id)
          (stages_of db t.id) _)

  start_template-other :
      (template_id : ℕ) (l : EntityLookup)
      → lookup_entity db tenant_id entity_type entity_id ≡ l
      → l ≢ found
      → start_template fresh now db tenant_id template_id entity_type entity_id ≡ db
  unfolding start_template
  start_template-other template_id found e other = absurd (other refl)
  start_template-other template_id missing e other = rw (e, start_template) refl
  start_template-other template_id unknown e other = rw (e, start_template) refl

  pub trigger_checklist-cases :
      ((t : ChecklistTemplate)
        → template_for db tenant_id trigger_type ≡ some t
        → lookup_entity db tenant_id entity_type entity_id ≡ found
        → trigger_checklist fresh now db tenant_id trigger_type entity_type entity_id ≡ started t)
      × ((template_for db tenant_id trigger_type ≡ none)
            ⊎ (lookup_entity db tenant_id entity_type entity_id ≢ found)
          → trigger_checklist fresh now db tenant_id trigger_type entity_type entity_id ≡ db)
  unfolding trigger_checklist
  trigger_checklist-cases = (
    (λ t e here. rw (e, trigger_checklist) (start_template-found t here)),
    (λ why. elim (Option-cases (template_for db tenant_id trigger_type)) [
      | inl e ↦ rw (e, trigger_checklist) refl
      | inr (t, e) ↦
          rw (e, trigger_checklist)
            (elim why [
              | inl no_template ↦ absurd (cc (e, no_template))
              | inr other ↦ start_template-other t.id _ refl other
            ])
    ]),
  )
