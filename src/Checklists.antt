-- ===== src/Checklists.antt =====
-- checklists/engine.rs, and lookup_entity of checklists/mod.rs: a trigger starts a checklist for an
-- entity. Statements succeed; `fresh` is the random id of the instance, the ids of the other rows
-- are left out, and a time is a number of hours.
pub mod Cases
pub mod Entities
pub mod Stages
pub mod Started
mod Tests
use core_swift_crm.Prelude.{
  ℕ, Bool, ◌&&◌, Option, none, some, List, [], ◌∷◌, ◌++◌, ◌==◌, any, if◌then◌else◌,
}
use core_swift_crm.Prelude.Int.{ℤ, pos, ◌+ℤ◌, leb_ℤ}
use core_swift_crm.Prelude.Tables.{select, select_one}
use core_swift_crm.Text.{Text, codes, text_eq}

-- A row of a table of entities.
pub record Entity : Type 0 where
  pub id : ℕ
  pub tenant_id : ℕ

pub record ChecklistTemplate : Type 0 where
  pub id : ℕ
  pub tenant_id : ℕ
  pub trigger_type : Text
  pub is_active : Bool

pub record ChecklistStage : Type 0 where
  pub template_id : ℕ
  pub stage_order : ℤ
  pub title : Text
  pub message_template : Option Text
  pub delay_hours : Option ℤ

pub record ChecklistInstance : Type 0 where
  pub id : ℕ
  pub tenant_id : ℕ
  pub template_id : ℕ
  pub entity_type : Text
  pub entity_id : ℕ

pub record ChecklistProgress : Type 0 where
  pub instance_id : ℕ
  pub stage_order : ℤ

-- The columns that are not constants, with the keys of `action_config`.
pub record DelayedAction : Type 0 where
  pub tenant_id : ℕ
  pub to_entity : Text
  pub entity_id : ℕ
  pub stage_title : Text
  pub message : Option Text
  pub execute_at : ℤ

pub record Db : Type 0 where
  pub contacts : List Entity
  pub companies : List Entity
  pub opportunities : List Entity
  pub lists : List Entity
  pub tags : List Entity
  pub templates : List ChecklistTemplate
  pub stages : List ChecklistStage
  pub instances : List ChecklistInstance
  pub progress : List ChecklistProgress
  pub delayed_actions : List DelayedAction

pub data EntityLookup : Type 0 where
  found missing unknown : EntityLookup

abbrev pub exists_in : ℕ → ℕ → List Entity → EntityLookup
exists_in tenant_id entity_id rows =
    if any (λ e. e.id == entity_id && e.tenant_id == tenant_id) rows then found else missing

unfoldable pub lookup_entity : Db → ℕ → Text → ℕ → EntityLookup
lookup_entity db tenant_id entity_type entity_id =
    if text_eq entity_type (codes "contact")
    then exists_in tenant_id entity_id db.contacts
    else if text_eq entity_type (codes "company")
    then exists_in tenant_id entity_id db.companies
    else if text_eq entity_type (codes "opportunity")
    then exists_in tenant_id entity_id db.opportunities
    else if text_eq entity_type (codes "list")
    then exists_in tenant_id entity_id db.lists
    else if text_eq entity_type (codes "tag")
    then exists_in tenant_id entity_id db.tags
    else unknown

abbrev pub insert_stage : ChecklistStage → List ChecklistStage → List ChecklistStage
insert_stage s [] = s ∷ []
insert_stage s (x ∷ stages) =
    let rest = insert_stage s stages in
    if leb_ℤ s.stage_order x.stage_order then s ∷ x ∷ stages else x ∷ rest

-- `ORDER BY stage_order ASC`
abbrev pub by_order : List ChecklistStage → List ChecklistStage
by_order [] = []
by_order (s ∷ stages) = insert_stage s (by_order stages)

unfoldable pub stages_of : Db → ℕ → List ChecklistStage
stages_of db template_id = by_order (select (λ s. s.template_id == template_id) db.stages)

abbrev pub hours : Option ℤ → ℤ
hours none = pos 0
hours (some n) = n

abbrev pub stage_progress : ChecklistInstance → ChecklistStage → ChecklistProgress
stage_progress inst s = record { instance_id = inst.id; stage_order = s.stage_order }

abbrev pub stage_action : ℤ → ChecklistInstance → ChecklistStage → DelayedAction
stage_action now inst s = record {
  tenant_id = inst.tenant_id;
  to_entity = inst.entity_type;
  entity_id = inst.entity_id;
  stage_title = s.title;
  message = s.message_template;
  execute_at = now +ℤ hours s.delay_hours;
}

-- The loop over the stages.
unfoldable pub write_stages : ℤ → ChecklistInstance → List ChecklistStage → Db → Db
write_stages now inst [] db = db
write_stages now inst (s ∷ stages) db = write_stages now inst stages (record db {
  progress = db.progress ++ stage_progress inst s ∷ [];
  delayed_actions = db.delayed_actions ++ stage_action now inst s ∷ [];
})

abbrev pub new_instance : ℕ → ℕ → ℕ → Text → ℕ → ChecklistInstance
new_instance fresh tenant_id template_id entity_type entity_id = record {
  id = fresh;
  tenant_id = tenant_id;
  template_id = template_id;
  entity_type = entity_type;
  entity_id = entity_id;
}

-- The body of the loop over the templates: there is one at most.
unfoldable pub start_template : ℕ → ℤ → Db → ℕ → ℕ → Text → ℕ → Db
unfolding lookup_entity write_stages stages_of
start_template fresh now db tenant_id template_id entity_type entity_id =
    elim (lookup_entity db tenant_id entity_type entity_id) [
      | found ↦
          let inst = new_instance fresh tenant_id template_id entity_type entity_id in
          write_stages now inst (stages_of db template_id)
            (record db { instances = db.instances ++ inst ∷ [] })
      | _ ↦ db
    ]

abbrev pub template_for : Db → ℕ → Text → Option ChecklistTemplate
template_for db tenant_id trigger_type =
    select_one (λ t. t.tenant_id == tenant_id && text_eq t.trigger_type trigger_type && t.is_active)
      db.templates

unfoldable pub trigger_checklist : ℕ → ℤ → Db → ℕ → Text → Text → ℕ → Db
unfolding start_template
trigger_checklist fresh now db tenant_id trigger_type entity_type entity_id =
    elim (template_for db tenant_id trigger_type) [
      | none ↦ db
      | some t ↦ start_template fresh now db tenant_id t.id entity_type entity_id
    ]
