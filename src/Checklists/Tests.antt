-- ===== src/Checklists/Tests.antt =====
-- A template of two stages for one contact, and the theorems at it.
use core_swift_crm.Prelude.{ℕ, ◌≡◌, refl, true, Option, none, some, [], ◌∷◌, All, map, ◌⊎◌}
use core_swift_crm.Prelude.Int.{ℤ, pos, ◌+ℤ◌}
use core_swift_crm.Prelude.Tables.{select, select_one}
use core_swift_crm.Text.{Text, codes, text_eq}
use core_swift_crm.Checklists.{
  Db, ChecklistTemplate, ChecklistStage, lookup_entity, stages_of, write_stages, start_template,
  new_instance, trigger_checklist,
}
use core_swift_crm.Checklists.Started.{
  IsAnchored, IsLaunched, CannotStart, trigger_checklist-started, trigger_checklist-IsAnchored,
}

abbrev stage_row : ℤ → Text → Option ℤ → ChecklistStage
stage_row stage_order title delay_hours = record {
  template_id = 2;
  stage_order = stage_order;
  title = title;
  message_template = none;
  delay_hours = delay_hours;
}

abbrev template : ChecklistTemplate
template = record {
  id = 2;
  tenant_id = 5;
  trigger_type = codes "contact.created";
  is_active = true;
}

abbrev db : Db
db = record {
  contacts = record { id = 7; tenant_id = 5 } ∷ [];
  companies = [];
  opportunities = [];
  lists = [];
  tags = [];
  templates = template ∷ [];
  stages =
      stage_row (pos 2) (codes "Call") (some (pos 48))
      ∷ stage_row (pos 1) (codes "Welcome") none
      ∷ [];
  instances = [];
  progress = [];
  delayed_actions = [];
}

abbrev contact_created : Text → ℕ → Db
contact_created entity_type entity_id =
    trigger_checklist 9 (pos 1000) db 5 (codes "contact.created") entity_type entity_id

run : Unit {0}
unfolding lookup_entity stages_of write_stages start_template trigger_checklist select select_one
    text_eq ◌+ℤ◌
run = tt

in_order :
    map (λ a. a.stage_title) (contact_created (codes "contact") 7).delayed_actions
    ≡ codes "Welcome" ∷ codes "Call" ∷ []
unfolding run
in_order = refl

due :
    map (λ a. a.execute_at) (contact_created (codes "contact") 7).delayed_actions
    ≡ pos 1000 ∷ pos 1048 ∷ []
unfolding run
due = refl

no_contact : contact_created (codes "contact") 8 ≡ db
unfolding run
no_contact = refl

no_such_type : contact_created (codes "ticket") 7 ≡ db
unfolding run
no_such_type = refl

trigger_checklist-started_example :
    let after = contact_created (codes "contact") 7 in
    IsLaunched 9 (pos 1000) db 5 (codes "contact.created") (codes "contact") 7 after
    ⊎ ((after ≡ db) × CannotStart 9 (pos 1000) db 5 (codes "contact.created") (codes "contact") 7)
trigger_checklist-started_example =
    trigger_checklist-started 9 (pos 1000) db 5 (codes "contact.created") (codes "contact") 7

-- A checklist that was started before.
abbrev running : Db
running = record db { instances = new_instance 3 5 2 (codes "contact") 7 ∷ [] }

running-IsAnchored : All (IsAnchored running) running.instances
unfolding run
running-IsAnchored = (refl, tt)

trigger_checklist-IsAnchored_example :
    let after =
      trigger_checklist 9 (pos 1000) running 5 (codes "contact.created") (codes "contact") 7 in
    All (IsAnchored after) after.instances
trigger_checklist-IsAnchored_example =
    trigger_checklist-IsAnchored 9 (pos 1000) running 5 (codes "contact.created") (codes "contact")
      7 running-IsAnchored
