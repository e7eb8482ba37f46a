-- ===== src/Automation/Tests.antt =====
-- Three rules and one tag event, and the theorems at them. Numbers are natural ones here.
use core_swift_crm.Prelude.{
  ℕ, ◌≡◌, ◌≢◌, ◌↔◌, refl, true, if◌then◌else◌, Option, none, some, List, [], ◌∷◌, All,
}
use core_swift_crm.Prelude.Int.{pos}
use core_swift_crm.Prelude.Tables.{select, select_one}
use core_swift_crm.Text.{Text, codes, text_eq}
use core_swift_crm.Entitlements.{Json, Fields, Registry, resolve, get}
use core_swift_crm.Automation.{
  AutomationRule, evaluate_tag_triggers, fire_score_trigger, fire_list_trigger, str_field,
}
use core_swift_crm.Automation.Fired.{
  Among, IsMeant, evaluate_tag_triggers-IsMeant, wildcard_never_fires,
}

abbrev parse_uuid : Text → Option ℕ
parse_uuid s = if text_eq s (codes "7") then some 7 else none

abbrev tag_rule : ℕ → Text → Text → AutomationRule ℕ
tag_rule id trigger_type tag = record {
  id = id;
  tenant_id = 5;
  trigger_type = trigger_type;
  trigger_config = Json.object (Fields.field (codes "tag_id") (Json.string tag) Fields.end);
  is_active = true;
}

abbrev rules : List (AutomationRule ℕ)
rules =
    tag_rule 1 (codes "tag.assigned") (codes "7")
    ∷ tag_rule 2 (codes "TagAdded") (codes "7")
    ∷ tag_rule 3 (codes "TagAdded") (codes "*")
    ∷ tag_rule 4 (codes "ScoreChanged") (codes "x")
    ∷ []

abbrev registry : Registry ℕ
registry = record {
  tenant_plans = [];
  modules = [];
  plan_modules = [];
  module_features = [];
  plan_module_features = [];
}

run : Unit {0}
unfolding evaluate_tag_triggers fire_score_trigger fire_list_trigger resolve get text_eq select
    select_one
run = tt

fired :
    evaluate_tag_triggers parse_uuid registry rules 5 7 (codes "TagAdded")
    ≡ tag_rule 2 (codes "TagAdded") (codes "7") ∷ tag_rule 1 (codes "tag.assigned") (codes "7") ∷ []
unfolding run
fired = refl

scored :
    (fire_score_trigger (λ n. some (pos n)) rules 5 (pos 3) (codes "hot")
      ≡ tag_rule 4 (codes "ScoreChanged") (codes "x") ∷ [])
    × (fire_list_trigger parse_uuid rules 5 3 (codes "ListAdded") ≡ [])
unfolding run
scored = (refl, refl)

evaluate_tag_triggers-IsMeant_example :
    Among
      (tag_rule 2 (codes "TagAdded") (codes "7"))
      (evaluate_tag_triggers parse_uuid registry rules 5 7 (codes "TagAdded"))
    ↔ (Among (tag_rule 2 (codes "TagAdded") (codes "7")) rules
        × IsMeant parse_uuid registry rules 5 7
            (codes "TagAdded")
            (tag_rule 2 (codes "TagAdded") (codes "7"))
        × ((resolve registry 5 (codes "automation")).enabled ≡ true))
evaluate_tag_triggers-IsMeant_example =
    evaluate_tag_triggers-IsMeant parse_uuid registry rules 5 7 (codes "TagAdded")
      (tag_rule 2 (codes "TagAdded") (codes "7"))

star_refused : parse_uuid (codes "*") ≡ none
unfolding run
star_refused = refl

wildcard_never_fires_example :
    All
      (λ r. str_field (codes "tag_id") r.trigger_config ≢ some (codes "*"))
      (evaluate_tag_triggers parse_uuid registry rules 5 7 (codes "TagAdded"))
wildcard_never_fires_example =
    wildcard_never_fires parse_uuid registry rules 5 7 (codes "TagAdded") star_refused
