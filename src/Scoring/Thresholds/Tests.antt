-- ===== src/Scoring/Thresholds/Tests.antt =====
-- Two thresholds that a score crosses and one that it does not, and the theorem at them.
use core_swift_crm.Prelude.{ℕ, ◌≡◌, refl, true, Option, none, some, [], ◌∷◌, map}
use core_swift_crm.Prelude.Int.{ℤ, pos}
use core_swift_crm.Prelude.Tables.{select, select_one, update}
use core_swift_crm.Text.{Text, codes, text_eq}
use core_swift_crm.Scoring.Thresholds.{
  Db, ScoringThreshold, Opportunity, move_stage, assign_tag, apply_threshold, apply_each,
  apply_thresholds,
}
use core_swift_crm.Scoring.Thresholds.Foreign.{SameForeign, apply_thresholds-SameForeign}

abbrev threshold : ℤ → Text → Option Text → ScoringThreshold
threshold min_score action tag_name = record {
  tenant_id = 5;
  pipeline_id = 1;
  min_score = min_score;
  max_score = none;
  target_stage_id = 12;
  action = action;
  tag_name = tag_name;
  is_active = true;
}

abbrev opportunity : ℕ → ℕ → Opportunity
opportunity id tenant_id = record {
  id = id;
  tenant_id = tenant_id;
  contact_id = 7;
  pipeline_id = 1;
  stage_id = 10;
}

abbrev db : Db
db = record {
  thresholds =
      threshold (pos 50) (codes "move_stage") none
      ∷ threshold (pos 20) (codes "assign_tag") (some (codes "hot"))
      ∷ threshold (pos 90) (codes "move_stage") none
      ∷ [];
  opportunities = opportunity 1 6 ∷ opportunity 2 5 ∷ [];
  tags = record { id = 3; tenant_id = 5; name = codes "hot" } ∷ [];
  tag_assignments = [];
}

run : Unit {0}
unfolding move_stage assign_tag apply_threshold apply_each apply_thresholds select select_one update
    text_eq
run = tt

moved : map (λ o. o.stage_id) (apply_thresholds db 5 7 (pos 60)).opportunities ≡ 10 ∷ 12 ∷ []
unfolding run
moved = refl

tagged_once :
    map
      (λ a. a.tag_id)
      (apply_thresholds (apply_thresholds db 5 7 (pos 60)) 5 7 (pos 60)).tag_assignments
    ≡ 3 ∷ []
unfolding run
tagged_once = refl

apply_thresholds-SameForeign_example : SameForeign 5 db (apply_thresholds db 5 7 (pos 60))
apply_thresholds-SameForeign_example = apply_thresholds-SameForeign 5 7 db (pos 60)
