-- ===== src/Scoring/Tests.antt =====
-- One event on a small database, and the theorems at it.
use core_swift_crm.Prelude.{
  ℕ, String, ◌≡◌, refl, true, none, some, List, [], ◌∷◌, arith, ok, err, All,
}
use core_swift_crm.Prelude.Int.{pos, negsuc, wrap, ◌+ℤ◌, ◌-ℤ◌}
use core_swift_crm.Prelude.Tables.{select, select_one, update}
use core_swift_crm.Errors.{not_found}
use core_swift_crm.Text.{codes, text_eq}
use core_swift_crm.Scoring.{
  Score, ScoreRule, ScoreHistory, Db, FollowUp, score_trigger, apply_thresholds, scoring_webhooks,
  find_or_insert, calculate_score, score_category,
}
use core_swift_crm.Scoring.Invariant.{IsScored, calculate_score-IsScored}
use core_swift_crm.Scoring.Laws.{
  IsRecorded, FollowsChange, calculate_score-IsRecorded, calculate_score_follow_ups,
}

abbrev show : ℕ → String
show id = "7"

abbrev opened : ScoreRule
opened = record {
  id = 1;
  tenant_id = 5;
  event_type = codes "email.opened";
  points = pos 50;
  direction = codes "add";
  is_active = true;
}

abbrev spammed : ScoreRule
spammed = record opened { id = 2; points = pos 8; direction = codes "subtract" }

abbrev stored : Score
stored = record {
  id = 9;
  tenant_id = 5;
  contact_id = 7;
  total_score = pos 30;
  category = codes "interested";
  last_event_type = none;
}

abbrev db : Db
db = record {
  contacts = record { id = 7; tenant_id = 5 } ∷ [];
  rules = opened ∷ spammed ∷ [];
  scores = stored ∷ [];
  history = [];
}

abbrev event_rows : List ScoreHistory
event_rows =
    record {
      contact_id = 7;
      rule_id = 1;
      points = pos 50;
      previous_score = pos 30;
      new_score = pos 80;
      event_type = codes "email.opened";
    }
    ∷ record {
      contact_id = 7;
      rule_id = 2;
      points = negsuc 7;
      previous_score = pos 80;
      new_score = pos 72;
      event_type = codes "email.opened";
    }
    ∷ []

abbrev scored : Score
scored = record stored {
  total_score = pos 72;
  category = codes "hot";
  last_event_type = some (codes "email.opened");
}

abbrev outcome : Score × Db × List FollowUp
outcome = (
  scored,
  record db { scores = scored ∷ []; history = event_rows },
  score_trigger 7 (pos 72) (codes "hot")
      ∷ apply_thresholds 7 (pos 72) (codes "hot")
      ∷ scoring_webhooks 7 (pos 72) (codes "hot")
      ∷ [],
)

run : Unit {0}
unfolding calculate_score score_category select select_one update text_eq wrap ◌+ℤ◌ ◌-ℤ◌
run = tt

hot : calculate_score show db 1 5 7 (codes "email.opened") ≡ ok outcome
unfolding run
hot = refl

stranger :
    calculate_score show db 1 6 7 (codes "email.opened") ≡ err (not_found "Contact 7 not found")
unfolding run
stranger = refl

db-IsScored : All IsScored db.scores
unfolding run
db-IsScored = ((omega arith, refl), tt)

calculate_score-IsScored_example : IsScored outcome.0 × All IsScored outcome.1.scores
calculate_score-IsScored_example =
    calculate_score-IsScored show db 1 5 7 (codes "email.opened") outcome db-IsScored hot

calculate_score-IsRecorded_example : IsRecorded db 1 5 7 (codes "email.opened") outcome
unfolding run
calculate_score-IsRecorded_example =
    calculate_score-IsRecorded db 1 5 7 (codes "email.opened") show outcome db-IsScored
      (omega arith) hot

calculate_score_follow_ups_example : FollowsChange 7 (find_or_insert 1 5 7 db.scores).0 outcome
calculate_score_follow_ups_example =
    calculate_score_follow_ups db 1 5 7 (codes "email.opened") show outcome hot
