-- ===== src/Scoring.antt =====
-- scoring/engine.rs and the score bands of scoring/models.rs.
-- Tables are lists of rows, and each statement succeeds; a fresh `Uuid` is an argument, and
-- `show_id` prints one. Times are left out, and `i32` arithmetic wraps around.
pub mod Laws
pub mod Invariant
pub mod Thresholds
mod Tests
use Prim.Native.String
use core_swift_crm.Prelude.{
  ℕ, String, Bool, ◌&&◌, not, Option, none, some, List, [], ◌∷◌, ◌++◌, ◌==◌, if◌then◌else◌, Result,
  ok, err,
}
use core_swift_crm.Prelude.Int.{ℤ, pos, ◌+ℤ◌, ◌-ℤ◌, leb_ℤ, max_ℤ, wrap, i32_modulus}
use core_swift_crm.Prelude.Tables.{select, select_one, update}
use core_swift_crm.Errors.{AppError, not_found}
use core_swift_crm.Text.{Text, codes, text_eq}

abbrev pub interested_max : ℤ
interested_max = pos 39

abbrev pub qualified_max : ℤ
qualified_max = pos 69

abbrev pub hot_max : ℤ
hot_max = pos 89

unfoldable pub score_category : ℤ → Text
score_category score =
    if leb_ℤ score interested_max
    then codes "interested"
    else if leb_ℤ score qualified_max
    then codes "qualified"
    else if leb_ℤ score hot_max
    then codes "hot"
    else codes "sold"

pub record ScoreRule : Type 0 where
  pub id : ℕ
  pub tenant_id : ℕ
  pub event_type : Text
  pub points : ℤ
  pub direction : Text
  pub is_active : Bool

pub record Score : Type 0 where
  pub id : ℕ
  pub tenant_id : ℕ
  pub contact_id : ℕ
  pub total_score : ℤ
  pub category : Text
  pub last_event_type : Option Text

pub record ScoreHistory : Type 0 where
  pub contact_id : ℕ
  pub rule_id : ℕ
  pub points : ℤ
  pub previous_score : ℤ
  pub new_score : ℤ
  pub event_type : Text

pub record ContactRow : Type 0 where
  pub id : ℕ
  pub tenant_id : ℕ

-- What a changed category sets off: the automation trigger, the thresholds and the webhooks, each
-- with the contact, its score and its category.
pub data FollowUp : Type 0 where
  score_trigger apply_thresholds scoring_webhooks : (contact_id : ℕ) → ℤ → Text → FollowUp

pub record Db : Type 0 where
  pub contacts : List ContactRow
  pub rules : List ScoreRule
  pub scores : List Score
  pub history : List ScoreHistory

abbrev owns : ℕ → ℕ → ContactRow → Bool
owns tenant_id contact_id c = c.id == contact_id && c.tenant_id == tenant_id

require_tenant_contact : (ℕ → String) → Db → ℕ → ℕ → Result (Unit {0}) AppError
require_tenant_contact show_id db tenant_id contact_id =
    elim (select_one (owns tenant_id contact_id) db.contacts) [
      | none ↦
          err (not_found (String.◌++◌ "Contact " (String.◌++◌ (show_id contact_id) " not found")))
      | some _ ↦ ok tt
    ]

abbrev applies : ℕ → Text → ScoreRule → Bool
applies tenant_id event_type r =
    r.tenant_id == tenant_id && text_eq r.event_type event_type && r.is_active

abbrev scores_of : ℕ → ℕ → Score → Bool
scores_of tenant_id contact_id s = s.tenant_id == tenant_id && s.contact_id == contact_id

abbrev add32 : ℤ → ℤ → ℤ
add32 a b = wrap i32_modulus (a +ℤ b)

abbrev sub32 : ℤ → ℤ → ℤ
sub32 a b = wrap i32_modulus (a -ℤ b)

-- `-rule.points` or `rule.points`.
pub signed_points : ScoreRule → ℤ
signed_points rule =
    if text_eq rule.direction (codes "subtract") then sub32 (pos 0) rule.points else rule.points

-- The loop over the rules: the points in all, and the rows written to the history.
apply_rules : ℕ → Text → ℤ → ℤ → List ScoreRule → ℤ × List ScoreHistory
unfolding signed_points
apply_rules contact_id event_type current total [] = (total, [])
apply_rules contact_id event_type current total (rule ∷ rules) =
    let pts = signed_points rule in
    let total' = add32 total pts in
    let row : ScoreHistory = record {
      contact_id = contact_id;
      rule_id = rule.id;
      points = pts;
      previous_score = max_ℤ (sub32 (add32 current total') pts) (pos 0);
      new_score = max_ℤ (add32 current total') (pos 0);
      event_type = event_type;
    } in
    let (points, rows) = apply_rules contact_id event_type current total' rules in
    (points, row ∷ rows)

abbrev new_score_row : ℕ → ℕ → ℕ → Score
new_score_row fresh tenant_id contact_id = record {
  id = fresh;
  tenant_id = tenant_id;
  contact_id = contact_id;
  total_score = pos 0;
  category = codes "interested";
  last_event_type = none;
}

-- The row of the contact, inserted if there is none, and the table that holds it.
pub find_or_insert : ℕ → ℕ → ℕ → List Score → Score × List Score
find_or_insert fresh tenant_id contact_id scores =
    elim (select_one (scores_of tenant_id contact_id) scores) [
      | some s ↦ (s, scores)
      | none ↦ (
        new_score_row fresh tenant_id contact_id,
        scores ++ new_score_row fresh tenant_id contact_id ∷ [],
      )
    ]

abbrev with_score : ℤ → Text → Score → Score
with_score final event_type s = record s {
  total_score = final;
  category = score_category final;
  last_event_type = some event_type;
}

follow_ups : ℕ → Text → ℤ → List FollowUp
follow_ups contact_id old_cat final =
    if text_eq old_cat (score_category final)
    then []
    else score_trigger contact_id final (score_category final)
      ∷ apply_thresholds contact_id final (score_category final)
      ∷ scoring_webhooks contact_id final (score_category final)
      ∷ []

-- `(current_score + total_points).max(0)` after the loop.
final_score : ℕ → Text → ℤ → List ScoreRule → ℤ
final_score contact_id event_type current rules =
    max_ℤ (add32 current (apply_rules contact_id event_type current (pos 0) rules).0) (pos 0)

-- What is done once the contact is known to be the tenant's.
pub score_event : Db → ℕ → ℕ → ℕ → Text → Score × Db × List FollowUp
unfolding final_score apply_rules find_or_insert follow_ups
score_event db fresh tenant_id contact_id event_type =
    let rules = select (applies tenant_id event_type) db.rules in
    let (s, scores) = find_or_insert fresh tenant_id contact_id db.scores in
    let final = final_score contact_id event_type s.total_score rules in
    (
      with_score final event_type s,
      record db {
        scores = update (λ r. r.id == s.id) (with_score final event_type) scores;
        history = db.history ++ (apply_rules contact_id event_type s.total_score (pos 0) rules).1;
      },
      follow_ups contact_id s.category final,
    )

pub calculate_score :
    (ℕ → String) → Db → ℕ → ℕ → ℕ → Text → Result (Score × Db × List FollowUp) AppError
unfolding require_tenant_contact score_event
calculate_score show_id db fresh tenant_id contact_id event_type =
    elim (require_tenant_contact show_id db tenant_id contact_id) [
      | err e ↦ err e
      | ok _ ↦ ok (score_event db fresh tenant_id contact_id event_type)
    ]

pub ensure_score_record : (ℕ → String) → Db → ℕ → ℕ → ℕ → Result (Score × Db) AppError
unfolding require_tenant_contact find_or_insert
ensure_score_record show_id db fresh tenant_id contact_id =
    elim (require_tenant_contact show_id db tenant_id contact_id) [
      | err e ↦ err e
      | ok _ ↦
          let (s, scores) = find_or_insert fresh tenant_id contact_id db.scores in
          ok (s, record db { scores = scores })
    ]
