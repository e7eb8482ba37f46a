-- ===== src/Scoring/Thresholds.antt =====
-- scoring/engine.rs, apply_thresholds: what a score that has changed its category moves and tags.
-- Statements succeed; the ids of new rows are left out.
pub mod Foreign
mod Tests
use core_swift_crm.Prelude.{
  ℕ, Bool, true, ◌&&◌, Option, none, some, List, [], ◌∷◌, ◌++◌, ◌==◌, any, if◌then◌else◌,
}
use core_swift_crm.Prelude.Int.{ℤ, leb_ℤ}
use core_swift_crm.Prelude.Tables.{select, select_one, update}
use core_swift_crm.Text.{Text, codes, text_eq}

-- `tag_name` is the text of that key of `action_config`, if it holds one.
pub record ScoringThreshold : Type 0 where
  pub tenant_id : ℕ
  pub pipeline_id : ℕ
  pub min_score : ℤ
  pub max_score : Option ℤ
  pub target_stage_id : ℕ
  pub action : Text
  pub tag_name : Option Text
  pub is_active : Bool

pub record Opportunity : Type 0 where
  pub id : ℕ
  pub tenant_id : ℕ
  pub contact_id : ℕ
  pub pipeline_id : ℕ
  pub stage_id : ℕ

pub record TagRow : Type 0 where
  pub id : ℕ
  pub tenant_id : ℕ
  pub name : Text

-- The assignments of tags to contacts.
pub record ContactTag : Type 0 where
  pub tag_id : ℕ
  pub contact_id : ℕ
  pub tenant_id : ℕ

pub record Db : Type 0 where
  pub thresholds : List ScoringThreshold
  pub opportunities : List Opportunity
  pub tags : List TagRow
  pub tag_assignments : List ContactTag

abbrev at_most : ℤ → Option ℤ → Bool
at_most score none = true
at_most score (some m) = leb_ℤ score m

abbrev pub crossed : ℕ → ℤ → ScoringThreshold → Bool
crossed tenant_id total_score t =
    t.tenant_id == tenant_id
    && t.is_active
    && leb_ℤ t.min_score total_score
    && at_most total_score t.max_score

abbrev pub set_stage : ℕ → ℕ → ℕ → List Opportunity → List Opportunity
set_stage tenant_id opp_id stage_id opps =
    update (λ o. o.id == opp_id && o.tenant_id == tenant_id) (λ o. record o { stage_id = stage_id })
      opps

unfoldable pub move_stage : ℕ → ℕ → ScoringThreshold → Db → Db
move_stage tenant_id contact_id t db = elim (select_one own db.opportunities) [
  | none ↦ db
  | some opp ↦ record db {
    opportunities = set_stage tenant_id opp.id t.target_stage_id db.opportunities;
  }
]
  where
    own : Opportunity → Bool
    own o = o.tenant_id == tenant_id && o.contact_id == contact_id && o.pipeline_id == t.pipeline_id

-- `INSERT … ON CONFLICT (tag_id, entity_type, entity_id, tenant_id) DO NOTHING`
abbrev pub insert_tag : ContactTag → List ContactTag → List ContactTag
insert_tag a rows =
    if any (λ r. r.tag_id == a.tag_id && r.contact_id == a.contact_id && r.tenant_id == a.tenant_id)
      rows
    then rows
    else rows ++ a ∷ []

abbrev pub tag_of : Db → ℕ → Option Text → Option TagRow
tag_of db tenant_id none = none
tag_of db tenant_id (some name) =
    select_one (λ g. g.tenant_id == tenant_id && text_eq g.name name) db.tags

unfoldable pub assign_tag : ℕ → ℕ → ScoringThreshold → Db → Db
assign_tag tenant_id contact_id t db = elim (tag_of db tenant_id t.tag_name) [
  | none ↦ db
  | some tag ↦ record db {
    tag_assignments =
        insert_tag (record { tag_id = tag.id; contact_id = contact_id; tenant_id = tenant_id })
          db.tag_assignments;
  }
]

-- One round of the loop.
unfoldable pub apply_threshold : ℕ → ℕ → ScoringThreshold → Db → Db
unfolding move_stage assign_tag
apply_threshold tenant_id contact_id t db =
    if text_eq t.action (codes "move_stage")
    then move_stage tenant_id contact_id t db
    else if text_eq t.action (codes "assign_tag")
    then assign_tag tenant_id contact_id t db
    else db

unfoldable pub apply_each : ℕ → ℕ → List ScoringThreshold → Db → Db
unfolding apply_threshold
apply_each tenant_id contact_id [] db = db
apply_each tenant_id contact_id (t ∷ thresholds) db =
    apply_each tenant_id contact_id thresholds (apply_threshold tenant_id contact_id t db)

unfoldable pub apply_thresholds : Db → ℕ → ℕ → ℤ → Db
unfolding apply_each
apply_thresholds db tenant_id contact_id total_score =
    apply_each tenant_id contact_id (select (crossed tenant_id total_score) db.thresholds) db
