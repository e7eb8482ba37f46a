-- ===== src/Lists.antt =====
-- lists/evaluator.rs: who belongs to a dynamic list. Ids are numbers in the order of `Uuid`.
-- Tables are lists of rows, and the statements succeed but for the cast in a rule on a category.
pub mod Matched
pub mod Members
pub mod Laws
mod Tests
use core_swift_crm.Prelude.{
  ℕ, Bool, false, ◌&&◌, not, Option, none, some, List, [], ◌∷◌, ◌++◌, map, ◌==◌, leb, if◌then◌else◌,
  any, length, Result, ok, err, ◌>>=◌,
}
use core_swift_crm.Prelude.Int.{ℤ, pos, leb_ℤ, wrap, i32_modulus}
use core_swift_crm.Prelude.Tables.{select}
use core_swift_crm.Errors.{AppError, database}
use core_swift_crm.Text.{Text, codes, text_eq}

-- `serde_json::Value`, as far as a rule reads it.
pub data Value : Type 0 where
  str : Text → Value
  int : ℤ → Value
  other : Value

pub record ListRule : Type 0 where
  pub field : Text
  pub operator : Text
  pub value : Value

-- `rules` is what `serde_json::from_value` makes of the column, if it can.
pub record ListRow : Type 0 where
  pub id : ℕ
  pub tenant_id : ℕ
  pub rules : Option (List ListRule)

pub record TagAssignment : Type 0 where
  pub tenant_id : ℕ
  pub entity_type : Text
  pub entity_id : ℕ
  pub tag_name : Text

pub record ScoreRow : Type 0 where
  pub tenant_id : ℕ
  pub contact_id : ℕ
  pub total_score : ℤ
  pub category : Text

pub record ListMember : Type 0 where
  pub list_id : ℕ
  pub contact_id : ℕ
  pub tenant_id : ℕ
  pub added_manually : Bool

-- `tags` is `tag_assignments` joined with `tags`. No migration creates a type `score_category`;
-- `has_category_type` says whether the database has one all the same.
pub record Db : Type 0 where
  pub tags : List TagAssignment
  pub scores : List ScoreRow
  pub members : List ListMember
  pub has_category_type : Bool

abbrev as_str_or : Text → Value → Text
as_str_or d (str s) = s
as_str_or d _ = d

-- `as_i64().unwrap_or(0) as i32`
abbrev as_i32 : Value → ℤ
as_i32 (int n) = wrap i32_modulus n
as_i32 _ = pos 0

pub contains : ℕ → List ℕ → Bool
contains id ids = any (λ i. i == id) ids

distinct : List ℕ → List ℕ
unfolding contains
distinct [] = []
distinct (id ∷ ids) = let rest = distinct ids in if contains id rest then rest else id ∷ rest

abbrev tagged : ℕ → Text → TagAssignment → Bool
tagged tenant_id tn t =
    t.tenant_id == tenant_id && text_eq t.entity_type (codes "contact") && text_eq t.tag_name tn

abbrev at_least : ℕ → ℤ → ScoreRow → Bool
at_least tenant_id ms s = s.tenant_id == tenant_id && leb_ℤ ms s.total_score

abbrev at_most : ℕ → ℤ → ScoreRow → Bool
at_most tenant_id ms s = s.tenant_id == tenant_id && leb_ℤ s.total_score ms

abbrev in_category : ℕ → Text → ScoreRow → Bool
in_category tenant_id cat s = s.tenant_id == tenant_id && text_eq s.category cat

abbrev contacts_of : List ScoreRow → List ℕ
contacts_of = map (λ s. s.contact_id)

abbrev no_category_type : AppError
no_category_type = database "type \"score_category\" does not exist"

-- The ids that one rule adds.
pub rule_matches : Db → ℕ → ListRule → Result (List ℕ) AppError
unfolding distinct
rule_matches db tenant_id rule =
    if text_eq rule.field (codes "tag")
    then ok (
        distinct (
          map (λ t. t.entity_id)
            (select (tagged tenant_id (as_str_or (codes "") rule.value)) db.tags)))
    else if text_eq rule.field (codes "score")
    then (if text_eq rule.operator (codes "gte")
        then ok (contacts_of (select (at_least tenant_id (as_i32 rule.value)) db.scores))
        else if text_eq rule.operator (codes "lte")
        then ok (contacts_of (select (at_most tenant_id (as_i32 rule.value)) db.scores))
        else if text_eq rule.operator (codes "equals")
        then (if db.has_category_type
            then ok (
                contacts_of
                  (select (in_category tenant_id (as_str_or (codes "cold") rule.value)) db.scores))
            else err no_category_type)
        else ok [])
    else ok []

pub all_matches : Db → ℕ → List ListRule → Result (List ℕ) AppError
all_matches db tenant_id [] = ok []
all_matches db tenant_id (rule ∷ rules) = rule_matches db tenant_id rule >>= λ ids.
    all_matches db tenant_id rules >>= λ more. ok (ids ++ more)

pub insert_sorted : ℕ → List ℕ → List ℕ
insert_sorted id [] = id ∷ []
insert_sorted id (i ∷ ids) =
    let rest = insert_sorted id ids in if leb id i then id ∷ i ∷ ids else i ∷ rest

-- `matched.sort()`
pub sort : List ℕ → List ℕ
unfolding insert_sorted
sort [] = []
sort (id ∷ ids) = insert_sorted id (sort ids)

-- `matched.dedup()`: of equal neighbours one is kept.
pub dedup : List ℕ → List ℕ
dedup [] = []
dedup (id ∷ ids) =
    let rest = dedup ids in
    elim rest [ [] ↦ id ∷ [] | i ∷ is ↦ if id == i then i ∷ is else id ∷ i ∷ is ]

abbrev belongs : ListRow → ListMember → Bool
belongs list m = m.list_id == list.id && m.tenant_id == list.tenant_id

unfoldable pub member_ids : ListRow → List ListMember → List ℕ
member_ids list members = map (λ m. m.contact_id) (select (belongs list) members)

-- `.filter(|id| !ids.contains(id))`
pub minus : List ℕ → List ℕ → List ℕ
unfolding contains
minus xs ids = select (λ id. not (contains id ids)) xs

-- `ON CONFLICT DO NOTHING`, on the unique pair of list and contact.
pub taken : ℕ → ℕ → List ListMember → Bool
taken list_id contact_id members =
    any (λ m. m.list_id == list_id && m.contact_id == contact_id) members

pub insert_members : ListRow → List ℕ → List ListMember → List ListMember
unfolding taken
insert_members list [] members = members
insert_members list (cid ∷ cids) members = insert_members list cids (
    if taken list.id cid members
    then members
    else members
      ++ record {
        list_id = list.id;
        contact_id = cid;
        tenant_id = list.tenant_id;
        added_manually = false;
      }
        ∷ [])

pub delete_members : ListRow → List ℕ → List ListMember → List ListMember
delete_members list [] members = members
delete_members list (cid ∷ cids) members = delete_members list cids (
    select (λ m. not (m.list_id == list.id && m.contact_id == cid && m.tenant_id == list.tenant_id))
      members)

pub record Evaluation : Type 0 where
  pub total_matched : ℕ
  pub added : ℕ
  pub removed : ℕ

-- The two loops of writes, and the counts of the answer.
pub write_changes : Db → ListRow → List ℕ → Evaluation × Db
unfolding minus insert_members delete_members
write_changes db list matched =
    let existing = member_ids list db.members in
    let to_add = minus matched existing in
    let to_remove = minus existing matched in
    (
      record { total_matched = length matched; added = length to_add; removed = length to_remove },
      record db { members = delete_members list to_remove (insert_members list to_add db.members) },
    )

pub rules_of : ListRow → List ListRule
rules_of list = elim list.rules [ none ↦ [] | some rules ↦ rules ]

abbrev no_rules : Evaluation
no_rules = record { total_matched = 0; added = 0; removed = 0 }

-- A list without rules is left as it is (the answer then has no `total_matched`).
evaluate_rules : Db → ListRow → List ListRule → Result (Evaluation × Db) AppError
unfolding all_matches rule_matches sort dedup write_changes
evaluate_rules db list [] = ok (no_rules, db)
evaluate_rules db list (rule ∷ rules) = all_matches db list.tenant_id (rule ∷ rules) >>= λ ids.
    ok (write_changes db list (dedup (sort ids)))

pub evaluate_dynamic_list : Db → ListRow → Result (Evaluation × Db) AppError
unfolding evaluate_rules rules_of
evaluate_dynamic_list db list = evaluate_rules db list (rules_of list)
