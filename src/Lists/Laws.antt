-- ===== src/Lists/Laws.antt =====
-- Evaluation makes the matched contacts the members, and settles after one run.
use mathlib.Core.Path.{subst, sym}
use core_swift_crm.Prelude.{
  ℕ, true, false, List, [], ◌∷◌, ◌≡◌, ◌≢◌, inl, inr, Any, refl, ap, ◌∙◌, arith, length, ok, err,
  Result-cases, All,
}
use core_swift_crm.Prelude.Tables.{select}
use core_swift_crm.Errors.{AppError}
use core_swift_crm.Text.{codes, text_eq}
use core_swift_crm.Lists.{
  ListRule, ListRow, Db, Evaluation, contains, member_ids, minus, sort, dedup, all_matches,
  rule_matches, rules_of, write_changes, insert_members, delete_members, evaluate_rules,
  evaluate_dynamic_list, no_category_type,
}
use core_swift_crm.Lists.Matched.{contains-sort, contains-dedup}
use core_swift_crm.Lists.Members.{OfTenant, contains-write_changes}

all_matches-eq-ok :
    (db : Db) (list : ListRow) (rules : List ListRule) (ids : List ℕ) (result : Evaluation × Db)
    → length rules ≢ 0
    → all_matches db list.tenant_id rules ≡ ok ids
    → evaluate_rules db list rules ≡ ok result
    → write_changes db list (dedup (sort ids)) ≡ result
unfolding evaluate_rules
all_matches-eq-ok db list [] ids result ne e h = absurd (ne refl)
all_matches-eq-ok db list (rule ∷ rules) ids result ne e h = ground (arith, e, h)

-- If every row of the list is its tenant's and the list has a rule, then after a successful
-- evaluation a contact is a member exactly when some rule matched it.
pub evaluate_dynamic_list-members :
    (db : Db) (list : ListRow) (ids : List ℕ) (result : Evaluation × Db) (c : ℕ)
    → All (OfTenant list) db.members
    → length (rules_of list) ≢ 0
    → all_matches db list.tenant_id (rules_of list) ≡ ok ids
    → evaluate_dynamic_list db list ≡ ok result
    → contains c (member_ids list result.1.members) ≡ contains c ids
unfolding evaluate_dynamic_list
evaluate_dynamic_list-members db list ids result c kept ne e h =
    subst (λ r. contains c (member_ids list r.1.members) ≡ contains c ids)
      (all_matches-eq-ok db list (rules_of list) ids result ne e h)
      (contains-write_changes db list (dedup (sort ids)) c kept
        ∙ contains-dedup c (sort ids)
        ∙ contains-sort c ids)

abbrev pub settled : List ℕ → Evaluation
settled matched = record { total_matched = length matched; added = 0; removed = 0 }

minus-same :
    (xs ids : List ℕ) → ((c : ℕ) → contains c xs ≡ true → contains c ids ≡ true) → minus xs ids ≡ []
unfolding minus contains select
minus-same [] ids h = refl
minus-same (x ∷ xs) ids h =
    ground (arith, h x (ground arith), minus-same xs ids (λ c e. h c (ground (arith, e))))

write_changes-settled :
    (db : Db) (list : ListRow) (matched : List ℕ)
    → minus matched (member_ids list db.members) ≡ []
    → minus (member_ids list db.members) matched ≡ []
    → write_changes db list matched ≡ (settled matched, db)
unfolding write_changes insert_members delete_members
write_changes-settled db list matched e f = rw (e, f) refl

-- A second evaluation with the same matches adds nothing, removes nothing and leaves the tables as
-- they are, if every row of the list is its tenant's.
pub write_changes_idem :
    (db : Db) (list : ListRow) (matched : List ℕ)
    → All (OfTenant list) db.members
    → write_changes (write_changes db list matched).1 list matched
      ≡ (settled matched, (write_changes db list matched).1)
write_changes_idem db list matched h =
    write_changes-settled (write_changes db list matched).1 list matched
      (minus-same matched (member_ids list (write_changes db list matched).1.members)
        (λ c e. contains-write_changes db list matched c h ∙ e))
      (minus-same (member_ids list (write_changes db list matched).1.members) matched
        (λ c e. sym (contains-write_changes db list matched c h) ∙ e))

-- A rule on the category of the score.
abbrev pub IsCategoryRule : ListRule → Type 0
IsCategoryRule rule =
    (text_eq rule.field (codes "tag") ≡ false)
    × (text_eq rule.field (codes "score") ≡ true)
    × (text_eq rule.operator (codes "gte") ≡ false)
    × (text_eq rule.operator (codes "lte") ≡ false)
    × (text_eq rule.operator (codes "equals") ≡ true)

rule_matches-IsCategoryRule :
    (db : Db) (tenant_id : ℕ) (rule : ListRule)
    → db.has_category_type ≡ false
    → IsCategoryRule rule
    → rule_matches db tenant_id rule ≡ err no_category_type
unfolding rule_matches
rule_matches-IsCategoryRule db tenant_id rule none_such h =
    rw (h.0, h.1, h.2, h.3, h.4, none_such) refl

rule_matches-err :
    (db : Db) (tenant_id : ℕ) (rule : ListRule) (e : AppError)
    → rule_matches db tenant_id rule ≡ err e
    → e ≡ no_category_type
unfolding rule_matches
rule_matches-err db tenant_id rule e h = ground arith

all_matches-Any :
    (db : Db) (tenant_id : ℕ) (rules : List ListRule)
    → db.has_category_type ≡ false
    → Any IsCategoryRule rules
    → all_matches db tenant_id rules ≡ err no_category_type
unfolding all_matches
all_matches-Any db tenant_id [] h any_rule = elim any_rule [ ]
all_matches-Any db tenant_id (rule ∷ rules) h (inl here) =
    rw (rule_matches-IsCategoryRule db tenant_id rule h here) refl
all_matches-Any db tenant_id (rule ∷ rules) h (inr there) =
    elim (Result-cases (rule_matches db tenant_id rule)) [
      | inl (ids, e) ↦ rw (e, all_matches-Any db tenant_id rules h there) refl
      | inr (e, f) ↦ rw f (ap err (rule_matches-err db tenant_id rule e f))
    ]

evaluate_rules-Any :
    (db : Db) (list : ListRow) (rules : List ListRule)
    → db.has_category_type ≡ false
    → Any IsCategoryRule rules
    → evaluate_rules db list rules ≡ err no_category_type
unfolding evaluate_rules
evaluate_rules-Any db list [] h any_rule = elim any_rule [ ]
evaluate_rules-Any db list (rule ∷ rules) h any_rule =
    rw (all_matches-Any db list.tenant_id (rule ∷ rules) h any_rule) refl

-- On a database without the type `score_category`, which no migration creates, a list with a
-- "score" rule whose operator is "equals" is never evaluated: the answer is the database's error,
-- and nothing is written.
pub evaluate_dynamic_list-no_category :
    (db : Db) (list : ListRow)
    → db.has_category_type ≡ false
    → Any IsCategoryRule (rules_of list)
    → evaluate_dynamic_list db list ≡ err no_category_type
unfolding evaluate_dynamic_list
evaluate_dynamic_list-no_category db list h some_rule =
    evaluate_rules-Any db list (rules_of list) h some_rule
