-- ===== src/Lists/Tests.antt =====
-- Two rules over a small database, and the theorems at it.
use core_swift_crm.Prelude.{
  ℕ, ◌≡◌, refl, true, false, some, List, [], ◌∷◌, arith, ok, err, inl, inr, length,
}
use core_swift_crm.Prelude.Int.{pos, wrap}
use core_swift_crm.Prelude.Tables.{select}
use core_swift_crm.Text.{codes, text_eq}
use core_swift_crm.Lists.{
  str, int, ListRule, ListRow, ListMember, Db, Evaluation, member_ids, contains,
  evaluate_dynamic_list, all_matches, rules_of, no_category_type, sort, dedup,
}
use core_swift_crm.Lists.Laws.{evaluate_dynamic_list-members, evaluate_dynamic_list-no_category}

abbrev vip : ListRule
vip = record { field = codes "tag"; operator = codes "is"; value = str (codes "vip") }

abbrev warm : ListRule
warm = record { field = codes "score"; operator = codes "gte"; value = int (pos 40) }

abbrev hot : ListRule
hot = record { field = codes "score"; operator = codes "equals"; value = str (codes "hot") }

abbrev list_of : List ListRule → ListRow
list_of rules = record { id = 3; tenant_id = 5; rules = some rules }

abbrev member : ℕ → ListMember
member contact_id = record {
  list_id = 3;
  contact_id = contact_id;
  tenant_id = 5;
  added_manually = true;
}

abbrev added : ℕ → ListMember
added contact_id = record {
  list_id = 3;
  contact_id = contact_id;
  tenant_id = 5;
  added_manually = false;
}

abbrev db : Db
db = record {
  tags =
      record { tenant_id = 5; entity_type = codes "contact"; entity_id = 8; tag_name = codes "vip" }
      ∷ [];
  scores =
      record { tenant_id = 5; contact_id = 7; total_score = pos 50; category = codes "qualified" }
      ∷ record { tenant_id = 5; contact_id = 8; total_score = pos 45; category = codes "qualified" }
      ∷ [];
  members = member 7 ∷ member 9 ∷ [];
  has_category_type = false;
}

abbrev after : Evaluation × Db
after = (
  record { total_matched = 2; added = 1; removed = 1 },
  record db { members = member 7 ∷ added 8 ∷ [] },
)

run : Unit {0}
unfolding evaluate_dynamic_list all_matches rules_of contains member_ids select text_eq wrap sort
    dedup
run = tt

evaluated : evaluate_dynamic_list db (list_of (vip ∷ warm ∷ [])) ≡ ok after
unfolding run
evaluated = refl

matched : all_matches db 5 (vip ∷ warm ∷ []) ≡ ok (8 ∷ 7 ∷ 8 ∷ [])
unfolding run
matched = refl

some_rules : length (rules_of (list_of (vip ∷ warm ∷ []))) ≡ 0 → ⊥
unfolding run
some_rules e = ground (arith, e)

evaluate_dynamic_list-members_example :
    contains 8 (member_ids (list_of (vip ∷ warm ∷ [])) (member 7 ∷ added 8 ∷ []))
    ≡ contains 8 (8 ∷ 7 ∷ 8 ∷ [])
unfolding rules_of
evaluate_dynamic_list-members_example =
    evaluate_dynamic_list-members db (list_of (vip ∷ warm ∷ [])) (8 ∷ 7 ∷ 8 ∷ []) after 8
      ((λ _. refl), ((λ _. refl), tt)) some_rules matched evaluated

category_rule :
    core_swift_crm.Prelude.Any core_swift_crm.Lists.Laws.IsCategoryRule
      (rules_of (list_of (warm ∷ hot ∷ [])))
unfolding run
category_rule = inr (inl (refl, refl, refl, refl, refl))

evaluate_dynamic_list-no_category_example :
    evaluate_dynamic_list db (list_of (warm ∷ hot ∷ [])) ≡ err no_category_type
evaluate_dynamic_list-no_category_example =
    evaluate_dynamic_list-no_category db (list_of (warm ∷ hot ∷ [])) refl category_rule
