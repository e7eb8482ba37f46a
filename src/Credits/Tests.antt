-- ===== src/Credits/Tests.antt =====
-- A plan of twelve credits, four debits, and the theorems at them.
use core_swift_crm.Prelude.{ℕ, ◌≡◌, refl, arith, true, false, none, some, List, [], ◌∷◌, map, ◌⊎◌}
use core_swift_crm.Prelude.Int.{pos, negsuc, ◌+ℤ◌, ◌-ℤ◌, ◌≤ℤ◌, ◌<ℤ◌, wrap}
use core_swift_crm.Prelude.Tables.{select_one}
use core_swift_crm.Text.{Text, codes, text_eq}
use core_swift_crm.Credits.{
  Db, TenantPlan, Consumption, cost_in, cost_of, allowance, consumed, sum_abs, check_credits,
  get_credits_remaining, insert_transaction, consume_credits,
}
use core_swift_crm.Credits.Ledger.{IsCovered, consume_all, consume_all-IsCovered}
use core_swift_crm.Credits.Remaining.{consume_credits-remaining}

abbrev plan : TenantPlan
plan = record {
  tenant_id = 5;
  plan_id = 1;
  status = codes "trialing";
  current_period_starts_at = 100;
}

abbrev db : Db
db = record {
  plans = record { id = 1; monthly_credits = some (pos 12) } ∷ [];
  tenant_plans = plan ∷ [];
  credit_transactions = [];
}

abbrev debit_of : Text → Consumption
debit_of action_type = record {
  tenant_id = 5;
  action_type = action_type;
  description = codes "";
  entity_type = none;
  entity_id = none;
}

abbrev debits : List (ℕ × Consumption)
debits =
    (90, debit_of (codes "sms.sent"))
    ∷ (110, debit_of (codes "ai.compose_message"))
    ∷ (120, debit_of (codes "sms.sent"))
    ∷ (130, debit_of (codes "unlisted"))
    ∷ []

run : Unit {0}
unfolding cost_in cost_of allowance consumed sum_abs get_credits_remaining check_credits
    insert_transaction consume_credits consume_all select_one text_eq wrap ◌+ℤ◌ ◌-ℤ◌
run = tt

-- The first debit lies before the period, the third is refused.
written :
    map (λ t. t.credits) (consume_all debits db).credit_transactions
    ≡ negsuc 4 ∷ negsuc 9 ∷ negsuc 0 ∷ []
unfolding run
written = refl

left : get_credits_remaining (consume_all debits db) 5 ≡ pos 1
unfolding run
left = refl

affordable : check_credits db 5 (codes "ai.compose_message") ≡ (true, pos 12, pos 10)
unfolding run
affordable = refl

no_plan : check_credits db 6 (codes "email.sent") ≡ (false, pos 0, pos 3)
unfolding run
no_plan = refl

consume_credits-remaining_example :
    let after = (consume_credits 110 db (debit_of (codes "sms.sent"))).1 in
    ((pos 12 <ℤ pos 5) × (pos 7 ≡ pos 12) × (after ≡ db))
    ⊎ ((pos 5 ≤ℤ pos 12)
        × (consumed after 5 ≡ consumed db 5 +ℤ pos 5)
        × (pos 7 ≡ pos 12 -ℤ pos 5)
        × (get_credits_remaining after 5 ≡ pos 7))
unfolding run
consume_credits-remaining_example =
    consume_credits-remaining 110 db (debit_of (codes "sms.sent")) plan refl refl (omega arith)
      (ground arith) (ground arith)

db-IsCovered : IsCovered 5 db
unfolding run
db-IsCovered = ground arith

consume_all-IsCovered_example : IsCovered 5 (consume_all debits db)
consume_all-IsCovered_example = consume_all-IsCovered 5 debits db db-IsCovered
