-- ===== src/Credits.antt =====
-- billing/credits.rs: the credits that an action costs, what is left of a plan's allowance in its
-- period, and the ledger of what was consumed. A tenant has one plan at most, as the table's unique
-- key says, and a plan exists. A read succeeds. Times are numbers. The summary is not modelled.
pub mod Ledger
pub mod Remaining
pub mod Sums
mod Tests
use core_swift_crm.Prelude.{
  ℕ, ◌+◌, Bool, true, ◌&&◌, ◌||◌, Option, none, some, List, [], ◌∷◌, ◌++◌, ◌==◌, leb, length,
  if◌then◌else◌,
}
use core_swift_crm.Prelude.Int.{
  ℤ, pos, pos_part, neg_part, ◌+ℤ◌, ◌-ℤ◌, leb_ℤ, ltb_ℤ, max_ℤ, wrap, i32_modulus,
}
use core_swift_crm.Prelude.Tables.{select_one}
use core_swift_crm.Text.{Text, codes, text_eq}

pub record Plan : Type 0 where
  pub id : ℕ
  pub monthly_credits : Option ℤ

pub record TenantPlan : Type 0 where
  pub tenant_id : ℕ
  pub plan_id : ℕ
  pub status : Text
  pub current_period_starts_at : ℕ

pub record CreditTransaction : Type 0 where
  pub tenant_id : ℕ
  pub action_type : Text
  pub credits : ℤ
  pub description : Text
  pub entity_type : Option Text
  pub entity_id : Option ℕ
  pub created_at : ℕ

pub record Db : Type 0 where
  pub plans : List Plan
  pub tenant_plans : List TenantPlan
  pub credit_transactions : List CreditTransaction

abbrev pub credit_costs : List (Text × ℤ)
credit_costs =
    (codes "contact.created", pos 1)
    ∷ (codes "automation.executed", pos 2)
    ∷ (codes "email.sent", pos 3)
    ∷ (codes "sms.sent", pos 5)
    ∷ (codes "webhook.called", pos 1)
    ∷ (codes "checklist.stage", pos 2)
    ∷ (codes "health.signal", pos 1)
    ∷ (codes "ai.churn_assessment", pos 5)
    ∷ (codes "ai.compose_message", pos 10)
    ∷ (codes "ai.prioritize", pos 3)
    ∷ (codes "ai.predict", pos 5)
    ∷ (codes "ai.campaign", pos 5)
    ∷ (codes "integration.api_call", pos 1)
    ∷ (codes "prepopulation.scan", pos 3)
    ∷ []

-- `.get(action_type).copied().unwrap_or(1)`
unfoldable pub cost_in : List (Text × ℤ) → Text → ℤ
cost_in [] action_type = pos 1
cost_in ((name, cost) ∷ costs) action_type =
    if text_eq name action_type then cost else cost_in costs action_type

unfoldable pub cost_of : Text → ℤ
cost_of action_type = cost_in credit_costs action_type

abbrev pub in_force : ℕ → TenantPlan → Bool
in_force tenant_id tp =
    tp.tenant_id == tenant_id
    && (text_eq tp.status (codes "active") || text_eq tp.status (codes "trialing"))

abbrev pub current_plan : Db → ℕ → Option TenantPlan
current_plan db tenant_id = select_one (in_force tenant_id) db.tenant_plans

abbrev coalesce : Option ℤ → ℤ
coalesce none = pos 0
coalesce (some n) = n

abbrev plan_credits : Option Plan → ℤ
plan_credits none = pos 0
plan_credits (some p) = coalesce p.monthly_credits

unfoldable pub allowance : Db → ℕ → ℤ
allowance db tenant_id = elim (current_plan db tenant_id) [
  | none ↦ pos 0
  | some tp ↦ plan_credits (select_one (λ p. p.id == tp.plan_id) db.plans)
]

abbrev pub abs : ℤ → ℤ
abs n = pos (pos_part n + neg_part n)

-- `WHERE tenant_id = $1 AND credits < 0 AND created_at >= …`
abbrev pub counts : ℕ → ℕ → CreditTransaction → Bool
counts tenant_id start t =
    t.tenant_id == tenant_id && ltb_ℤ t.credits (pos 0) && leb start t.created_at

-- `COALESCE(SUM(ABS(credits)), 0)`
unfoldable pub sum_abs : ℕ → ℕ → List CreditTransaction → ℤ
sum_abs tenant_id start [] = pos 0
sum_abs tenant_id start (t ∷ rows) =
    let rest = sum_abs tenant_id start rows in
    if counts tenant_id start t then abs t.credits +ℤ rest else rest

-- Without a plan the period's start is NULL, and no row compares with it.
abbrev pub consumed_since : Option TenantPlan → ℕ → List CreditTransaction → ℤ
consumed_since none tenant_id rows = pos 0
consumed_since (some tp) tenant_id rows = sum_abs tenant_id tp.current_period_starts_at rows

unfoldable pub consumed : Db → ℕ → ℤ
unfolding sum_abs
consumed db tenant_id = consumed_since (current_plan db tenant_id) tenant_id db.credit_transactions

abbrev pub as_i32 : ℤ → ℤ
as_i32 n = wrap i32_modulus n

abbrev pub sub32 : ℤ → ℤ → ℤ
sub32 a b = wrap i32_modulus (a -ℤ b)

abbrev pub is_zero : ℤ → Bool
is_zero n = leb_ℤ n (pos 0) && leb_ℤ (pos 0) n

unfoldable pub get_credits_remaining : Db → ℕ → ℤ
get_credits_remaining db tenant_id =
    if is_zero (allowance db tenant_id)
    then pos 0
    else max_ℤ (sub32 (allowance db tenant_id) (as_i32 (consumed db tenant_id))) (pos 0)

unfoldable pub check_credits : Db → ℕ → Text → Bool × ℤ × ℤ
unfolding cost_of get_credits_remaining
check_credits db tenant_id action_type =
    let cost = cost_of action_type in
    let remaining = get_credits_remaining db tenant_id in (leb_ℤ cost remaining, remaining, cost)

pub record Consumption : Type 0 where
  pub tenant_id : ℕ
  pub action_type : Text
  pub description : Text
  pub entity_type : Option Text
  pub entity_id : Option ℕ

abbrev pub fits : ℕ → Option Text → Bool
fits n none = true
fits n (some s) = leb (length s) n

abbrev pub debit : ℕ → Consumption → ℤ → CreditTransaction
debit now c credits = record {
  tenant_id = c.tenant_id;
  action_type = c.action_type;
  credits = credits;
  description = c.description;
  entity_type = c.entity_type;
  entity_id = c.entity_id;
  created_at = now;
}

-- The `INSERT`; its columns hold 100 and 50 characters, and its error is dropped.
unfoldable pub insert_transaction : ℕ → Consumption → ℤ → Db → Db
insert_transaction now c credits db =
    if leb (length c.action_type) 100 && fits 50 c.entity_type
    then record db { credit_transactions = db.credit_transactions ++ debit now c credits ∷ [] }
    else db

-- The remaining credits, and the ledger; `now` is the database's clock.
unfoldable pub consume_credits : ℕ → Db → Consumption → ℤ × Db
unfolding cost_of get_credits_remaining insert_transaction
consume_credits now db c =
    let cost = cost_of c.action_type in
    let remaining = get_credits_remaining db c.tenant_id in
    if ltb_ℤ remaining cost
    then (remaining, db)
    else (sub32 remaining cost, insert_transaction now c (sub32 (pos 0) cost) db)
