-- ===== src/Credits/Remaining.antt =====
-- What `consume_credits` returns is what is left afterwards.
use core_swift_crm.Prelude.{
  ℕ, ◌≤◌, ◌≡◌, refl, sym, ap, ◌∙◌, true, false, ◌&&◌, some, [], ◌∷◌, ◌++◌, arith, leb, length,
  Bool-cases, inl, inr, ◌⊎◌,
}
use core_swift_crm.Prelude.Int.{ℤ, pos, ◌+ℤ◌, ◌-ℤ◌, ◌≤ℤ◌, ◌<ℤ◌, ltb_ℤ, max_ℤ}
use core_swift_crm.Credits.{
  Db, Consumption, CreditTransaction, TenantPlan, cost_of, current_plan, allowance, consumed,
  sum_abs, counts, sub32, fits, get_credits_remaining, insert_transaction, consume_credits,
  consumed_since, debit,
}
use core_swift_crm.Credits.Sums.{
  IsAmount, IsCost, IsCost-IsAmount, abs-sub32, cost_of-IsCost, get_credits_remaining-lem, spend,
  sub32-lem, sum_abs-append,
}

abbrev pub Fits : Consumption → Type 0
Fits c = (leb (length c.action_type) 100 && fits 50 c.entity_type) ≡ true

-- The columns of the row hold its texts, so it is stored.
pub insert_transaction-eq :
    (now : ℕ) (c : Consumption) (n : ℤ) (db : Db)
    → Fits c
    → insert_transaction now c n db
      ≡ record db { credit_transactions = db.credit_transactions ++ debit now c n ∷ [] }
unfolding insert_transaction
insert_transaction-eq now c n db fit = rw fit refl

pub consumed-insert :
    (now : ℕ) (db : Db) (c : Consumption) (tp : TenantPlan) (cost : ℤ)
    → IsCost cost
    → Fits c
    → current_plan db c.tenant_id ≡ some tp
    → tp.current_period_starts_at ≤ now
    → consumed (insert_transaction now c (sub32 (pos 0) cost) db) c.tenant_id
      ≡ consumed db c.tenant_id +ℤ cost
unfolding consumed
consumed-insert now db c tp cost is_cost fit plan in_period =
    rw (insert_transaction-eq now c (sub32 (pos 0) cost) db fit) (
      ap (λ o. consumed_since o c.tenant_id (db.credit_transactions ++ t ∷ [])) plan
      ∙ (sum_abs-append c.tenant_id tp.current_period_starts_at db.credit_transactions t).1 counted
      ∙ ap (λ n. sum_abs c.tenant_id tp.current_period_starts_at db.credit_transactions +ℤ n)
          (abs-sub32 cost is_cost).0
      ∙ ap (λ o. consumed_since o c.tenant_id db.credit_transactions +ℤ cost) (sym plan))
  where
    t : CreditTransaction
    t = debit now c (sub32 (pos 0) cost)

    counted : counts c.tenant_id tp.current_period_starts_at t ≡ true
    counted = rw (abs-sub32 cost is_cost).1 (ground (arith, in_period))

module _ (now : ℕ) (db : Db) (c : Consumption) (tp : TenantPlan) (fit : Fits c)
    (plan : current_plan db c.tenant_id ≡ some tp) (in_period : tp.current_period_starts_at ≤ now)
    (ha : IsAmount (allowance db c.tenant_id)) (hk : IsAmount (consumed db c.tenant_id))
    (enough : ltb_ℤ (get_credits_remaining db c.tenant_id) (cost_of c.action_type) ≡ false) where
  cost : ℤ
  cost = cost_of c.action_type

  after : Db
  unfolding cost
  after = insert_transaction now c (sub32 (pos 0) cost) db

  allowance-after : allowance after c.tenant_id ≡ allowance db c.tenant_id
  unfolding allowance after
  allowance-after = rw (insert_transaction-eq now c (sub32 (pos 0) cost) db fit) refl

  consumed-after : consumed after c.tenant_id ≡ consumed db c.tenant_id +ℤ cost
  unfolding after cost
  consumed-after =
      consumed-insert now db c tp cost (cost_of-IsCost c.action_type) fit plan in_period

  spent :
      IsAmount (consumed db c.tenant_id +ℤ cost)
      × IsAmount (get_credits_remaining db c.tenant_id)
      × (max_ℤ (allowance db c.tenant_id -ℤ (consumed db c.tenant_id +ℤ cost)) (pos 0)
          ≡ get_credits_remaining db c.tenant_id -ℤ cost)
      × (consumed db c.tenant_id +ℤ cost ≤ℤ allowance db c.tenant_id)
  unfolding cost
  spent =
      let e = get_credits_remaining-lem db c.tenant_id ha hk in
      rw e (
        spend (allowance db c.tenant_id) (consumed db c.tenant_id) cost ha hk
          (cost_of-IsCost c.action_type) (sym (ap (λ r. ltb_ℤ r cost) e) ∙ enough))

  debited-consumed :
      consumed (insert_transaction now c (sub32 (pos 0) (cost_of c.action_type)) db) c.tenant_id
      ≡ consumed db c.tenant_id +ℤ cost_of c.action_type
  unfolding after cost
  debited-consumed = consumed-after

  spent-cost :
      sub32 (get_credits_remaining db c.tenant_id) (cost_of c.action_type)
      ≡ get_credits_remaining db c.tenant_id -ℤ cost_of c.action_type
  unfolding cost
  spent-cost =
      sub32-lem (get_credits_remaining db c.tenant_id) cost spent.1
        (IsCost-IsAmount cost (cost_of-IsCost c.action_type))

  spent-remaining :
      get_credits_remaining
        (insert_transaction now c (sub32 (pos 0) (cost_of c.action_type)) db)
        c.tenant_id
      ≡ sub32 (get_credits_remaining db c.tenant_id) (cost_of c.action_type)
  unfolding after cost
  spent-remaining =
      get_credits_remaining-lem after c.tenant_id (rw allowance-after ha)
        (rw consumed-after spent.0)
      ∙ rw (allowance-after, consumed-after) (spent.2 ∙ sym spent-cost)

-- A tenant with a plan in force, in its period, whose allowance and consumed credits are `i32` values
-- that are not negative, is debited as follows, if the texts fit their columns. If less remains than
-- the action costs, `consume_credits` writes nothing and returns what remains. Otherwise what was
-- consumed grows by exactly the cost, it returns what remained less the cost, and that is what
-- `get_credits_remaining` reads afterwards.
pub consume_credits-remaining :
    (now : ℕ) (db : Db) (c : Consumption) (tp : TenantPlan)
    → Fits c
    → current_plan db c.tenant_id ≡ some tp
    → tp.current_period_starts_at ≤ now
    → IsAmount (allowance db c.tenant_id)
    → IsAmount (consumed db c.tenant_id)
    → let before = get_credits_remaining db c.tenant_id in
      let (remaining, after) = consume_credits now db c in
      ((before <ℤ cost_of c.action_type) × (remaining ≡ before) × (after ≡ db))
      ⊎ ((cost_of c.action_type ≤ℤ before)
          × (consumed after c.tenant_id ≡ consumed db c.tenant_id +ℤ cost_of c.action_type)
          × (remaining ≡ before -ℤ cost_of c.action_type)
          × (get_credits_remaining after c.tenant_id ≡ remaining))
unfolding consume_credits
consume_credits-remaining now db c tp fit plan in_period ha hk =
    elim (Bool-cases (ltb_ℤ (get_credits_remaining db c.tenant_id) (cost_of c.action_type))) [
      | inl short ↦ rw short (inl (ground (arith, short), refl, refl))
      | inr enough ↦ rw enough (
          inr (
            ground (arith, enough),
            debited-consumed now db c tp fit plan in_period ha hk enough,
            spent-cost now db c tp fit plan in_period ha hk enough,
            spent-remaining now db c tp fit plan in_period ha hk enough,
          ))
    ]
