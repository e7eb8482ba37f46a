-- ===== src/Credits/Ledger.antt =====
-- No run of debits takes a tenant over its allowance.
use core_swift_crm.Prelude.{
  ℕ, ◌≡◌, refl, sym, ap, ◌∙◌, false, ◌&&◌, Option, none, some, List, [], ◌∷◌, ◌++◌, ◌⊎◌, inl, inr,
  arith, leb, length, Bool-cases,
}
use mathlib.Core.Path.{subst}
use core_swift_crm.Prelude.Int.{ℤ, pos, ◌+ℤ◌, ◌≤ℤ◌, ltb_ℤ}
use core_swift_crm.Credits.{
  Db, Consumption, CreditTransaction, TenantPlan, cost_of, current_plan, allowance, consumed,
  consumed_since, counts, abs, sub32, debit, fits, get_credits_remaining, insert_transaction,
  consume_credits,
}
use core_swift_crm.Credits.Remaining.{Fits, insert_transaction-eq}
use core_swift_crm.Credits.Sums.{
  IsAmount, cost_of-IsCost, abs-sub32, sum_abs-append, sum_abs-nonneg, get_credits_remaining-lem,
  spend,
}

-- A run of debits, each at its time.
unfoldable pub consume_all : List (ℕ × Consumption) → Db → Db
consume_all [] db = db
consume_all ((now, c) ∷ rest) db = consume_all rest (consume_credits now db c).1

-- The allowance is an `i32` that is not negative, and covers what was consumed.
abbrev pub IsCovered : ℕ → Db → Type 0
IsCovered tenant_id db =
    IsAmount (allowance db tenant_id) × (consumed db tenant_id ≤ℤ allowance db tenant_id)

-- A new row counts towards the tenant's consumption, or it does not.
grows :
    (o : Option TenantPlan) (tenant_id : ℕ) (rows : List CreditTransaction) (t : CreditTransaction)
    → (consumed_since o tenant_id (rows ++ t ∷ []) ≡ consumed_since o tenant_id rows)
      ⊎ ((t.tenant_id ≡ tenant_id)
          × (consumed_since o tenant_id (rows ++ t ∷ [])
              ≡ consumed_since o tenant_id rows +ℤ abs t.credits))
grows none tenant_id rows t = inl refl
grows (some tp) tenant_id rows t =
    let (out, in_sum) = sum_abs-append tenant_id tp.current_period_starts_at rows t in
    elim (Bool-cases (counts tenant_id tp.current_period_starts_at t)) [
      | inl here ↦ inr (ground (arith, here), in_sum here)
      | inr away ↦ inl (out away)
    ]

consumed-IsAmount :
    (tenant_id : ℕ) (db : Db) → IsCovered tenant_id db → IsAmount (consumed db tenant_id)
unfolding consumed
consumed-IsAmount tenant_id db h = (nonneg (current_plan db tenant_id), ground (arith, h.0, h.1))
  where
    nonneg : (o : Option TenantPlan) → pos 0 ≤ℤ consumed_since o tenant_id db.credit_transactions
    nonneg none = ground arith
    nonneg (some tp) = sum_abs-nonneg tenant_id tp.current_period_starts_at db.credit_transactions

module _ (tenant_id now : ℕ) (db : Db) (c : Consumption) (h : IsCovered tenant_id db) where
  -- The debit of this tenant that the remaining credits cover.
  covered_debit :
      c.tenant_id ≡ tenant_id
      → ltb_ℤ (get_credits_remaining db c.tenant_id) (cost_of c.action_type) ≡ false
      → consumed db tenant_id +ℤ cost_of c.action_type ≤ℤ allowance db tenant_id
  covered_debit same enough =
      let hk = consumed-IsAmount tenant_id db h in
      let e = get_credits_remaining-lem db tenant_id h.0 hk in
      (spend (allowance db tenant_id) (consumed db tenant_id) (cost_of c.action_type) h.0 hk
        (cost_of-IsCost c.action_type)
        (subst (λ i. ltb_ℤ i (cost_of c.action_type) ≡ false)
          (ap (get_credits_remaining db) same ∙ e) enough)).3

  appended-IsCovered :
      ltb_ℤ (get_credits_remaining db c.tenant_id) (cost_of c.action_type) ≡ false
      → IsCovered tenant_id (record db {
        credit_transactions =
            db.credit_transactions ++ debit now c (sub32 (pos 0) (cost_of c.action_type)) ∷ [];
      })
  unfolding consumed allowance
  appended-IsCovered enough =
      let t = debit now c (sub32 (pos 0) (cost_of c.action_type)) in
      (
        h.0,
        elim (grows (current_plan db tenant_id) tenant_id db.credit_transactions t) [
          | inl e ↦ subst (λ n. n ≤ℤ allowance db tenant_id) (sym e) h.1
          | inr (same, e) ↦
              subst (λ n. n ≤ℤ allowance db tenant_id)
                (sym (
                  e
                  ∙ ap (λ n. consumed db tenant_id +ℤ n)
                      (abs-sub32 _ (cost_of-IsCost c.action_type)).0))
                (covered_debit same enough)
        ],
      )

  inserted-IsCovered :
      Fits c
      → ltb_ℤ (get_credits_remaining db c.tenant_id) (cost_of c.action_type) ≡ false
      → IsCovered tenant_id (insert_transaction now c (sub32 (pos 0) (cost_of c.action_type)) db)
  inserted-IsCovered fit enough =
      subst (IsCovered tenant_id)
        (sym (insert_transaction-eq now c (sub32 (pos 0) (cost_of c.action_type)) db fit))
        (appended-IsCovered enough)

  -- A text that does not fit its column is not stored.
  dropped :
      (n : ℤ)
      → (leb (length c.action_type) 100 && fits 50 c.entity_type) ≡ false
      → insert_transaction now c n db ≡ db
  unfolding insert_transaction
  dropped n too_long = rw too_long refl

  consume_credits-IsCovered : IsCovered tenant_id (consume_credits now db c).1
  unfolding consume_credits
  consume_credits-IsCovered =
      elim (Bool-cases (ltb_ℤ (get_credits_remaining db c.tenant_id) (cost_of c.action_type))) [
        | inl short ↦ rw short h
        | inr enough ↦
            rw enough (elim (Bool-cases (leb (length c.action_type) 100 && fits 50 c.entity_type)) [
              | inl fit ↦ inserted-IsCovered fit enough
              | inr too_long ↦ subst (IsCovered tenant_id) (sym (dropped _ too_long)) h
            ])
      ]

-- No run of debits, of this tenant or of others, at any times, consumes more in the tenant's period
-- than the plan's allowance, if it was so before and the allowance is an `i32` that is not negative.
pub consume_all-IsCovered :
    (tenant_id : ℕ) (debits : List (ℕ × Consumption)) (db : Db)
    → IsCovered tenant_id db
    → IsCovered tenant_id (consume_all debits db)
unfolding consume_all
consume_all-IsCovered tenant_id [] db h = h
consume_all-IsCovered tenant_id ((now, c) ∷ rest) db h =
    consume_all-IsCovered tenant_id rest (consume_credits now db c).1
      (consume_credits-IsCovered tenant_id now db c h)
