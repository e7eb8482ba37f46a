-- ===== src/Credits/Sums.antt =====
-- The arithmetic of the ledger: costs, sums, and what is left where nothing overflows.
use core_swift_crm.Prelude.{
  ℕ, ◌≡◌, refl, true, false, List, [], ◌∷◌, ◌++◌, arith, All, Bool-cases, inl, inr,
}
use core_swift_crm.Prelude.Int.{
  ℤ, pos, negsuc, ◌+ℤ◌, ◌-ℤ◌, ◌≤ℤ◌, ltb_ℤ, max_ℤ, InI32, wrap_of_InI32, int_laws,
}
use core_swift_crm.Text.{Text}
use core_swift_crm.Credits.{
  Db, CreditTransaction, credit_costs, cost_in, cost_of, allowance, consumed, sum_abs, counts, abs,
  sub32, as_i32, is_zero, get_credits_remaining,
}

-- A cost is a small positive number.
abbrev pub IsCost : ℤ → Type 0
IsCost n = (pos 1 ≤ℤ n) × (n ≤ℤ pos 10)

cost_in-IsCost :
    (costs : List (Text × ℤ)) (action_type : Text)
    → All (λ p. IsCost p.1) costs
    → IsCost (cost_in costs action_type)
unfolding cost_in
cost_in-IsCost [] action_type h = ground arith
cost_in-IsCost (p ∷ costs) action_type h = ground (arith, cost_in-IsCost costs action_type h.1, h.0)

pub cost_of-IsCost : (action_type : Text) → IsCost (cost_of action_type)
unfolding cost_of
cost_of-IsCost action_type = cost_in-IsCost credit_costs action_type (ground arith)

abbrev pub IsAmount : ℤ → Type 0
IsAmount n = (pos 0 ≤ℤ n) × (n ≤ℤ pos 0x7fffffff)

minus-InI32 : (a k : ℤ) → IsAmount a → IsAmount k → InI32 (a -ℤ k)
unfolding ◌-ℤ◌
minus-InI32 (pos a) (pos k) ha hk = ground (arith, ha, hk)
minus-InI32 (negsuc a) k ha hk = absurd (ground (arith, ha))
minus-InI32 (pos a) (negsuc k) ha hk = absurd (ground (arith, hk))

-- Without an overflow a difference of `i32` is the difference.
pub sub32-lem : (a k : ℤ) → IsAmount a → IsAmount k → sub32 a k ≡ a -ℤ k
sub32-lem a k ha hk = wrap_of_InI32 (a -ℤ k) (minus-InI32 a k ha hk)

as_i32-lem : (k : ℤ) → IsAmount k → as_i32 k ≡ k
as_i32-lem k hk = wrap_of_InI32 k (ground (arith, hk))

pub IsCost-IsAmount : (n : ℤ) → IsCost n → IsAmount n
IsCost-IsAmount n h = ground (arith, h)

-- The debit of a cost.
pub abs-sub32 :
    (n : ℤ) → IsCost n → (abs (sub32 (pos 0) n) ≡ n) × (ltb_ℤ (sub32 (pos 0) n) (pos 0) ≡ true)
unfolding ◌-ℤ◌
abs-sub32 (pos n) h =
    let e = sub32-lem (pos 0) (pos n) (ground arith) (IsCost-IsAmount (pos n) h) in
    rw e (ground (arith, h))
abs-sub32 (negsuc n) h = absurd (ground (arith, h))

plus_assoc : (a b c : ℤ) → a +ℤ (b +ℤ c) ≡ (a +ℤ b) +ℤ c
plus_assoc a b c = omega int_laws

none_left : (a k : ℤ) → is_zero a ≡ true → IsAmount k → pos 0 ≡ max_ℤ (a -ℤ k) (pos 0)
unfolding ◌-ℤ◌
none_left (pos a) (pos k) h hk = ground (arith, h)
none_left (negsuc a) k h hk = absurd (ground (arith, h))
none_left (pos a) (negsuc k) h hk = absurd (ground (arith, hk))

-- A row is counted or not.
pub sum_abs-append :
    (tenant_id start : ℕ) (rows : List CreditTransaction) (t : CreditTransaction)
    → (counts tenant_id start t ≡ false
        → sum_abs tenant_id start (rows ++ t ∷ []) ≡ sum_abs tenant_id start rows)
      × (counts tenant_id start t ≡ true
          → sum_abs tenant_id start (rows ++ t ∷ [])
            ≡ sum_abs tenant_id start rows +ℤ abs t.credits)
unfolding sum_abs
sum_abs-append tenant_id start [] t = ((λ e. rw e refl), (λ e. rw e (omega int_laws)))
sum_abs-append tenant_id start (r ∷ rows) t =
    let (out, in_sum) = sum_abs-append tenant_id start rows t in
    elim (Bool-cases (counts tenant_id start r)) [
      | inl here ↦ rw here (
        (λ e. rw (out e) refl),
        (λ e.
            rw (in_sum e)
              (plus_assoc (abs r.credits) (sum_abs tenant_id start rows) (abs t.credits))),
      )
      | inr away ↦ rw away (out, in_sum)
    ]

pub sum_abs-nonneg :
    (tenant_id start : ℕ) (rows : List CreditTransaction) → pos 0 ≤ℤ sum_abs tenant_id start rows
unfolding sum_abs
sum_abs-nonneg tenant_id start [] = omega int_laws
sum_abs-nonneg tenant_id start (r ∷ rows) =
    let h = sum_abs-nonneg tenant_id start rows in
    elim (Bool-cases (counts tenant_id start r)) [
      | inl here ↦ rw here (omega (int_laws, h))
      | inr away ↦ rw away h
    ]

-- The arithmetic of a debit that the remaining credits cover.
pub spend :
    (a k n : ℤ)
    → IsAmount a
    → IsAmount k
    → IsCost n
    → ltb_ℤ (max_ℤ (a -ℤ k) (pos 0)) n ≡ false
    → IsAmount (k +ℤ n)
      × IsAmount (max_ℤ (a -ℤ k) (pos 0))
      × (max_ℤ (a -ℤ (k +ℤ n)) (pos 0) ≡ max_ℤ (a -ℤ k) (pos 0) -ℤ n)
      × (k +ℤ n ≤ℤ a)
unfolding ◌+ℤ◌ ◌-ℤ◌
spend (pos a) (pos k) (pos n) ha hk hn enough = ground (arith, ha, hk, hn, enough)
spend (negsuc a) k n ha hk hn enough = absurd (ground (arith, ha))
spend (pos a) (negsuc k) n ha hk hn enough = absurd (ground (arith, hk))
spend (pos a) (pos k) (negsuc n) ha hk hn enough = absurd (ground (arith, hn))

-- What is left, where nothing overflows.
pub get_credits_remaining-lem :
    (db : Db) (tenant_id : ℕ)
    → IsAmount (allowance db tenant_id)
    → IsAmount (consumed db tenant_id)
    → get_credits_remaining db tenant_id
      ≡ max_ℤ (allowance db tenant_id -ℤ consumed db tenant_id) (pos 0)
unfolding get_credits_remaining
get_credits_remaining-lem db tenant_id ha hk =
    elim (Bool-cases (is_zero (allowance db tenant_id))) [
      | inl zero_here ↦
          rw zero_here (none_left (allowance db tenant_id) (consumed db tenant_id) zero_here hk)
      | inr some_here ↦
          rw
            (
              some_here,
              as_i32-lem (consumed db tenant_id) hk,
              sub32-lem (allowance db tenant_id) (consumed db tenant_id) ha hk,
            )
            refl
    ]
