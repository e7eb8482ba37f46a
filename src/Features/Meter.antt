-- ===== src/Features/Meter.antt =====
-- How many calls a day's ceiling lets through.
use core_swift_crm.Prelude.{
  ℕ, zero, suc, ◌+◌, ◌-◌, String, Bool, none, some, List, [], ◌∷◌, ◌++◌, ◌≡◌, refl, arith, ◌==◌,
  ltb, leb, if◌then◌else◌, Option-cases, Bool-cases, inl, inr,
}
use core_swift_crm.Prelude.Int.{ℤ, pos}
use core_swift_crm.Prelude.Tables.{select_one, update}
use core_swift_crm.Entitlements.{Registry}
use core_swift_crm.Features.{
  Float, CallRow, count_api_calls_today, upsert_call, meter_call, meter_api_call, usage_ceiling,
  api_calls_per_day_key,
}
use core_swift_crm.Features.Ceilings.{is_ok}

select_one-bump :
    (tenant_id : ℕ) (rows : List CallRow)
    → count_api_calls_today
        (update (λ x. x.tenant_id == tenant_id) (λ x. record x { calls = suc x.calls }) rows)
        tenant_id
      ≡ elim (select_one (λ r. r.tenant_id == tenant_id) rows) [ none ↦ 0 | some r ↦ suc r.calls ]
unfolding count_api_calls_today select_one update
select_one-bump tenant_id [] = refl
select_one-bump tenant_id (r ∷ rows) = elim (Bool-cases (r.tenant_id == tenant_id)) [
  | inl same ↦ ground (arith, same)
  | inr differ ↦ ground (arith, differ, select_one-bump tenant_id rows)
]

select_one-append :
    (tenant_id n : ℕ) (rows : List CallRow)
    → select_one (λ r. r.tenant_id == tenant_id) rows ≡ none
    → count_api_calls_today (rows ++ record { tenant_id = tenant_id; calls = n } ∷ []) tenant_id ≡ n
unfolding count_api_calls_today select_one
select_one-append tenant_id n [] h = ground arith
select_one-append tenant_id n (r ∷ rows) h = ground (arith, h, select_one-append tenant_id n rows)

-- What one call does to the day's count under a ceiling of `limit`.
meter_call-step :
    (show : ℤ → String) (tenant_id : ℕ) (label : String) (limit : ℕ) (rows : List CallRow)
    → let (answer, rows') = meter_call show tenant_id label (some (pos limit)) rows in
      let before = count_api_calls_today rows tenant_id in
      (is_ok answer ≡ ltb before limit)
      × (count_api_calls_today rows' tenant_id ≡ (if ltb before limit then suc before else before))
unfolding meter_call upsert_call
meter_call-step show tenant_id label limit rows =
    elim (Option-cases (select_one (λ r. r.tenant_id == tenant_id) rows)) [
      | inl missing ↦ ground (arith, missing, select_one-append tenant_id 1 rows missing)
      | inr (r, found) ↦ ground (arith, found, select_one-bump tenant_id rows)
    ]

abbrev pub min : ℕ → ℕ → ℕ
min a b = if leb a b then a else b

module _ {F : Type 0} (fl : Float F) (show : ℤ → String) (reg : Registry F) (tenant_id : ℕ)
    (label : String) where
  abbrev tally : Bool → ℕ → ℕ
  tally b n = if b then suc n else n

  -- A run of `n` calls: how many were let through, and the rows after them.
  abbrev pub meter_times : ℕ → List CallRow → ℕ × List CallRow
  meter_times zero rows = (0, rows)
  meter_times (suc n) rows =
      let (answer, rows') = meter_api_call fl show reg tenant_id label rows in
      let (accepted, rows'') = meter_times n rows' in (tally (is_ok answer) accepted, rows'')

  meter_api_call-step :
      (limit : ℕ) (rows : List CallRow)
      → usage_ceiling fl reg tenant_id api_calls_per_day_key ≡ some (pos limit)
      → (is_ok (meter_api_call fl show reg tenant_id label rows).0
          ≡ ltb (count_api_calls_today rows tenant_id) limit)
        × (count_api_calls_today (meter_api_call fl show reg tenant_id label rows).1 tenant_id
            ≡ tally
                (ltb (count_api_calls_today rows tenant_id) limit)
                (count_api_calls_today rows tenant_id))
  unfolding meter_api_call
  meter_api_call-step limit rows e = rw e (meter_call-step show tenant_id label limit rows)

  -- Under a ceiling of `limit` calls a day, of `n` calls exactly as many are let through as the day
  -- has left, at most `n`, and the day's count grows by just those.
  pub meter_times_budget :
      (limit n : ℕ) (rows : List CallRow)
      → usage_ceiling fl reg tenant_id api_calls_per_day_key ≡ some (pos limit)
      → let before = count_api_calls_today rows tenant_id in
        ((meter_times n rows).0 ≡ min n (limit - before))
        × (count_api_calls_today (meter_times n rows).1 tenant_id ≡ before + min n (limit - before))
  meter_times_budget limit zero rows e = ground arith
  meter_times_budget limit (suc n) rows e = ground (
    arith,
    meter_api_call-step limit rows e,
    meter_times_budget limit n (meter_api_call fl show reg tenant_id label rows).1 e,
  )
