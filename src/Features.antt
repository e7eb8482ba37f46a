-- ===== src/Features.antt =====
-- features.rs: the plan gates, the usage ceilings and the daily meter of the api-key surface.
-- Each statement succeeds; `show` prints an integer, and `api_call_usage` holds the rows of one day.
-- The distinct industries of the usage readout are left out.
pub mod Ceilings
pub mod Meter
mod Tests
use Prim.Native.String
use core_swift_crm.Prelude.{
  ℕ, suc, String, Bool, true, false, ◌&&◌, ◌||◌, not, Option, none, some, List, [], ◌∷◌, ◌++◌, ◌==◌,
  ltb, if◌then◌else◌, length, Result, ok, err,
}
use core_swift_crm.Prelude.Int.{ℤ, pos, leb_ℤ, ltb_ℤ}
use core_swift_crm.Prelude.Tables.{select, select_one, update}
use core_swift_crm.Errors.{AppError, upgrade_required}
use core_swift_crm.Text.{Text, codes}
use core_swift_crm.Entitlements.{Registry, Source, no_plan, resolve}

-- `v < 0.0` and `v.floor() as i64`.
pub record Float (F : Type 0) : Type 0 where
  pub is_negative : F → Bool
  pub floor_as_i64 : F → ℤ

-- `calls` is an INTEGER column; a statement that would pass its bound is taken to succeed.
pub record CallRow : Type 0 where
  pub tenant_id : ℕ
  pub calls : ℕ

pub record UserSeat : Type 0 where
  pub tenant_id : ℕ
  pub is_active : Bool

-- `contacts`, `pipelines`, `integrations` and `tickets` list the tenants of the rows.
pub record Usage : Type 0 where
  pub contacts : List ℕ
  pub pipelines : List ℕ
  pub integrations : List ℕ
  pub tickets : List ℕ
  pub users : List UserSeat
  pub api_call_usage : List CallRow

abbrev rows_of : ℕ → List ℕ → ℕ
rows_of tenant_id rows = length (select (λ t. t == tenant_id) rows)

abbrev pub count_contacts : Usage → ℕ → ℕ
count_contacts db tenant_id = rows_of tenant_id db.contacts

abbrev pub count_pipelines : Usage → ℕ → ℕ
count_pipelines db tenant_id = rows_of tenant_id db.pipelines

abbrev pub count_integrations : Usage → ℕ → ℕ
count_integrations db tenant_id = rows_of tenant_id db.integrations

abbrev pub count_tickets : Usage → ℕ → ℕ
count_tickets db tenant_id = rows_of tenant_id db.tickets

abbrev pub count_active_users : Usage → ℕ → ℕ
count_active_users db tenant_id =
    length (select (λ u. u.tenant_id == tenant_id && u.is_active) db.users)

pub count_api_calls_today : List CallRow → ℕ → ℕ
count_api_calls_today rows tenant_id = elim (select_one (λ r. r.tenant_id == tenant_id) rows) [
  | none ↦ 0
  | some r ↦ r.calls
]

infixr 60 ◌^◌
abbrev ◌^◌ : String → String → String
a ^ b = String.◌++◌ a b

abbrev pub limit_reached_error : (ℤ → String) → String → String → ℤ → ℤ → AppError
limit_reached_error show label plural usage limit = upgrade_required (
    label
    ^ " limit reached ("
    ^ show usage
    ^ "/"
    ^ show limit
    ^ "). Upgrade your plan for more "
    ^ plural
    ^ ".")

-- `enforce_usage_limit` once the ceiling is known.
pub enforce_ceiling : (ℤ → String) → String → String → ℤ → Option ℤ → Result (Option ℤ) AppError
enforce_ceiling show label plural usage none = ok none
enforce_ceiling show label plural usage (some limit) =
    if leb_ℤ limit usage
    then err (limit_reached_error show label plural usage limit)
    else ok (some limit)

abbrev no_plan_source : Source → Bool
no_plan_source no_plan = true
no_plan_source _ = false

module _ {F : Type 0} where
  pub usage_ceiling : Float F → Registry F → ℕ → Text → Option ℤ
  usage_ceiling fl reg tenant_id key =
      let ent = resolve reg tenant_id key in
      if not ent.enabled then some (pos 0) else elim ent.limit_value [
        | none ↦ none
        | some v ↦ if fl.is_negative v then none else some (fl.floor_as_i64 v)
      ]

  unfoldable pub enforce_usage_limit :
      Float F
      → (ℤ → String)
      → Registry F
      → ℕ
      → Text
      → String
      → String
      → ℤ
      → Result (Option ℤ) AppError
  unfolding usage_ceiling enforce_ceiling
  enforce_usage_limit fl show reg tenant_id key label plural usage =
      enforce_ceiling show label plural usage (usage_ceiling fl reg tenant_id key)

  pub feature_gate_open : Registry F → ℕ → Text → Bool
  feature_gate_open reg tenant_id key =
      let ent = resolve reg tenant_id key in ent.enabled || no_plan_source ent.source

  pub enforce_feature_flag : Registry F → ℕ → Text → String → Result (Unit {0}) AppError
  unfolding feature_gate_open
  enforce_feature_flag reg tenant_id key label =
      if feature_gate_open reg tenant_id key
      then ok tt
      else err (
          upgrade_required
            (label ^ " is not available on your current plan. Upgrade to access it."))

  -- The gate's middleware; `claims` is the account id of the session in the request's extensions,
  -- and `parse_uuid` reads it. `ok` runs the inner service.
  pub gate_mw :
      (Text → Option ℕ) → Registry F → Text → String → Option Text → Result (Unit {0}) AppError
  unfolding enforce_feature_flag
  gate_mw parse_uuid reg key label none = ok tt
  gate_mw parse_uuid reg key label (some aid) = elim (parse_uuid aid) [
    | none ↦ ok tt
    | some tenant_id ↦ enforce_feature_flag reg tenant_id key label
  ]

-- `ON CONFLICT … DO UPDATE SET calls = calls + 1 WHERE …`: no row comes back if the update's
-- condition fails.
pub upsert_call : (CallRow → Bool) → ℕ → List CallRow → Option (List CallRow)
upsert_call may_update tenant_id rows = elim (select_one (λ r. r.tenant_id == tenant_id) rows) [
  | none ↦ some (rows ++ record { tenant_id = tenant_id; calls = 1 } ∷ [])
  | some r ↦
      if may_update r
      then some
          (update (λ x. x.tenant_id == tenant_id) (λ x. record x { calls = suc x.calls }) rows)
      else none
]

abbrev pub unwrap_rows : Option (List CallRow) → List CallRow → List CallRow
unwrap_rows none rows = rows
unwrap_rows (some rows') rows = rows'

-- `meter_api_call` once the ceiling is known.
pub meter_call :
    (ℤ → String) → ℕ → String → Option ℤ → List CallRow → Result (Unit {0}) AppError × List CallRow
unfolding upsert_call count_api_calls_today
meter_call show tenant_id label none rows =
    (ok tt, unwrap_rows (upsert_call (λ _. true) tenant_id rows) rows)
meter_call show tenant_id label (some limit) rows =
    if leb_ℤ limit (pos 0)
    then (err (limit_reached_error show label "API calls" (pos 0) limit), rows)
    else elim (upsert_call (λ r. ltb_ℤ (pos r.calls) limit) tenant_id rows) [
      | none ↦ (
        err (
            limit_reached_error show label "API calls" (pos (count_api_calls_today rows tenant_id))
              limit),
        rows,
      )
      | some rows' ↦ (ok tt, rows')
    ]

abbrev pub api_calls_per_day_key : Text
api_calls_per_day_key = codes "limit_api_calls_per_day"

pub meter_api_call :
    {F : Type 0}
    → Float F
    → (ℤ → String)
    → Registry F
    → ℕ
    → String
    → List CallRow
    → Result (Unit {0}) AppError × List CallRow
unfolding meter_call usage_ceiling
meter_api_call fl show reg tenant_id label rows =
    meter_call show tenant_id label (usage_ceiling fl reg tenant_id api_calls_per_day_key) rows

pub record UsageReadout : Type 0 where
  pub contacts : ℕ
  pub contacts_limit : Option ℤ
  pub contacts_over_limit : Bool
  pub pipelines : ℕ
  pub users : ℕ
  pub api_calls_today : ℕ
  pub tickets : ℕ
  pub tickets_readable : Bool
  pub support_intake_unreadable : Bool

abbrev over : ℕ → Option ℤ → Bool
over n none = false
over n (some limit) = ltb_ℤ limit (pos n)

pub get_usage_json : {F : Type 0} → Float F → Registry F → Usage → ℕ → UsageReadout
unfolding usage_ceiling feature_gate_open count_api_calls_today
get_usage_json fl reg db tenant_id =
    let contacts = count_contacts db tenant_id in
    let limit = usage_ceiling fl reg tenant_id (codes "limit_max_contacts") in
    let tickets = count_tickets db tenant_id in
    let readable = feature_gate_open reg tenant_id (codes "tickets") in
    record {
      contacts = contacts;
      contacts_limit = limit;
      contacts_over_limit = over contacts limit;
      pipelines = count_pipelines db tenant_id;
      users = count_active_users db tenant_id;
      api_calls_today = count_api_calls_today db.api_call_usage tenant_id;
      tickets = tickets;
      tickets_readable = readable;
      support_intake_unreadable = ltb 0 tickets && not readable;
    }
