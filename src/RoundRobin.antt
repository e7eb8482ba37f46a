-- ===== src/RoundRobin.antt =====
-- round_robin/engine.rs and round_robin/models.rs: the assignment of leads to the members of a team.
-- A statement succeeds. Of members with equal counts the query may return any; here it is the first.
-- `fresh` is the new random id.
pub mod Assigned
pub mod Balance
pub mod Handlers
pub mod Isolation
pub mod Least
pub mod Loads
pub mod Runs
mod Tests
use core_swift_crm.Prelude.{
  ℕ, suc, Bool, false, ◌&&◌, ◌||◌, Option, none, some, List, [], ◌∷◌, ◌++◌, ◌==◌, leb,
  if◌then◌else◌, Result, ok, err, ◌>>=◌,
}
use core_swift_crm.Prelude.Int.{ℤ, pos, ltb_ℤ}
use core_swift_crm.Prelude.Tables.{select, select_one}
use core_swift_crm.Errors.{AppError, not_found, validation, database}
use core_swift_crm.Text.{Text, codes, text_eq}

pub record RoundRobinTeam : Type 0 where
  pub id : ℕ
  pub tenant_id : ℕ
  pub name : Text
  pub description : Option Text
  pub strategy : Text
  pub scope_type : Text
  pub scope_id : Option ℕ
  pub is_active : Bool

-- The column `max_concurrent_bookings` may be NULL.
pub record RoundRobinMember : Type 0 where
  pub id : ℕ
  pub team_id : ℕ
  pub user_id : ℕ
  pub weight : ℤ
  pub max_concurrent_bookings : Option ℤ
  pub is_active : Bool

pub record RoundRobinAssignment : Type 0 where
  pub id : ℕ
  pub team_id : ℕ
  pub member_id : ℕ
  pub booking_id : Option ℕ
  pub contact_id : Option ℕ
  pub status : Text

pub record Calendar : Type 0 where
  pub id : ℕ
  pub tenant_id : ℕ

pub record Db : Type 0 where
  pub teams : List RoundRobinTeam
  pub members : List RoundRobinMember
  pub assignments : List RoundRobinAssignment
  pub calendars : List Calendar

abbrev pub ok_or {ℓ} : {A : Type ℓ} → Option A → AppError → Result A AppError
ok_or none e = err e
ok_or (some a) e = ok a

abbrev pub pending : Text
pending = codes "pending"

abbrev pub active : Text
active = codes "active"

unfoldable pub is_pending : RoundRobinAssignment → Bool
is_pending a = text_eq a.status pending

unfoldable pub is_open : RoundRobinAssignment → Bool
is_open a = text_eq a.status pending || text_eq a.status active

-- `COUNT(ra.id)` of the left join: the assignments of the member that the join lets through.
unfoldable pub load : (RoundRobinAssignment → Bool) → List RoundRobinAssignment → ℕ → ℕ
load p [] member_id = 0
load p (a ∷ rows) member_id =
    let n = load p rows member_id in if a.member_id == member_id && p a then suc n else n

-- `ORDER BY COUNT(ra.id) ASC LIMIT 1`
unfoldable pub least : (RoundRobinMember → ℕ) → List RoundRobinMember → Option RoundRobinMember
least count [] = none
least count (m ∷ members) = elim (least count members) [
  | none ↦ some m
  | some best ↦ if leb (count m) (count best) then some m else some best
]

abbrev pub in_team : ℕ → RoundRobinMember → Bool
in_team team_id m = m.team_id == team_id && m.is_active

-- The row as `RoundRobinMember` has it: a NULL maximum does not decode.
unfoldable pub decode_member : RoundRobinMember → Result RoundRobinMember AppError
decode_member m = elim m.max_concurrent_bookings [
  | none ↦ err (database "unexpected null; try decoding as an `Option`")
  | some limit ↦ ok m
]

-- `HAVING COUNT(ra.id) < rm.max_concurrent_bookings`; nothing is less than NULL.
unfoldable pub has_room : List RoundRobinAssignment → RoundRobinMember → Bool
has_room assignments m = elim m.max_concurrent_bookings [
  | none ↦ false
  | some limit ↦ ltb_ℤ (pos (load is_open assignments m.id)) limit
]

unfoldable pub assignment :
    ℕ → RoundRobinTeam → RoundRobinMember → Option ℕ → Option ℕ → RoundRobinAssignment
assignment fresh team member booking_id contact_id = record {
  id = fresh;
  team_id = team.id;
  member_id = member.id;
  booking_id = booking_id;
  contact_id = contact_id;
  status = pending;
}

-- The `INSERT … RETURNING *` that both strategies end with.
unfoldable pub insert_assignment :
    ℕ
    → Db
    → RoundRobinTeam
    → Option ℕ
    → Option ℕ
    → RoundRobinMember
    → Result (RoundRobinAssignment × Db) AppError
unfolding assignment
insert_assignment fresh db team booking_id contact_id member =
    let a = assignment fresh team member booking_id contact_id in
    ok (a, record db { assignments = db.assignments ++ a ∷ [] })

-- The member that each strategy chooses.
unfoldable pub next_round_robin : Db → ℕ → Result RoundRobinMember AppError
unfolding least decode_member
next_round_robin db team_id =
    ok_or (least (λ m. load is_pending db.assignments m.id) (select (in_team team_id) db.members))
      (not_found "No active team members")
    >>= decode_member

unfoldable pub next_least_loaded : Db → ℕ → Result RoundRobinMember AppError
unfolding least has_room
next_least_loaded db team_id =
    ok_or
      (least (λ m. load is_open db.assignments m.id)
        (select (λ m. in_team team_id m && has_room db.assignments m) db.members))
      (not_found "No available team members (all at capacity)")

unfoldable pub assign_round_robin :
    ℕ → Db → RoundRobinTeam → Option ℕ → Option ℕ → Result (RoundRobinAssignment × Db) AppError
unfolding insert_assignment next_round_robin
assign_round_robin fresh db team booking_id contact_id =
    next_round_robin db team.id >>= insert_assignment fresh db team booking_id contact_id

unfoldable pub assign_least_loaded :
    ℕ → Db → RoundRobinTeam → Option ℕ → Option ℕ → Result (RoundRobinAssignment × Db) AppError
unfolding insert_assignment next_least_loaded
assign_least_loaded fresh db team booking_id contact_id =
    next_least_loaded db team.id >>= insert_assignment fresh db team booking_id contact_id

abbrev pub active_team : Db → ℕ → Result RoundRobinTeam AppError
active_team db team_id =
    ok_or (select_one (λ t. t.id == team_id && t.is_active) db.teams) (not_found "Team not found")

-- The `match` on the team's strategy.
unfoldable pub assign_by_strategy :
    ℕ → Db → RoundRobinTeam → Option ℕ → Option ℕ → Result (RoundRobinAssignment × Db) AppError
unfolding assign_round_robin assign_least_loaded
assign_by_strategy fresh db team booking_id contact_id =
    if text_eq team.strategy (codes "round_robin")
    then assign_round_robin fresh db team booking_id contact_id
    else if text_eq team.strategy (codes "least_loaded")
    then assign_least_loaded fresh db team booking_id contact_id
    else err (validation "Unknown strategy")

unfoldable pub assign_lead :
    ℕ → Db → ℕ → Option ℕ → Option ℕ → Result (RoundRobinAssignment × Db) AppError
unfolding assign_by_strategy
assign_lead fresh db team_id booking_id contact_id =
    active_team db team_id >>= λ team. assign_by_strategy fresh db team booking_id contact_id

abbrev some_eq : Option ℕ → ℕ → Bool
some_eq none n = false
some_eq (some m) n = m == n

abbrev team_id_of : Option RoundRobinTeam → Option ℕ
team_id_of none = none
team_id_of (some t) = some t.id

unfoldable pub find_team_for_calendar : Db → ℕ → Option ℕ
find_team_for_calendar db calendar_id = elim (select_one scoped db.teams) [
  | some t ↦ some t.id
  | none ↦ elim (select_one (λ c. c.id == calendar_id) db.calendars) [
    | none ↦ none
    | some c ↦ team_id_of (select_one (global c.tenant_id) db.teams)
  ]
]
  where
    scoped : RoundRobinTeam → Bool
    scoped t =
        text_eq t.scope_type (codes "calendar") && some_eq t.scope_id calendar_id && t.is_active

    global : ℕ → RoundRobinTeam → Bool
    global tenant_id t =
        t.tenant_id == tenant_id && text_eq t.scope_type (codes "global") && t.is_active
