-- ===== src/RoundRobin/Tests.antt =====
-- Two teams of two tenants, and the theorems at them.
use core_swift_crm.Prelude.{
  ℕ, ◌≡◌, refl, arith, true, Option, none, some, List, [], ◌∷◌, map, ok, err, if◌then◌else◌,
}
use core_swift_crm.Prelude.Int.{ℤ, pos}
use core_swift_crm.Prelude.Tables.{select, select_one, update}
use core_swift_crm.Errors.{not_found, validation}
use core_swift_crm.Text.{Text, codes, text_eq}
use core_swift_crm.Entitlements.{Json, Fields, get}
use core_swift_crm.RoundRobin.{
  Db, RoundRobinTeam, RoundRobinMember, RoundRobinAssignment, load, least, is_pending, is_open,
  decode_member, has_room, assignment, insert_assignment, next_round_robin, next_least_loaded,
  assign_round_robin, assign_least_loaded, assign_by_strategy, assign_lead, active_team,
  find_team_for_calendar,
}
use core_swift_crm.RoundRobin.Assigned.{assign_lead-IsChosen, IsChosen, IsStored}
use core_swift_crm.RoundRobin.Balance.{AssignsInTurn, IsBalanced, assign_leads-IsBalanced}
use core_swift_crm.RoundRobin.Handlers.{
  CreateTeamRequest, create_team, update_team, changed_team, delete_team, get_team, add_member,
  remove_member, trigger_assignment,
}
use core_swift_crm.RoundRobin.Isolation.{TeamRequest, foreign, handle, handle_all, handlers-foreign}
use core_swift_crm.RoundRobin.Loads.{WithinCapacity, assign_leads-WithinCapacity}
use core_swift_crm.RoundRobin.Runs.{Lead, IsKeyed, assign_one, assign_leads}

abbrev team_row : ℕ → ℕ → Text → RoundRobinTeam
team_row id tenant_id strategy = record {
  id = id;
  tenant_id = tenant_id;
  name = codes "Sales";
  description = some (codes "first line");
  strategy = strategy;
  scope_type = codes "global";
  scope_id = none;
  is_active = true;
}

abbrev member_row : ℕ → ℕ → Option ℤ → RoundRobinMember
member_row id team_id limit = record {
  id = id;
  team_id = team_id;
  user_id = id;
  weight = pos 1;
  max_concurrent_bookings = limit;
  is_active = true;
}

abbrev turn_db : Db
turn_db = record {
  teams = team_row 1 5 (codes "round_robin") ∷ team_row 2 6 (codes "unknown") ∷ [];
  members = member_row 11 1 (some (pos 1)) ∷ member_row 12 1 (some (pos 9)) ∷ [];
  assignments = [];
  calendars = record { id = 8; tenant_id = 5 } ∷ [];
}

abbrev load_db : Db
load_db = record {
  teams = team_row 1 5 (codes "least_loaded") ∷ [];
  members =
      member_row 11 1 (some (pos 1)) ∷ member_row 12 1 (some (pos 2)) ∷ member_row 13 1 none ∷ [];
  assignments = [];
  calendars = [];
}

abbrev lead : ℕ → Lead
lead fresh = record { fresh = fresh; team_id = 1; booking_id = none; contact_id = some 3 }

abbrev leads : List Lead
leads = lead 21 ∷ lead 22 ∷ lead 23 ∷ lead 24 ∷ []

abbrev parse_uuid : Text → Option ℕ
parse_uuid s =
    if text_eq s (codes "five")
    then some 5
    else if text_eq s (codes "six")
    then some 6
    else if text_eq s (codes "one")
    then some 1
    else none

abbrev request : CreateTeamRequest
request = record {
  name = codes "Night";
  description = none;
  strategy = none;
  scope_type = none;
  scope_id = none;
}

abbrev changed : RoundRobinTeam
changed = record (team_row 1 5 (codes "round_robin")) { description = none }

abbrev team_body : Json ℕ
team_body = Json.object (Fields.field (codes "team_id") (Json.string (codes "one")) Fields.end)

run : Unit {0}
unfolding load least is_pending is_open decode_member has_room assignment insert_assignment
    next_round_robin next_least_loaded assign_round_robin assign_least_loaded assign_by_strategy
    assign_lead find_team_for_calendar create_team update_team changed_team delete_team get_team
    add_member remove_member trigger_assignment assign_one assign_leads select select_one update
    text_eq get
run = tt

in_turn : map (λ a. a.member_id) (assign_leads leads turn_db).assignments ≡ 11 ∷ 12 ∷ 11 ∷ 12 ∷ []
unfolding run
in_turn = refl

until_full : map (λ a. a.member_id) (assign_leads leads load_db).assignments ≡ 11 ∷ 12 ∷ 12 ∷ []
unfolding run
until_full = refl

at_capacity :
    assign_lead 25 (assign_leads leads load_db) 1 none none
    ≡ err (not_found "No available team members (all at capacity)")
unfolding run
at_capacity = refl

unknown_strategy : assign_lead 25 turn_db 2 none none ≡ err (validation "Unknown strategy")
unfolding run
unknown_strategy = refl

global_team : find_team_for_calendar turn_db 8 ≡ some 1
unfolding run
global_team = refl

-- A session of tenant 6 does not find team 1 of tenant 5, and yet assigns a lead in it.
not_its_team : get_team parse_uuid turn_db (codes "six") 1 ≡ err (not_found "Team not found")
unfolding run
not_its_team = refl

yet_assigned :
    trigger_assignment parse_uuid 30 turn_db (codes "six") team_body
    ≡ assign_lead 30 turn_db 1 none none
unfolding run
yet_assigned = refl

-- An update without a description clears it.
cleared :
    update_team parse_uuid turn_db (codes "five") 1 team_body
    ≡ ok (changed, record turn_db { teams = changed ∷ team_row 2 6 (codes "unknown") ∷ [] })
unfolding run
cleared = refl

first : RoundRobinAssignment
unfolding run
first =
    assignment 21 (team_row 1 5 (codes "round_robin")) (member_row 11 1 (some (pos 1))) none
      (some 3)

assign_lead-IsChosen_example :
    (team : RoundRobinTeam) × (active_team turn_db 1 ≡ ok team)
    × (m : RoundRobinMember) × IsChosen turn_db team m
    × IsStored 21 turn_db none (some 3) first (record turn_db { assignments = first ∷ [] }) team m
unfolding run first
assign_lead-IsChosen_example =
    assign_lead-IsChosen 21 turn_db none (some 3) first
      (record turn_db { assignments = first ∷ [] }) 1 refl

load_db-IsKeyed : IsKeyed load_db.members
load_db-IsKeyed = ground arith

load_db-WithinCapacity : WithinCapacity load_db
unfolding run
load_db-WithinCapacity = ground arith

assign_leads-WithinCapacity_example : WithinCapacity (assign_leads leads load_db)
assign_leads-WithinCapacity_example =
    assign_leads-WithinCapacity leads load_db load_db-IsKeyed (refl, tt) load_db-WithinCapacity

turn_db-IsBalanced : IsBalanced 1 turn_db
unfolding run
turn_db-IsBalanced = ground arith

turn_db-AssignsInTurn : AssignsInTurn 1 turn_db
turn_db-AssignsInTurn = ground arith

assign_leads-IsBalanced_example : IsBalanced 1 (assign_leads leads turn_db)
assign_leads-IsBalanced_example =
    assign_leads-IsBalanced 1 leads turn_db (refl, (refl, (refl, (refl, tt)))) turn_db-AssignsInTurn
      turn_db-IsBalanced

made : RoundRobinTeam
made = record {
  id = 40;
  tenant_id = 5;
  name = codes "Night";
  description = none;
  strategy = codes "round_robin";
  scope_type = codes "global";
  scope_id = none;
  is_active = true;
}

abbrev requests : List (TeamRequest ℕ)
requests =
    TeamRequest.creating 40 request
    ∷ TeamRequest.updating 1 team_body
    ∷ TeamRequest.deleting 2
    ∷ TeamRequest.deleting 1
    ∷ []

left : map (λ t. t.id) (handle_all parse_uuid (codes "five") requests turn_db).teams ≡ 2 ∷ 40 ∷ []
unfolding run handle handle_all
left = refl

handlers-foreign_example :
    foreign 5 (handle_all parse_uuid (codes "five") requests turn_db) ≡ foreign 5 turn_db
unfolding run
handlers-foreign_example = handlers-foreign parse_uuid (codes "five") 5 refl requests turn_db
