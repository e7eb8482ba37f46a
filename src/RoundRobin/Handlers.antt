-- ===== src/RoundRobin/Handlers.antt =====
-- round_robin/handlers.rs: the requests that change teams, members and assignments. `aid` is the
-- account id of the session. A deleted row takes the rows that refer to it with it, as the foreign
-- keys of the tables say. The lists are not modelled: they only read.
use core_swift_crm.Prelude.{
  ℕ, Bool, true, not, ◌&&◌, Option, none, some, List, [], ◌∷◌, ◌++◌, ◌==◌, ltb, any, if◌then◌else◌,
  length, Result, ok, err, ◌>>=◌,
}
use core_swift_crm.Prelude.Int.{ℤ, pos}
use core_swift_crm.Prelude.Tables.{select, select_one, update}
use core_swift_crm.Errors.{AppError, unauthorized, not_found, validation}
use core_swift_crm.Text.{Text, codes}
use core_swift_crm.Entitlements.{Json, get, as_bool}
use core_swift_crm.RoundRobin.{
  Db, RoundRobinTeam, RoundRobinMember, RoundRobinAssignment, ok_or, assign_lead,
}

pub record CreateTeamRequest : Type 0 where
  pub name : Text
  pub description : Option Text
  pub strategy : Option Text
  pub scope_type : Option Text
  pub scope_id : Option ℕ

pub record AddMemberRequest : Type 0 where
  pub user_id : ℕ
  pub weight : Option ℤ
  pub max_concurrent_bookings : Option ℤ

abbrev unwrap_or {ℓ} : {A : Type ℓ} → Option A → A → A
unwrap_or none d = d
unwrap_or (some a) d = a

abbrev or {ℓ} : {A : Type ℓ} → Option A → Option A → Option A
or none d = d
or (some a) d = some a

-- `SELECT * FROM round_robin_teams WHERE id = $1 AND tenant_id = $2`
abbrev pub owned : ℕ → ℕ → RoundRobinTeam → Bool
owned id tid t = t.id == id && t.tenant_id == tid

abbrev pub own_team : Db → ℕ → ℕ → Result RoundRobinTeam AppError
own_team db id tid = ok_or (select_one (owned id tid) db.teams) (not_found "Team not found")

-- The rows that remain when members are deleted.
abbrev pub delete_members : (RoundRobinMember → Bool) → Db → Db
delete_members gone db = record db {
  members = select (λ m. not (gone m)) db.members;
  assignments =
      select (λ a. not (any (λ m. m.id == a.member_id && gone m) db.members)) db.assignments;
}

abbrev pub without_team : ℕ → ℕ → Db → Db
without_team id tid db =
    let rest = delete_members (λ m. m.team_id == id) db in
    record rest {
      teams = select (λ t. not (owned id tid t)) db.teams;
      assignments = select (λ a. not (a.team_id == id)) rest.assignments;
    }

abbrev pub deleted : {A : Type 0} → (A → Bool) → List A → Bool
deleted p rows = ltb 0 (length (select p rows))

module _ (parse_uuid : Text → Option ℕ) where
  abbrev pub account : Text → Result ℕ AppError
  account aid = ok_or (parse_uuid aid) unauthorized

  unfoldable pub create_team :
      ℕ → Db → Text → CreateTeamRequest → Result (RoundRobinTeam × Db) AppError
  create_team fresh db aid body = account aid >>= λ tid.
      let team : RoundRobinTeam = record {
        id = fresh;
        tenant_id = tid;
        name = body.name;
        description = body.description;
        strategy = unwrap_or body.strategy (codes "round_robin");
        scope_type = unwrap_or body.scope_type (codes "global");
        scope_id = body.scope_id;
        is_active = true;
      } in
      ok (team, record db { teams = db.teams ++ team ∷ [] })

  unfoldable pub get_team : Db → Text → ℕ → Result RoundRobinTeam AppError
  get_team db aid id = account aid >>= λ tid. own_team db id tid

  module _ {F : Type 0} where
    abbrev pub str_field : Text → Json F → Option Text
    str_field key body = elim (get key body) [ some (Json.string s) ↦ some s | _ ↦ none ]

    abbrev bool_field : Text → Json F → Option Bool
    bool_field key body = elim (get key body) [ some v ↦ as_bool v | none ↦ none ]

    abbrev pub uuid_field : Text → Json F → Option ℕ
    uuid_field key body = elim (str_field key body) [ some s ↦ parse_uuid s | none ↦ none ]

    -- The columns of the `UPDATE`.
    unfoldable pub changed_team : RoundRobinTeam → Json F → RoundRobinTeam → RoundRobinTeam
    changed_team existing body row = record row {
      name = unwrap_or (str_field (codes "name") body) existing.name;
      description = str_field (codes "description") body;
      strategy = unwrap_or (str_field (codes "strategy") body) existing.strategy;
      scope_type = unwrap_or (str_field (codes "scope_type") body) existing.scope_type;
      scope_id = or (uuid_field (codes "scope_id") body) existing.scope_id;
      is_active = unwrap_or (bool_field (codes "is_active") body) existing.is_active;
    }

    unfoldable pub update_team : Db → Text → ℕ → Json F → Result (RoundRobinTeam × Db) AppError
    unfolding changed_team
    update_team db aid id body = account aid >>= λ tid. own_team db id tid >>= λ existing. ok (
      changed_team existing body existing,
      record db { teams = update (owned id tid) (changed_team existing body) db.teams },
    )

    unfoldable pub trigger_assignment :
        ℕ → Db → Text → Json F → Result (RoundRobinAssignment × Db) AppError
    unfolding assign_lead
    trigger_assignment fresh db aid body = account aid >>= λ _.
        ok_or (uuid_field (codes "team_id") body) (validation "team_id required") >>= λ team_id.
        assign_lead fresh db team_id (uuid_field (codes "booking_id") body)
          (uuid_field (codes "contact_id") body)

  unfoldable pub delete_team : Db → Text → ℕ → Result Db AppError
  delete_team db aid id = account aid >>= λ tid.
      if deleted (owned id tid) db.teams
      then ok (without_team id tid db)
      else err (not_found "Team not found")

  -- `INSERT … ON CONFLICT (team_id, user_id) DO UPDATE`
  abbrev upsert_member :
      ℕ → ℕ → AddMemberRequest → List RoundRobinMember → RoundRobinMember × List RoundRobinMember
  upsert_member fresh team_id body members = elim (select_one conflicts members) [
    | none ↦ (inserted, members ++ inserted ∷ [])
    | some m ↦ (changed m, update conflicts changed members)
  ]
    where
      conflicts : RoundRobinMember → Bool
      conflicts m = m.team_id == team_id && m.user_id == body.user_id

      inserted : RoundRobinMember
      inserted = record {
        id = fresh;
        team_id = team_id;
        user_id = body.user_id;
        weight = unwrap_or body.weight (pos 1);
        max_concurrent_bookings = some (unwrap_or body.max_concurrent_bookings (pos 10));
        is_active = true;
      }

      changed : RoundRobinMember → RoundRobinMember
      changed m = record m {
        is_active = true;
        weight = inserted.weight;
        max_concurrent_bookings = inserted.max_concurrent_bookings;
      }

  unfoldable pub add_member :
      ℕ → Db → Text → ℕ → AddMemberRequest → Result (RoundRobinMember × Db) AppError
  add_member fresh db aid team_id body = account aid >>= λ tid. own_team db team_id tid >>= λ _.
      let (m, members) = upsert_member fresh team_id body db.members in
      ok (m, record db { members = members })

  unfoldable pub remove_member : Db → Text → ℕ → ℕ → Result Db AppError
  remove_member db aid team_id member_id = account aid >>= λ tid. own_team db team_id tid >>= λ _.
      let gone : RoundRobinMember → Bool = λ m. m.id == member_id && m.team_id == team_id in
      if deleted gone db.members
      then ok (delete_members gone db)
      else err (not_found "Member not found")
