-- ===== src/RoundRobin/Runs.antt =====
-- A run of assignments, and what one of them does to the loads.
use core_swift_crm.Prelude.{
  ℕ, suc, ◌+◌, ◌≤◌, ◌≡◌, ◌≢◌, refl, Bool, true, ◌&&◌, Option, List, [], ◌∷◌, ◌++◌, arith, ◌==◌, All,
  Result, ok, err, if◌then◌else◌,
}
use core_swift_crm.Errors.{AppError}
use core_swift_crm.Text.{text_eq}
use core_swift_crm.RoundRobin.{
  Db, RoundRobinTeam, RoundRobinMember, RoundRobinAssignment, load, assignment, assign_lead,
  is_open, is_pending,
}

pub record Lead : Type 0 where
  pub fresh : ℕ
  pub team_id : ℕ
  pub booking_id : Option ℕ
  pub contact_id : Option ℕ

abbrev pub stored_db : Db → Result (RoundRobinAssignment × Db) AppError → Db
stored_db db (ok (a, db')) = db'
stored_db db (err e) = db

-- An assignment that fails leaves the tables as they were.
unfoldable pub assign_one : Lead → Db → Db
assign_one l db = stored_db db (assign_lead l.fresh db l.team_id l.booking_id l.contact_id)

unfoldable pub assign_leads : List Lead → Db → Db
assign_leads [] db = db
assign_leads (l ∷ leads) db = assign_leads leads (assign_one l db)

-- An `id` belongs to one member.
abbrev pub IsKeyed : List RoundRobinMember → Type 0
IsKeyed members = All (λ m. All (λ x. x.id ≡ m.id → x ≡ m) members) members

load-append :
    (p : RoundRobinAssignment → Bool) (rows : List RoundRobinAssignment) (a : RoundRobinAssignment)
    (id : ℕ)
    → load p (rows ++ a ∷ []) id ≡ load p rows id + (if a.member_id == id && p a then 1 else 0)
unfolding load
load-append p [] a id = ground arith
load-append p (b ∷ rows) a id = ground (arith, load-append p rows a id)

module _ (p : RoundRobinAssignment → Bool) (rows : List RoundRobinAssignment)
    (a : RoundRobinAssignment) (id : ℕ) where
  pub load_more : a.member_id ≡ id → p a ≡ true → load p (rows ++ a ∷ []) id ≡ suc (load p rows id)
  load_more same here = ground (arith, load-append p rows a id)

  pub load_same : a.member_id ≢ id → load p (rows ++ a ∷ []) id ≡ load p rows id
  load_same other = ground (arith, load-append p rows a id)

  pub load-le : load p rows id ≤ load p (rows ++ a ∷ []) id
  load-le = ground (arith, load-append p rows a id)

pub pending-is_open :
    (fresh : ℕ) (team : RoundRobinTeam) (m : RoundRobinMember) (b c : Option ℕ)
    → (is_open (assignment fresh team m b c) ≡ true)
      × (is_pending (assignment fresh team m b c) ≡ true)
unfolding is_open is_pending assignment text_eq
pending-is_open fresh team m b c = (refl, refl)
