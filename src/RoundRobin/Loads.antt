-- ===== src/RoundRobin/Loads.antt =====
-- Teams that assign by "least_loaded" never exceed a member's maximum.
use core_swift_crm.Prelude.{
  ℕ, suc, ◌≡◌, sym, ap, true, Option, none, some, List, [], ◌∷◌, ◌++◌, inl, inr, arith, ◌==◌, All,
  Bool-cases, Result-cases, ok,
}
use mathlib.Core.Path.{subst}
use core_swift_crm.Prelude.Int.{ℤ, pos, ◌≤ℤ◌}
use core_swift_crm.Prelude.Tables.{All-found, All-zip, select_one-All}
use core_swift_crm.Text.{codes}
use core_swift_crm.RoundRobin.{
  Db, RoundRobinTeam, RoundRobinMember, RoundRobinAssignment, load, assignment, assign_lead,
  is_open, has_room,
}
use core_swift_crm.RoundRobin.Least.{IsNextWithRoom, ok_or-eq-ok}
use core_swift_crm.RoundRobin.Assigned.{assign_lead-IsChosen, IsChosen}
use core_swift_crm.RoundRobin.Runs.{
  Lead, assign_one, assign_leads, IsKeyed, load_more, load_same, pending-is_open,
}

abbrev pub IsWithin : ℕ → Option ℤ → Type 0
IsWithin n none = Unit
IsWithin n (some limit) = pos n ≤ℤ limit

-- No member has more pending and active assignments than its maximum.
abbrev pub WithinCapacity : Db → Type 0
WithinCapacity db =
    All (λ m. IsWithin (load is_open db.assignments m.id) m.max_concurrent_bookings) db.members

abbrev pub AreLeastLoaded : Db → Type 0
AreLeastLoaded db = All (λ t. t.strategy ≡ codes "least_loaded") db.teams

has_room-IsWithin :
    (rows : List RoundRobinAssignment) (m : RoundRobinMember)
    → has_room rows m ≡ true
    → IsWithin (suc (load is_open rows m.id)) m.max_concurrent_bookings
unfolding has_room
has_room-IsWithin rows m h = ground arith

-- The member that had room takes one more; the others keep what they have.
one_more-IsWithin :
    (rows : List RoundRobinAssignment) (a : RoundRobinAssignment) (m x : RoundRobinMember)
    → a.member_id ≡ m.id
    → is_open a ≡ true
    → has_room rows m ≡ true
    → (x.id ≡ m.id → x ≡ m)
    → IsWithin (load is_open rows x.id) x.max_concurrent_bookings
    → IsWithin (load is_open (rows ++ a ∷ []) x.id) x.max_concurrent_bookings
one_more-IsWithin rows a m x same opened room key h = elim (Bool-cases (m.id == x.id)) [
  | inl here ↦
      subst (λ y. IsWithin (load is_open (rows ++ a ∷ []) y.id) y.max_concurrent_bookings)
        (sym (key (ground (arith, here))))
        (rw (load_more is_open rows a m.id same opened) (has_room-IsWithin rows m room))
  | inr away ↦ rw (load_same is_open rows a x.id (λ e. absurd (ground (arith, same, e, away)))) h
]

chosen-HasRoom :
    (db : Db) (team : RoundRobinTeam) (m : RoundRobinMember)
    → team.strategy ≡ codes "least_loaded"
    → IsChosen db team m
    → IsNextWithRoom db team.id m
chosen-HasRoom db team m e (inr (_, next)) = next
chosen-HasRoom db team m e (inl (other, _)) = absurd (cc (e, other))

-- What an assignment keeps: the ids are keys, the teams assign by load, the loads are within.
pub record IsCapped (db : Db) : Type 0 where
  pub keyed : IsKeyed db.members
  pub least : AreLeastLoaded db
  pub within : WithinCapacity db

stored-IsCapped :
    (db : Db) (team : RoundRobinTeam) (m : RoundRobinMember) (a : RoundRobinAssignment)
    → IsNextWithRoom db team.id m
    → a.member_id ≡ m.id
    → is_open a ≡ true
    → IsCapped db
    → IsCapped (record db { assignments = db.assignments ++ a ∷ [] })
stored-IsCapped db team m a next same opened h = record {
  keyed = h.keyed;
  least = h.least;
  within =
      All-zip (λ x. x.id ≡ m.id → x ≡ m)
        (λ x. IsWithin (load is_open db.assignments x.id) x.max_concurrent_bookings)
        (λ x. IsWithin (load is_open (db.assignments ++ a ∷ []) x.id) x.max_concurrent_bookings)
        (λ x. one_more-IsWithin db.assignments a m x same opened (ground (arith, next.allowed)))
        db.members
        (All-found (λ m. All (λ x. x.id ≡ m.id → x ≡ m) db.members) m db.members next.found h.keyed)
        h.within;
}

assign_lead-IsCapped :
    (fresh : ℕ) (db : Db) (team_id : ℕ) (b c : Option ℕ) (a : RoundRobinAssignment) (db' : Db)
    → assign_lead fresh db team_id b c ≡ ok (a, db')
    → IsCapped db
    → IsCapped db'
unfolding assignment
assign_lead-IsCapped fresh db team_id b c a db' h capped =
    let (team, found, m, chosen, (row, stored)) =
      assign_lead-IsChosen fresh db b c a db' team_id h in
    let least =
      select_one-All (λ t. t.strategy ≡ codes "least_loaded") _ db.teams team
        (ok_or-eq-ok _ _ team found) capped.least in
    rw stored (
      stored-IsCapped db team m a (chosen-HasRoom db team m least chosen)
        (ap (λ r. r.member_id) row) (rw row (pending-is_open fresh team m b c).0) capped)

assign_one-IsCapped : (l : Lead) (db : Db) → IsCapped db → IsCapped (assign_one l db)
unfolding assign_one
assign_one-IsCapped l db h =
    elim (Result-cases (assign_lead l.fresh db l.team_id l.booking_id l.contact_id)) [
      | inl ((a, db'), e) ↦
          rw e (assign_lead-IsCapped l.fresh db l.team_id l.booking_id l.contact_id a db' e h)
      | inr (why, e) ↦ rw e h
    ]

assign_leads-IsCapped :
    (leads : List Lead) (db : Db) → IsCapped db → IsCapped (assign_leads leads db)
unfolding assign_leads
assign_leads-IsCapped [] db h = h
assign_leads-IsCapped (l ∷ leads) db h =
    assign_leads-IsCapped leads (assign_one l db) (assign_one-IsCapped l db h)

-- Where every team assigns by "least_loaded" and an id belongs to one member, no run of assignments
-- gives a member more pending and active ones than its maximum, if none had more before.
pub assign_leads-WithinCapacity :
    (leads : List Lead) (db : Db)
    → IsKeyed db.members
    → AreLeastLoaded db
    → WithinCapacity db
    → WithinCapacity (assign_leads leads db)
assign_leads-WithinCapacity leads db keyed least within =
    (assign_leads-IsCapped leads db
      (record { keyed = keyed; least = least; within = within })).within
