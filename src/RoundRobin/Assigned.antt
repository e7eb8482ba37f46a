-- ===== src/RoundRobin/Assigned.antt =====
-- What `assign_lead` returns and stores.
use core_swift_crm.Prelude.{
  ℕ, ◌≡◌, sym, ap, Option, [], ◌∷◌, ◌++◌, ◌⊎◌, inl, inr, arith, Bool-cases, ok, with_ok, ok-inj,
}
use core_swift_crm.Text.{codes, text_eq}
use core_swift_crm.Text.Equality.{text_eq-eq}
use core_swift_crm.RoundRobin.{
  Db, RoundRobinTeam, RoundRobinMember, RoundRobinAssignment, active_team, assignment,
  insert_assignment, assign_round_robin, assign_least_loaded, assign_by_strategy, assign_lead,
  next_round_robin, next_least_loaded,
}
use core_swift_crm.RoundRobin.Least.{
  IsNextInTurn, IsNextWithRoom, next_round_robin-IsNext, next_least_loaded-IsNext,
}

-- The team's strategy, and the member that it asks for.
abbrev pub IsChosen : Db → RoundRobinTeam → RoundRobinMember → Type 0
IsChosen db team m =
    ((team.strategy ≡ codes "round_robin") × IsNextInTurn db team.id m)
    ⊎ ((team.strategy ≡ codes "least_loaded") × IsNextWithRoom db team.id m)

module _ (fresh : ℕ) (db : Db) (booking_id contact_id : Option ℕ) (a : RoundRobinAssignment)
    (db' : Db) where
  -- One row for the member is appended, and it is the one that is returned.
  abbrev pub IsStored : RoundRobinTeam → RoundRobinMember → Type 0
  IsStored team m =
      (a ≡ assignment fresh team m booking_id contact_id)
      × (db' ≡ record db { assignments = db.assignments ++ a ∷ [] })

  insert_assignment-IsStored :
      (team : RoundRobinTeam) (m : RoundRobinMember)
      → insert_assignment fresh db team booking_id contact_id m ≡ ok (a, db')
      → IsStored team m
  unfolding insert_assignment
  insert_assignment-IsStored team m h =
      let e = ok-inj _ (a, db') h in
      let here = ap (λ p. p.0) e in (sym here, rw (← here) (sym (ap (λ p. p.1) e)))

  module _ (team : RoundRobinTeam) where
    assign_round_robin-IsStored :
        assign_round_robin fresh db team booking_id contact_id ≡ ok (a, db')
        → (m : RoundRobinMember) × IsNextInTurn db team.id m × IsStored team m
    unfolding assign_round_robin
    assign_round_robin-IsStored h =
        with_ok (next_round_robin db team.id) _ h
          λ m e r. (m, next_round_robin-IsNext db m team.id e, insert_assignment-IsStored team m r)

    assign_least_loaded-IsStored :
        assign_least_loaded fresh db team booking_id contact_id ≡ ok (a, db')
        → (m : RoundRobinMember) × IsNextWithRoom db team.id m × IsStored team m
    unfolding assign_least_loaded
    assign_least_loaded-IsStored h =
        with_ok (next_least_loaded db team.id) _ h
          λ m e r. (m, next_least_loaded-IsNext db m team.id e, insert_assignment-IsStored team m r)

    pub assign_by_strategy-IsChosen :
        assign_by_strategy fresh db team booking_id contact_id ≡ ok (a, db')
        → (m : RoundRobinMember) × IsChosen db team m × IsStored team m
    unfolding assign_by_strategy
    assign_by_strategy-IsChosen h =
        elim (Bool-cases (text_eq team.strategy (codes "round_robin"))) [
          | inl turn ↦
              let (m, next, stored) = assign_round_robin-IsStored (ground (arith, h, turn)) in
              (m, inl (text_eq-eq team.strategy _ turn, next), stored)
          | inr no_turn ↦ elim (Bool-cases (text_eq team.strategy (codes "least_loaded"))) [
            | inl least ↦
                let (m, next, stored) =
                  assign_least_loaded-IsStored (ground (arith, h, no_turn, least)) in
                (m, inr (text_eq-eq team.strategy _ least, next), stored)
            | inr unknown ↦ absurd (ground (arith, h, no_turn, unknown))
          ]
        ]

  -- A lead goes to an active member of the active team: by the strategy "round_robin" to one whose
  -- pending assignments are fewest, by "least_loaded" to one with room whose pending and active
  -- assignments are fewest. One pending row for that member is appended and returned.
  pub assign_lead-IsChosen :
      (team_id : ℕ)
      → assign_lead fresh db team_id booking_id contact_id ≡ ok (a, db')
      → (team : RoundRobinTeam) × (active_team db team_id ≡ ok team)
        × (m : RoundRobinMember) × IsChosen db team m
        × IsStored team m
  unfolding assign_lead
  assign_lead-IsChosen team_id h = with_ok (active_team db team_id) _ h λ team e r.
      let (m, chosen, stored) = assign_by_strategy-IsChosen team r in (team, e, m, chosen, stored)
