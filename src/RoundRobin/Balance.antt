-- ===== src/RoundRobin/Balance.antt =====
-- A team that assigns by "round_robin" keeps its members' pending assignments level.
use core_swift_crm.Prelude.{
  ℕ, suc, ◌≤◌, ◌≡◌, sym, ap, ◌∙◌, true, ◌&&◌, Option, some, List, [], ◌∷◌, ◌++◌, inl, inr, arith,
  ◌==◌, ==_iff, All, Bool-cases, Result-cases, ok,
}
use mathlib.Core.Path.{subst}
use core_swift_crm.Prelude.Tables.{select_one, All-zip, select_one-All, select_one-eq-some, All-map}
use core_swift_crm.Text.{codes}
use core_swift_crm.RoundRobin.{
  Db, RoundRobinTeam, RoundRobinMember, RoundRobinAssignment, load, assignment, assign_lead,
  is_pending, in_team,
}
use core_swift_crm.RoundRobin.Least.{IsNextInTurn, ok_or-eq-ok}
use core_swift_crm.RoundRobin.Assigned.{assign_lead-IsChosen, IsChosen}
use core_swift_crm.RoundRobin.Runs.{
  Lead, assign_one, assign_leads, load_more, load_same, load-le, pending-is_open,
}

module _ (team_id : ℕ) where
  -- Of two active members of the team, the first has at most one pending assignment more.
  abbrev AreLevel : List RoundRobinAssignment → RoundRobinMember → RoundRobinMember → Type 0
  AreLevel rows x y =
      in_team team_id x ≡ true
      → in_team team_id y ≡ true
      → load is_pending rows x.id ≤ suc (load is_pending rows y.id)

  abbrev pub IsBalanced : Db → Type 0
  IsBalanced db = All (λ x. All (AreLevel db.assignments x) db.members) db.members

  abbrev pub AssignsInTurn : Db → Type 0
  AssignsInTurn db = All (λ t. t.id ≡ team_id → t.strategy ≡ codes "round_robin") db.teams

  -- The member that is chosen has no more than `y` before.
  one_more-AreLevel :
      (rows : List RoundRobinAssignment) (a : RoundRobinAssignment) (m x y : RoundRobinMember)
      → a.member_id ≡ m.id
      → is_pending a ≡ true
      → (in_team team_id y ≡ true → load is_pending rows m.id ≤ load is_pending rows y.id)
      → AreLevel rows x y
      → AreLevel (rows ++ a ∷ []) x y
  one_more-AreLevel rows a m x y same here least level hx hy = elim (Bool-cases (m.id == x.id)) [
    | inl e ↦
        let le = least hy in
        let more = load_more is_pending rows a x.id (same ∙ (==_iff m.id x.id).0 e) here in
        let id = (==_iff m.id x.id).0 e in
        let kept = load-le is_pending rows a y.id in ground (arith, le, more, kept, id)
    | inr e ↦
        let lev = level hx hy in
        let unchanged =
          load_same is_pending rows a x.id (λ k. absurd (ground (arith, same, e, k))) in
        let kept = load-le is_pending rows a y.id in ground (arith, lev, unchanged, kept)
  ]

  pub record IsFair (db : Db) : Type 0 where
    pub in_turn : AssignsInTurn db
    pub balanced : IsBalanced db

  stored-IsFair :
      (db : Db) (m : RoundRobinMember) (a : RoundRobinAssignment)
      → IsNextInTurn db team_id m
      → a.member_id ≡ m.id
      → is_pending a ≡ true
      → IsFair db
      → IsFair (record db { assignments = db.assignments ++ a ∷ [] })
  stored-IsFair db m a next same here h = record {
    in_turn = h.in_turn;
    balanced =
        All-map (λ x. All (AreLevel db.assignments x) db.members)
          (λ x. All (AreLevel (db.assignments ++ a ∷ []) x) db.members)
          (λ x.
            All-zip
              (λ y.
                in_team team_id y ≡ true
                → load is_pending db.assignments m.id ≤ load is_pending db.assignments y.id)
              (AreLevel db.assignments x) (AreLevel (db.assignments ++ a ∷ []) x)
              (λ y. one_more-AreLevel db.assignments a m x y same here) db.members next.none_less)
          db.members h.balanced;
  }

  chosen-InTurn :
      (db : Db) (team : RoundRobinTeam) (m : RoundRobinMember)
      → team.strategy ≡ codes "round_robin"
      → IsChosen db team m
      → IsNextInTurn db team.id m
  chosen-InTurn db team m e (inl (_, next)) = next
  chosen-InTurn db team m e (inr (other, _)) = absurd (cc (e, other))

  assign_lead-IsFair :
      (fresh : ℕ) (db : Db) (b c : Option ℕ) (a : RoundRobinAssignment) (db' : Db)
      → assign_lead fresh db team_id b c ≡ ok (a, db')
      → IsFair db
      → IsFair db'
  unfolding assignment
  assign_lead-IsFair fresh db b c a db' h fair =
      let (team, found, m, chosen, (row, stored)) =
        assign_lead-IsChosen fresh db b c a db' team_id h in
      let selected : select_one (λ t. t.id == team_id && t.is_active) db.teams ≡ some team =
        ok_or-eq-ok _ _ team found in
      let is_it : team.id ≡ team_id = ground (arith, select_one-eq-some _ db.teams team selected) in
      let in_turn =
        select_one-All (λ t. t.id ≡ team_id → t.strategy ≡ codes "round_robin") _ db.teams team
          selected fair.in_turn is_it in
      rw stored (
        stored-IsFair db m a
          (subst (λ i. IsNextInTurn db i m) is_it (chosen-InTurn db team m in_turn chosen))
          (ap (λ r. r.member_id) row) (rw row (pending-is_open fresh team m b c).1) fair)

  assign_one-IsFair :
      (l : Lead) (db : Db) → l.team_id ≡ team_id → IsFair db → IsFair (assign_one l db)
  unfolding assign_one
  assign_one-IsFair l db it h =
      elim (Result-cases (assign_lead l.fresh db l.team_id l.booking_id l.contact_id)) [
        | inl ((a, db'), e) ↦ rw e (
            assign_lead-IsFair l.fresh db l.booking_id l.contact_id a db'
              (ap (λ i. assign_lead l.fresh db i l.booking_id l.contact_id) (sym it) ∙ e) h)
        | inr (why, e) ↦ rw e h
      ]

  assign_leads-IsFair :
      (leads : List Lead) (db : Db)
      → All (λ l. l.team_id ≡ team_id) leads
      → IsFair db
      → IsFair (assign_leads leads db)
  unfolding assign_leads
  assign_leads-IsFair [] db it h = h
  assign_leads-IsFair (l ∷ leads) db it h =
      assign_leads-IsFair leads (assign_one l db) it.1 (assign_one-IsFair l db it.0 h)

  -- Any run of assignments to a team with the strategy "round_robin" keeps it balanced: the pending
  -- assignments of two active members differ by at most one, if they did before.
  pub assign_leads-IsBalanced :
      (leads : List Lead) (db : Db)
      → All (λ l. l.team_id ≡ team_id) leads
      → AssignsInTurn db
      → IsBalanced db
      → IsBalanced (assign_leads leads db)
  assign_leads-IsBalanced leads db it in_turn balanced =
      (assign_leads-IsFair leads db it (record { in_turn = in_turn; balanced = balanced })).balanced
