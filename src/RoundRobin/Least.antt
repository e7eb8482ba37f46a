-- ===== src/RoundRobin/Least.antt =====
-- The member that a strategy chooses is an active one of the team, and none has a smaller count.
use core_swift_crm.Prelude.{
  ℕ, ◌≤◌, ◌≡◌, refl, Bool, true, ◌&&◌, Option, none, some, List, [], ◌∷◌, arith, All, Any, leb,
  Bool-cases, Option-cases, inl, inr, ok, with_ok, ok-inj, ap, ◌∙◌,
}
use mathlib.Core.Path.{subst}
use core_swift_crm.Prelude.Tables.{select, All-selected, All-unselected, All-map, All-rows}
use core_swift_crm.Errors.{AppError}
use core_swift_crm.RoundRobin.{
  Db, RoundRobinMember, least, load, is_pending, is_open, in_team, has_room, decode_member,
  next_round_robin, next_least_loaded, ok_or,
}

module _ (count : RoundRobinMember → ℕ) where
  pub least-none : (ms : List RoundRobinMember) → least count ms ≡ none → ms ≡ []
  unfolding least
  least-none [] h = refl
  least-none (x ∷ ms) h = ground arith

  pub least-All :
      (P : RoundRobinMember → Type 0) (ms : List RoundRobinMember) (m : RoundRobinMember)
      → least count ms ≡ some m
      → All P ms
      → P m
  unfolding least
  least-All P [] m h k = absurd (cc h)
  least-All P (x ∷ ms) m h k = elim (Option-cases (least count ms)) [
    | inl e ↦ subst P (ground (arith, e, h)) k.0
    | inr (best, e) ↦ elim (Bool-cases (leb (count x) (count best))) [
      | inl le ↦ subst P (ground (arith, e, h, le)) k.0
      | inr gt ↦ subst P (ground (arith, e, h, gt)) (least-All P ms best e k.1)
    ]
  ]

  pub least-le :
      (ms : List RoundRobinMember) (m : RoundRobinMember)
      → least count ms ≡ some m
      → All (λ x. count m ≤ count x) ms
  unfolding least
  least-le [] m h = absurd (cc h)
  least-le (x ∷ ms) m h = elim (Option-cases (least count ms)) [
    | inl e ↦ rw (least-none ms e) (ground (arith, e, h))
    | inr (best, e) ↦ (
      ground (arith, e, h),
      All-map (λ y. count best ≤ count y) (λ y. count m ≤ count y)
          (λ y le. ground (arith, e, h, le)) ms (least-le ms best e),
    )
  ]

-- `m` is a member that `p` lets through, and no other such member has a smaller count.
pub record IsNext (db : Db) (p : RoundRobinMember → Bool) (count : RoundRobinMember → ℕ)
    (m : RoundRobinMember) : Type 0 where
  pub found : Any (λ x. x ≡ m) db.members
  pub allowed : p m ≡ true
  pub none_less : All (λ x. p x ≡ true → count m ≤ count x) db.members

pub ok_or-eq-ok :
    {A : Type 0} (o : Option A) (why : AppError) (a : A) → ok_or o why ≡ ok a → o ≡ some a
ok_or-eq-ok none why a h = absurd (cc h)
ok_or-eq-ok (some b) why a h = ap (λ b. some b) (ok-inj b a h)

decode_member-eq-ok : (m m' : RoundRobinMember) → decode_member m ≡ ok m' → m ≡ m'
unfolding decode_member
decode_member-eq-ok m m' h = ground arith

-- An active member of the team.
abbrev pub IsNextInTurn : Db → ℕ → RoundRobinMember → Type 0
IsNextInTurn db team_id m = IsNext db (in_team team_id) (λ x. load is_pending db.assignments x.id) m

-- An active member of the team that has room.
abbrev pub IsNextWithRoom : Db → ℕ → RoundRobinMember → Type 0
IsNextWithRoom db team_id m =
    IsNext db (λ x. in_team team_id x && has_room db.assignments x)
      (λ x. load is_open db.assignments x.id) m

module _ (db : Db) (m : RoundRobinMember) where
  least-IsNext :
      (p : RoundRobinMember → Bool) (count : RoundRobinMember → ℕ)
      → least count (select p db.members) ≡ some m
      → IsNext db p count m
  least-IsNext p count e =
      let (found, allowed) =
        least-All count (λ x. Any (λ y. y ≡ x) db.members × (p x ≡ true)) (select p db.members) m e
          (All-selected (λ x. Any (λ y. y ≡ x) db.members) p db.members (All-rows db.members)) in
      record {
        found = found;
        allowed = allowed;
        none_less =
            All-unselected (λ x. count m ≤ count x) p db.members
              (least-le count (select p db.members) m e);
      }

  pub next_least_loaded-IsNext :
      (team_id : ℕ) → next_least_loaded db team_id ≡ ok m → IsNextWithRoom db team_id m
  unfolding next_least_loaded
  next_least_loaded-IsNext team_id h =
      least-IsNext (λ x. in_team team_id x && has_room db.assignments x)
        (λ x. load is_open db.assignments x.id) (ok_or-eq-ok _ _ m h)

  pub next_round_robin-IsNext :
      (team_id : ℕ) → next_round_robin db team_id ≡ ok m → IsNextInTurn db team_id m
  unfolding next_round_robin
  next_round_robin-IsNext team_id h =
      with_ok (ok_or (least count (select (in_team team_id) db.members)) _) _ h λ best e r.
        least-IsNext (in_team team_id) count
          (ok_or-eq-ok _ _ best e ∙ ap (λ b. some b) (decode_member-eq-ok best m r))
    where
      count : RoundRobinMember → ℕ
      count x = load is_pending db.assignments x.id
