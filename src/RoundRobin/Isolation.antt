-- ===== src/RoundRobin/Isolation.antt =====
-- Which teams a session reaches.
use core_swift_crm.Prelude.{
  ℕ, ◌≡◌, refl, sym, ap, ◌∙◌, not, Option, some, List, [], ◌∷◌, ◌++◌, ◌==◌, arith, Bool-cases, inl,
  inr, Result, ok, err, Result-cases, ◌>>=◌, with_ok, ok-inj,
}
use mathlib.Core.Path.{subst}
use core_swift_crm.Prelude.Tables.{select, update}
use core_swift_crm.Errors.{AppError, unauthorized}
use core_swift_crm.Text.{Text}
use core_swift_crm.Entitlements.{Json}
use core_swift_crm.RoundRobin.{Db, RoundRobinTeam, ok_or}
use core_swift_crm.RoundRobin.Handlers.{
  CreateTeamRequest, account, owned, own_team, create_team, update_team, changed_team, delete_team,
  deleted, without_team,
}

-- The teams of the other tenants.
abbrev pub foreign : ℕ → Db → List RoundRobinTeam
foreign tid db = select (λ t. not (t.tenant_id == tid)) db.teams

module _ (id tid : ℕ) where
  foreign_update :
      (f : RoundRobinTeam → RoundRobinTeam) (teams : List RoundRobinTeam)
      → ((t : RoundRobinTeam) → (f t).tenant_id ≡ t.tenant_id)
      → select (λ t. not (t.tenant_id == tid)) (update (owned id tid) f teams)
        ≡ select (λ t. not (t.tenant_id == tid)) teams
  unfolding select update
  foreign_update f [] keeps = refl
  foreign_update f (t ∷ teams) keeps = ground (arith, foreign_update f teams keeps, keeps t)

  foreign_delete :
      (teams : List RoundRobinTeam)
      → select (λ t. not (t.tenant_id == tid)) (select (λ t. not (owned id tid t)) teams)
        ≡ select (λ t. not (t.tenant_id == tid)) teams
  unfolding select
  foreign_delete [] = refl
  foreign_delete (t ∷ teams) = ground (arith, foreign_delete teams)

foreign_append :
    (tid : ℕ) (team : RoundRobinTeam) (teams : List RoundRobinTeam)
    → team.tenant_id ≡ tid
    → select (λ t. not (t.tenant_id == tid)) (teams ++ team ∷ [])
      ≡ select (λ t. not (t.tenant_id == tid)) teams
unfolding select
foreign_append tid team [] h = ground (arith, h)
foreign_append tid team (t ∷ teams) h = ground (arith, foreign_append tid team teams h)

changed_tenant :
    {F : Type 0} (parse_uuid : Text → Option ℕ) (existing : RoundRobinTeam) (body : Json F)
    (t : RoundRobinTeam)
    → (changed_team parse_uuid existing body t).tenant_id ≡ t.tenant_id
unfolding changed_team
changed_tenant parse_uuid existing body t = refl

-- What a session asks for. The first number of `creating` is the random id of the new row.
pub data TeamRequest (F : Type 0) : Type 0 where
  creating : ℕ → CreateTeamRequest → TeamRequest F
  updating : ℕ → Json F → TeamRequest F
  deleting : ℕ → TeamRequest F

module _ {F : Type 0} (parse_uuid : Text → Option ℕ) (aid : Text) where
  -- The tables after one request: a request that is refused leaves them.
  unfoldable pub handle : TeamRequest F → Db → Db
  handle (creating fresh body) db = elim (create_team parse_uuid fresh db aid body) [
    | ok r ↦ r.1
    | err e ↦ db
  ]
  handle (updating id body) db = elim (update_team parse_uuid db aid id body) [
    | ok r ↦ r.1
    | err e ↦ db
  ]
  handle (deleting id) db = elim (delete_team parse_uuid db aid id) [ ok rest ↦ rest | err e ↦ db ]

  unfoldable pub handle_all : List (TeamRequest F) → Db → Db
  unfolding handle
  handle_all [] db = db
  handle_all (request ∷ requests) db = handle_all requests (handle request db)

module _ (parse_uuid : Text → Option ℕ) (aid : Text) (tid : ℕ) (session : parse_uuid aid ≡ some tid)
    (db : Db) where
  -- The rest of a handler runs with the account id of the session.
  abbrev Untouched : Db → ℕ → Type 0
  Untouched db' t = foreign t db' ≡ foreign t db

  for_account :
      {A : Type 0} (db' : Db) (next : ℕ → Result A AppError) (a : A)
      → (account parse_uuid aid >>= next) ≡ ok a
      → ((t : ℕ) → next t ≡ ok a → Untouched db' t)
      → Untouched db' tid
  for_account db' next a h k = with_ok (account parse_uuid aid) next h λ t e rest.
      subst (Untouched db') (sym (ok-inj tid t (sym (ap (λ o. ok_or o unauthorized) session) ∙ e)))
        (k t rest)

  create_team-foreign :
      (fresh : ℕ) (body : CreateTeamRequest) (r : RoundRobinTeam × Db)
      → create_team parse_uuid fresh db aid body ≡ ok r
      → foreign tid r.1 ≡ foreign tid db
  unfolding create_team
  create_team-foreign fresh body r h =
      for_account r.1 _ r h λ t rest. rw (← ok-inj _ r rest) (foreign_append t _ db.teams refl)

  update_team-foreign :
      {F : Type 0} (id : ℕ) (body : Json F) (r : RoundRobinTeam × Db)
      → update_team parse_uuid db aid id body ≡ ok r
      → foreign tid r.1 ≡ foreign tid db
  unfolding update_team
  update_team-foreign id body r h = for_account r.1 _ r h λ t rest.
      with_ok (own_team db id t) _ rest λ existing _ done. rw (← ok-inj _ r done) (
        foreign_update id t (changed_team parse_uuid existing body) db.teams
          (changed_tenant parse_uuid existing body))

  delete_team-foreign :
      (id : ℕ) (db' : Db)
      → delete_team parse_uuid db aid id ≡ ok db'
      → foreign tid db' ≡ foreign tid db
  unfolding delete_team
  delete_team-foreign id db' h = for_account db' _ db' h λ t rest.
      elim (Bool-cases (deleted (owned id t) db.teams)) [
        | inl some_gone ↦
            let e : ◌≡◌ {A = Result Db AppError} (ok (without_team id t db)) (ok db') =
              ground (arith, some_gone, rest) in
            rw (← ok-inj _ db' e) (foreign_delete id t db.teams)
        | inr none_gone ↦ absurd (ground (arith, none_gone, rest))
      ]

  handle-foreign :
      {F : Type 0} (request : TeamRequest F)
      → foreign tid (handle parse_uuid aid request db) ≡ foreign tid db
  unfolding handle
  handle-foreign (creating fresh body) =
      elim (Result-cases (create_team parse_uuid fresh db aid body)) [
        | inl (r, e) ↦ rw (e, handle) (create_team-foreign fresh body r e)
        | inr (why, e) ↦ rw (e, handle) refl
      ]
  handle-foreign (updating id body) = elim (Result-cases (update_team parse_uuid db aid id body)) [
    | inl (r, e) ↦ rw (e, handle) (update_team-foreign id body r e)
    | inr (why, e) ↦ rw (e, handle) refl
  ]
  handle-foreign (deleting id) = elim (Result-cases (delete_team parse_uuid db aid id)) [
    | inl (rest, e) ↦ rw (e, handle) (delete_team-foreign id rest e)
    | inr (why, e) ↦ rw (e, handle) refl
  ]

-- Whatever teams a session creates, updates and deletes, in any order, be it refused or not: the
-- teams of all other tenants stay as they were.
pub handlers-foreign :
    {F : Type 0} (parse_uuid : Text → Option ℕ) (aid : Text) (tid : ℕ)
    → parse_uuid aid ≡ some tid
    → (requests : List (TeamRequest F)) (db : Db)
    → foreign tid (handle_all parse_uuid aid requests db) ≡ foreign tid db
unfolding handle_all
handlers-foreign parse_uuid aid tid session [] db = refl
handlers-foreign parse_uuid aid tid session (request ∷ requests) db =
    handlers-foreign parse_uuid aid tid session requests (handle parse_uuid aid request db)
    ∙ handle-foreign parse_uuid aid tid session db request
