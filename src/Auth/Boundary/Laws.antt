-- ===== src/Auth/Boundary/Laws.antt =====
-- Which requests the boundary lets through.
use core_swift_crm.Prelude.{
  ℕ, ◌≡◌, ◌≢◌, ◌↔◌, ◌⊎◌, inl, inr, refl, Bool, true, false, ◌||◌, not, some, List, [], ◌∷◌, arith,
  Option-cases, if◌then◌else◌, ap, ◌∙◌,
}
use core_swift_crm.Http.{Request, Verdict, run_next, refuse, x_internal_key}
use core_swift_crm.Text.{Text}
use core_swift_crm.Auth.RoutePolicy.{
  is_public_route, is_internal_route, is_api_key_route, is_guarded_path,
}
use core_swift_crm.Auth.RoutePolicy.Disjoint.{route_lists_disjoint}
use core_swift_crm.Auth.Boundary.{
  boundary_refusal, bearer, presents_internal_key, presents_opaque_bearer, presents_app_jwt,
  require_credential,
}
use core_swift_crm.Auth.Boundary.Keys.{ct_eq_iff}

-- The reasons to let a request through, in no order.
pub data Admitted (key : List ℕ) (verifies : Text → Bool) (req : Request) : Type 0 where
  outside : is_guarded_path req.path ≡ false → Admitted key verifies req
  anonymous : is_public_route req.path ≡ true → Admitted key verifies req
  service :
      is_internal_route req.path ≡ true
      → key ≢ []
      → req.header x_internal_key ≡ some key
      → Admitted key verifies req
  key_holder :
      (token : Text)
      → is_api_key_route req.path ≡ true
      → bearer req ≡ some token
      → token ≢ []
      → Admitted key verifies req
  session :
      (token : Text)
      → is_internal_route req.path ≡ false
      → is_api_key_route req.path ≡ false
      → bearer req ≡ some token
      → verifies token ≡ true
      → Admitted key verifies req

presents_internal_key-eq-true :
    (key : List ℕ) (req : Request)
    → presents_internal_key key req ≡ true
    → (key ≢ []) × (req.header x_internal_key ≡ some key)
unfolding presents_internal_key
presents_internal_key-eq-true key req h = elim (Option-cases (req.header x_internal_key)) [
  | inl missing ↦ absurd (ground arith)
  | inr (given, found) ↦
      (λ e. ground arith, found ∙ ap some ((ct_eq_iff given key).0 (ground arith)))
]

presents_internal_key_of :
    (key : List ℕ) (req : Request)
    → key ≢ []
    → req.header x_internal_key ≡ some key
    → presents_internal_key key req ≡ true
unfolding presents_internal_key
presents_internal_key_of [] req h found = absurd (h refl)
presents_internal_key_of (k ∷ ks) req h found = rw found ((ct_eq_iff (k ∷ ks) (k ∷ ks)).1 refl)

presents_opaque_bearer-eq-true :
    (req : Request)
    → presents_opaque_bearer req ≡ true
    → (token : Text) × (bearer req ≡ some token) × (token ≢ [])
unfolding presents_opaque_bearer
presents_opaque_bearer-eq-true req h = elim (Option-cases (bearer req)) [
  | inl missing ↦ absurd (ground arith)
  | inr (token, found) ↦ (token, found, λ e. ground arith)
]

presents_opaque_bearer_of :
    (req : Request) (token : Text)
    → bearer req ≡ some token
    → token ≢ []
    → presents_opaque_bearer req ≡ true
unfolding presents_opaque_bearer
presents_opaque_bearer_of req [] found h = absurd (h refl)
presents_opaque_bearer_of req (c ∷ token) found h = rw (found, presents_opaque_bearer)

presents_app_jwt-eq-true :
    (verifies : Text → Bool) (req : Request)
    → presents_app_jwt verifies req ≡ true
    → (token : Text) × (bearer req ≡ some token) × (verifies token ≡ true)
unfolding presents_app_jwt
presents_app_jwt-eq-true verifies req h = elim (Option-cases (bearer req)) [
  | inl missing ↦ absurd (ground arith)
  | inr (token, found) ↦ (token, found, ground arith)
]

presents_app_jwt_of :
    (verifies : Text → Bool) (req : Request) (token : Text)
    → bearer req ≡ some token
    → verifies token ≡ true
    → presents_app_jwt verifies req ≡ true
unfolding presents_app_jwt
presents_app_jwt_of verifies req token found valid = rw (found, presents_app_jwt) valid

-- The chain of tests of `require_credential`, over their results.
by_tests : (guarded public internal api keyed key_held session_held : Bool) → Verdict
by_tests guarded public internal api keyed key_held session_held =
    if not guarded || public
    then run_next
    else if internal
    then (if keyed then run_next else refuse 401 boundary_refusal)
    else if api
    then (if key_held then run_next else refuse 401 boundary_refusal)
    else if session_held
    then run_next
    else refuse 401 boundary_refusal

by_tests-eq-run_next :
    (guarded public internal api keyed key_held session_held : Bool)
    → by_tests guarded public internal api keyed key_held session_held ≡ run_next
    → (guarded ≡ false)
      ⊎ (public ≡ true)
      ⊎ ((internal ≡ true) × (keyed ≡ true))
      ⊎ ((api ≡ true) × (key_held ≡ true))
      ⊎ ((internal ≡ false) × (api ≡ false) × (session_held ≡ true))
unfolding by_tests
by_tests-eq-run_next false p i a s k t h = inl refl
by_tests-eq-run_next true true i a s k t h = inr (inl refl)
by_tests-eq-run_next true false true a s k t h = inr (inr (inl (refl, ground arith)))
by_tests-eq-run_next true false false true s k t h = inr (inr (inr (inl (refl, ground arith))))
by_tests-eq-run_next true false false false s k t h =
    inr (inr (inr (inr (refl, refl, ground arith))))

module _ (key : List ℕ) (verifies : Text → Bool) (req : Request) where
  require_credential_lem :
      require_credential key verifies req
      ≡ by_tests
          (is_guarded_path req.path)
          (is_public_route req.path)
          (is_internal_route req.path)
          (is_api_key_route req.path)
          (presents_internal_key key req)
          (presents_opaque_bearer req)
          (presents_app_jwt verifies req)
  unfolding require_credential by_tests
  require_credential_lem = refl

  Admitted-of_run_next : require_credential key verifies req ≡ run_next → Admitted key verifies req
  Admitted-of_run_next h =
      elim (by_tests-eq-run_next _ _ _ _ _ _ _ (rw require_credential_lem at h)) [
        | inl out ↦ outside out
        | inr (inl public) ↦ anonymous public
        | inr (inr (inl (internal, presented))) ↦
            let (set, same) = presents_internal_key-eq-true key req presented in
            service internal set same
        | inr (inr (inr (inl (api, presented)))) ↦
            let (token, found, given) = presents_opaque_bearer-eq-true req presented in
            key_holder token api found given
        | inr (inr (inr (inr (not_internal, not_api, presented)))) ↦
            let (token, found, valid) = presents_app_jwt-eq-true verifies req presented in
            session token not_internal not_api found valid
      ]

  run_next_of_Admitted : Admitted key verifies req → require_credential key verifies req ≡ run_next
  unfolding by_tests
  run_next_of_Admitted (outside out) = rw (require_credential_lem, out) refl
  run_next_of_Admitted (anonymous public) = rw (require_credential_lem, public) (ground arith)
  run_next_of_Admitted (service internal set same) =
      rw (require_credential_lem, internal, presents_internal_key_of key req set same)
        (ground arith)
  run_next_of_Admitted (key_holder token api found given) =
      rw (require_credential_lem, api, presents_opaque_bearer_of req token found given)
        (ground (arith, (route_lists_disjoint req.path).1, api))
  run_next_of_Admitted (session token not_internal not_api found valid) =
      rw
        (
          require_credential_lem,
          not_internal,
          not_api,
          presents_app_jwt_of verifies req token found valid,
        )
        (ground arith)

  -- A request reaches the inner service exactly when a reason to admit it holds; any other is
  -- refused with 401.
  pub require_credential_iff :
      ((require_credential key verifies req ≡ run_next) ↔ Admitted key verifies req)
      × ((require_credential key verifies req ≡ run_next)
          ⊎ (require_credential key verifies req ≡ refuse 401 boundary_refusal))
  unfolding by_tests
  require_credential_iff =
      ((Admitted-of_run_next, run_next_of_Admitted), rw require_credential_lem (ground arith))
