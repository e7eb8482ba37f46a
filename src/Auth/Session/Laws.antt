-- ===== src/Auth/Session/Laws.antt =====
-- Which requests run with which claims.
use core_swift_crm.Prelude.{
  ℕ, ◌≡◌, ◌≢◌, ◌↔◌, sym, ap, ◌∙◌, true, false, Option, none, some, List, [], ◌∷◌, ◌++◌, arith, Any,
  inl, inr, Option-cases, ok, >>=-eq-ok,
}
use core_swift_crm.Prelude.Int.{ℤ, pos, ◌≤ℤ◌, wrap, i64_modulus}
use core_swift_crm.Http.{Request, authorization}
use core_swift_crm.Text.{Text, codes}
use core_swift_crm.Text.Prefix.{strip_prefix_iff}
use core_swift_crm.Auth.Session.{
  Claims, validation, present, CacheReply, Env, fetch, find_tenant, find_user, is_some,
  workspace_exists, verify_token, refuse_revoked_session, check_blacklist, require,
  require_workspace, check_workspace, session_token, is_internal_path, auth_middleware,
}

-- A user who is active and whose password, if it was changed, was changed no later than the token
-- was issued.
pub record IsLiveUser (env : Env) (claims : Claims) : Type 0 where
  pub user_id : ℕ
  pub changed_at : Option ℤ
  pub named : env.parse_uuid claims.sub ≡ some user_id
  pub readable : env.db.users_fail ≡ none
  pub active : find_user user_id env.db.users ≡ some (true, changed_at)
  pub fresh : (v : ℤ) → changed_at ≡ some v → v ≤ℤ wrap i64_modulus (pos claims.iat)

pub record IsLiveWorkspace (env : Env) (claims : Claims) : Type 0 where
  pub workspace : ℕ
  pub named : env.parse_uuid claims.aid ≡ some workspace
  pub readable : env.db.tenants_fail ≡ none
  pub listed : Any (λ t. t ≡ workspace) env.db.tenants

pub record IsSession (env : Env) (req : Request) (claims : Claims) : Type 0 where
  pub outside : is_internal_path req.path ≡ false
  pub token : Text
  pub presented : req.header authorization ≡ some (codes "Bearer " ++ token)
  pub decoded : env.decode validation env.jwt_secret token ≡ some claims
  pub kept : env.blacklist token ≢ present
  pub workspace : IsLiveWorkspace env claims
  pub user : IsLiveUser env claims

refuse_revoked_session-IsLiveUser :
    (env : Env) (claims : Claims)
    → refuse_revoked_session env claims ≡ ok tt
    → IsLiveUser env claims
unfolding refuse_revoked_session fetch
refuse_revoked_session-IsLiveUser env claims h = elim (Option-cases (env.parse_uuid claims.sub)) [
  | inl nameless ↦ absurd (ground arith)
  | inr (user_id, named) ↦ elim (Option-cases (find_user user_id env.db.users)) [
    | inl missing ↦ absurd (ground arith)
    | inr ((is_active, changed_at), found) ↦ record {
      user_id = user_id;
      changed_at = changed_at;
      named = named;
      readable = ground arith;
      active = ground arith;
      fresh = λ v e. ground arith;
    }
  ]
]

IsLiveUser-refuse_revoked_session :
    (env : Env) (claims : Claims)
    → IsLiveUser env claims
    → refuse_revoked_session env claims ≡ ok tt
unfolding refuse_revoked_session fetch
IsLiveUser-refuse_revoked_session env claims u = elim (Option-cases u.changed_at) [
  | inl never ↦ ground (arith, u.named, u.readable, u.active)
  | inr (v, e) ↦ ground (arith, u.named, u.readable, u.active, u.fresh v e)
]

find_tenant-Any : (id : ℕ) (ts : List ℕ) → is_some (find_tenant id ts) ≡ true → Any (λ t. t ≡ id) ts
unfolding find_tenant is_some
find_tenant-Any id [] h = cc
find_tenant-Any id (t ∷ ts) h = ground (arith, find_tenant-Any id ts)

Any-find_tenant : (id : ℕ) (ts : List ℕ) → Any (λ t. t ≡ id) ts → is_some (find_tenant id ts) ≡ true
unfolding find_tenant is_some
Any-find_tenant id (t ∷ ts) h = ground (arith, Any-find_tenant id ts)
Any-find_tenant id [] h = absurd h

check_workspace-IsLiveWorkspace :
    (env : Env) (claims : Claims) → check_workspace env claims ≡ ok tt → IsLiveWorkspace env claims
unfolding check_workspace workspace_exists require_workspace fetch
check_workspace-IsLiveWorkspace env claims h = elim (Option-cases (env.parse_uuid claims.aid)) [
  | inl nameless ↦ absurd (ground arith)
  | inr (workspace, named) ↦ record {
    workspace = workspace;
    named = named;
    readable = ground arith;
    listed = find_tenant-Any workspace env.db.tenants (ground arith);
  }
]

IsLiveWorkspace-check_workspace :
    (env : Env) (claims : Claims) → IsLiveWorkspace env claims → check_workspace env claims ≡ ok tt
unfolding check_workspace workspace_exists require_workspace fetch
IsLiveWorkspace-check_workspace env claims w =
    ground (arith, w.named, w.readable, Any-find_tenant w.workspace env.db.tenants w.listed)

session_token_iff :
    (req : Request) (token : Text)
    → (session_token req ≡ ok token) ↔ (req.header authorization ≡ some (codes "Bearer " ++ token))
unfolding session_token require
session_token_iff req token = elim (Option-cases (req.header authorization)) [
  | inl missing ↦ ground arith
  | inr (value, found) ↦ (
    λ h. found ∙ ap some ((strip_prefix_iff value (codes "Bearer ") token).0 (ground arith)),
    λ h. ground (arith, (strip_prefix_iff value (codes "Bearer ") token).1),
  )
]

verify_token-eq-ok :
    (env : Env) (token : Text) (claims : Claims)
    → verify_token env token ≡ ok claims
    → env.decode validation env.jwt_secret token ≡ some claims
unfolding verify_token
verify_token-eq-ok env token claims h = ground arith

verify_token_of :
    (env : Env) (token : Text) (claims : Claims)
    → env.decode validation env.jwt_secret token ≡ some claims
    → verify_token env token ≡ ok claims
unfolding verify_token
verify_token_of env token claims h = rw (h, verify_token)

check_blacklist-ne : (reply : CacheReply) → check_blacklist reply ≡ ok tt → reply ≢ present
unfolding check_blacklist
check_blacklist-ne reply h = ground arith

check_blacklist_of_ne : (reply : CacheReply) → reply ≢ present → check_blacklist reply ≡ ok tt
unfolding check_blacklist
check_blacklist_of_ne reply h = ground arith

module _ (env : Env) (req : Request) (claims : Claims) where
  IsSession-of_ok : auth_middleware env req ≡ ok (some claims) → IsSession env req claims
  unfolding auth_middleware
  IsSession-of_ok h =
      let outside : is_internal_path req.path ≡ false = ground arith in
      let (token, t, h₁) = >>=-eq-ok (session_token req) _ (rw (outside, auth_middleware) at h) in
      let (c, d, h₂) = >>=-eq-ok (verify_token env token) _ h₁ in
      let (_, b, h₃) = >>=-eq-ok (check_blacklist (env.blacklist token)) _ h₂ in
      let (_, w, h₄) = >>=-eq-ok (check_workspace env c) _ h₃ in
      let (_, u, h₅) = >>=-eq-ok (refuse_revoked_session env c) _ h₄ in
      let same : c ≡ claims = cc in
      record {
        outside = outside;
        token = token;
        presented = (session_token_iff req token).0 t;
        decoded = verify_token-eq-ok env token claims (d ∙ ap ok same);
        kept = check_blacklist-ne (env.blacklist token) b;
        workspace =
            check_workspace-IsLiveWorkspace env claims (ap (check_workspace env) (sym same) ∙ w);
        user =
            refuse_revoked_session-IsLiveUser env claims
              (ap (refuse_revoked_session env) (sym same) ∙ u);
      }

  ok_of_session : IsSession env req claims → auth_middleware env req ≡ ok (some claims)
  unfolding auth_middleware
  ok_of_session s = ground (
    arith,
    s.outside,
    (session_token_iff req s.token).1 s.presented,
    verify_token_of env s.token claims s.decoded,
    check_blacklist_of_ne (env.blacklist s.token) s.kept,
    IsLiveWorkspace-check_workspace env claims s.workspace,
    IsLiveUser-refuse_revoked_session env claims s.user,
  )

  -- A protected handler runs with claims exactly when the request presents a token that decodes to
  -- them, is not known to be logged out, and names an existing workspace and a live user whose
  -- password is not newer than the token.
  pub auth_middleware_iff : (auth_middleware env req ≡ ok (some claims)) ↔ IsSession env req claims
  auth_middleware_iff = (IsSession-of_ok, ok_of_session)
