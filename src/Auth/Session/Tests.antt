-- ===== src/Auth/Session/Tests.antt =====
-- A request with a session, and the theorem at it.
use core_swift_crm.Prelude.{
  ℕ, ◌≡◌, ◌↔◌, refl, Bool, true, false, Option, none, some, [], ◌∷◌, ok, err,
}
use core_swift_crm.Prelude.Int.{pos, wrap}
use core_swift_crm.Errors.{unauthorized}
use core_swift_crm.Http.{HeaderName, authorization, Request, get}
use core_swift_crm.Text.{Text, codes, contains, ends_with, starts_with, strip_prefix, text_eq}
use core_swift_crm.Auth.Session.{
  Claims, CacheReply, absent, present, timed_out, Db, Env, is_internal_path, session_token, require,
  verify_token, check_blacklist, check_workspace, workspace_exists, require_workspace,
  refuse_revoked_session, auth_middleware, require_role, is_account_admin,
}
use core_swift_crm.Auth.Session.Laws.{IsSession, auth_middleware_iff}

abbrev claims : Claims
claims = record {
  sub = codes "u";
  aid = codes "w";
  role = codes "owner";
  exp = 2000;
  iat = 1000;
  aud = none;
  iss = none;
}

abbrev db : Db
db = record {
  tenants = 1 ∷ 2 ∷ [];
  users = record { id = 4; is_active = true; changed_at = some (pos 1000) } ∷ [];
  tenants_fail = none;
  users_fail = none;
}

abbrev ids : Text → Option ℕ
ids (c ∷ []) = if_u (text_eq (c ∷ []) (codes "u"))
  where
    if_u : Bool → Option ℕ
    if_u true = some 4
    if_u false = some 2
ids _ = none

abbrev env_with : CacheReply → Env
env_with reply = record {
  decode = λ v secret token. some claims;
  parse_uuid = ids;
  blacklist = λ token. reply;
  jwt_secret = codes "s";
  db = db;
}

abbrev headers : Option Text → HeaderName → Option Text
headers auth authorization = auth
headers auth _ = none

abbrev ask : Text → Option Text → Request
ask path auth = record { method = get; path = path; header = headers auth; has_header = λ _. false }

abbrev signed_in : Request
signed_in = ask (codes "/api/contacts") (some (codes "Bearer t"))

run : Unit {0}
unfolding auth_middleware is_internal_path session_token require verify_token check_blacklist
    check_workspace workspace_exists require_workspace refuse_revoked_session contains ends_with
    starts_with strip_prefix text_eq wrap
run = tt

outcomes :
    (auth_middleware (env_with absent) signed_in ≡ ok (some claims))
    × (auth_middleware (env_with timed_out) signed_in ≡ ok (some claims))
    × (auth_middleware (env_with present) signed_in ≡ err unauthorized)
    × (auth_middleware (env_with absent) (ask (codes "/api/contacts") none) ≡ err unauthorized)
    × (auth_middleware (env_with absent) (ask (codes "/api/internal/tags") none) ≡ ok none)
unfolding run
outcomes = (refl, refl, refl, refl, refl)

-- The role that signup gives ranks below an admin, and administers its account.
owner_rank :
    (require_role (codes "owner") (codes "admin") ≡ false)
    × (is_account_admin (codes "owner") ≡ true)
unfolding run require_role is_account_admin
owner_rank = (refl, refl)

auth_middleware_iff_example :
    (auth_middleware (env_with absent) signed_in ≡ ok (some claims))
    ↔ IsSession (env_with absent) signed_in claims
auth_middleware_iff_example = auth_middleware_iff (env_with absent) signed_in claims
