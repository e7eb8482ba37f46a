-- ===== src/Auth/Session.antt =====
-- auth/middleware.rs: the session check of the protected routers, and the roles.
-- `decode` is `jsonwebtoken::decode` with the key and the validation, `parse_uuid` is
-- `Uuid::parse_str`, and `blacklist` is what Redis answers within 250 ms to `GET blacklist:<token>`.
pub mod Laws
mod Tests
use mathlib.Core.Option
use core_swift_crm.Prelude.{
  ℕ, suc, String, Bool, true, false, ◌||◌, Option, none, some, List, [], ◌∷◌, ◌==◌, if◌then◌else◌,
  leb, Result, ok, err, ◌>>=◌,
}
use core_swift_crm.Prelude.Int.{ℤ, pos, ltb_ℤ, wrap, i64_modulus}
use core_swift_crm.Errors.{AppError, unauthorized, database}
use core_swift_crm.Http.{Request, authorization}
use core_swift_crm.Text.{Text, codes, text_eq, contains, ends_with, strip_prefix}

-- `usize` is 64 bits wide.
pub record Claims : Type 0 where
  pub sub : Text
  pub aid : Text
  pub role : Text
  pub exp : ℕ
  pub iat : ℕ
  pub aud : Option Text
  pub iss : Option Text

-- The settings of `verify_token`.
pub record Validation : Type 0 where
  pub leeway : ℕ
  pub validate_exp : Bool
  pub issuer : List Text
  pub audience : List Text

abbrev pub validation : Validation
validation = record {
  leeway = 30;
  validate_exp = true;
  issuer = codes "coreswift" ∷ [];
  audience = codes "coreswift-api" ∷ [];
}

pub data CacheReply : Type 0 where
  present absent failed timed_out : CacheReply

-- A row of `users`; `changed_at` is `floor(EXTRACT(EPOCH FROM password_changed_at))`.
pub record UserRow : Type 0 where
  pub id : ℕ
  pub is_active : Bool
  pub changed_at : Option ℤ

-- The rows that the two reads select from, and whether a read fails.
pub record Db : Type 0 where
  pub tenants : List ℕ
  pub users : List UserRow
  pub tenants_fail : Option String
  pub users_fail : Option String

pub record Env : Type 0 where
  pub decode : Validation → Text → Text → Option Claims
  pub parse_uuid : Text → Option ℕ
  pub blacklist : Text → CacheReply
  pub jwt_secret : Text
  pub db : Db

fetch {ℓ} : {A : Type ℓ} → Option String → A → Result A AppError
fetch none rows = ok rows
fetch (some e) rows = err (database e)

-- `SELECT id FROM tenants WHERE id = $1`
find_tenant : ℕ → List ℕ → Option ℕ
find_tenant id [] = none
find_tenant id (t ∷ ts) = if t == id then some t else find_tenant id ts

-- `SELECT is_active, … FROM users WHERE id = $1`
pub find_user : ℕ → List UserRow → Option (Bool × Option ℤ)
find_user id [] = none
find_user id (u ∷ us) = if u.id == id then some (u.is_active, u.changed_at) else find_user id us

is_some {ℓ} : {A : Type ℓ} → Option A → Bool
is_some none = false
is_some (some a) = true

pub workspace_exists : Env → Text → Result Bool AppError
unfolding fetch find_tenant is_some
workspace_exists env aid = elim (env.parse_uuid aid) [
  | none ↦ err unauthorized
  | some workspace ↦ fetch env.db.tenants_fail (find_tenant workspace env.db.tenants) >>= λ found.
      ok (is_some found)
]

pub user_session_state : Env → Text → Result (Option (Bool × Option ℤ)) AppError
unfolding fetch find_user
user_session_state env sub = elim (env.parse_uuid sub) [
  | none ↦ ok none
  | some user_id ↦ fetch env.db.users_fail (find_user user_id env.db.users)
]

pub session_predates_password_change : Option ℤ → Option ℤ → Bool
session_predates_password_change jwt_iat none = false
session_predates_password_change none (some v) = true
session_predates_password_change (some iat) (some v) = ltb_ℤ iat v

pub verify_token : Env → Text → Result Claims AppError
verify_token env token = elim (env.decode validation env.jwt_secret token) [
  | some claims ↦ ok claims
  | none ↦ err unauthorized
]

-- The match on the user's row, which `refuse_revoked_session` repeats.
check_user : ℕ → Option (Bool × Option ℤ) → Result (Unit {0}) AppError
unfolding session_predates_password_change
check_user iat (some (true, changed_at)) =
    if session_predates_password_change (some (wrap i64_modulus (pos iat))) changed_at
    then err unauthorized
    else ok tt
check_user iat _ = err unauthorized

pub refuse_revoked_session : Env → Claims → Result (Unit {0}) AppError
unfolding check_user user_session_state
refuse_revoked_session env claims = do
  row ← user_session_state env claims.sub
  check_user claims.iat row

-- Only an entry that was read refuses the token; a failed or late read lets it through.
check_blacklist : CacheReply → Result (Unit {0}) AppError
check_blacklist present = err unauthorized
check_blacklist _ = ok tt

require {ℓ} : {A : Type ℓ} → Option A → Result A AppError
require none = err unauthorized
require (some a) = ok a

require_workspace : Bool → Result (Unit {0}) AppError
require_workspace found = if found then ok tt else err unauthorized

pub is_internal_path : Text → Bool
is_internal_path path = ends_with path (codes "/internal") || contains path (codes "/internal/")

-- What the handler runs with: `none` if the request carries no claims.
-- `if !workspace_exists(…).await? { return Err(Unauthorized) }`
check_workspace : Env → Claims → Result (Unit {0}) AppError
check_workspace env claims = do found ← workspace_exists env claims.aid; require_workspace found

session_token : Request → Result Text AppError
session_token req = do
  auth_header ← require (req.header authorization)
  require (strip_prefix auth_header (codes "Bearer "))

-- The match on the user's row is the one of `refuse_revoked_session`, line for line.
pub auth_middleware : Env → Request → Result (Option Claims) AppError
auth_middleware env req = if is_internal_path req.path then ok none else do
  token ← session_token req
  claims ← verify_token env token
  _ ← check_blacklist (env.blacklist token)
  _ ← check_workspace env claims
  _ ← refuse_revoked_session env claims
  ok (some claims)

-- `levels.iter().position(|&r| r == role).unwrap_or(0)`
position_or_zero : ℕ → Text → List Text → ℕ
position_or_zero n role [] = 0
position_or_zero n role (r ∷ rs) =
    let rest = position_or_zero (suc n) role rs in if text_eq r role then n else rest

abbrev levels : List Text
levels = codes "member" ∷ codes "admin" ∷ codes "account_owner" ∷ codes "agency_admin" ∷ []

pub require_role : Text → Text → Bool
unfolding position_or_zero
require_role actual minimum =
    leb (position_or_zero 0 minimum levels) (position_or_zero 0 actual levels)

pub is_account_admin : Text → Bool
is_account_admin role =
    text_eq role (codes "owner")
    || text_eq role (codes "account_owner")
    || text_eq role (codes "admin")
    || text_eq role (codes "agency_admin")
