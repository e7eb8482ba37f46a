-- ===== src/Auth/Boundary.antt =====
-- auth/boundary.rs: the one credential check that every guarded path passes through.
-- `verifies` says whether `auth::middleware::verify_token` accepts a token under the configured
-- secret. Keys are their bytes: a header that `to_str` reads is ASCII.
pub mod Keys
pub mod Laws
mod Tests
use Prim.Native.Nat.{bit_or, bit_xor}
use mathlib.Core.Option
use core_swift_crm.Prelude.{
  ℕ, Bool, false, ◌||◌, not, Option, none, some, List, ◌∷◌, ◌==◌, if◌then◌else◌, length, String,
}
use core_swift_crm.Http.{Request, Verdict, run_next, refuse, authorization, x_internal_key}
use core_swift_crm.Text.{Text, codes, is_empty, strip_prefix}
use core_swift_crm.Auth.RoutePolicy.{
  is_public_route, is_internal_route, is_api_key_route, is_guarded_path,
}

abbrev pub boundary_refusal : String
boundary_refusal = "Authentication required"

-- `for (x, y) in a.iter().zip(b.iter()) { diff |= (x ^ y) as usize; }`
ct_diff : ℕ → List ℕ → List ℕ → ℕ
ct_diff diff (x ∷ a) (y ∷ b) = ct_diff (bit_or diff (bit_xor x y)) a b
ct_diff diff _ _ = diff

pub ct_eq : List ℕ → List ℕ → Bool
unfolding ct_diff
ct_eq a b = ct_diff (bit_xor (length a) (length b)) a b == 0

presents_internal_key : List ℕ → Request → Bool
presents_internal_key internal_sync_key req =
    if is_empty internal_sync_key
    then false
    else elim (req.header x_internal_key) [ some key ↦ ct_eq key internal_sync_key | none ↦ false ]

unfoldable pub bearer : Request → Option Text
bearer req = elim (req.header authorization) [
  | none ↦ none
  | some v ↦ strip_prefix v (codes "Bearer ")
]

presents_opaque_bearer : Request → Bool
unfolding bearer
presents_opaque_bearer req = elim (bearer req) [ some t ↦ not (is_empty t) | none ↦ false ]

presents_app_jwt : (Text → Bool) → Request → Bool
unfolding bearer
presents_app_jwt verifies req = elim (bearer req) [ some token ↦ verifies token | none ↦ false ]

pub require_credential : List ℕ → (Text → Bool) → Request → Verdict
unfolding presents_internal_key presents_opaque_bearer presents_app_jwt
require_credential internal_sync_key verifies req =
    if not (is_guarded_path req.path) || is_public_route req.path
    then run_next
    else if is_internal_route req.path
    then (if presents_internal_key internal_sync_key req
        then run_next
        else refuse 401 boundary_refusal)
    else if is_api_key_route req.path
    then (if presents_opaque_bearer req then run_next else refuse 401 boundary_refusal)
    else if presents_app_jwt verifies req
    then run_next
    else refuse 401 boundary_refusal
