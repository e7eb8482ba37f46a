-- ===== src/Auth/Boundary/Tests.antt =====
-- Requests at the boundary, and the theorems at them.
use core_swift_crm.Prelude.{◌≡◌, ◌↔◌, ◌⊎◌, refl, Bool, true, false, Option, none, some, []}
use core_swift_crm.Http.{HeaderName, authorization, x_internal_key, Request, run_next, refuse, get}
use core_swift_crm.Text.{Text, codes, text_eq, starts_with, strip_prefix}
use core_swift_crm.Text.Split.{split}
use core_swift_crm.Auth.RoutePolicy.{
  is_public_route, is_internal_route, is_api_key_route, is_guarded_path,
}
use core_swift_crm.Auth.RoutePolicy.Disjoint.{route_lists_disjoint}
use core_swift_crm.Auth.RoutePolicy.Guarded.{listed-guarded}
use core_swift_crm.Auth.Boundary.{boundary_refusal, ct_eq, require_credential}
use core_swift_crm.Auth.Boundary.Keys.{ct_eq_iff}
use core_swift_crm.Auth.Boundary.Laws.{Admitted, require_credential_iff}

abbrev headers : Option Text → Option Text → HeaderName → Option Text
headers auth key authorization = auth
headers auth key x_internal_key = key
headers auth key _ = none

abbrev ask : Text → Option Text → Option Text → Request
ask path auth key = record {
  method = get;
  path = path;
  header = headers auth key;
  has_header = λ _. false;
}

abbrev only_good : Text → Bool
only_good token = elim token [ [] ↦ false | _ ↦ true ]

run : Unit {0}
unfolding require_credential is_public_route is_internal_route is_api_key_route is_guarded_path
    split text_eq starts_with strip_prefix ct_eq
run = tt

abbrev internal_call : Request
internal_call = ask (codes "/api/internal/contacts") none (some (codes "k1"))

decisions :
    (require_credential (codes "k1") only_good internal_call ≡ run_next)
    × (require_credential (codes "k2") only_good internal_call ≡ refuse 401 boundary_refusal)
    × (require_credential [] only_good internal_call ≡ refuse 401 boundary_refusal)
    × (require_credential [] only_good (ask (codes "/api/contacts") (some (codes "Bearer x")) none)
        ≡ run_next)
    × (require_credential [] only_good (ask (codes "/api/contacts") none none)
        ≡ refuse 401 boundary_refusal)
    × (require_credential [] only_good (ask (codes "/index.html") none none) ≡ run_next)
unfolding run
decisions = (refl, refl, refl, refl, refl, refl)

require_credential_iff_example :
    ((require_credential (codes "k1") only_good internal_call ≡ run_next)
      ↔ Admitted (codes "k1") only_good internal_call)
    × ((require_credential (codes "k1") only_good internal_call ≡ run_next)
        ⊎ (require_credential (codes "k1") only_good internal_call ≡ refuse 401 boundary_refusal))
require_credential_iff_example = require_credential_iff (codes "k1") only_good internal_call

ct_eq_iff_example : (ct_eq (codes "k1") (codes "k12") ≡ true) ↔ (codes "k1" ≡ codes "k12")
ct_eq_iff_example = ct_eq_iff (codes "k1") (codes "k12")

route_lists_disjoint_example :
    (is_public_route (codes "/api/auth/login") ≡ true
      → (is_internal_route (codes "/api/auth/login") ≡ false)
        × (is_api_key_route (codes "/api/auth/login") ≡ false))
    × (is_internal_route (codes "/api/auth/login") ≡ true
        → is_api_key_route (codes "/api/auth/login") ≡ false)
route_lists_disjoint_example = route_lists_disjoint (codes "/api/auth/login")

listed-guarded_example : is_guarded_path (codes "/inbound/ab/lead") ≡ true
unfolding run
listed-guarded_example = listed-guarded (codes "/inbound/ab/lead") refl
