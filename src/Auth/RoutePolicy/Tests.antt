-- ===== src/Auth/RoutePolicy/Tests.antt =====
-- Paths on each list and on none.
use core_swift_crm.Prelude.{◌≡◌, refl, true, false}
use core_swift_crm.Text.{codes, text_eq, starts_with, strip_prefix}
use core_swift_crm.Text.Split.{split}
use core_swift_crm.Auth.RoutePolicy.{
  is_public_route, is_internal_route, is_api_key_route, is_guarded_path,
}

listed :
    (is_public_route (codes "/api/webhook/abc/create") ≡ true)
    × (is_public_route (codes "/api/webhook/abc/create/extra") ≡ false)
    × (is_public_route (codes "/api/webhook//create") ≡ false)
    × (is_internal_route (codes "/api/internal/tenants/lookup") ≡ true)
    × (is_api_key_route (codes "/api/external/contacts") ≡ true)
    × (is_guarded_path (codes "/api/contacts") ≡ true)
    × (is_guarded_path (codes "/apix") ≡ false)
unfolding is_public_route is_internal_route is_api_key_route is_guarded_path split text_eq
    starts_with strip_prefix
listed = (refl, refl, refl, refl, refl, refl, refl)
