-- ===== src/Auth/RoutePolicy.antt =====
-- auth/route_policy.rs: which paths may be reached without an app session.
mod Matching
pub mod Disjoint
pub mod Guarded
mod Tests
use core_swift_crm.Prelude.{
  Bool, true, false, ◌&&◌, ◌||◌, not, none, some, List, [], ◌∷◌, ◌==◌, if◌then◌else◌, any, length,
}
use core_swift_crm.Text.{Text, codes, is_empty, text_eq, starts_with, strip_prefix}
use core_swift_crm.Text.Split.{split}

abbrev pub public_routes : List Text
public_routes =
    codes "/api/health"
    ∷ codes "/api/ready"
    ∷ codes "/api/admin/health"
    ∷ codes "/api/auth/register"
    ∷ codes "/api/auth/login"
    ∷ codes "/api/auth/refresh"
    ∷ codes "/api/auth/forgot-password"
    ∷ codes "/api/auth/reset-password"
    ∷ codes "/api/available-providers"
    ∷ codes "/api/industries/available"
    ∷ codes "/api/public/bookings/public/checkout"
    ∷ codes "/api/public/bookings/public/slots/available/:tenant_id"
    ∷ codes "/api/public/bookings/public/slots/questions"
    ∷ codes "/api/public/contact"
    ∷ codes "/api/public/support-request"
    ∷ codes "/api/public/support-answer"
    ∷ codes "/api/branding/logo/:tenant_id"
    ∷ codes "/api/avatars/:user_id"
    ∷ codes "/api/webhook/:token/:action"
    ∷ codes "/api/v1/webhooks/mailgun/inbound"
    ∷ codes "/api/google-calendar/webhook"
    ∷ codes "/api/google-calendar/oauth-callback"
    ∷ codes "/api/telnyx/webhook"
    ∷ codes "/api/telnyx/sms-webhook"
    ∷ codes "/inbound/:key_prefix/:event_type"
    ∷ codes "/inbound/v2/:key_prefix/:event_type"
    ∷ codes "/inbound/v3/:key_prefix/:event_type"
    ∷ []

abbrev pub internal_routes : List Text
internal_routes =
    codes "/api/internal/contacts"
    ∷ codes "/api/internal/lists/:list_id/members"
    ∷ codes "/api/internal/tenants/lookup"
    ∷ codes "/api/internal/tenants/:id"
    ∷ codes "/api/internal/tags"
    ∷ codes "/api/internal/tags/assign"
    ∷ codes "/api/internal/tags/delete"
    ∷ codes "/api/internal/tags/list"
    ∷ codes "/api/internal/bookings/calendars"
    ∷ codes "/api/internal/bookings/slots/default"
    ∷ codes "/api/bookings/internal/calendars"
    ∷ codes "/api/bookings/internal/slots/default"
    ∷ codes "/api/portfolio/internal"
    ∷ codes "/api/v1/internal/tag-provision"
    ∷ codes "/api/v1/webhooks/cross-app/tag-sync"
    ∷ codes "/api/v1/internal/provision-free-account"
    ∷ codes "/api/messages/webhook"
    ∷ []

abbrev pub api_key_routes : List Text
api_key_routes = codes "/api/external/lists" ∷ codes "/api/external/contacts" ∷ []

-- A segment `:param` of a template takes any segment that is not empty.
pub segment_matches : Text → Text → Bool
segment_matches tseg pseg = elim (strip_prefix tseg (codes ":")) [
  | none ↦ text_eq tseg pseg
  | some _ ↦ not (is_empty pseg)
]

-- `t.iter().zip(p.iter()).all(…)`
pub segments_match : List Text → List Text → Bool
segments_match [] ps = true
segments_match (t ∷ ts) [] = true
segments_match (t ∷ ts) (p ∷ ps) = segment_matches t p && segments_match ts ps

pub matches_template : Text → Text → Bool
unfolding segments_match segment_matches
matches_template template path =
    let t = split b'/' template in
    let p = split b'/' path in if not (length t == length p) then false else segments_match t p

unfoldable pub is_public_route : Text → Bool
unfolding matches_template
is_public_route path = any (λ t. matches_template t path) public_routes

unfoldable pub is_internal_route : Text → Bool
unfolding matches_template
is_internal_route path = any (λ t. matches_template t path) internal_routes

unfoldable pub is_api_key_route : Text → Bool
unfolding matches_template
is_api_key_route path = any (λ t. matches_template t path) api_key_routes

unfoldable pub is_guarded_path : Text → Bool
is_guarded_path path =
    text_eq path (codes "/api")
    || starts_with path (codes "/api/")
    || text_eq path (codes "/inbound")
    || starts_with path (codes "/inbound/")
