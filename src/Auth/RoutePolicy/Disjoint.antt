-- ===== src/Auth/RoutePolicy/Disjoint.antt =====
-- The three lists of routes do not overlap.
use core_swift_crm.Prelude.{◌≡◌, refl, Bool, true, false, not, List, [], ◌∷◌, arith, any, all}
use core_swift_crm.Text.{Text, text_eq, starts_with}
use core_swift_crm.Text.Split.{split}
use core_swift_crm.Auth.RoutePolicy.{
  public_routes, internal_routes, api_key_routes, matches_template, is_public_route,
  is_internal_route, is_api_key_route,
}
use core_swift_crm.Auth.RoutePolicy.Matching.{is_param, segments_meet, overlap, matches_overlap}

avoids : List Text → Text → Bool
avoids bs a = all (λ b. not (overlap (split b'/' a) (split b'/' b))) bs

avoids_sound :
    (a p : Text) (bs : List Text)
    → avoids bs a ≡ true
    → matches_template a p ≡ true
    → any (λ t. matches_template t p) bs ≡ false
unfolding avoids
avoids_sound a p [] h m = refl
avoids_sound a p (b ∷ bs) h m = ground (arith, avoids_sound a p bs, matches_overlap a b p)

tables_apart :
    (p : Text) (as' bs : List Text)
    → all (avoids bs) as' ≡ true
    → any (λ t. matches_template t p) as' ≡ true
    → any (λ t. matches_template t p) bs ≡ false
tables_apart p [] bs h m = cc
tables_apart p (a ∷ as') bs h m = ground (arith, avoids_sound a p bs, tables_apart p as' bs)

routes_apart :
    (all (avoids internal_routes) public_routes ≡ true)
    × (all (avoids api_key_routes) public_routes ≡ true)
    × (all (avoids api_key_routes) internal_routes ≡ true)
unfolding avoids overlap segments_meet is_param split text_eq starts_with
routes_apart = (refl, refl, refl)

-- No path is on two of the three lists.
pub route_lists_disjoint :
    (path : Text)
    → (is_public_route path ≡ true
        → (is_internal_route path ≡ false) × (is_api_key_route path ≡ false))
      × (is_internal_route path ≡ true → is_api_key_route path ≡ false)
unfolding is_public_route is_internal_route is_api_key_route
route_lists_disjoint path = (
  λ h. (
    tables_apart path public_routes internal_routes routes_apart.0 h,
    tables_apart path public_routes api_key_routes routes_apart.1 h,
  ),
  λ h. tables_apart path internal_routes api_key_routes routes_apart.2 h,
)
