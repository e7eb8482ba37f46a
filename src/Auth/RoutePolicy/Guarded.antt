-- ===== src/Auth/RoutePolicy/Guarded.antt =====
-- The lists hold guarded paths only.
use core_swift_crm.Prelude.{
  ◌≡◌, refl, Bool, true, false, ◌||◌, List, [], ◌∷◌, arith, any, all, length, Bool-cases, inl, inr,
  ◌⊎◌,
}
use core_swift_crm.Text.{Text, codes, text_eq, starts_with}
use core_swift_crm.Text.Equality.{text_eq-eq}
use core_swift_crm.Text.Split.{split, join, join-split}
use core_swift_crm.Auth.RoutePolicy.{
  public_routes, internal_routes, api_key_routes, segment_matches, segments_match, matches_template,
  is_public_route, is_internal_route, is_api_key_route, is_guarded_path,
}
use core_swift_crm.Auth.RoutePolicy.Matching.{
  is_param, segment_matches_lem, matches_template-eq-true,
}

-- A template below `/api/` or `/inbound/`.
is_rooted : List Text → Bool
is_rooted ([] ∷ root ∷ seg ∷ segs) = text_eq root (codes "api") || text_eq root (codes "inbound")
is_rooted _ = false

guarded_of_join :
    (root seg : Text) (segs : List Text)
    → (root ≡ codes "api") ⊎ (root ≡ codes "inbound")
    → is_guarded_path (join b'/' ([] ∷ root ∷ seg ∷ segs)) ≡ true
unfolding is_guarded_path text_eq starts_with
guarded_of_join root seg segs (inl e) = rw e
guarded_of_join root seg segs (inr e) = rw e

literal_matches : (t p : Text) → is_param t ≡ false → segment_matches t p ≡ true → p ≡ t
literal_matches t p literal h = ground (arith, segment_matches_lem t p, text_eq-eq t p)

param_literals :
    (is_param (codes "api") ≡ false) × (is_param (codes "inbound") ≡ false) × (is_param [] ≡ false)
unfolding is_param starts_with
param_literals = (refl, refl, refl)

rooted_match :
    (t p : Text)
    → (text_eq t (codes "api") || text_eq t (codes "inbound")) ≡ true
    → segment_matches t p ≡ true
    → (p ≡ codes "api") ⊎ (p ≡ codes "inbound")
rooted_match t p rooted h = elim (Bool-cases (text_eq t (codes "api"))) [
  | inl api ↦
      let e = text_eq-eq t (codes "api") api in
      inl (literal_matches (codes "api") p param_literals.0 (rw e at h))
  | inr other ↦
      let e = text_eq-eq t (codes "inbound") (rw other at rooted) in
      inr (literal_matches (codes "inbound") p param_literals.1 (rw e at h))
]

guarded_of_rooted :
    (ts ps : List Text)
    → is_rooted ts ≡ true
    → length ts ≡ length ps
    → segments_match ts ps ≡ true
    → is_guarded_path (join b'/' ps) ≡ true
unfolding is_rooted segments_match
guarded_of_rooted ([] ∷ root ∷ seg ∷ segs) ([] ∷ q ∷ r ∷ rs) rooted l h =
    guarded_of_join q r rs (rooted_match root q rooted (ground arith))
guarded_of_rooted ([] ∷ root ∷ seg ∷ segs) ((c ∷ p) ∷ q ∷ r ∷ rs) rooted l h =
    absurd
      (ground (arith, segment_matches_lem [] (c ∷ p), literal_matches [] (c ∷ p), param_literals.2))
guarded_of_rooted ts ps rooted l h = ground arith

guarded_of_listed :
    (path : Text) (ts : List Text)
    → all (λ t. is_rooted (split b'/' t)) ts ≡ true
    → any (λ t. matches_template t path) ts ≡ true
    → is_guarded_path path ≡ true
guarded_of_listed path [] r h = cc
guarded_of_listed path (t ∷ ts) r h = elim (Bool-cases (matches_template t path)) [
  | inl m ↦
      let (l, same) = matches_template-eq-true t path m in
      rw (join-split b'/' path) at
        (guarded_of_rooted (split b'/' t) (split b'/' path) (ground arith) l same)
  | inr other ↦ guarded_of_listed path ts (ground arith) (ground arith)
]

lists_rooted :
    (all (λ t. is_rooted (split b'/' t)) public_routes ≡ true)
    × (all (λ t. is_rooted (split b'/' t)) internal_routes ≡ true)
    × (all (λ t. is_rooted (split b'/' t)) api_key_routes ≡ true)
unfolding is_rooted split text_eq
lists_rooted = (refl, refl, refl)

or_elim :
    (a b c g : Bool)
    → (a ≡ true → g ≡ true)
    → (b ≡ true → g ≡ true)
    → (c ≡ true → g ≡ true)
    → (a || b || c) ≡ true
    → g ≡ true
or_elim a b c g ha hb hc h = ground arith

-- Every path on a list is a guarded path: no entry of the three lists is dead.
pub listed-guarded :
    (path : Text)
    → (is_public_route path || is_internal_route path || is_api_key_route path) ≡ true
    → is_guarded_path path ≡ true
unfolding is_public_route is_internal_route is_api_key_route
listed-guarded path h =
    or_elim (is_public_route path) (is_internal_route path) (is_api_key_route path)
      (is_guarded_path path) (guarded_of_listed path public_routes lists_rooted.0)
      (guarded_of_listed path internal_routes lists_rooted.1)
      (guarded_of_listed path api_key_routes lists_rooted.2) h
