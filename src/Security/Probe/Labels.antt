-- ===== src/Security/Probe/Labels.antt =====
-- A harness domain is matched at the boundary of a label.
use core_swift_crm.Prelude.{
  Bool, true, false, Option, none, some, [], ◌∷◌, ◌++◌, ◌≡◌, ◌⊎◌, inl, inr, refl, ap, arith,
  if◌then◌else◌, Bool-cases,
}
use core_swift_crm.Prelude.Tables.{select_one-eq-some}
use core_swift_crm.Text.{Text, is_empty, text_eq, ends_with, contains_char}
use core_swift_crm.Text.Equality.{text_eq-eq}
use core_swift_crm.Security.Probe.{
  fleet_harness_domains, is_under, find_domain, address_domain, harness_domain,
}

ends_with-eq :
    (s suffix : Text) → ends_with s suffix ≡ true → (front : Text) × (s ≡ front ++ suffix)
unfolding ends_with
ends_with-eq [] [] h = ([], refl)
ends_with-eq [] (c ∷ suffix) h = absurd (ground (arith, h))
ends_with-eq (c ∷ s) suffix h = elim (Bool-cases (text_eq (c ∷ s) suffix)) [
  | inl whole ↦ ([], text_eq-eq (c ∷ s) suffix whole)
  | inr part ↦
      let (front, e) = ends_with-eq s suffix (ground (arith, h, part)) in
      (c ∷ front, ap (λ t. c ∷ t) e)
]

-- The domain itself, or labels before a dot before it.
abbrev pub IsSubdomain : Text → Text → Type 0
IsSubdomain domain d = (domain ≡ d) ⊎ ((front : Text) × (domain ≡ front ++ b'.' ∷ d))

is_under-IsSubdomain : (domain d : Text) → is_under domain d ≡ true → IsSubdomain domain d
unfolding is_under
is_under-IsSubdomain domain d h = elim (Bool-cases (text_eq domain d)) [
  | inl whole ↦ inl (text_eq-eq domain d whole)
  | inr part ↦ inr (ends_with-eq domain (b'.' ∷ d) (ground (arith, h, part)))
]

unless-eq-some :
    {A : Type 0} (b : Bool) (o : Option A) (a : A) → (if b then none else o) ≡ some a → o ≡ some a
unless-eq-some true o a h = ground (arith, h)
unless-eq-some false o a h = h

when-eq-some :
    {A : Type 0} (b : Bool) (o : Option A) (a : A) → (if b then o else none) ≡ some a → o ≡ some a
when-eq-some true o a h = h
when-eq-some false o a h = ground (arith, h)

find_domain-is_under : (domain d : Text) → find_domain domain ≡ some d → is_under domain d ≡ true
unfolding find_domain
find_domain-is_under domain d h =
    select_one-eq-some (is_under domain) fleet_harness_domains d
      (unless-eq-some (is_empty domain) _ d h)

-- If an address is taken for test traffic, its domain is the one reported or a subdomain of it.
pub harness_domain-IsSubdomain :
    (addr d : Text) → harness_domain addr ≡ some d → IsSubdomain (address_domain addr) d
unfolding harness_domain
harness_domain-IsSubdomain addr d h =
    is_under-IsSubdomain (address_domain addr) d
      (find_domain-is_under (address_domain addr) d (when-eq-some (contains_char addr b'@') _ d h))
