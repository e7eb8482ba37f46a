-- ===== src/Security/Email/Tests.antt =====
-- Addresses that are accepted and refused, and the theorems at concrete addresses.
use core_swift_crm.Prelude.{◌≡◌, ◌↔◌, refl, ok, err}
use core_swift_crm.Text.{
  Text, codes, byte_len, is_whitespace, is_control, contains, contains_char, starts_with,
  starts_with_char, ends_with_char,
}
use core_swift_crm.Text.Case.{to_lowercase}
use core_swift_crm.Text.Split.{split, split_once}
use core_swift_crm.Text.Trim.{trim}
use core_swift_crm.Security.Email.{normalize, lookup_key}
use core_swift_crm.Security.Email.Laws.{IsAddress, normalize_iff}

-- A stand-in for the Unicode tables that changes nothing.
abbrev keep : Text → Text
keep s = s

run : Unit {0}
unfolding normalize lookup_key to_lowercase trim split split_once byte_len is_whitespace is_control
    contains contains_char starts_with starts_with_char ends_with_char
run = tt

accepted : normalize keep (codes " A.b+c@X-1.Example.com ") ≡ ok (codes "a.b+c@x-1.example.com")
unfolding run
accepted = refl

refused :
    (normalize keep (codes "a@b") ≡ err "email: domain must contain a dot (e.g. example.com)")
    × (normalize keep (codes "a..b@x.com") ≡ err "email: has an empty dot-separated part before @")
    × (normalize keep (codes "a@x.com@y.com") ≡ err "email: must contain exactly one @")
    × (normalize keep (codes "a@-x.com")
        ≡ err "email: a part of the domain starts or ends with a hyphen")
    × (normalize keep (codes " ") ≡ err "email: is required")
unfolding run
refused = (refl, refl, refl, refl, refl)

normalize_iff_example :
    (normalize keep (codes " A.b+c@X-1.Example.com ") ≡ ok (codes "a.b+c@x-1.example.com")) ↔ (
      (lookup_key keep (codes " A.b+c@X-1.Example.com ") ≡ codes "a.b+c@x-1.example.com")
      × IsAddress (codes "a.b+c@x-1.example.com"))
normalize_iff_example =
    normalize_iff keep (codes " A.b+c@X-1.Example.com ") (codes "a.b+c@x-1.example.com")
