-- ===== src/Security/Probe.antt =====
-- security/probe_addr.rs: the domains that test traffic uses, and the address test.
pub mod Labels
mod Tests
use core_swift_crm.Prelude.{
  ◌+◌, Bool, ◌&&◌, ◌||◌, Option, none, List, [], ◌∷◌, ◌==◌, ltb, if◌then◌else◌,
}
use core_swift_crm.Prelude.Tables.{select_one}
use core_swift_crm.Text.{Text, codes, is_empty, text_eq, ends_with, byte_len, contains_char}
use core_swift_crm.Text.Case.{to_ascii_lowercase}
use core_swift_crm.Text.Split.{last_part}
use core_swift_crm.Text.Trim.{trim}

abbrev pub fleet_harness_domains : List Text
fleet_harness_domains =
    codes "swiftsoftware.dev"
    ∷ codes "swiftsoftware.net"
    ∷ codes "swiftsoftware.local"
    ∷ codes "local.coreswift"
    ∷ codes "example.invalid"
    ∷ codes "example.com"
    ∷ codes "example.net"
    ∷ codes "example.org"
    ∷ codes "invalid"
    ∷ codes "test"
    ∷ []

-- `trim_end_matches('.')`
trim_end_dots : Text → Text
trim_end_dots [] = []
trim_end_dots (c ∷ s) =
    let rest = trim_end_dots s in if is_empty rest && c == b'.' then [] else c ∷ rest

-- The text is the domain or ends with a dot and the domain.
pub is_under : Text → Text → Bool
is_under domain d =
    text_eq domain d || (ltb (byte_len d + 1) (byte_len domain) && ends_with domain (b'.' ∷ d))

pub find_domain : Text → Option Text
unfolding is_under
find_domain domain =
    if is_empty domain then none else select_one (is_under domain) fleet_harness_domains

-- What follows the last '@', with its outer blanks and its trailing dots cut off.
pub address_domain : Text → Text
unfolding trim_end_dots
address_domain addr = to_ascii_lowercase (trim_end_dots (trim (last_part b'@' addr)))

pub harness_domain : Text → Option Text
unfolding find_domain address_domain
harness_domain addr = if contains_char addr b'@' then find_domain (address_domain addr) else none
