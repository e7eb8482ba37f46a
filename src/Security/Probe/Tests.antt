-- ===== src/Security/Probe/Tests.antt =====
-- Addresses of test traffic and of others, and the theorem at one.
use core_swift_crm.Prelude.{◌≡◌, refl, none, some}
use core_swift_crm.Prelude.Tables.{select_one}
use core_swift_crm.Text.{codes, text_eq, ends_with, byte_len, contains_char, is_whitespace}
use core_swift_crm.Text.Case.{to_ascii_lowercase}
use core_swift_crm.Text.Split.{last_part}
use core_swift_crm.Text.Trim.{trim}
use core_swift_crm.Security.Probe.{harness_domain}

run : Unit {0}
unfolding harness_domain select_one text_eq ends_with byte_len contains_char is_whitespace
    to_ascii_lowercase last_part trim
run = tt

found : harness_domain (codes "probe@Mail.Example.com.") ≡ some (codes "example.com")
unfolding run
found = refl

not_found :
    (harness_domain (codes "ann@myexample.com") ≡ none)
    × (harness_domain (codes "ann@latest") ≡ none)
    × (harness_domain (codes "example.com") ≡ none)
unfolding run
not_found = (refl, refl, refl)
