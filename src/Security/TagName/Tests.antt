-- ===== src/Security/TagName/Tests.antt =====
-- Names and colours that are accepted and refused, and the theorems at them.
use core_swift_crm.Prelude.{ℕ, String, ◌≡◌, refl, ok, err, []}
use core_swift_crm.Errors.{validation}
use core_swift_crm.Text.{codes, is_whitespace, is_control}
use core_swift_crm.Text.Trim.{trim}
use core_swift_crm.Security.TagName.{normalize_or_validation, color_or_validation}

abbrev show : ℕ → String
show n = "7"

run : Unit {0}
unfolding normalize_or_validation color_or_validation trim is_whitespace is_control
run = tt

answers :
    (normalize_or_validation show (codes "  Kinetic  ") ≡ ok (codes "Kinetic"))
    × (normalize_or_validation show (codes "   ") ≡ err (validation "name: is required"))
    × (color_or_validation show (codes "#ABCDEFG")
        ≡ err (validation "color: is longer than 7 characters"))
    × (color_or_validation show (codes " ") ≡ ok [])
unfolding run
answers = (refl, refl, refl, refl)
