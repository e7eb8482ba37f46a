-- ===== src/Notifications/Title.antt =====
-- notifications/title.rs: the title of a notification.
use core_swift_crm.Prelude.{
  ℕ, zero, suc, ◌≤◌, arith, Option, none, some, [], ◌∷◌, length, if◌then◌else◌,
}
use core_swift_crm.Text.{Text, is_empty}
use core_swift_crm.Text.Trim.{trim}

-- `&value[..cut]` at the character with the index 255, or the whole value.
unfoldable pub first_chars : ℕ → Text → Text
first_chars zero s = []
first_chars (suc n) [] = []
first_chars (suc n) (c ∷ s) = c ∷ first_chars n s

abbrev truncate : Text → Text
truncate value = first_chars 255 value

-- The first label that is not blank, and otherwise the body.
abbrev candidate : Option Text → Text → Text
candidate none other = other
candidate (some label) other = if is_empty (trim label) then other else label

unfoldable pub resolve : Option Text → Option Text → Text → Text
unfolding first_chars
resolve title subject body = truncate (candidate title (candidate subject body))

length-first_chars : (n : ℕ) (s : Text) → length (first_chars n s) ≤ n
unfolding first_chars
length-first_chars zero s = omega arith
length-first_chars (suc n) [] = omega arith
length-first_chars (suc n) (c ∷ s) = omega (arith, length-first_chars n s)

-- A title fits its column.
pub length-resolve :
    (title subject : Option Text) (body : Text) → length (resolve title subject body) ≤ 255
unfolding resolve
length-resolve title subject body =
    length-first_chars 255 (candidate title (candidate subject body))
