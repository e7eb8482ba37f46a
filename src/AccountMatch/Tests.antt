-- ===== src/AccountMatch/Tests.antt =====
-- One identity against two contacts, and the theorem at it.
use core_swift_crm.Prelude.{◌≡◌, refl, true, none, some, [], ◌∷◌}
use core_swift_crm.Prelude.Tables.{select, select_one}
use core_swift_crm.Text.{Text, codes, text_eq, is_whitespace, is_ascii_digit, contains_char}
use core_swift_crm.Text.Case.{to_lowercase}
use core_swift_crm.Text.Split.{last_part}
use core_swift_crm.Text.Trim.{trim}
use core_swift_crm.AccountMatch.{
  Identity, ContactRow, resolve, phone, has_identifier, btrim, phone_digits, phone_matches,
}
use core_swift_crm.AccountMatch.Found.{Finds, resolve-Finds}

abbrev keep : Text → Text
keep s = s

abbrev ann : ContactRow
ann = record {
  id = 1;
  tenant_id = 5;
  is_active = true;
  first_name = codes "ann";
  last_name = codes "lee";
  email = none;
  phone = some (codes "+1 (555) 123-4567");
  company = none;
}

abbrev identity : Identity
identity = record {
  email = some (codes "a@b.co");
  phone = some (codes "555 123 4567");
  first_name = none;
  last_name = none;
  company = none;
}

run : Unit {0}
unfolding resolve has_identifier select select_one text_eq is_whitespace is_ascii_digit
    contains_char to_lowercase last_part trim btrim phone_digits phone_matches
run = tt

matched_by_phone :
    ((resolve keep keep (record ann { id = 2; tenant_id = 6 } ∷ ann ∷ []) [] 5 identity).contact
      ≡ some ann)
    × ((resolve keep keep (ann ∷ []) [] 5 identity).reason ≡ phone)
    × (has_identifier identity ≡ true)
unfolding run
matched_by_phone = (refl, refl, refl)

resolve-Finds_example :
    Finds keep keep 5 identity (ann ∷ []) (resolve keep keep (ann ∷ []) [] 5 identity)
resolve-Finds_example = resolve-Finds keep keep 5 identity (ann ∷ []) []
