-- ===== src/CsvImport/Tests.antt =====
-- Three rows under a ceiling of two more contacts, and the theorem at them.
use core_swift_crm.Prelude.{
  ℕ, ◌+◌, ◌≡◌, refl, true, false, none, some, List, [], ◌∷◌, ok, length, arith,
}
use core_swift_crm.Prelude.Int.{pos}
use core_swift_crm.Prelude.Tables.{select_one}
use core_swift_crm.Text.{Text, codes, text_eq, contains_char, is_whitespace}
use core_swift_crm.Text.Case.{to_lowercase}
use core_swift_crm.Text.Split.{split}
use core_swift_crm.Text.Trim.{trim}
use core_swift_crm.Entitlements.{Registry, resolve}
use core_swift_crm.Features.{Float, usage_ceiling, enforce_usage_limit}
use core_swift_crm.CsvImport.{Env, import_contacts}
use core_swift_crm.CsvImport.Records.{
  validate_row, import_rows, start, Progress, ContactRow, invalid_email, refused_row, limit_reached,
  lookup, trimmed, is_valid_email,
}
use core_swift_crm.CsvImport.Complete.{import_rows_complete}
use core_swift_crm.CsvImport.Rows.{Accounted, import_contacts-Accounted}

abbrev natural : Float ℕ
natural = record { is_negative = λ _. false; floor_as_i64 = λ n. pos n }

abbrev registry : Registry ℕ
registry = record {
  tenant_plans =
      record { tenant_id = 5; plan_id = 2; is_active = true; feature_overrides = none } ∷ [];
  modules = [];
  plan_modules = [];
  module_features = record { id = 9; key = codes "limit_max_contacts"; is_active = true } ∷ [];
  plan_module_features =
      record { plan_id = 2; module_feature_id = 9; enabled = true; limit_value = some 4 } ∷ [];
}

abbrev table : List Text × List (List Text)
table = (
  codes "Name" ∷ codes "Mail" ∷ [],
  (codes "Ann" ∷ codes " a@b.co " ∷ [])
      ∷ (codes "Bob" ∷ codes "nonsense" ∷ [])
      ∷ (codes "Cid" ∷ codes "" ∷ [])
      ∷ (codes "Dan" ∷ codes "" ∷ [])
      ∷ [],
)

abbrev env : Env
env = record {
  fold = λ s. s;
  walk_map = λ entries. entries;
  walk_set = λ s. s;
  read_table = λ _. ok table;
  db_insert = λ _. none;
  string_of = λ _. "t";
  show = λ _. "n";
}

abbrev mappings : List (Text × Text)
mappings = (codes "Name", codes "first_name") ∷ (codes "Mail", codes "email") ∷ []

abbrev contact : Text → core_swift_crm.Prelude.Option Text → ContactRow
contact name mail = record {
  tenant_id = 5;
  first_name = name;
  last_name = [];
  email = mail;
  phone = none;
  company = none;
  title = none;
  notes = none;
  address_line1 = none;
  address_line2 = none;
  city = none;
  state = none;
  postal_code = none;
  country = none;
  gender = none;
}

abbrev outcome : Progress
outcome = record {
  row_num = 4;
  contact_usage = 4;
  imported = 2;
  skipped = 2;
  errors = refused_row 2 (invalid_email (codes "nonsense")) ∷ limit_reached 4 4 (pos 4) ∷ [];
  inserted = contact (codes "Ann") (some (codes "a@b.co")) ∷ contact (codes "Cid") none ∷ [];
}

run : Unit {0}
unfolding import_contacts resolve text_eq select_one contains_char is_whitespace to_lowercase split
    trim lookup trimmed is_valid_email enforce_usage_limit
run = tt

imported : import_contacts env natural registry 5 2 [] mappings ≡ ok outcome
unfolding run
imported = refl

import_contacts-Accounted_example :
    Accounted 2 (usage_ceiling natural registry 5 (codes "limit_max_contacts")) outcome
    × (outcome.imported + outcome.skipped ≡ length table.1)
import_contacts-Accounted_example =
    import_contacts-Accounted env natural registry 5 2 [] mappings table outcome refl imported

abbrev good : List (Text × Text)
good = (codes "first_name", codes "Ann") ∷ []

good_valid : validate_row good ≡ ok tt
unfolding validate_row trimmed lookup text_eq trim is_whitespace
good_valid = refl

import_rows_complete_example :
    (import_rows (λ _. none) 5 none (good ∷ good ∷ []) (start 2)).imported ≡ 0 + 2
import_rows_complete_example =
    import_rows_complete (λ _. none) 5 (λ _. refl) (good ∷ good ∷ []) (start 2)
      (good_valid, (good_valid, tt)) (omega arith)
