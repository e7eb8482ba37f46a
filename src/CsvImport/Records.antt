-- ===== src/CsvImport/Records.antt =====
-- csv_handler.rs: the checks of one row, and the loop that imports the rows.
use core_swift_crm.Prelude.{
  ℕ, suc, Bool, false, ◌&&◌, not, Option, none, some, List, [], ◌∷◌, ◌++◌, ltb, leb, if◌then◌else◌,
  any, length, Result, ok, err,
}
use core_swift_crm.Prelude.Int.{ℤ, pos, leb_ℤ}
use core_swift_crm.Text.{Text, codes, text_eq, is_empty, contains_char}
use core_swift_crm.Text.Split.{split}
use core_swift_crm.Text.Trim.{trim}

abbrev pub max_rows : ℕ
max_rows = 500

abbrev two_parts : List Text → Bool
two_parts (local ∷ domain ∷ []) = not (is_empty local) && not (is_empty domain)
two_parts _ = false

abbrev dotted : List Text → Bool
dotted parts = leb 2 (length parts) && not (any is_empty parts)

abbrev domain_parts : List Text → List Text
domain_parts (local ∷ domain ∷ []) = split b'.' domain
domain_parts _ = []

-- `email` is trimmed.
is_email : Text → Bool
is_email email =
    not (is_empty email)
    && contains_char email b'@'
    && contains_char email b'.'
    && two_parts (split b'@' email)
    && dotted (domain_parts (split b'@' email))

unfoldable pub is_valid_email : Text → Bool
unfolding is_email
is_valid_email email = is_email (trim email)

-- A map from texts to texts, as its entries; `entry(key).or_insert(value)` keeps the first value.
unfoldable pub lookup : Text → List (Text × Text) → Option Text
lookup key [] = none
lookup key ((k, v) ∷ entries) =
    let rest = lookup key entries in if text_eq k key then some v else rest

-- `mapped.get(key).map(trim).unwrap_or("")`; a blank value and a missing one read alike.
unfoldable pub trimmed : Text → List (Text × Text) → Text
unfolding lookup
trimmed key mapped = elim (lookup key mapped) [ none ↦ [] | some v ↦ trim v ]

-- `.filter(|v| !v.is_empty())`
abbrev pub filled : Text → List (Text × Text) → Option Text
filled key mapped = if is_empty (trimmed key mapped) then none else some (trimmed key mapped)

pub data RowRefusal : Type 0 where
  name_required : RowRefusal
  invalid_email : Text → RowRefusal

unfoldable pub validate_row : List (Text × Text) → Result (Unit {0}) RowRefusal
unfolding is_valid_email trimmed
validate_row mapped =
    if is_empty (trimmed (codes "first_name") mapped)
      && is_empty (trimmed (codes "last_name") mapped)
    then err name_required
    else if not (is_empty (trimmed (codes "email") mapped))
        && not (is_valid_email (trimmed (codes "email") mapped))
    then err (invalid_email (trimmed (codes "email") mapped))
    else ok tt

-- The values bound to the `INSERT`.
pub record ContactRow : Type 0 where
  pub tenant_id : ℕ
  pub first_name : Text
  pub last_name : Text
  pub email : Option Text
  pub phone : Option Text
  pub company : Option Text
  pub title : Option Text
  pub notes : Option Text
  pub address_line1 : Option Text
  pub address_line2 : Option Text
  pub city : Option Text
  pub state : Option Text
  pub postal_code : Option Text
  pub country : Option Text
  pub gender : Option Text

unfoldable pub contact_row : ℕ → List (Text × Text) → ContactRow
unfolding trimmed
contact_row tenant_id m = record {
  tenant_id = tenant_id;
  first_name = trimmed (codes "first_name") m;
  last_name = trimmed (codes "last_name") m;
  email = filled (codes "email") m;
  phone = filled (codes "phone") m;
  company = filled (codes "company") m;
  title = filled (codes "title") m;
  notes = filled (codes "notes") m;
  address_line1 = filled (codes "address_line1") m;
  address_line2 = filled (codes "address_line2") m;
  city = filled (codes "city") m;
  state = filled (codes "state") m;
  postal_code = filled (codes "postal_code") m;
  country = filled (codes "country") m;
  gender = filled (codes "gender") m;
}

-- One message of `errors`, before it is printed.
pub data RowError : Type 0 where
  limit_reached : (row_num usage : ℕ) → ℤ → RowError
  exceeded_max_rows : (row_num : ℕ) → RowError
  refused_row : (row_num : ℕ) → RowRefusal → RowError
  db_error : (row_num : ℕ) → Text → RowError

-- The locals of the loop, and the rows that it inserted.
pub record Progress : Type 0 where
  pub row_num : ℕ
  pub contact_usage : ℕ
  pub imported : ℕ
  pub skipped : ℕ
  pub errors : List RowError
  pub inserted : List ContactRow

abbrev pub skip : RowError → Progress → Progress
skip e p = record p { errors = p.errors ++ e ∷ []; skipped = suc p.skipped }

abbrev pub at_ceiling : Option ℤ → ℕ → Bool
at_ceiling none usage = false
at_ceiling (some limit) usage = leb_ℤ limit (pos usage)

abbrev pub ceiling_error : Option ℤ → ℕ → ℕ → RowError
ceiling_error none row_num usage = exceeded_max_rows row_num
ceiling_error (some limit) row_num usage = limit_reached row_num usage limit

-- The database's answer to one `INSERT`: an error's text, or none.
abbrev pub Insert : Type 0
Insert = ContactRow → Option Text

abbrev pub stored : ContactRow → Progress → Progress
stored row p = record p {
  imported = suc p.imported;
  contact_usage = suc p.contact_usage;
  inserted = p.inserted ++ row ∷ [];
}

unfoldable pub store_row : Insert → ContactRow → Progress → Progress
store_row db_insert row p = elim (db_insert row) [
  | some e ↦ skip (db_error p.row_num e) p
  | none ↦ stored row p
]

-- The body of the loop on a record already mapped; `p` has counted the record.
unfoldable pub import_mapped : Insert → ℕ → Option ℤ → List (Text × Text) → Progress → Progress
unfolding store_row validate_row contact_row
import_mapped db_insert tenant_id ceiling mapped p =
    if at_ceiling ceiling p.contact_usage
    then skip (ceiling_error ceiling p.row_num p.contact_usage) p
    else if ltb max_rows p.row_num
    then skip (exceeded_max_rows p.row_num) p
    else elim (validate_row mapped) [
      | err e ↦ skip (refused_row p.row_num e) p
      | ok _ ↦ store_row db_insert (contact_row tenant_id mapped) p
    ]

abbrev pub next_row : Progress → Progress
next_row p = record p { row_num = suc p.row_num }

-- The loop over the records, each as its entries.
unfoldable pub import_rows : Insert → ℕ → Option ℤ → List (List (Text × Text)) → Progress → Progress
unfolding import_mapped
import_rows db_insert tenant_id ceiling [] p = p
import_rows db_insert tenant_id ceiling (mapped ∷ records) p =
    import_rows db_insert tenant_id ceiling records
      (import_mapped db_insert tenant_id ceiling mapped (next_row p))

abbrev pub start : ℕ → Progress
start usage = record {
  row_num = 0;
  contact_usage = usage;
  imported = 0;
  skipped = 0;
  errors = [];
  inserted = [];
}
