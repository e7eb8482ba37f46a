-- ===== src/CsvImport.antt =====
-- csv_handler.rs: the import of contacts from a table, from the parsed form on.
-- Parameters are the table reader, the Unicode part of `to_lowercase`, the order in which a hash map
-- or set is walked, the database's error for a row, and the printing of a text and of a number.
pub mod Records
pub mod Rows
pub mod Fate
pub mod Complete
mod Tests
use Prim.Native.String
use core_swift_crm.Prelude.{
  ℕ, zero, suc, ◌+◌, String, Bool, not, Option, none, some, List, [], ◌∷◌, ◌++◌, map, ltb, leb,
  if◌then◌else◌, any, length, Result, ok, err, ◌>>=◌,
}
use core_swift_crm.Prelude.Int.{ℤ, pos}
use core_swift_crm.Errors.{AppError, bad_request}
use core_swift_crm.Text.{Text, codes, text_eq}
use core_swift_crm.Text.Case.{to_lowercase}
use core_swift_crm.Entitlements.{Registry}
use core_swift_crm.Features.{Float, enforce_usage_limit}
use core_swift_crm.CsvImport.Records.{lookup, Progress, Insert, import_rows, start}

abbrev pub max_upload_bytes : ℕ
max_upload_bytes = 5242880

or_insert : Text → Text → List (Text × Text) → List (Text × Text)
unfolding lookup
or_insert key value entries = elim (lookup key entries) [
  | some _ ↦ entries
  | none ↦ (key, value) ∷ entries
]

-- `insert`, which overwrites, as `collect` into a map does.
insert : Text → Text → List (Text × Text) → List (Text × Text)
insert key value [] = (key, value) ∷ []
insert key value ((k, v) ∷ entries) =
    let rest = insert key value entries in
    if text_eq k key then (k, value) ∷ entries else (k, v) ∷ rest

abbrev pub allowed_fields : List Text
allowed_fields =
    codes "first_name"
    ∷ codes "last_name"
    ∷ codes "email"
    ∷ codes "phone"
    ∷ codes "title"
    ∷ codes "company"
    ∷ codes "notes"
    ∷ codes "address_line1"
    ∷ codes "address_line2"
    ∷ codes "city"
    ∷ codes "state"
    ∷ codes "postal_code"
    ∷ codes "country"
    ∷ codes "gender"
    ∷ []

abbrev nth {ℓ} : {A : Type ℓ} → ℕ → List A → Option A
nth n [] = none
nth zero (x ∷ xs) = some x
nth (suc n) (x ∷ xs) = nth n xs

-- The last column of that name, as `collect` into a map leaves it.
column : Text → ℕ → List Text → Option ℕ
column name i [] = none
column name i (h ∷ headers) = elim (column name (suc i) headers) [
  | some j ↦ some j
  | none ↦ if text_eq h name then some i else none
]

abbrev cell : List Text → Text → List Text → Option Text
cell headers name record_cells = elim (column name 0 headers) [
  | none ↦ none
  | some i ↦ nth i record_cells
]

-- The inner loop over the mapping.
pub map_record :
    List Text → List Text → List (Text × Text) → List (Text × Text) → List (Text × Text)
unfolding or_insert column
map_record headers cells [] mapped = mapped
map_record headers cells ((csv_header, contact_field) ∷ mapping) mapped =
    map_record headers cells mapping (elim (cell headers csv_header cells) [
      | none ↦ mapped
      | some value ↦ or_insert contact_field value mapped
    ])

pub record Env : Type 0 where
  pub fold : Text → Text
  pub walk_map : List (Text × Text) → List (Text × Text)
  pub walk_set : List Text → List Text
  pub read_table : List ℕ → Result (List Text × List (List Text)) AppError
  pub db_insert : Insert
  pub string_of : Text → String
  pub show : ℤ → String

infixr 60 ◌^◌
abbrev ◌^◌ : String → String → String
a ^ b = String.◌++◌ a b

abbrev comma_joined : (Text → String) → List Text → String
comma_joined string_of [] = ""
comma_joined string_of (s ∷ []) = string_of s
comma_joined string_of (s ∷ t ∷ ss) = string_of s ^ ", " ^ comma_joined string_of (t ∷ ss)

abbrev one_of : Text → List Text → Bool
one_of s ss = any (λ t. text_eq t s) ss

-- The loop that checks the mapping against the headers and the fields.
pub check_mapping : Env → List Text → List (Text × Text) → Result (Unit {0}) AppError
check_mapping env headers [] = ok tt
check_mapping env headers ((csv_header, contact_field) ∷ mapping) =
    let rest = check_mapping env headers mapping in
    if not (one_of csv_header headers)
    then err (
        bad_request (
          "CSV header '"
          ^ env.string_of csv_header
          ^ "' not found in file. Available headers: "
          ^ comma_joined env.string_of headers))
    else if not (one_of contact_field allowed_fields)
    then err (
        bad_request (
          "Unknown contact field: '"
          ^ env.string_of contact_field
          ^ "'. Allowed: "
          ^ comma_joined env.string_of (env.walk_set allowed_fields)))
    else rest

-- `mappings…collect()`: lowercase header to lowercase field, the last of equal headers.
pub mapping_map : (Text → Text) → List (Text × Text) → List (Text × Text) → List (Text × Text)
unfolding insert
mapping_map fold [] entries = entries
mapping_map fold ((csv_header, contact_field) ∷ mappings) entries =
    mapping_map fold mappings
      (insert (to_lowercase fold csv_header) (to_lowercase fold contact_field) entries)

pub check_upload : Env → List ℕ → List (Text × Text) → Result (Unit {0}) AppError
check_upload env file mappings =
    if ltb max_upload_bytes (length file)
    then err (
        bad_request (
          "File too large: "
          ^ env.show (pos (length file))
          ^ " bytes (max "
          ^ env.show (pos max_upload_bytes)
          ^ ")"))
    else if leb (length mappings) 0
    then err (bad_request "At least one column mapping is required")
    else ok tt

abbrev pub records_of :
    Env → List (Text × Text) → List Text → List (List Text) → List (List (Text × Text))
records_of env mapping headers = map (λ cells. map_record headers cells mapping [])

-- `import_contacts` once the table is read.
pub import_table :
    {F : Type 0}
    → Env
    → Float F
    → Registry F
    → ℕ
    → ℕ
    → List (Text × Text)
    → List Text × List (List Text)
    → Result Progress AppError
unfolding mapping_map check_mapping map_record import_rows
import_table env fl reg tenant_id usage mappings table =
    let headers = map (to_lowercase env.fold) table.0 in
    let mapping = env.walk_map (mapping_map env.fold mappings []) in
    check_mapping env headers mapping >>= λ _.
    enforce_usage_limit fl env.show reg tenant_id (codes "limit_max_contacts") "Contact" "contacts"
      (pos usage)
    >>= λ ceiling. ok (
        import_rows env.db_insert tenant_id ceiling (records_of env mapping headers table.1)
          (start usage))

-- `import_contacts` on the two parts of the form, for a workspace with `usage` contacts.
pub import_contacts :
    {F : Type 0}
    → Env
    → Float F
    → Registry F
    → ℕ
    → ℕ
    → List ℕ
    → List (Text × Text)
    → Result Progress AppError
unfolding check_upload import_table
import_contacts env fl reg tenant_id usage file mappings = check_upload env file mappings >>= λ _.
    env.read_table file >>= import_table env fl reg tenant_id usage mappings
