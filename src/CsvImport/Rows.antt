-- ===== src/CsvImport/Rows.antt =====
-- The books of an import: every record is counted once, and no bound is passed.
use mathlib.Core.Path.{subst, sym}
use core_swift_crm.Prelude.{
  ℕ, suc, ◌+◌, ◌≤◌, true, false, Option, none, some, List, [], ◌∷◌, ◌≡◌, ◌⊎◌, inl, inr, refl, ap,
  arith, Bool-cases, length, length-append, All, map, ok, >>=-eq-ok, ok-inj, ◌>>=◌,
}
use core_swift_crm.Prelude.Int.{ℤ, pos, ◌≤ℤ◌}
use core_swift_crm.Prelude.Tables.{All-append}
use core_swift_crm.Text.{Text, codes, is_empty}
use core_swift_crm.Text.Case.{to_lowercase}
use core_swift_crm.Entitlements.{Registry}
use core_swift_crm.Features.{Float, enforce_usage_limit, usage_ceiling}
use core_swift_crm.Features.Ceilings.{HasRoom, enforce_usage_limit_iff}
use core_swift_crm.CsvImport.{
  Env, import_contacts, import_table, mapping_map, check_mapping, check_upload, map_record,
  records_of,
}
use core_swift_crm.CsvImport.Records.{
  Progress, RowError, ContactRow, Insert, skip, stored, at_ceiling, max_rows, validate_row,
  contact_row, import_mapped, import_rows, next_row, start, is_valid_email, trimmed, filled,
}
use core_swift_crm.CsvImport.Fate.{IsStored, import_mapped_fate}

-- Under the ceiling or on it.
abbrev pub Within : Option ℤ → ℕ → Type 0
Within none n = Unit
Within (some limit) n = pos n ≤ℤ limit

abbrev pub IsEmailOrNone : Option Text → Type 0
IsEmailOrNone none = Unit
IsEmailOrNone (some email) = is_valid_email email ≡ true

-- A name is given, and the email, if given, looks like one.
abbrev pub IsAcceptable : ContactRow → Type 0
IsAcceptable row =
    ((is_empty row.first_name ≡ false) ⊎ (is_empty row.last_name ≡ false)) × IsEmailOrNone row.email

IsEmailOrNone-filled :
    (mapped : List (Text × Text))
    → validate_row mapped ≡ ok tt
    → IsEmailOrNone (filled (codes "email") mapped)
unfolding validate_row
IsEmailOrNone-filled mapped h = elim (Bool-cases (is_empty (trimmed (codes "email") mapped))) [
  | inl blank ↦ rw blank tt
  | inr given ↦ rw given (ground (arith, h, given))
]

IsAcceptable-contact_row :
    (tenant_id : ℕ) (mapped : List (Text × Text))
    → validate_row mapped ≡ ok tt
    → IsAcceptable (contact_row tenant_id mapped)
unfolding validate_row contact_row
IsAcceptable-contact_row tenant_id mapped h = (ground (arith, h), IsEmailOrNone-filled mapped h)

pub record Accounted (usage : ℕ) (ceiling : Option ℤ) (p : Progress) : Type 0 where
  pub each_counted : p.imported + p.skipped ≡ p.row_num
  pub a_reason_each : length p.errors ≡ p.skipped
  pub all_stored : length p.inserted ≡ p.imported
  pub usage_follows : p.contact_usage ≡ usage + p.imported
  pub row_bound : p.imported ≤ max_rows
  pub ceiling_kept : Within ceiling p.contact_usage
  pub acceptable : All IsAcceptable p.inserted

module _ (usage : ℕ) (ceiling : Option ℤ) where
  skip-Accounted :
      (e : RowError) (p : Progress)
      → Accounted usage ceiling p
      → Accounted usage ceiling (skip e (next_row p))
  skip-Accounted e p h = record {
    each_counted = ground (arith, h.each_counted);
    a_reason_each = ground (arith, h.a_reason_each, length-append p.errors (e ∷ []));
    all_stored = h.all_stored;
    usage_follows = h.usage_follows;
    row_bound = h.row_bound;
    ceiling_kept = h.ceiling_kept;
    acceptable = h.acceptable;
  }

  Within-suc : (c : Option ℤ) (n : ℕ) → at_ceiling c n ≡ false → Within c (suc n)
  Within-suc none n h = tt
  Within-suc (some limit) n h = ground arith

  stored-Accounted :
      (db_insert : Insert) (tenant_id : ℕ) (mapped : List (Text × Text)) (p : Progress)
      → Accounted usage ceiling p
      → IsStored db_insert tenant_id ceiling mapped (next_row p)
      → Accounted usage ceiling (stored (contact_row tenant_id mapped) (next_row p))
  stored-Accounted db_insert tenant_id mapped p h k = record {
    each_counted = ground (arith, h.each_counted);
    a_reason_each = h.a_reason_each;
    all_stored =
        ground (arith, h.all_stored, length-append p.inserted (contact_row tenant_id mapped ∷ []));
    usage_follows = ground (arith, h.usage_follows);
    row_bound = ground (arith, k.in_limit, h.each_counted);
    ceiling_kept = Within-suc ceiling p.contact_usage k.has_room;
    acceptable =
        All-append IsAcceptable p.inserted (contact_row tenant_id mapped ∷ []) h.acceptable
          (IsAcceptable-contact_row tenant_id mapped k.is_valid, tt);
  }

  import_mapped-Accounted :
      (db_insert : Insert) (tenant_id : ℕ) (mapped : List (Text × Text)) (p : Progress)
      → Accounted usage ceiling p
      → Accounted usage ceiling (import_mapped db_insert tenant_id ceiling mapped (next_row p))
  import_mapped-Accounted db_insert tenant_id mapped p h =
      elim (import_mapped_fate db_insert tenant_id ceiling mapped (next_row p)) [
        | inl (e, skipped) ↦ subst (Accounted usage ceiling) (sym skipped) (skip-Accounted e p h)
        | inr (k, kept) ↦
            subst (Accounted usage ceiling) (sym kept)
              (stored-Accounted db_insert tenant_id mapped p h k)
      ]

  import_mapped-row_num :
      (db_insert : Insert) (tenant_id : ℕ) (mapped : List (Text × Text)) (p : Progress)
      → (import_mapped db_insert tenant_id ceiling mapped (next_row p)).row_num ≡ suc p.row_num
  import_mapped-row_num db_insert tenant_id mapped p =
      elim (import_mapped_fate db_insert tenant_id ceiling mapped (next_row p)) [
        | inl (e, skipped) ↦ ap (λ q. q.row_num) skipped
        | inr (k, kept) ↦ ap (λ q. q.row_num) kept
      ]

  import_rows-Accounted :
      (db_insert : Insert) (tenant_id : ℕ) (records : List (List (Text × Text))) (p : Progress)
      → Accounted usage ceiling p
      → Accounted usage ceiling (import_rows db_insert tenant_id ceiling records p)
        × ((import_rows db_insert tenant_id ceiling records p).row_num ≡ length records + p.row_num)
  unfolding import_rows
  import_rows-Accounted db_insert tenant_id [] p h = (h, ground arith)
  import_rows-Accounted db_insert tenant_id (mapped ∷ records) p h =
      let (books, counted) =
        import_rows-Accounted db_insert tenant_id records
          (import_mapped db_insert tenant_id ceiling mapped (next_row p))
          (import_mapped-Accounted db_insert tenant_id mapped p h) in
      (books, ground (arith, counted, import_mapped-row_num db_insert tenant_id mapped p))

  start-Accounted : HasRoom ceiling (pos usage) → Accounted usage ceiling (start usage)
  start-Accounted room = record {
    each_counted = refl;
    a_reason_each = refl;
    all_stored = refl;
    usage_follows = ground arith;
    row_bound = ground arith;
    ceiling_kept = at_start ceiling room;
    acceptable = tt;
  }
    where
      at_start : (c : Option ℤ) → HasRoom c (pos usage) → Within c usage
      at_start none h = tt
      at_start (some limit) h = ground (arith, h)

length-map {ℓ κ} :
    {A : Type ℓ} {B : Type κ} (f : A → B) (xs : List A) → length (map f xs) ≡ length xs
length-map f [] = refl
length-map f (x ∷ xs) = ap suc (length-map f xs)

module _ {F : Type 0} (env : Env) (fl : Float F) (reg : Registry F) (tenant_id usage : ℕ) where
  abbrev Booked : List Text × List (List Text) → Progress → Type 0
  Booked table p =
      Accounted usage (usage_ceiling fl reg tenant_id (codes "limit_max_contacts")) p
      × (p.imported + p.skipped ≡ length table.1)

  import_table-Accounted :
      (mappings : List (Text × Text)) (table : List Text × List (List Text)) (p : Progress)
      → import_table env fl reg tenant_id usage mappings table ≡ ok p
      → Booked table p
  unfolding import_table
  import_table-Accounted mappings table p h =
      let headers = map (to_lowercase env.fold) table.0 in
      let mapping = env.walk_map (mapping_map env.fold mappings []) in
      let (u, checked, h') = >>=-eq-ok (check_mapping env headers mapping) _ h in
      let (ceiling, enforced, h'') =
        >>=-eq-ok
          (enforce_usage_limit fl env.show reg tenant_id (codes "limit_max_contacts") "Contact"
            "contacts" (pos usage))
          _ h' in
      let (same, room) =
        (enforce_usage_limit_iff fl env.show reg tenant_id (codes "limit_max_contacts") "Contact"
            "contacts" (pos usage) ceiling).0
          enforced in
      let records = records_of env mapping headers table.1 in
      let (books, counted) =
        import_rows-Accounted usage ceiling env.db_insert tenant_id records (start usage)
          (start-Accounted usage ceiling room) in
      let (kept, rows) =
        subst (λ q. Accounted usage ceiling q × (q.row_num ≡ length records + 0)) (ok-inj _ p h'')
          (books, counted) in
      (
        subst (λ c. Accounted usage c p) (sym same) kept,
        ground (
          arith,
          kept.each_counted,
          rows,
          length-map (λ cells. map_record headers cells mapping []) table.1,
        ),
      )

  -- An import that starts keeps its books: imported and skipped records are all the records of the
  -- table, each skipped one has a reason, each imported one a stored row with a name and no
  -- malformed email, at most 500 are imported, and the contacts do not pass the plan's ceiling.
  pub import_contacts-Accounted :
      (file : List ℕ) (mappings : List (Text × Text)) (table : List Text × List (List Text))
      (p : Progress)
      → env.read_table file ≡ ok table
      → import_contacts env fl reg tenant_id usage file mappings ≡ ok p
      → Booked table p
  unfolding import_contacts
  import_contacts-Accounted file mappings table p read h =
      let (u, checked, h') = >>=-eq-ok (check_upload env file mappings) _ h in
      import_table-Accounted mappings table p
        (subst (λ r. (r >>= import_table env fl reg tenant_id usage mappings) ≡ ok p) read h')
