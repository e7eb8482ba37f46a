-- ===== src/CsvImport/Fate.antt =====
-- What one record comes to: it is skipped with a reason, or it is stored.
use core_swift_crm.Prelude.{
  ℕ, ◌≤◌, false, Option, none, some, List, ◌≡◌, ◌⊎◌, inl, inr, refl, arith, Bool-cases,
  Option-cases, ok, Result-cases, ltb,
}
use core_swift_crm.Prelude.Int.{ℤ}
use core_swift_crm.Text.{Text}
use core_swift_crm.CsvImport.Records.{
  Progress, RowError, ContactRow, Insert, skip, at_ceiling, max_rows, validate_row, contact_row,
  import_mapped, store_row, stored, ceiling_error, exceeded_max_rows, refused_row, db_error,
}

-- Why a record is stored.
pub record IsStored (db_insert : Insert) (tenant_id : ℕ) (ceiling : Option ℤ)
    (mapped : List (Text × Text)) (p : Progress) : Type 0 where
  pub has_room : at_ceiling ceiling p.contact_usage ≡ false
  pub in_limit : p.row_num ≤ max_rows
  pub is_valid : validate_row mapped ≡ ok tt
  pub written : db_insert (contact_row tenant_id mapped) ≡ none

pub store_row-none :
    (db_insert : Insert) (row : ContactRow) (p : Progress)
    → db_insert row ≡ none
    → store_row db_insert row p ≡ stored row p
unfolding store_row
store_row-none db_insert row p done = rw (done, store_row) refl

store_row-some :
    (db_insert : Insert) (row : ContactRow) (p : Progress) (e : Text)
    → db_insert row ≡ some e
    → store_row db_insert row p ≡ skip (db_error p.row_num e) p
unfolding store_row
store_row-some db_insert row p e failed = rw (failed, store_row) refl

module _ (db_insert : Insert) (tenant_id : ℕ) (ceiling : Option ℤ) (mapped : List (Text × Text))
    (p : Progress) where
  abbrev Fate : Type 0
  Fate =
      ((e : RowError) × (import_mapped db_insert tenant_id ceiling mapped p ≡ skip e p))
      ⊎ (IsStored db_insert tenant_id ceiling mapped p
          × (import_mapped db_insert tenant_id ceiling mapped p
              ≡ stored (contact_row tenant_id mapped) p))

  pub import_mapped_fate : Fate
  unfolding import_mapped
  import_mapped_fate = elim (Bool-cases (at_ceiling ceiling p.contact_usage)) [
    | inl full ↦ inl (ceiling_error ceiling p.row_num p.contact_usage, rw full refl)
    | inr room ↦ elim (Bool-cases (ltb max_rows p.row_num)) [
      | inl beyond ↦ inl (exceeded_max_rows p.row_num, rw (room, beyond) refl)
      | inr within ↦ elim (Result-cases (validate_row mapped)) [
        | inr (e, refused) ↦ inl (refused_row p.row_num e, rw (room, within, refused) refl)
        | inl (u, valid) ↦ elim (Option-cases (db_insert (contact_row tenant_id mapped))) [
          | inr (e, failed) ↦ inl (
            db_error p.row_num e,
            rw (room, within, valid)
                (store_row-some db_insert (contact_row tenant_id mapped) p e failed),
          )
          | inl done ↦ inr (
            record {
              has_room = room;
              in_limit = ground (arith, within);
              is_valid = valid;
              written = done;
            },
            rw (room, within, valid)
                (store_row-none db_insert (contact_row tenant_id mapped) p done),
          )
        ]
      ]
    ]
  ]
