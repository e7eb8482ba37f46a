-- ===== src/CsvImport/Complete.antt =====
-- A table of good rows is imported whole.
use core_swift_crm.Prelude.{
  ℕ, ◌+◌, ◌≤◌, false, none, List, [], ◌∷◌, ◌≡◌, ap, ◌∙◌, arith, length, All, ok, ltb,
}
use core_swift_crm.Text.{Text}
use core_swift_crm.CsvImport.Records.{
  Progress, ContactRow, Insert, max_rows, validate_row, contact_row, import_mapped, import_rows,
  next_row, stored,
}
use core_swift_crm.CsvImport.Fate.{store_row-none}

module _ (db_insert : Insert) (tenant_id : ℕ)
    (accepts : (row : ContactRow) → db_insert row ≡ none) where
  import_mapped-stored :
      (mapped : List (Text × Text)) (p : Progress)
      → validate_row mapped ≡ ok tt
      → ltb max_rows p.row_num ≡ false
      → import_mapped db_insert tenant_id none mapped p ≡ stored (contact_row tenant_id mapped) p
  unfolding import_mapped
  import_mapped-stored mapped p valid within =
      rw (within, valid)
        (store_row-none db_insert (contact_row tenant_id mapped) p
          (accepts (contact_row tenant_id mapped)))

  -- Without a ceiling, and with a database that takes every row, valid records are all imported as
  -- long as there are at most 500 of them.
  pub import_rows_complete :
      (records : List (List (Text × Text))) (p : Progress)
      → All (λ mapped. validate_row mapped ≡ ok tt) records
      → p.row_num + length records ≤ max_rows
      → (import_rows db_insert tenant_id none records p).imported ≡ p.imported + length records
  unfolding import_rows
  import_rows_complete [] p h k = ground arith
  import_rows_complete (mapped ∷ records) p h k =
      let next = stored (contact_row tenant_id mapped) (next_row p) in
      let one = import_mapped-stored mapped (next_row p) h.0 (ground (arith, k)) in
      ap (λ q. (import_rows db_insert tenant_id none records q).imported) one
      ∙ import_rows_complete records next h.1 (ground (arith, k))
      ∙ ground arith
