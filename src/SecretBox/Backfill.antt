-- ===== src/SecretBox/Backfill.antt =====
-- The loop of a backfill, as what it does to each row by itself.
use core_swift_crm.Prelude.{
  ℕ, suc, ◌+◌, ◌≡◌, ◌≢◌, refl, sym, ◌∙◌, ap, false, Option, none, some, List, [], ◌∷◌, ◌++◌, arith,
  All, if◌then◌else◌, Bool-cases, Option-cases, inl, inr,
}
use core_swift_crm.Prelude.Tables.{select, update, All-append, All-always}
use core_swift_crm.Text.{Text, is_empty}
use core_swift_crm.SecretBox.{
  SecretRow, Backfilled, is_set, stored_of, is_some, opens_with_configured, open_secret, resealed,
  write_secret, backfill_row, backfill_each, backfill, backfill_provider_keys,
}
use core_swift_crm.SecretBox.Encryption.{Crypto, Nonce}

-- `id` is the primary key.
abbrev pub HasKey : List SecretRow → Type 0
HasKey [] = Unit
HasKey (r ∷ rows) = All (λ x. x.id ≢ r.id) rows × HasKey rows

abbrev Avoids : ℕ → List SecretRow → Type 0
Avoids id rows = All (λ x. x.id ≢ id) rows

unfoldable pub set_secret : Text → SecretRow → SecretRow
set_secret out r = record r { secret = some out }

write_secret-avoiding :
    (id : ℕ) (out : Text) (rows : List SecretRow) → Avoids id rows → write_secret id out rows ≡ rows
unfolding update
write_secret-avoiding id out [] h = refl
write_secret-avoiding id out (x ∷ rows) h =
    ground (arith, h.0, write_secret-avoiding id out rows h.1)

write_secret-there :
    (r : SecretRow) (out : Text) (front rest : List SecretRow)
    → Avoids r.id front
    → Avoids r.id rest
    → write_secret r.id out (front ++ r ∷ rest) ≡ front ++ set_secret out r ∷ rest
unfolding update set_secret
write_secret-there r out [] rest hf hr = ground (arith, write_secret-avoiding r.id out rest hr)
write_secret-there r out (x ∷ front) rest hf hr =
    ground (arith, hf.0, write_secret-there r out front rest hf.1 hr)

append_one :
    {A : Type 0} (front : List A) (r : A) (rest : List A)
    → (front ++ r ∷ []) ++ rest ≡ front ++ r ∷ rest
append_one [] r rest = refl
append_one (x ∷ front) r rest = ap (λ l. x ∷ l) (append_one front r rest)

module _ (c : Crypto) (var : Option Text) (draw : ℕ → Nonce) where
  -- What the backfill writes to a row: the secret that the row opens to, sealed again.
  unfoldable pub rewrite : SecretRow → Option Text
  rewrite r =
      if opens_with_configured c var r.tenant_id (stored_of r)
      then none
      else if is_empty (open_secret c var r.tenant_id (stored_of r))
      then none
      else resealed c var (draw r.id) r

  abbrev rewritten_to : Option Text → SecretRow → SecretRow
  rewritten_to none r = r
  rewritten_to (some out) r = set_secret out r

  unfoldable pub after : SecretRow → SecretRow
  unfolding rewrite set_secret
  after r = rewritten_to (rewrite r) r

  abbrev pub count : List SecretRow → ℕ
  count [] = 0
  count (r ∷ rows) = (if is_some (rewrite r) then suc (count rows) else count rows)

  abbrev pub after_all : List SecretRow → List SecretRow
  after_all [] = []
  after_all (r ∷ rows) = after r ∷ after_all rows

  backfill_row-lem :
      (r : SecretRow) (st : Backfilled)
      → (rewrite r ≡ none
          → ((backfill_row c var draw r st).rows ≡ st.rows)
            × ((backfill_row c var draw r st).sealed + (backfill_row c var draw r st).rekeyed
                ≡ st.sealed + st.rekeyed))
        × ((out : Text)
            → rewrite r ≡ some out
            → ((backfill_row c var draw r st).rows ≡ write_secret r.id out st.rows)
              × ((backfill_row c var draw r st).sealed + (backfill_row c var draw r st).rekeyed
                  ≡ suc (st.sealed + st.rekeyed)))
  unfolding backfill_row rewrite
  backfill_row-lem r st = ground arith

  rewrite_unset : (r : SecretRow) → is_set r ≡ false → rewrite r ≡ none
  unfolding rewrite open_secret
  rewrite_unset r h = ground arith

  pub after-none : (r : SecretRow) → rewrite r ≡ none → after r ≡ r
  unfolding after
  after-none r h = rw h refl

  pub after-some : (r : SecretRow) (out : Text) → rewrite r ≡ some out → after r ≡ set_secret out r
  unfolding after
  after-some r out h = rw h refl

  after-id : (r : SecretRow) → (after r).id ≡ r.id
  unfolding after set_secret
  after-id r = ground arith

  append-Avoids :
      (r : SecretRow) (front rest : List SecretRow)
      → All (λ x. Avoids x.id front) rest
      → Avoids r.id rest
      → All (λ x. Avoids x.id (front ++ after r ∷ [])) rest
  append-Avoids r front [] h k = tt
  append-Avoids r front (x ∷ rest) h k = (
    All-append (λ y. y.id ≢ x.id) front (after r ∷ []) h.0 ((λ e. k.0 (sym e ∙ after-id r)), tt),
    append-Avoids r front rest h.1 k.1,
  )

  -- The rows and the count that the loop ends with.
  EndsWith : Backfilled → ℕ → List SecretRow → Type 0
  EndsWith st n rows = (st.rows ≡ rows) × (st.sealed + st.rekeyed ≡ n)

  backfill_row-EndsWith :
      (r : SecretRow) (st : Backfilled) (front rest : List SecretRow)
      → st.rows ≡ front ++ r ∷ rest
      → Avoids r.id front
      → Avoids r.id rest
      → EndsWith
          (backfill_row c var draw r st)
          (if is_some (rewrite r) then suc (st.sealed + st.rekeyed) else st.sealed + st.rekeyed)
          ((front ++ after r ∷ []) ++ rest)
  unfolding EndsWith
  backfill_row-EndsWith r st front rest e hf hr =
      rw (append_one front (after r) rest) (elim (Option-cases (rewrite r)) [
        | inl same ↦
            let (rows, n) = (backfill_row-lem r st).0 same in
            rw (same, after-none r same) (rows ∙ e, n)
        | inr (out, new) ↦
            let (rows, n) = (backfill_row-lem r st).1 out new in
            rw (new, after-some r out new)
              (rows ∙ rw e (write_secret-there r out front rest hf hr), n)
      ])

  backfill_each-EndsWith :
      (front rest : List SecretRow) (st : Backfilled)
      → st.rows ≡ front ++ rest
      → All (λ x. Avoids x.id front) rest
      → HasKey rest
      → EndsWith
          (backfill_each c var draw (select is_set rest) st)
          (st.sealed + st.rekeyed + count rest)
          (front ++ after_all rest)
  unfolding backfill_each select EndsWith
  backfill_each-EndsWith front [] st e hf hk = (e, omega arith)
  backfill_each-EndsWith front (r ∷ rest) st e hf hk = elim (Bool-cases (is_set r)) [
    | inl set ↦
        let (rows, n) = backfill_row-EndsWith r st front rest e hf.0 hk.0 in
        let (rows', n') =
          backfill_each-EndsWith (front ++ after r ∷ []) rest (backfill_row c var draw r st) rows
            next hk.1 in
        rw set (rows' ∙ append_one front (after r) (after_all rest), ground (arith, n, n'))
    | inr unset ↦
        let same = rewrite_unset r unset in
        let (rows', n') =
          backfill_each-EndsWith (front ++ after r ∷ []) rest st
            (e ∙ rw (append_one front (after r) rest, after-none r same) refl) next hk.1 in
        rw (unset, same) (rows' ∙ append_one front (after r) (after_all rest), n')
  ]
    where
      next : All (λ x. Avoids x.id (front ++ after r ∷ [])) rest
      next = append-Avoids r front rest hf.1 hk.0

  -- A backfill rewrites each row of a table by itself: a set secret that the configured key does not
  -- open and that is readable is sealed again. It returns how many rows it has rewritten.
  pub backfill_each_row :
      (rows : List SecretRow)
      → HasKey rows
      → backfill_provider_keys c var draw rows ≡ (count rows, after_all rows)
  unfolding backfill_provider_keys backfill EndsWith
  backfill_each_row rows hk =
      let (rows', n) =
        backfill_each-EndsWith [] rows
          (record { rows = rows; sealed = 0; rekeyed = 0; unreadable = 0 }) refl
          (All-always (λ x. Avoids x.id []) (λ x. tt) rows) hk in
      ground (arith, rows', n)
