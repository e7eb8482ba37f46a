-- ===== src/SecretBox/Settled.antt =====
-- A second backfill finds nothing to do.
use core_swift_crm.Prelude.{
  ℕ, ◌≡◌, ◌≢◌, refl, sym, ◌∙◌, true, Option, none, List, [], ◌∷◌, arith, All, Option-cases, inl,
  inr,
}
use core_swift_crm.Text.{Text}
use core_swift_crm.Text.Utf8.{IsStr}
use core_swift_crm.SecretBox.{
  SecretRow, stored_of, opens_with_configured, open_secret, resealed, backfill_provider_keys,
}
use core_swift_crm.SecretBox.Encryption.{Crypto, CryptoLaws, Nonce, is_configured}
use core_swift_crm.SecretBox.Backfill.{
  HasKey, rewrite, after, after_all, count, set_secret, backfill_each_row, after-none, after-some,
}
use core_swift_crm.SecretBox.Kept.{rewrite-IsSealed}
use core_swift_crm.SecretBox.Clean.{Encrypts, seal-total}

module _ (c : Crypto) (var : Option Text) (draw : ℕ → Nonce) where
  after-id : (r : SecretRow) → (after c var draw r).id ≡ r.id
  unfolding after set_secret
  after-id r = ground arith

  after_all-avoids :
      (id : ℕ) (rows : List SecretRow)
      → All (λ x. x.id ≢ id) rows
      → All (λ x. x.id ≢ id) (after_all c var draw rows)
  after_all-avoids id [] h = tt
  after_all-avoids id (r ∷ rows) h =
      ((λ e. h.0 (sym (after-id r) ∙ e)), after_all-avoids id rows h.1)

  after_all-HasKey : (rows : List SecretRow) → HasKey rows → HasKey (after_all c var draw rows)
  after_all-HasKey [] h = tt
  after_all-HasKey (r ∷ rows) h =
      (rw (after-id r) (after_all-avoids r.id rows h.0), after_all-HasKey rows h.1)

module _ (c : Crypto) (laws : CryptoLaws c) (total : Encrypts c) (var : Option Text)
    (set : is_configured var ≡ true) (draw draw' : ℕ → Nonce) where
  -- Whether a row is written does not depend on the nonce.
  unwritten : (r : SecretRow) → rewrite c var draw r ≡ none → rewrite c var draw' r ≡ none
  unfolding rewrite resealed
  unwritten r h =
      let (out, e) =
        seal-total c total var set (draw r.id) r.tenant_id
          (open_secret c var r.tenant_id (stored_of r)) in
      ground (arith, e, h)

  sealed_again :
      (r : SecretRow) (out : Text)
      → opens_with_configured c var r.tenant_id out ≡ true
      → rewrite c var draw' (set_secret out r) ≡ none
  unfolding rewrite set_secret
  sealed_again r out h = rw h refl

  written_once :
      (r : SecretRow) → IsStr (stored_of r) → rewrite c var draw' (after c var draw r) ≡ none
  written_once r str = elim (Option-cases (rewrite c var draw r)) [
    | inl same ↦ rw (after-none c var draw r same) (unwritten r same)
    | inr (out, new) ↦
        rw (after-some c var draw r out new)
          (sealed_again r out (rewrite-IsSealed c laws var draw r out str new).1)
  ]

  nothing_left :
      (rows : List SecretRow)
      → All (λ r. IsStr (stored_of r)) rows
      → (count c var draw' (after_all c var draw rows) ≡ 0)
        × (after_all c var draw' (after_all c var draw rows) ≡ after_all c var draw rows)
  nothing_left [] h = (refl, refl)
  nothing_left (r ∷ rows) h =
      let once = written_once r h.0 in
      let (n, rest) = nothing_left rows h.1 in
      (rw once n, rw (after-none c var draw' (after c var draw r) once, rest) refl)

  -- With a configured master secret, a second backfill, whatever nonces it draws, rewrites no row
  -- and returns 0.
  pub backfill_idem :
      (rows : List SecretRow)
      → HasKey rows
      → All (λ r. IsStr (stored_of r)) rows
      → backfill_provider_keys c var draw' (backfill_provider_keys c var draw rows).1
        ≡ (0, (backfill_provider_keys c var draw rows).1)
  backfill_idem rows hk str =
      rw
        (
          backfill_each_row c var draw rows hk,
          backfill_each_row c var draw' (after_all c var draw rows)
              (after_all-HasKey c var draw rows hk),
          (nothing_left rows str).0,
          (nothing_left rows str).1,
        )
        refl
