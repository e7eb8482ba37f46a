-- ===== src/SecretBox/Kept.antt =====
-- What a backfill leaves: every secret opens to what it opened to before, and no readable secret is
-- left unsealed.
use core_swift_crm.Prelude.{
  ℕ, ◌≡◌, refl, ap, true, Option, none, some, List, [], ◌∷◌, arith, All, Option-cases, inl, inr,
  Result, ok, err, map,
}
use core_swift_crm.Text.{Text}
use core_swift_crm.Text.Utf8.{IsStr}
use core_swift_crm.SecretBox.{
  SecretRow, stored_of, is_sealed, opens_with_configured, open_secret, resealed,
  backfill_provider_keys, to_option,
}
use core_swift_crm.SecretBox.Encryption.{Crypto, CryptoLaws, Nonce}
use core_swift_crm.SecretBox.Sealed.{seal-IsSealed, open_secret-IsStr}
use core_swift_crm.SecretBox.Backfill.{
  HasKey, rewrite, after, after_all, set_secret, backfill_each_row, after-none, after-some,
}

to_option-eq-some {ℓ} :
    {E : Type ℓ} (r : Result Text E) (p : Text) → to_option r ≡ some p → r ≡ ok p
to_option-eq-some (ok t) p h = ap (λ t. elim t [ none ↦ ok p | some t ↦ ok t ]) h
to_option-eq-some (err e) p h = absurd (cc h)

module _ (c : Crypto) (var : Option Text) where
  -- The secret of a row, opened.
  abbrev pub opened : SecretRow → ℕ × ℕ × Text
  opened r = (r.id, r.tenant_id, open_secret c var r.tenant_id (stored_of r))

module _ (c : Crypto) (laws : CryptoLaws c) (var : Option Text) (draw : ℕ → Nonce) where
  -- A secret is written only as a sealed text that opens to the same plaintext.
  pub rewrite-IsSealed :
      (r : SecretRow) (out : Text)
      → IsStr (stored_of r)
      → rewrite c var draw r ≡ some out
      → (is_sealed out ≡ true)
        × (opens_with_configured c var r.tenant_id out ≡ true)
        × (open_secret c var r.tenant_id out ≡ open_secret c var r.tenant_id (stored_of r))
  unfolding rewrite resealed
  rewrite-IsSealed r out str h =
      seal-IsSealed c laws var (draw r.id) r.tenant_id plaintext out
        (open_secret-IsStr c var r.tenant_id (stored_of r) str) (ground (arith, h))
        (to_option-eq-some _ out (ground (arith, h)))
    where
      plaintext : Text
      plaintext = open_secret c var r.tenant_id (stored_of r)

  opened-after :
      (r : SecretRow) → IsStr (stored_of r) → opened c var (after c var draw r) ≡ opened c var r
  unfolding set_secret
  opened-after r str = elim (Option-cases (rewrite c var draw r)) [
    | inl same ↦ rw (after-none c var draw r same) refl
    | inr (out, new) ↦
        rw (after-some c var draw r out new)
          (ap (λ p. (r.id, r.tenant_id, p)) (rewrite-IsSealed r out str new).2)
  ]

  opened-after_all :
      (rows : List SecretRow)
      → All (λ r. IsStr (stored_of r)) rows
      → map (opened c var) (after_all c var draw rows) ≡ map (opened c var) rows
  opened-after_all [] h = refl
  opened-after_all (r ∷ rows) h = rw (opened-after r h.0, opened-after_all rows h.1) refl

  -- A backfill leaves every row its id, its tenant and the plaintext that its secret opens to.
  pub backfill-opened :
      (rows : List SecretRow)
      → HasKey rows
      → All (λ r. IsStr (stored_of r)) rows
      → map (opened c var) (backfill_provider_keys c var draw rows).1 ≡ map (opened c var) rows
  backfill-opened rows hk str =
      rw (backfill_each_row c var draw rows hk) (opened-after_all rows str)
