-- ===== src/Checklists/Entities.antt =====
-- Which entities a tenant has, apart from the code that looks them up.
use core_swift_crm.Prelude.{
  ℕ, Bool, true, ◌&&◌, ◌≡◌, ◌⊎◌, ◌↔◌, inl, inr, ap, ◌∙◌, List, [], ◌∷◌, ◌==◌, Any, any, arith,
  Bool-cases,
}
use core_swift_crm.Text.{Text, codes, text_eq}
use core_swift_crm.Text.Equality.{text_eq-eq}
use core_swift_crm.Checklists.{Db, Entity, found, exists_in, lookup_entity}

-- A row of the table is the entity, in the tenant.
abbrev pub Holds : ℕ → ℕ → List Entity → Type 0
Holds tenant_id entity_id rows = Any (λ e. (e.id ≡ entity_id) × (e.tenant_id ≡ tenant_id)) rows

-- The table that the type names holds the entity.
abbrev pub HasEntity : Db → ℕ → Text → ℕ → Type 0
HasEntity db tenant_id entity_type entity_id =
    ((entity_type ≡ codes "contact") × Holds tenant_id entity_id db.contacts)
    ⊎ ((entity_type ≡ codes "company") × Holds tenant_id entity_id db.companies)
    ⊎ ((entity_type ≡ codes "opportunity") × Holds tenant_id entity_id db.opportunities)
    ⊎ ((entity_type ≡ codes "list") × Holds tenant_id entity_id db.lists)
    ⊎ ((entity_type ≡ codes "tag") × Holds tenant_id entity_id db.tags)

module _ (tenant_id entity_id : ℕ) where
  is_entity : Entity → Bool
  is_entity e = e.id == entity_id && e.tenant_id == tenant_id

  any_iff : (rows : List Entity) → (any is_entity rows ≡ true) ↔ Holds tenant_id entity_id rows
  unfolding is_entity
  any_iff [] = ((λ e. absurd (cc e)), (λ h. absurd h))
  any_iff (e ∷ rows) =
      let rest = any_iff rows in
      elim (Bool-cases (is_entity e)) [
        | inl here ↦
            ((λ h. inl (ground (arith, here), ground (arith, here))), (λ h. ground (arith, here)))
        | inr away ↦ (
          (λ h. inr (rest.0 (ground (arith, away, h)))),
          (λ h. elim h [
            | inl both ↦ absurd (ground (arith, away, both.0, both.1))
            | inr there ↦ let yes = rest.1 there in ground (arith, yes)
          ]),
        )
      ]

  exists_in_iff :
      (rows : List Entity)
      → (exists_in tenant_id entity_id rows ≡ found) ↔ Holds tenant_id entity_id rows
  unfolding is_entity
  exists_in_iff rows = elim (Bool-cases (any is_entity rows)) [
    | inl e ↦ ((λ h. (any_iff rows).0 e), (λ h. ground (arith, e)))
    | inr e ↦ ((λ h. absurd (ground (arith, e, h))), (λ h. absurd (cc ((any_iff rows).1 h, e))))
  ]

module _ (db : Db) (tenant_id : ℕ) where
  found-HasEntity :
      (entity_type : Text) (entity_id : ℕ)
      → lookup_entity db tenant_id entity_type entity_id ≡ found
      → HasEntity db tenant_id entity_type entity_id
  unfolding lookup_entity
  found-HasEntity ty id h =
      let rows = exists_in_iff tenant_id id in
      elim (Bool-cases (text_eq ty (codes "contact"))) [
        | inl a ↦ inl (text_eq-eq ty _ a, (rows db.contacts).0 (ground (arith, a, h)))
        | inr a ↦ elim (Bool-cases (text_eq ty (codes "company"))) [
          | inl b ↦ inr (inl (text_eq-eq ty _ b, (rows db.companies).0 (ground (arith, a, b, h))))
          | inr b ↦ elim (Bool-cases (text_eq ty (codes "opportunity"))) [
            | inl c ↦ inr (
                inr
                  (inl (text_eq-eq ty _ c, (rows db.opportunities).0 (ground (arith, a, b, c, h)))))
            | inr c ↦ elim (Bool-cases (text_eq ty (codes "list"))) [
              | inl d ↦ inr (
                  inr (
                    inr
                      (inl (text_eq-eq ty _ d, (rows db.lists).0 (ground (arith, a, b, c, d, h))))))
              | inr d ↦ elim (Bool-cases (text_eq ty (codes "tag"))) [
                | inl e ↦ inr (
                    inr (
                      inr (
                        inr (
                          text_eq-eq ty _ e,
                          (rows db.tags).0 (ground (arith, a, b, c, d, e, h)),
                        ))))
                | inr e ↦ absurd (ground (arith, a, b, c, d, e, h))
              ]
            ]
          ]
        ]
      ]

  HasEntity-found :
      (entity_type : Text) (entity_id : ℕ)
      → HasEntity db tenant_id entity_type entity_id
      → lookup_entity db tenant_id entity_type entity_id ≡ found
  unfolding lookup_entity text_eq
  HasEntity-found ty id (inl (e, h)) =
      ap (λ t. lookup_entity db tenant_id t id) e ∙ (exists_in_iff tenant_id id db.contacts).1 h
  HasEntity-found ty id (inr (inl (e, h))) =
      ap (λ t. lookup_entity db tenant_id t id) e ∙ (exists_in_iff tenant_id id db.companies).1 h
  HasEntity-found ty id (inr (inr (inl (e, h)))) =
      ap (λ t. lookup_entity db tenant_id t id) e
      ∙ (exists_in_iff tenant_id id db.opportunities).1 h
  HasEntity-found ty id (inr (inr (inr (inl (e, h))))) =
      ap (λ t. lookup_entity db tenant_id t id) e ∙ (exists_in_iff tenant_id id db.lists).1 h
  HasEntity-found ty id (inr (inr (inr (inr (e, h))))) =
      ap (λ t. lookup_entity db tenant_id t id) e ∙ (exists_in_iff tenant_id id db.tags).1 h

  pub lookup_entity_iff :
      (entity_type : Text) (entity_id : ℕ)
      → (lookup_entity db tenant_id entity_type entity_id ≡ found)
        ↔ HasEntity db tenant_id entity_type entity_id
  lookup_entity_iff entity_type entity_id =
      (found-HasEntity entity_type entity_id, HasEntity-found entity_type entity_id)
