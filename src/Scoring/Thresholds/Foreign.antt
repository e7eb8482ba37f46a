-- ===== src/Scoring/Thresholds/Foreign.antt =====
-- The rows of other tenants under a threshold.
use core_swift_crm.Prelude.{
  ℕ, ◌≡◌, refl, ◌∙◌, not, Option, none, some, List, [], ◌∷◌, ◌++◌, ◌==◌, arith, Bool-cases,
  Option-cases, inl, inr,
}
use core_swift_crm.Prelude.Int.{ℤ}
use core_swift_crm.Prelude.Tables.{select, update}
use core_swift_crm.Text.{codes, text_eq}
use core_swift_crm.Scoring.Thresholds.{
  Db, ScoringThreshold, Opportunity, ContactTag, set_stage, insert_tag, tag_of, move_stage,
  assign_tag, apply_threshold, apply_each, apply_thresholds, crossed,
}

module _ (tenant_id : ℕ) where
  abbrev pub foreign_opportunities : Db → List Opportunity
  foreign_opportunities db = select (λ o. not (o.tenant_id == tenant_id)) db.opportunities

  abbrev pub foreign_assignments : Db → List ContactTag
  foreign_assignments db = select (λ a. not (a.tenant_id == tenant_id)) db.tag_assignments

  -- The other tenants' rows are the same.
  abbrev pub SameForeign : Db → Db → Type 0
  SameForeign before after =
      (foreign_opportunities after ≡ foreign_opportunities before)
      × (foreign_assignments after ≡ foreign_assignments before)

  set_stage-foreign :
      (opp_id stage_id : ℕ) (opps : List Opportunity)
      → select (λ o. not (o.tenant_id == tenant_id)) (set_stage tenant_id opp_id stage_id opps)
        ≡ select (λ o. not (o.tenant_id == tenant_id)) opps
  unfolding select update
  set_stage-foreign opp_id stage_id [] = refl
  set_stage-foreign opp_id stage_id (o ∷ opps) =
      ground (arith, set_stage-foreign opp_id stage_id opps)

  append-foreign :
      (a : ContactTag) (rows : List ContactTag)
      → a.tenant_id ≡ tenant_id
      → select (λ a. not (a.tenant_id == tenant_id)) (rows ++ a ∷ [])
        ≡ select (λ a. not (a.tenant_id == tenant_id)) rows
  unfolding select
  append-foreign a [] h = ground (arith, h)
  append-foreign a (r ∷ rows) h = ground (arith, append-foreign a rows h)

  module _ (contact_id : ℕ) where
    move_stage-SameForeign :
        (t : ScoringThreshold) (db : Db) → SameForeign db (move_stage tenant_id contact_id t db)
    unfolding move_stage
    move_stage-SameForeign t db = moved _
      where
        moved :
            (o : Option Opportunity)
            → SameForeign db (elim o [
              | none ↦ db
              | some opp ↦ record db {
                opportunities = set_stage tenant_id opp.id t.target_stage_id db.opportunities;
              }
            ])
        moved none = (refl, refl)
        moved (some opp) = (set_stage-foreign opp.id t.target_stage_id db.opportunities, refl)

    insert_tag-foreign :
        (a : ContactTag) (rows : List ContactTag)
        → a.tenant_id ≡ tenant_id
        → select (λ a. not (a.tenant_id == tenant_id)) (insert_tag a rows)
          ≡ select (λ a. not (a.tenant_id == tenant_id)) rows
    insert_tag-foreign a rows h = ground (arith, append-foreign a rows h)

    assign_tag-SameForeign :
        (t : ScoringThreshold) (db : Db) → SameForeign db (assign_tag tenant_id contact_id t db)
    unfolding assign_tag
    assign_tag-SameForeign t db = elim (Option-cases (tag_of db tenant_id t.tag_name)) [
      | inl e ↦ rw (e, assign_tag) (refl, refl)
      | inr (tag, e) ↦ rw (e, assign_tag) (refl, insert_tag-foreign _ db.tag_assignments refl)
    ]

    apply_threshold-SameForeign :
        (t : ScoringThreshold) (db : Db)
        → SameForeign db (apply_threshold tenant_id contact_id t db)
    unfolding apply_threshold
    apply_threshold-SameForeign t db = elim (Bool-cases (text_eq t.action (codes "move_stage"))) [
      | inl e ↦ rw (e, apply_threshold) (move_stage-SameForeign t db)
      | inr e ↦ elim (Bool-cases (text_eq t.action (codes "assign_tag"))) [
        | inl f ↦ rw (e, f, apply_threshold) (assign_tag-SameForeign t db)
        | inr f ↦ rw (e, f, apply_threshold) (refl, refl)
      ]
    ]

    apply_each-SameForeign :
        (thresholds : List ScoringThreshold) (db : Db)
        → SameForeign db (apply_each tenant_id contact_id thresholds db)
    unfolding apply_each
    apply_each-SameForeign [] db = (refl, refl)
    apply_each-SameForeign (t ∷ thresholds) db =
        let (opps, tags) = apply_threshold-SameForeign t db in
        let (opps', tags') =
          apply_each-SameForeign thresholds (apply_threshold tenant_id contact_id t db) in
        (opps' ∙ opps, tags' ∙ tags)

    -- Whatever thresholds a score crosses, the opportunities and the tag assignments of all other
    -- tenants stay as they were.
    pub apply_thresholds-SameForeign :
        (db : Db) (total_score : ℤ)
        → SameForeign db (apply_thresholds db tenant_id contact_id total_score)
    unfolding apply_thresholds
    apply_thresholds-SameForeign db total_score =
        apply_each-SameForeign (select (crossed tenant_id total_score) db.thresholds) db
