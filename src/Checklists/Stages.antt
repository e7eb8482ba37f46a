-- ===== src/Checklists/Stages.antt =====
-- The stages of a template: which ones, and in which order.
use core_swift_crm.Prelude.{
  ℕ, not, ◌≡◌, ◌≢◌, inl, inr, List, [], ◌∷◌, ◌++◌, ◌==◌, arith, All, Bool-cases,
}
use mathlib.Core.List.{Perm}
use mathlib.Core.List.Perm
use core_swift_crm.Prelude.Int.{leb_ℤ, ◌≤ℤ◌}
use core_swift_crm.Prelude.Sorting.{IsOrdered, select-perm}
use core_swift_crm.Prelude.Tables.{select, All-map, All-selected, All-always}
use core_swift_crm.Checklists.{Db, ChecklistStage, insert_stage, by_order, stages_of}

abbrev pub Before : ChecklistStage → ChecklistStage → Type 0
Before a b = a.stage_order ≤ℤ b.stage_order

insert_stage-All :
    (P : ChecklistStage → Type 0) (s : ChecklistStage) (stages : List ChecklistStage)
    → P s
    → All P stages
    → All P (insert_stage s stages)
insert_stage-All P s [] h k = (h, tt)
insert_stage-All P s (x ∷ stages) h k = elim (Bool-cases (leb_ℤ s.stage_order x.stage_order)) [
  | inl e ↦ rw e (h, k)
  | inr e ↦ rw e (k.0, insert_stage-All P s stages h k.1)
]

insert_stage-IsOrdered :
    (s : ChecklistStage) (stages : List ChecklistStage)
    → IsOrdered Before stages
    → IsOrdered Before (insert_stage s stages)
insert_stage-IsOrdered s [] h = (tt, tt)
insert_stage-IsOrdered s (x ∷ stages) h = elim (Bool-cases (leb_ℤ s.stage_order x.stage_order)) [
  | inl e ↦
      let below : Before s x = ground (arith, e) in
      rw e ((below, All-map (Before x) (Before s) (λ y k. omega (arith, below, k)) stages h.0), h)
  | inr e ↦
      let above : Before x s = ground (arith, e) in
      rw e (insert_stage-All (Before x) s stages above h.0, insert_stage-IsOrdered s stages h.1)
]

insert_stage-perm :
    (s : ChecklistStage) (stages : List ChecklistStage) → Perm (insert_stage s stages) (s ∷ stages)
insert_stage-perm s [] = Perm.rfl
insert_stage-perm s (x ∷ stages) = elim (Bool-cases (leb_ℤ s.stage_order x.stage_order)) [
  | inl e ↦ rw e Perm.rfl
  | inr e ↦ rw e (Perm.trans (Perm.cons x (insert_stage-perm s stages)) (Perm.swap s x stages))
]

by_order-IsOrdered : (stages : List ChecklistStage) → IsOrdered Before (by_order stages)
by_order-IsOrdered [] = tt
by_order-IsOrdered (s ∷ stages) =
    insert_stage-IsOrdered s (by_order stages) (by_order-IsOrdered stages)

by_order-perm : (stages : List ChecklistStage) → Perm (by_order stages) stages
by_order-perm [] = Perm.rfl
by_order-perm (s ∷ stages) =
    Perm.trans (insert_stage-perm s (by_order stages)) (Perm.cons s (by_order-perm stages))

by_order-All :
    (P : ChecklistStage → Type 0) (stages : List ChecklistStage)
    → All P stages
    → All P (by_order stages)
by_order-All P [] h = tt
by_order-All P (s ∷ stages) h =
    insert_stage-All P s (by_order stages) h.0 (by_order-All P stages h.1)

-- The stages are those of the template, each once, in their order. `others` are the stages of the
-- other templates.
pub record IsStagesOf (template_id : ℕ) (all_stages stages : List ChecklistStage) : Type 0 where
  pub others : List ChecklistStage
  pub all_rows : Perm (stages ++ others) all_stages
  pub are_its : All (λ s. s.template_id ≡ template_id) stages
  pub are_not : All (λ s. s.template_id ≢ template_id) others
  pub in_order : IsOrdered Before stages

pub stages_of-IsStagesOf :
    (db : Db) (template_id : ℕ) → IsStagesOf template_id db.stages (stages_of db template_id)
unfolding stages_of
stages_of-IsStagesOf db template_id = record {
  others = select (λ s. not (s.template_id == template_id)) db.stages;
  all_rows =
      Perm.trans
        (Perm.append_right (select (λ s. not (s.template_id == template_id)) db.stages)
          (by_order-perm (select (λ s. s.template_id == template_id) db.stages)))
        (select-perm (λ s. s.template_id == template_id) db.stages);
  are_its =
      by_order-All (λ s. s.template_id ≡ template_id) _
        (All-map _ (λ s. s.template_id ≡ template_id) (λ s h. ground (arith, h.1)) _
          (All-selected (λ _. Unit {0}) (λ s. s.template_id == template_id) db.stages
            (All-always _ (λ _. tt) db.stages)));
  are_not =
      All-map _ (λ s. s.template_id ≢ template_id) (λ s h e. absurd (ground (arith, h.1, e))) _
        (All-selected (λ _. Unit {0}) (λ s. not (s.template_id == template_id)) db.stages
          (All-always _ (λ _. tt) db.stages));
  in_order = by_order-IsOrdered (select (λ s. s.template_id == template_id) db.stages);
}
