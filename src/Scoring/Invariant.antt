-- ===== src/Scoring/Invariant.antt =====
-- Stored scores are never negative and carry the category of their band.
use mathlib.Core.Path.{subst}
use core_swift_crm.Prelude.{
  ℕ, String, ◌≡◌, refl, List, [], ◌∷◌, ◌==◌, arith, ok, All, Option-cases, inl, inr,
}
use core_swift_crm.Prelude.Int.{ℤ, pos, ◌≤ℤ◌}
use core_swift_crm.Prelude.Tables.{select, select_one, All-update, All-append, select_one-All}
use core_swift_crm.Text.{Text}
use core_swift_crm.Scoring.{
  score_category, Score, Db, FollowUp, scores_of, new_score_row, find_or_insert, final_score,
  applies, ScoreRule, with_score, score_event, calculate_score,
}

abbrev pub IsScored : Score → Type 0
IsScored s = (pos 0 ≤ℤ s.total_score) × (s.category ≡ score_category s.total_score)

IsScored-with_score :
    (final : ℤ) (event_type : Text) (s : Score)
    → pos 0 ≤ℤ final
    → IsScored (with_score final event_type s)
IsScored-with_score final event_type s h = (h, refl)

final_score_nonneg :
    (contact_id : ℕ) (event_type : Text) (current : ℤ) (rules : List ScoreRule)
    → pos 0 ≤ℤ final_score contact_id event_type current rules
unfolding final_score
final_score_nonneg contact_id event_type current rules = ground arith

IsScored-new_score_row :
    (fresh tenant_id contact_id : ℕ) → IsScored (new_score_row fresh tenant_id contact_id)
unfolding score_category
IsScored-new_score_row fresh tenant_id contact_id = (omega arith, refl)

pub find_or_insert-IsScored :
    (fresh tenant_id contact_id : ℕ) (scores : List Score)
    → All IsScored scores
    → IsScored (find_or_insert fresh tenant_id contact_id scores).0
      × All IsScored (find_or_insert fresh tenant_id contact_id scores).1
unfolding find_or_insert
find_or_insert-IsScored fresh tenant_id contact_id scores h =
    elim (Option-cases (select_one (scores_of tenant_id contact_id) scores)) [
      | inl missing ↦
          rw (missing, find_or_insert)
            (
              IsScored-new_score_row fresh tenant_id contact_id,
              All-append IsScored scores (new_score_row fresh tenant_id contact_id ∷ []) h
                  (IsScored-new_score_row fresh tenant_id contact_id, tt),
            )
      | inr (s, found) ↦
          rw (found, find_or_insert)
            (select_one-All IsScored (scores_of tenant_id contact_id) scores s found h, h)
    ]

score_event-IsScored :
    (db : Db) (fresh tenant_id contact_id : ℕ) (event_type : Text)
    → All IsScored db.scores
    → IsScored (score_event db fresh tenant_id contact_id event_type).0
      × All IsScored (score_event db fresh tenant_id contact_id event_type).1.scores
unfolding score_event
score_event-IsScored db fresh tenant_id contact_id event_type h =
    let s = (find_or_insert fresh tenant_id contact_id db.scores).0 in
    let rules = select (applies tenant_id event_type) db.rules in
    let final = final_score contact_id event_type s.total_score rules in
    let nonneg = final_score_nonneg contact_id event_type s.total_score rules in
    (
      IsScored-with_score final event_type s nonneg,
      All-update IsScored (λ r. r.id == s.id) (with_score final event_type)
          (find_or_insert fresh tenant_id contact_id db.scores).1
          (find_or_insert-IsScored fresh tenant_id contact_id db.scores h).1
          (λ x _. IsScored-with_score final event_type x nonneg),
    )

pub calculate_score-eq-ok :
    (show_id : ℕ → String) (db : Db) (fresh tenant_id contact_id : ℕ) (event_type : Text)
    (result : Score × Db × List FollowUp)
    → calculate_score show_id db fresh tenant_id contact_id event_type ≡ ok result
    → score_event db fresh tenant_id contact_id event_type ≡ result
unfolding calculate_score
calculate_score-eq-ok show_id db fresh tenant_id contact_id event_type result e = ground arith

-- If every stored score is at least 0 and carries the category of its band, so do the score that
-- an event returns and every score stored after it.
pub calculate_score-IsScored :
    (show_id : ℕ → String) (db : Db) (fresh tenant_id contact_id : ℕ) (event_type : Text)
    (result : Score × Db × List FollowUp)
    → All IsScored db.scores
    → calculate_score show_id db fresh tenant_id contact_id event_type ≡ ok result
    → IsScored result.0 × All IsScored result.1.scores
calculate_score-IsScored show_id db fresh tenant_id contact_id event_type result h e =
    subst (λ r. IsScored r.0 × All IsScored r.1.scores)
      (calculate_score-eq-ok show_id db fresh tenant_id contact_id event_type result e)
      (score_event-IsScored db fresh tenant_id contact_id event_type h)
