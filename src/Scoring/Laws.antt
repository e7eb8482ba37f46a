-- ===== src/Scoring/Laws.antt =====
-- The history of one event is a chain from the old score to the new one.
use mathlib.Core.Path.{subst}
use core_swift_crm.Prelude.{
  ℕ, suc, String, ◌⊎◌, inl, inr, ok, Bool-cases, ◌≡◌, ◌↔◌, refl, ap, ◌∙◌, List, [], ◌∷◌, ◌++◌,
  arith, length, All,
}
use core_swift_crm.Prelude.Int.{ℤ, pos, ◌+ℤ◌, ◌-ℤ◌, ◌≤ℤ◌, max_ℤ, InI32, wrap_of_InI32, int_laws}
use core_swift_crm.Prelude.Tables.{select}
use core_swift_crm.Text.{Text, text_eq}
use core_swift_crm.Text.Equality.{text_eq-eq, text_eq_self}
use core_swift_crm.Scoring.{
  score_category, ScoreRule, Score, ScoreHistory, Db, applies, signed_points, add32, apply_rules,
  find_or_insert, follow_ups, final_score, score_event, FollowUp, score_trigger, apply_thresholds,
  scoring_webhooks, calculate_score,
}
use core_swift_crm.Scoring.Invariant.{IsScored, find_or_insert-IsScored, calculate_score-eq-ok}

-- Each row starts from the score that the row before it ended with.
abbrev pub Chain : ℤ → List ScoreHistory → ℤ → Type 0
Chain start [] final = start ≡ final
Chain start (row ∷ rows) final = (row.previous_score ≡ start) × Chain row.new_score rows final

-- No sum of the loop leaves the range of `i32`.
abbrev pub NoOverflow : ℤ → ℤ → List ScoreRule → Type 0
NoOverflow current total [] = InI32 (current +ℤ total)
NoOverflow current total (rule ∷ rules) =
    InI32 (current +ℤ total)
    × InI32 (total +ℤ signed_points rule)
    × NoOverflow current (total +ℤ signed_points rule) rules

NoOverflow-InI32 :
    (current total : ℤ) (rules : List ScoreRule)
    → NoOverflow current total rules
    → InI32 (current +ℤ total)
NoOverflow-InI32 current total [] h = h
NoOverflow-InI32 current total (rule ∷ rules) h = h.0

regroup : (c t p : ℤ) → c +ℤ (t +ℤ p) -ℤ p ≡ c +ℤ t
regroup c t p = omega int_laws

apply_rules-Chain :
    (contact_id : ℕ) (event_type : Text) (current total : ℤ) (rules : List ScoreRule)
    → NoOverflow current total rules
    → Chain
        (max_ℤ (current +ℤ total) (pos 0))
        (apply_rules contact_id event_type current total rules).1
        (max_ℤ (add32 current (apply_rules contact_id event_type current total rules).0) (pos 0))
unfolding apply_rules
apply_rules-Chain contact_id event_type current total [] h = rw (wrap_of_InI32 (current +ℤ total) h)
apply_rules-Chain contact_id event_type current total (rule ∷ rules) h =
    let p = signed_points rule in
    let next = NoOverflow-InI32 current (total +ℤ p) rules h.2 in
    rw
      (
        wrap_of_InI32 (total +ℤ p) h.1,
        wrap_of_InI32 (current +ℤ (total +ℤ p)) next,
        regroup current total p,
        wrap_of_InI32 (current +ℤ total) h.0,
      )
      (refl, apply_rules-Chain contact_id event_type current (total +ℤ p) rules h.2)

length-apply_rules :
    (contact_id : ℕ) (event_type : Text) (current total : ℤ) (rules : List ScoreRule)
    → length (apply_rules contact_id event_type current total rules).1 ≡ length rules
unfolding apply_rules
length-apply_rules contact_id event_type current total [] = refl
length-apply_rules contact_id event_type current total (rule ∷ rules) =
    ap suc
      (length-apply_rules contact_id event_type current (add32 total (signed_points rule)) rules)

+ℤ-zero : (c : ℤ) → c +ℤ pos 0 ≡ c
+ℤ-zero c = omega int_laws

max_of_nonneg : (c : ℤ) → pos 0 ≤ℤ c → max_ℤ c (pos 0) ≡ c
max_of_nonneg c h = ground arith

-- What an event appends to the history: a row for each rule that applies, a chain from the score
-- that the contact had to the score that it gets.
pub record IsRecorded (db : Db) (fresh tenant_id contact_id : ℕ) (event_type : Text)
    (result : Score × Db × List FollowUp) : Type 0 where
  pub rows : List ScoreHistory
  pub appended : result.1.history ≡ db.history ++ rows
  pub one_each : length rows ≡ length (select (applies tenant_id event_type) db.rules)
  pub chained :
      Chain
        (find_or_insert fresh tenant_id contact_id db.scores).0.total_score
        rows
        result.0.total_score

-- Nothing follows exactly when the category is the old one; else three follow-ups do.
abbrev pub FollowsChange : ℕ → Score → Score × Db × List FollowUp → Type 0
FollowsChange contact_id before result =
    ((result.2 ≡ []) ↔ (before.category ≡ result.0.category))
    × ((result.2 ≡ [])
        ⊎ (result.2
            ≡ score_trigger contact_id result.0.total_score result.0.category
              ∷ apply_thresholds contact_id result.0.total_score result.0.category
              ∷ scoring_webhooks contact_id result.0.total_score result.0.category
              ∷ []))

module _ (db : Db) (fresh tenant_id contact_id : ℕ) (event_type : Text) where
  old : Score
  old = (find_or_insert fresh tenant_id contact_id db.scores).0

  score_event-IsRecorded :
      All IsScored db.scores
      → NoOverflow old.total_score (pos 0) (select (applies tenant_id event_type) db.rules)
      → IsRecorded db fresh tenant_id contact_id event_type
          (score_event db fresh tenant_id contact_id event_type)
  unfolding score_event old final_score
  score_event-IsRecorded scored bounded =
      let s = (find_or_insert fresh tenant_id contact_id db.scores).0 in
      let rules = select (applies tenant_id event_type) db.rules in
      record {
        rows = (apply_rules contact_id event_type s.total_score (pos 0) rules).1;
        appended = refl;
        one_each = length-apply_rules contact_id event_type s.total_score (pos 0) rules;
        chained =
            subst
              (λ z. Chain z (apply_rules contact_id event_type s.total_score (pos 0) rules).1 (
                max_ℤ
                  (add32 s.total_score
                    (apply_rules contact_id event_type s.total_score (pos 0) rules).0)
                  (pos 0)))
              (ap (λ z. max_ℤ z (pos 0)) (+ℤ-zero s.total_score)
                ∙ max_of_nonneg s.total_score
                    (find_or_insert-IsScored fresh tenant_id contact_id db.scores scored).0.0)
              (apply_rules-Chain contact_id event_type s.total_score (pos 0) rules bounded);
      }

  -- An accepted event whose sums stay within `i32` appends to the history one row for each rule
  -- that applies: a chain that starts at the contact's old score, each row where the row before
  -- it ended, and ends at the new one. The stored scores are taken to be at least 0.
  pub calculate_score-IsRecorded :
      (show_id : ℕ → String) (result : Score × Db × List FollowUp)
      → All IsScored db.scores
      → NoOverflow
          (find_or_insert fresh tenant_id contact_id db.scores).0.total_score
          (pos 0)
          (select (applies tenant_id event_type) db.rules)
      → calculate_score show_id db fresh tenant_id contact_id event_type ≡ ok result
      → IsRecorded db fresh tenant_id contact_id event_type result
  unfolding old
  calculate_score-IsRecorded show_id result scored bounded e =
      subst (IsRecorded db fresh tenant_id contact_id event_type)
        (calculate_score-eq-ok show_id db fresh tenant_id contact_id event_type result e)
        (score_event-IsRecorded scored bounded)

  score_event_follow_ups :
      FollowsChange contact_id
        (find_or_insert fresh tenant_id contact_id db.scores).0
        (score_event db fresh tenant_id contact_id event_type)
  unfolding score_event follow_ups
  score_event_follow_ups =
      let s = (find_or_insert fresh tenant_id contact_id db.scores).0 in
      let rules = select (applies tenant_id event_type) db.rules in
      let category = score_category (final_score contact_id event_type s.total_score rules) in
      elim (Bool-cases (text_eq s.category category)) [
        | inl same ↦ rw same ((λ _. text_eq-eq s.category category same, λ _. refl), inl refl)
        | inr other ↦ rw other (
          (λ e. cc, λ e. cc (other, text_eq_self category, ap (λ t. text_eq t category) e)),
          inr refl,
        )
      ]

  -- Automation, thresholds and webhooks follow exactly when the category changed, once each and
  -- with the new score.
  pub calculate_score_follow_ups :
      (show_id : ℕ → String) (result : Score × Db × List FollowUp)
      → calculate_score show_id db fresh tenant_id contact_id event_type ≡ ok result
      → FollowsChange contact_id (find_or_insert fresh tenant_id contact_id db.scores).0 result
  calculate_score_follow_ups show_id result e =
      subst (FollowsChange contact_id (find_or_insert fresh tenant_id contact_id db.scores).0)
        (calculate_score-eq-ok show_id db fresh tenant_id contact_id event_type result e)
        score_event_follow_ups
