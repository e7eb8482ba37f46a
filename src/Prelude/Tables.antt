-- ===== src/Prelude/Tables.antt =====
-- Tables as lists of rows: the `SELECT`, `UPDATE` and `DELETE` of the modelled statements.
use mathlib.Core.Path.{◌≡◌, refl, subst}
use mathlib.Core.Logic.{◌⊎◌, inl, inr}
use mathlib.Core.Bool.{Bool, true, false}
use mathlib.Core.Option.{Option, none, some}
use mathlib.Core.List.{List, [], ◌∷◌, ◌++◌}
use native.Mathlib.Omega.{arith}
use core_swift_crm.Prelude.Tests.{if◌then◌else◌, Bool-cases}
use core_swift_crm.Prelude.Lists.{All, Any}

module _ {ℓ} {A : Type ℓ} where
  -- `SELECT * … WHERE p`
  unfoldable pub select : (A → Bool) → List A → List A
  select p [] = []
  select p (x ∷ xs) = let rest = select p xs in if p x then x ∷ rest else rest

  -- `SELECT * … WHERE p LIMIT 1`, in the order of the rows.
  unfoldable pub select_one : (A → Bool) → List A → Option A
  select_one p [] = none
  select_one p (x ∷ xs) = if p x then some x else select_one p xs

  -- `UPDATE … SET f WHERE p`
  unfoldable pub update : (A → Bool) → (A → A) → List A → List A
  update p f [] = []
  update p f (x ∷ xs) = (if p x then f x else x) ∷ update p f xs

  pub select_one-eq-some :
      (p : A → Bool) (xs : List A) (a : A) → select_one p xs ≡ some a → p a ≡ true
  unfolding select_one
  select_one-eq-some p [] a h = cc
  select_one-eq-some p (x ∷ xs) a h = ground (arith, select_one-eq-some p xs a)

  -- Without an answer, no row meets the condition.
  pub select_one-none :
      (p : A → Bool) (xs : List A) → select_one p xs ≡ none → All (λ x. p x ≡ false) xs
  unfolding select_one
  select_one-none p [] e = tt
  select_one-none p (x ∷ xs) e = elim (Bool-cases (p x)) [
    | inl here ↦ absurd (ground (arith, here, e))
    | inr away ↦ (away, select_one-none p xs (ground (arith, away, e)))
  ]

  -- What holds of all rows holds of the selected ones, together with the condition.
  pub All-selected :
      (P : A → Type 0) (p : A → Bool) (xs : List A)
      → All P xs
      → All (λ x. P x × (p x ≡ true)) (select p xs)
  unfolding select
  All-selected P p [] h = tt
  All-selected P p (x ∷ xs) h = elim (Bool-cases (p x)) [
    | inl here ↦ ground (arith, here, h.0, All-selected P p xs h.1)
    | inr away ↦ rw away (All-selected P p xs h.1)
  ]

  pub All-map : (P Q : A → Type 0) → ((x : A) → P x → Q x) → (xs : List A) → All P xs → All Q xs
  All-map P Q f [] h = tt
  All-map P Q f (x ∷ xs) h = (f x h.0, All-map P Q f xs h.1)

  pub All-always : (P : A → Type 0) → ((x : A) → P x) → (xs : List A) → All P xs
  All-always P f [] = tt
  All-always P f (x ∷ xs) = (f x, All-always P f xs)

  pub All-zip :
      (P Q R : A → Type 0)
      → ((x : A) → P x → Q x → R x)
      → (xs : List A) → All P xs
      → All Q xs
      → All R xs
  All-zip P Q R f [] h k = tt
  All-zip P Q R f (x ∷ xs) h k = (f x h.0 k.0, All-zip P Q R f xs h.1 k.1)

  All-kept :
      (P : A → Type 0) (b : Bool) (x : A) (xs : List A)
      → All P (if b then x ∷ xs else xs)
      → (b ≡ true → P x) × All P xs
  All-kept P true x xs h = ((λ _. h.0), h.1)
  All-kept P false x xs h = ((λ e. absurd (cc e)), h)

  -- What holds of the selected rows holds of all rows that meet the condition.
  pub All-unselected :
      (P : A → Type 0) (p : A → Bool) (xs : List A)
      → All P (select p xs)
      → All (λ x. p x ≡ true → P x) xs
  unfolding select
  All-unselected P p [] h = tt
  All-unselected P p (x ∷ xs) h =
      let (here, rest) = All-kept P (p x) x (select p xs) h in (here, All-unselected P p xs rest)

  module _ (P : A → Type 0) where
    pub All-select : (p : A → Bool) (xs : List A) → All P xs → All P (select p xs)
    unfolding select
    All-select p [] h = tt
    All-select p (x ∷ xs) h = ground (arith, All-select p xs h.1, h.0)

    pub All-update :
        (p : A → Bool) (f : A → A) (xs : List A)
        → All P xs
        → ((x : A) → P x → P (f x))
        → All P (update p f xs)
    unfolding update
    All-update p f [] h k = tt
    All-update p f (x ∷ xs) h k = (updated (p x), All-update p f xs h.1 k)
      where
        updated : (b : Bool) → P (if b then f x else x)
        updated true = k x h.0
        updated false = h.0

    pub All-append : (xs ys : List A) → All P xs → All P ys → All P (xs ++ ys)
    All-append [] ys hx hy = hy
    All-append (x ∷ xs) ys hx hy = (hx.0, All-append xs ys hx.1 hy)

    pub select_one-All :
        (p : A → Bool) (xs : List A) (a : A) → select_one p xs ≡ some a → All P xs → P a
    unfolding select_one
    select_one-All p [] a e h = cc
    select_one-All p (x ∷ xs) a e h = elim (Bool-cases (p x)) [
      | inl here ↦ subst P (ground arith) h.0
      | inr there ↦ select_one-All p xs a (ground arith) h.1
    ]

-- Every row is one of the rows.
pub All-rows : {A : Type 0} (xs : List A) → All (λ x. Any (λ y. y ≡ x) xs) xs
All-rows [] = tt
All-rows (x ∷ xs) = (
  inl refl,
  All-map (λ z. Any (λ y. y ≡ z) xs) (λ z. (x ≡ z) ⊎ Any (λ y. y ≡ z) xs) (λ z there. inr there) xs
      (All-rows xs),
)

-- What holds of all rows holds of one of them.
pub All-found :
    {A : Type 0} (P : A → Type 0) (m : A) (xs : List A) → Any (λ x. x ≡ m) xs → All P xs → P m
All-found P m [] found h = absurd found
All-found P m (x ∷ xs) (inl here) h = subst P here h.0
All-found P m (x ∷ xs) (inr there) h = All-found P m xs there h.1
