-- ===== src/Prelude/Results.antt =====
-- Rust's `Result<T, E>`, with the early return of `?`.
use mathlib.Core.Path.{◌≡◌, refl, ap}
use mathlib.Core.Option.{Option, none, some}
use mathlib.Core.Logic.{◌⊎◌, inl, inr}

pub data Result {ℓ κ} (T : Type ℓ) (Err : Type κ) : Type (ℓ ⊔ κ) where
  err : Err → Result T Err
  ok : T → Result T Err

module _ {ℓ κ μ} {T : Type ℓ} {U : Type κ} {Err : Type μ} where
  infixl 5 ◌>>=◌
  -- `?`, with what follows it as a function.
  abbrev pub ◌>>=◌ : Result T Err → (T → Result U Err) → Result U Err
  err why >>= next = err why
  ok t >>= next = next t

  -- For a goal that is proved from the value of a successful `?` and the two equations.
  pub with_ok {ν} :
      {Goal : Type ν} {u : U} (r : Result T Err) (next : T → Result U Err)
      → (r >>= next) ≡ ok u
      → ((t : T) → r ≡ ok t → next t ≡ ok u → Goal)
      → Goal
  with_ok (err why) next e goal = absurd (cc e)
  with_ok (ok t) next e goal = goal t refl e

  -- The three of them together.
  pub >>=-eq-ok :
      {u : U} (r : Result T Err) (next : T → Result U Err)
      → (r >>= next) ≡ ok u
      → (t : T) × (r ≡ ok t) × (next t ≡ ok u)
  >>=-eq-ok r next e = with_ok r next e λ t here there. (t, here, there)

module _ {ℓ κ} {T : Type ℓ} {Err : Type κ} where
  pub Result-cases : (r : Result T Err) → ((t : T) × (r ≡ ok t)) ⊎ ((why : Err) × (r ≡ err why))
  Result-cases (err why) = inr (why, refl)
  Result-cases (ok t) = inl (t, refl)

  pub ok-inj : (s t : T) → ◌≡◌ {A = Result T Err} (ok s) (ok t) → s ≡ t
  ok-inj s t e = ap (λ r. elim r [ ok x ↦ x | err _ ↦ s ]) e

pub some-inj : {A : Type 0} (a b : A) → ◌≡◌ {A = Option A} (some a) (some b) → a ≡ b
some-inj a b e = ap (λ o. elim o [ some x ↦ x | none ↦ a ]) e
