-- ===== src/Prelude/Sorting.antt =====
-- What a sorted query answers: the rows in order, and a rearrangement of them.
use mathlib.Core.List.{List, [], ◌∷◌, ◌++◌, Perm, perm_middle}
use mathlib.Core.List.Perm
use mathlib.Core.Bool.{Bool, not}
use mathlib.Core.Logic.{inl, inr}
use core_swift_crm.Prelude.Tests.{Bool-cases}
use core_swift_crm.Prelude.Lists.{All}
use core_swift_crm.Prelude.Tables.{select}

module _ {A : Type 0} where
  -- Each row stands below all that follow it.
  abbrev pub IsOrdered : (A → A → Type 0) → List A → Type 0
  IsOrdered R [] = Unit
  IsOrdered R (x ∷ xs) = All (R x) xs × IsOrdered R xs

  -- The rows that meet a condition and those that do not are all rows.
  pub select-perm :
      (p : A → Bool) (xs : List A) → Perm (select p xs ++ select (λ x. not (p x)) xs) xs
  unfolding select
  select-perm p [] = Perm.rfl
  select-perm p (x ∷ xs) = elim (Bool-cases (p x)) [
    | inl here ↦ rw here (Perm.cons x (select-perm p xs))
    | inr away ↦ rw away (
        Perm.trans (perm_middle (select p xs) (select (λ y. not (p y)) xs))
          (Perm.cons x (select-perm p xs)))
  ]
