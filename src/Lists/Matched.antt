-- ===== src/Lists/Matched.antt =====
-- What sorting and thinning out keep of a list of ids.
use mathlib.Core.Path.{subst, sym}
use core_swift_crm.Prelude.{
  ℕ, true, ◌&&◌, ◌||◌, not, List, [], ◌∷◌, ◌≡◌, refl, arith, ◌==◌, leb, ◌<◌, Bool-cases, inl, inr,
}
use core_swift_crm.Prelude.Tables.{select}
use core_swift_crm.Lists.{contains, insert_sorted, sort, dedup, minus}

contains-insert_sorted :
    (c id : ℕ) (ids : List ℕ) → contains c (insert_sorted id ids) ≡ (id == c || contains c ids)
unfolding contains insert_sorted
contains-insert_sorted c id [] = ground arith
contains-insert_sorted c id (i ∷ ids) = ground (arith, contains-insert_sorted c id ids)

pub contains-sort : (c : ℕ) (ids : List ℕ) → contains c (sort ids) ≡ contains c ids
unfolding contains sort
contains-sort c [] = refl
contains-sort c (id ∷ ids) =
    ground (arith, contains-insert_sorted c id (sort ids), contains-sort c ids)

pub contains-dedup : (c : ℕ) (ids : List ℕ) → contains c (dedup ids) ≡ contains c ids
unfolding contains dedup
contains-dedup c [] = refl
contains-dedup c (id ∷ ids) = ground (arith, contains-dedup c ids)

pub contains-minus :
    (c : ℕ) (xs ids : List ℕ) → contains c (minus xs ids) ≡ (contains c xs && not (contains c ids))
unfolding contains minus select
contains-minus c [] ids = refl
contains-minus c (x ∷ xs) ids = ground (arith, contains-minus c xs ids)

-- Every element is at least the one before it.
abbrev pub AtLeast : ℕ → List ℕ → Type 0
AtLeast low [] = Unit
AtLeast low (id ∷ ids) = (leb low id ≡ true) × AtLeast id ids

-- The ids grow strictly, so that none occurs twice.
abbrev pub Above : ℕ → List ℕ → Type 0
Above low [] = Unit
Above low (id ∷ ids) = (low < id) × Above id ids

abbrev pub IsIncreasing : List ℕ → Type 0
IsIncreasing [] = Unit
IsIncreasing (id ∷ ids) = Above id ids

AtLeast-insert_sorted :
    (low id : ℕ) (ids : List ℕ)
    → leb low id ≡ true
    → AtLeast low ids
    → AtLeast low (insert_sorted id ids)
unfolding insert_sorted
AtLeast-insert_sorted low id [] h k = (h, tt)
AtLeast-insert_sorted low id (i ∷ ids) h k =
    ground (arith, AtLeast-insert_sorted i id ids, k.0, k.1)

AtLeast-sort : (ids : List ℕ) → AtLeast 0 (sort ids)
unfolding sort
AtLeast-sort [] = tt
AtLeast-sort (id ∷ ids) = AtLeast-insert_sorted 0 id (sort ids) (ground arith) (AtLeast-sort ids)

IncreasingFrom : ℕ → List ℕ → Type 0
IncreasingFrom low ids = (rest : List ℕ) × (dedup (low ∷ ids) ≡ low ∷ rest) × Above low rest

IncreasingFrom-AtLeast : (low : ℕ) (ids : List ℕ) → AtLeast low ids → IncreasingFrom low ids
unfolding IncreasingFrom dedup
IncreasingFrom-AtLeast low [] h = ([], refl, tt)
IncreasingFrom-AtLeast low (id ∷ ids) h =
    let (rest, shape, above) = IncreasingFrom-AtLeast id ids h.1 in
    elim (Bool-cases (low == id)) [
      | inl same ↦ (rest, ground (arith, shape, same), ground (arith, above, same))
      | inr differ ↦
          (id ∷ rest, ground (arith, shape, differ), (ground (arith, h.0, differ), above))
    ]

IsIncreasing-dedup : (ids : List ℕ) → AtLeast 0 ids → IsIncreasing (dedup ids)
unfolding dedup IncreasingFrom
IsIncreasing-dedup [] h = tt
IsIncreasing-dedup (id ∷ ids) h =
    let (rest, shape, above) = IncreasingFrom-AtLeast id ids h.1 in
    subst IsIncreasing (sym shape) above

-- A list of ids, sorted and thinned out, grows strictly.
pub IsIncreasing-dedup-sort : (ids : List ℕ) → IsIncreasing (dedup (sort ids))
IsIncreasing-dedup-sort ids = IsIncreasing-dedup (sort ids) (AtLeast-sort ids)
