-- ===== src/Text/Dots.antt =====
-- The tests by which the program looks for empty dot-separated parts agree with the split.
use core_swift_crm.Prelude.{
  ℕ, ◌≤◌, ◌≡◌, refl, Bool, true, false, ◌||◌, List, [], ◌∷◌, arith, any, length,
}
use core_swift_crm.Text.{
  Text, is_empty, starts_with, starts_with_char, ends_with_char, contains, contains_char,
}
use core_swift_crm.Text.Split.{split, split-ne-nil}

abbrev pub has_empty_part : ℕ → Text → Bool
has_empty_part sep s = any is_empty (split sep s)

any_tail : List Text → Bool
any_tail [] = false
any_tail (w ∷ ws) = any is_empty ws

any-any_tail :
    (sep : ℕ) (s : Text)
    → has_empty_part sep s ≡ (is_empty s || starts_with_char s sep || any_tail (split sep s))
unfolding any_tail split starts_with_char
any-any_tail sep [] = refl
any-any_tail sep (c ∷ s) = ground arith

starts_with_one : (sep : ℕ) (s : Text) → starts_with s (sep ∷ []) ≡ starts_with_char s sep
unfolding starts_with starts_with_char
starts_with_one sep [] = refl
starts_with_one sep (c ∷ s) = ground arith

any_tail-split :
    (sep : ℕ) (s : Text)
    → any_tail (split sep s) ≡ (ends_with_char s sep || contains s (sep ∷ sep ∷ []))
unfolding any_tail split contains ends_with_char starts_with
any_tail-split sep [] = refl
any_tail-split sep (c ∷ s) =
    ground (arith, any_tail-split sep s, any-any_tail sep s, starts_with_one sep s)

-- A text has an empty part exactly when it is empty, starts or ends with the separator, or holds
-- two of them in a row.
pub has_empty_part_lem :
    (sep : ℕ) (s : Text)
    → has_empty_part sep s ≡ (
        is_empty s || starts_with_char s sep || ends_with_char s sep || contains s (sep ∷ sep ∷ []))
has_empty_part_lem sep s = ground (arith, any-any_tail sep s, any_tail-split sep s)

-- A separator occurs exactly when there are two parts or more.
pub contains_char→parts :
    (sep : ℕ) (s : Text) → contains_char s sep ≡ true → 2 ≤ length (split sep s)
unfolding contains_char split
contains_char→parts sep [] h = cc
contains_char→parts sep (c ∷ s) h = ground (arith, contains_char→parts sep s, split-ne-nil sep s)

pub parts→contains_char :
    (sep : ℕ) (s : Text) → 2 ≤ length (split sep s) → contains_char s sep ≡ true
unfolding contains_char split
parts→contains_char sep [] h = absurd (omega arith)
parts→contains_char sep (c ∷ s) h = ground (arith, parts→contains_char sep s)
