-- ===== src/Text/Split.antt =====
-- `split`, `split_once` and `rsplit` at one character, with their laws.
use core_swift_crm.Prelude.{
  ℕ, ◌≡◌, refl, ap, true, false, Option, none, some, List, [], ◌∷◌, ◌++◌, arith, ◌==◌,
  if◌then◌else◌, All, ==_iff, ◌≢◌, ◌∙◌, Bool-cases, inl, inr,
}
use core_swift_crm.Text.{Text, contains_char}

abbrev pub push_first : ℕ → List Text → List Text
push_first c [] = (c ∷ []) ∷ []
push_first c (w ∷ ws) = (c ∷ w) ∷ ws

-- `s.split(sep)`: one part more than there are separators.
unfoldable pub split : ℕ → Text → List Text
split sep [] = [] ∷ []
split sep (c ∷ s) = let rest = split sep s in if c == sep then [] ∷ rest else push_first c rest

-- `s.split_once(sep)`: at the first separator.
unfoldable pub split_once : ℕ → Text → Option (Text × Text)
split_once sep [] = none
split_once sep (c ∷ s) =
    let rest = split_once sep s in
    if c == sep
    then some ([], s)
    else elim rest [ none ↦ none | some (before, after) ↦ some (c ∷ before, after) ]

-- `s.rsplit(sep).next()`: what follows the last separator, or the whole text.
unfoldable pub last_part : ℕ → Text → Text
unfolding contains_char
last_part sep [] = []
last_part sep (c ∷ s) =
    let rest = last_part sep s in
    if contains_char s sep then rest else if c == sep then s else c ∷ s

abbrev pub HasNo : ℕ → Text → Type 0
HasNo sep s = contains_char s sep ≡ false

-- The parts put together again.
abbrev pub join : ℕ → List Text → Text
join sep [] = []
join sep (w ∷ []) = w
join sep (w ∷ v ∷ ws) = w ++ sep ∷ join sep (v ∷ ws)

pub split-ne-nil : (sep : ℕ) (s : Text) → split sep s ≢ []
unfolding split
split-ne-nil sep [] = cc
split-ne-nil sep (c ∷ s) = ground arith

join-push_first : (sep c : ℕ) (ws : List Text) → join sep (push_first c ws) ≡ c ∷ join sep ws
join-push_first sep c [] = refl
join-push_first sep c (w ∷ []) = refl
join-push_first sep c (w ∷ v ∷ ws) = refl

join-nil : (sep : ℕ) (ws : List Text) → ws ≢ [] → join sep ([] ∷ ws) ≡ sep ∷ join sep ws
join-nil sep [] h = absurd (h refl)
join-nil sep (w ∷ ws) h = refl

-- Joining the parts of a split gives the text back.
pub join-split : (sep : ℕ) (s : Text) → join sep (split sep s) ≡ s
unfolding split
join-split sep [] = refl
join-split sep (c ∷ s) = elim (Bool-cases (c == sep)) [
  | inl same ↦ rw same (
      ground (
        arith,
        join-nil sep (split sep s) (split-ne-nil sep s),
        join-split sep s,
        (==_iff c sep).0 same,
      ))
  | inr other ↦ rw other (join-push_first sep c (split sep s) ∙ ap (λ t. c ∷ t) (join-split sep s))
]

-- No part of a split holds the separator.
pub split-HasNo : (sep : ℕ) (s : Text) → All (HasNo sep) (split sep s)
unfolding split contains_char
split-HasNo sep [] = (refl, tt)
split-HasNo sep (c ∷ s) = ground (arith, split-HasNo sep s)

split_of_HasNo : (sep : ℕ) (w : Text) → HasNo sep w → split sep w ≡ w ∷ []
unfolding split contains_char
split_of_HasNo sep [] h = refl
split_of_HasNo sep (c ∷ w) h = ground (arith, split_of_HasNo sep w)

split-append :
    (sep : ℕ) (w rest : Text) → HasNo sep w → split sep (w ++ sep ∷ rest) ≡ w ∷ split sep rest
unfolding split contains_char
split-append sep [] rest h = ground arith
split-append sep (c ∷ w) rest h = ground (arith, split-append sep w rest)

-- The only parts free of the separator that join to a text are the parts of its split.
pub split-join :
    (sep : ℕ) (w : Text) (ws : List Text)
    → HasNo sep w
    → All (HasNo sep) ws
    → split sep (join sep (w ∷ ws)) ≡ w ∷ ws
split-join sep w [] h hs = split_of_HasNo sep w h
split-join sep w (v ∷ ws) h (hv, hs) =
    split-append sep w (join sep (v ∷ ws)) h ∙ ap (λ vs. w ∷ vs) (split-join sep v ws hv hs)

pub split_once-eq-some :
    (sep : ℕ) (s before after : Text)
    → split_once sep s ≡ some (before, after)
    → (s ≡ before ++ sep ∷ after) × HasNo sep before
unfolding split_once contains_char
split_once-eq-some sep [] before after h = cc
split_once-eq-some sep (c ∷ s) [] after h = ground arith
split_once-eq-some sep (c ∷ s) (b ∷ before) after h =
    ground (arith, split_once-eq-some sep s before after)

pub split_once-append :
    (sep : ℕ) (before after : Text)
    → HasNo sep before
    → split_once sep (before ++ sep ∷ after) ≡ some (before, after)
unfolding split_once contains_char
split_once-append sep [] after h = ground arith
split_once-append sep (c ∷ before) after h = ground (arith, split_once-append sep before after)

contains_char-append :
    (sep : ℕ) (before after : Text) → contains_char (before ++ sep ∷ after) sep ≡ true
unfolding contains_char
contains_char-append sep [] after = ground arith
contains_char-append sep (c ∷ before) after = ground (arith, contains_char-append sep before after)

pub last_part-append :
    (sep : ℕ) (before after : Text)
    → HasNo sep after
    → last_part sep (before ++ sep ∷ after) ≡ after
unfolding last_part
last_part-append sep [] after h = ground arith
last_part-append sep (c ∷ before) after h =
    ground (arith, last_part-append sep before after, contains_char-append sep before after)
