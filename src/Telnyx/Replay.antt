-- ===== src/Telnyx/Replay.antt =====
-- A delivery that was acknowledged is recognised for as long as its acknowledgement is in the window.
use core_swift_crm.Prelude.{
  Bool, true, false, ◌&&◌, not, List, [], ◌∷◌, ◌≡◌, arith, any, All, Bool-cases, inl, inr, sym, ◌∙◌,
}
use core_swift_crm.Prelude.Int.{ℤ, pos, ◌-ℤ◌, ◌≤ℤ◌, leb_ℤ, max_ℤ, -ℤ_parts}
use core_swift_crm.Prelude.Tables.{select}
use core_swift_crm.Text.{Text, text_eq}
use core_swift_crm.Text.Equality.{text_eq-eq, text_eq_self}
use core_swift_crm.Telnyx.{
  Seen, saturating_sub, in_window, prune, contains_key, insert, is_replayed, ack,
}

in_window-of :
    (now tolerance at e : ℤ)
    → at ≤ℤ e
    → now -ℤ at ≤ℤ max_ℤ tolerance (pos 0)
    → in_window now tolerance e ≡ true
unfolding saturating_sub
in_window-of now tolerance at e h k = ground (arith, h, k, -ℤ_parts now at, -ℤ_parts now e)

-- Some entry for the signature is no older than `at`.
holds : Text → ℤ → Seen → Bool
holds signature at seen = any (λ entry. text_eq entry.0 signature && leb_ℤ at entry.1) seen

holds-prune :
    (signature : Text) (at now tolerance : ℤ) (seen : Seen)
    → now -ℤ at ≤ℤ max_ℤ tolerance (pos 0)
    → holds signature at seen ≡ true
    → holds signature at (prune seen now tolerance) ≡ true
unfolding holds prune select
holds-prune signature at now tolerance [] k h = h
holds-prune signature at now tolerance ((s, t) ∷ seen) k h =
    elim (Bool-cases (text_eq s signature && leb_ℤ at t)) [
      | inl here ↦ ground (arith, in_window-of now tolerance at t (ground (arith, here)) k, here)
      | inr away ↦
          ground
            (arith, holds-prune signature at now tolerance seen k (ground (arith, h, away)), away)
    ]

text_eq_apart :
    (s signature other : Text)
    → text_eq other signature ≡ false
    → text_eq s signature ≡ true
    → text_eq s other ≡ false
text_eq_apart s signature other differ h = elim (Bool-cases (text_eq s other)) [
  | inr apart ↦ apart
  | inl same ↦ absurd (
      ground (
        arith,
        differ,
        text_eq_self signature,
        sym (text_eq-eq s other same) ∙ text_eq-eq s signature h,
      ))
]

holds-without :
    (signature other : Text) (at : ℤ) (seen : Seen)
    → text_eq other signature ≡ false
    → holds signature at seen ≡ true
    → holds signature at (select (λ entry. not (text_eq entry.0 other)) seen) ≡ true
unfolding holds select
holds-without signature other at [] differ h = h
holds-without signature other at ((s, t) ∷ seen) differ h =
    elim (Bool-cases (text_eq s signature && leb_ℤ at t)) [
      | inl here ↦
          ground (arith, text_eq_apart s signature other differ (ground (arith, here)), here)
      | inr away ↦
          ground
            (arith, holds-without signature other at seen differ (ground (arith, h, away)), away)
    ]

holds-insert :
    (signature other : Text) (at now : ℤ) (seen : Seen)
    → at ≤ℤ now
    → holds signature at seen ≡ true
    → holds signature at (insert other now seen) ≡ true
unfolding holds insert
holds-insert signature other at now seen k h = elim (Bool-cases (text_eq other signature)) [
  | inl same ↦ ground (arith, same, k)
  | inr differ ↦ ground (arith, holds-without signature other at seen differ h)
]

holds-contains_key :
    (signature : Text) (at : ℤ) (seen : Seen)
    → holds signature at seen ≡ true
    → contains_key signature seen ≡ true
unfolding holds contains_key
holds-contains_key signature at [] h = h
holds-contains_key signature at (entry ∷ seen) h =
    ground (arith, h, holds-contains_key signature at seen)

-- The deliveries acknowledged in between, each with its time.
abbrev pub ack_all : ℤ → List (Text × ℤ) → Seen → Seen
ack_all tolerance [] seen = seen
ack_all tolerance ((s, t) ∷ later) seen = ack_all tolerance later (ack s t tolerance seen)

-- Between the two times, and so in the window of the first.
abbrev pub Between : ℤ → ℤ → Text × ℤ → Type 0
Between at now entry = (at ≤ℤ entry.1) × (entry.1 ≤ℤ now)

holds-ack :
    (signature other : Text) (at now tolerance : ℤ) (seen : Seen)
    → at ≤ℤ now
    → now -ℤ at ≤ℤ max_ℤ tolerance (pos 0)
    → holds signature at seen ≡ true
    → holds signature at (ack other now tolerance seen) ≡ true
unfolding ack
holds-ack signature other at now tolerance seen h k held =
    holds-insert signature other at now (prune seen now tolerance) h
      (holds-prune signature at now tolerance seen k held)

holds_here :
    (signature : Text) (at tolerance : ℤ) (seen : Seen)
    → holds signature at (ack signature at tolerance seen) ≡ true
unfolding holds ack insert
holds_here signature at tolerance seen = ground (arith, text_eq_self signature)

sooner : (now at t window : ℤ) → t ≤ℤ now → now -ℤ at ≤ℤ window → t -ℤ at ≤ℤ window
sooner now at t window h k = ground (arith, h, k, -ℤ_parts now at, -ℤ_parts t at)

holds-ack_all :
    (signature : Text) (at now tolerance : ℤ) (later : List (Text × ℤ)) (seen : Seen)
    → All (Between at now) later
    → now -ℤ at ≤ℤ max_ℤ tolerance (pos 0)
    → holds signature at seen ≡ true
    → holds signature at (ack_all tolerance later seen) ≡ true
holds-ack_all signature at now tolerance [] seen b k h = h
holds-ack_all signature at now tolerance ((s, t) ∷ later) seen b k h =
    holds-ack_all signature at now tolerance later (ack s t tolerance seen) b.1 k (
      holds-ack signature s at t tolerance seen b.0.0
        (sooner now at t (max_ℤ tolerance (pos 0)) b.0.1 k) h)

-- A delivery acknowledged at `at` is recognised as a replay at any later time `now` that is at most
-- the tolerance after it, whatever else is acknowledged in between.
pub is_replayed-ack :
    (signature : Text) (at now tolerance : ℤ) (later : List (Text × ℤ)) (seen : Seen)
    → All (Between at now) later
    → now -ℤ at ≤ℤ max_ℤ tolerance (pos 0)
    → (is_replayed signature now tolerance
        (ack_all tolerance later (ack signature at tolerance seen))).0
      ≡ true
unfolding is_replayed
is_replayed-ack signature at now tolerance later seen b k =
    let held =
      holds-ack_all signature at now tolerance later (ack signature at tolerance seen) b k
        (holds_here signature at tolerance seen) in
    holds-contains_key signature at
      (prune (ack_all tolerance later (ack signature at tolerance seen)) now tolerance)
      (holds-prune signature at now tolerance
        (ack_all tolerance later (ack signature at tolerance seen)) k held)
