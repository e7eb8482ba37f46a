-- ===== src/Auth/Boundary/Keys.antt =====
-- The constant-time comparison decides equality.
use Prim.Native.Nat.{bit_or, bit_xor}
use mathlib.Core.Path.{ap₂}
use core_swift_crm.Prelude.{ℕ, ◌≡◌, ◌↔◌, refl, true, List, [], ◌∷◌, arith, ==_iff, length}
use core_swift_crm.Prelude.Bits.{bit_or-zero, bit_xor-zero, bit_xor_self}
use core_swift_crm.Auth.Boundary.{ct_diff, ct_eq}

ct_diff-zero :
    (diff : ℕ) (a b : List ℕ) → length a ≡ length b → ct_diff diff a b ≡ 0 → (diff ≡ 0) × (a ≡ b)
unfolding ct_diff
ct_diff-zero diff [] [] l h = (h, refl)
ct_diff-zero diff [] (y ∷ b) l h = absurd (omega arith)
ct_diff-zero diff (x ∷ a) [] l h = absurd (omega arith)
ct_diff-zero diff (x ∷ a) (y ∷ b) l h =
    let (d, same) = ct_diff-zero (bit_or diff (bit_xor x y)) a b (omega arith) h in
    let (d0, x0) = bit_or-zero diff (bit_xor x y) d in
    (d0, ap₂ (λ u v. u ∷ v) (bit_xor-zero x y x0) same)

-- A nonzero difference stays nonzero, whatever the loop meets.
ct_diff-start : (diff : ℕ) (a b : List ℕ) → ct_diff diff a b ≡ 0 → diff ≡ 0
unfolding ct_diff
ct_diff-start diff [] b h = h
ct_diff-start diff (x ∷ a) [] h = h
ct_diff-start diff (x ∷ a) (y ∷ b) h =
    (bit_or-zero diff (bit_xor x y) (ct_diff-start (bit_or diff (bit_xor x y)) a b h)).0

ct_diff_self : (a : List ℕ) → ct_diff 0 a a ≡ 0
unfolding ct_diff
ct_diff_self [] = refl
ct_diff_self (x ∷ a) = rw (bit_xor_self x) (ct_diff_self a)

-- Two keys compare as equal exactly when they are the same bytes, whatever their lengths.
pub ct_eq_iff : (a b : List ℕ) → (ct_eq a b ≡ true) ↔ (a ≡ b)
unfolding ct_eq
ct_eq_iff a b = (
  λ h.
      let diff = (==_iff _ 0).0 h in
      let l = bit_xor-zero (length a) (length b) (ct_diff-start _ a b diff) in
      (ct_diff-zero _ a b l diff).1,
  λ e. rw (e, bit_xor_self (length b), ct_diff_self b),
)
