-- ===== src/Text/Case.antt =====
-- `str::to_lowercase` and `to_ascii_lowercase`.
use core_swift_crm.Prelude.{
  ℕ, ◌+◌, ◌≡◌, refl, Bool, [], ◌∷◌, map, arith, ltb, if◌then◌else◌, all, Bool-cases, inl, inr, true,
  false,
}
use core_swift_crm.Text.{Text, in_range}

unfoldable pub ascii_lower : ℕ → ℕ
ascii_lower c = if in_range b'A' b'Z' c then c + 32 else c

unfoldable pub to_ascii_lowercase : Text → Text
unfolding ascii_lower
to_ascii_lowercase = map ascii_lower

unfoldable pub is_ascii : Text → Bool
is_ascii = all (λ c. ltb c 128)

-- On ASCII text this is the ASCII mapping; the Unicode tables enter as `fold`, the mapping of a
-- text with a code point past 127.
unfoldable pub to_lowercase : (Text → Text) → Text → Text
unfolding to_ascii_lowercase is_ascii
to_lowercase fold s = if is_ascii s then to_ascii_lowercase s else fold s

ascii_lower_idem : (c : ℕ) → ascii_lower (ascii_lower c) ≡ ascii_lower c
unfolding ascii_lower
ascii_lower_idem c = ground arith

ascii_lower-lt : (c : ℕ) → ltb c 128 ≡ true → ltb (ascii_lower c) 128 ≡ true
unfolding ascii_lower
ascii_lower-lt c h = ground arith

to_ascii_lowercase_idem :
    (s : Text) → to_ascii_lowercase (to_ascii_lowercase s) ≡ to_ascii_lowercase s
unfolding to_ascii_lowercase
to_ascii_lowercase_idem [] = refl
to_ascii_lowercase_idem (c ∷ s) = cc (ascii_lower_idem c, to_ascii_lowercase_idem s)

is_ascii-to_ascii_lowercase :
    (s : Text) → is_ascii s ≡ true → is_ascii (to_ascii_lowercase s) ≡ true
unfolding to_ascii_lowercase is_ascii
is_ascii-to_ascii_lowercase [] h = refl
is_ascii-to_ascii_lowercase (c ∷ s) h =
    ground (arith, ascii_lower-lt c, is_ascii-to_ascii_lowercase s)

-- What the Unicode tables promise: a text that they lowercased lowercases to itself.
abbrev pub IsStable : (Text → Text) → Type 0
IsStable fold = (s : Text) → is_ascii s ≡ false → to_lowercase fold (fold s) ≡ fold s

pub to_lowercase_idem :
    (fold : Text → Text)
    → IsStable fold
    → (s : Text) → to_lowercase fold (to_lowercase fold s) ≡ to_lowercase fold s
unfolding to_lowercase
to_lowercase_idem fold stable s = elim (Bool-cases (is_ascii s)) [
  | inl plain ↦ rw (plain, is_ascii-to_ascii_lowercase s plain) (to_ascii_lowercase_idem s)
  | inr wide ↦ rw wide (stable s wide)
]
