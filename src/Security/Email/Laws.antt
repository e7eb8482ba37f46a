-- ===== src/Security/Email/Laws.antt =====
-- The addresses that `normalize` accepts, described by their parts.
use mathlib.Core.Path.{subst}
use core_swift_crm.Prelude.{
  ℕ, ◌≤◌, ◌≡◌, ◌↔◌, refl, false, [], ◌∷◌, ◌++◌, arith, any, length, ok, Option-cases, inl, inr,
  none, some, ap,
}
use core_swift_crm.Text.{Text, is_empty, byte_len}
use core_swift_crm.Text.Case.{to_lowercase, IsStable, to_lowercase_idem}
use core_swift_crm.Text.Dots.{
  has_empty_part, has_empty_part_lem, contains_char→parts, parts→contains_char,
}
use core_swift_crm.Text.Split.{split, split_once, HasNo, split_once-append, split_once-eq-some}
use core_swift_crm.Text.Trim.{trim, HasNoSpace, trim_of_HasNoSpace}
use core_swift_crm.Security.Email.{
  max_address_len, has_hyphen_edge, check_parts, is_unprintable, check_value, normalize, lookup_key,
}

pub record HasParts (value local domain : Text) : Type 0 where
  pub shape : value ≡ local ++ b'@' ∷ domain
  pub one_at : HasNo b'@' local
  pub no_more : HasNo b'@' domain
  pub local_words : has_empty_part b'.' local ≡ false
  pub unquoted : HasNo 34 local
  pub dotted : 2 ≤ length (split b'.' domain)
  pub labels : has_empty_part b'.' domain ≡ false
  pub hyphens : any has_hyphen_edge (split b'.' domain) ≡ false
  pub unbracketed : HasNo b'[' domain × HasNo b']' domain

-- An address of at most 254 bytes, without spaces or controls: words joined by dots, one `@`, and
-- two labels or more joined by dots, none with a hyphen at its edge.
pub record IsAddress (value : Text) : Type 0 where
  pub short : byte_len value ≤ max_address_len
  pub printable : any is_unprintable value ≡ false
  pub parts : (local : Text) × (domain : Text) × HasParts value local domain

module _ (value local domain : Text) where
  check_parts-HasParts :
      (v : Text)
      → split_once b'@' value ≡ some (local, domain)
      → check_parts value (some (local, domain)) ≡ ok v
      → (value ≡ v) × HasParts value local domain
  unfolding check_parts
  check_parts-HasParts v e h = (
    ground arith,
    record {
      shape = (split_once-eq-some b'@' value local domain e).0;
      one_at = (split_once-eq-some b'@' value local domain e).1;
      no_more = ground arith;
      local_words = ground (arith, has_empty_part_lem b'.' local);
      unquoted = ground arith;
      dotted = contains_char→parts b'.' domain (ground arith);
      labels = ground arith;
      hyphens = ground arith;
      unbracketed = (ground arith, ground arith);
    },
  )

  HasParts-check_parts :
      HasParts value local domain → check_parts value (split_once b'@' value) ≡ ok value
  unfolding check_parts
  HasParts-check_parts p =
      rw (p.shape, split_once-append b'@' local domain p.one_at)
        (ground (
          arith,
          p.no_more,
          p.local_words,
          has_empty_part_lem b'.' local,
          has_empty_part_lem b'.' domain,
          parts→contains_char b'.' domain p.dotted,
          p.labels,
          p.hyphens,
          p.unbracketed.0,
          p.unbracketed.1,
          p.unquoted,
        ))

-- The tests before the split, and what `check_value` hands on.
check_value-eq-ok :
    (value v : Text)
    → check_value value ≡ ok v
    → (byte_len value ≤ max_address_len)
      × (any is_unprintable value ≡ false)
      × (check_parts value (split_once b'@' value) ≡ ok v)
unfolding check_value
check_value-eq-ok value v h = (ground arith, ground arith, ground arith)

check_parts-ne-none : (value v : Text) → check_parts value none ≡ ok v → ⊥
unfolding check_parts
check_parts-ne-none value v h = cc

check_value-IsAddress : (value v : Text) → check_value value ≡ ok v → (value ≡ v) × IsAddress value
check_value-IsAddress value v h =
    let (short, printable, rest) = check_value-eq-ok value v h in
    elim (Option-cases (split_once b'@' value)) [
      | inl missing ↦ absurd (check_parts-ne-none value v (rw missing at rest))
      | inr (pair, found) ↦
          let parsed = check_parts-HasParts value pair.0 pair.1 v found (rw found at rest) in
          (
            parsed.0,
            record { short = short; printable = printable; parts = (pair.0, pair.1, parsed.1) },
          )
    ]

is_empty-append : (s t : Text) (c : ℕ) → is_empty (s ++ c ∷ t) ≡ false
is_empty-append [] t c = refl
is_empty-append (d ∷ s) t c = refl

IsAddress-check_value : (value : Text) → IsAddress value → check_value value ≡ ok value
unfolding check_value
IsAddress-check_value value a =
    let (local, domain, p) = a.parts in
    ground (
      arith,
      ap is_empty p.shape,
      is_empty-append local domain b'@',
      a.short,
      a.printable,
      HasParts-check_parts value local domain p,
    )

HasNoSpace-of_printable : (s : Text) → any is_unprintable s ≡ false → HasNoSpace s
unfolding is_unprintable
HasNoSpace-of_printable [] h = refl
HasNoSpace-of_printable (c ∷ s) h = ground (arith, HasNoSpace-of_printable s)

module _ (fold : Text → Text) where
  -- An address is accepted exactly when its trimmed, lowercased form is an address, and that form
  -- is what is returned.
  pub normalize_iff :
      (raw v : Text) → (normalize fold raw ≡ ok v) ↔ ((lookup_key fold raw ≡ v) × IsAddress v)
  unfolding normalize lookup_key
  normalize_iff raw v = (
    λ h.
        let (same, address) = check_value-IsAddress (to_lowercase fold (trim raw)) v h in
        (same, subst IsAddress same address),
    λ h. rw h.0 (IsAddress-check_value v h.1),
  )

  lookup_key_stored :
      (raw v : Text) → IsStable fold → lookup_key fold raw ≡ v → IsAddress v → lookup_key fold v ≡ v
  unfolding lookup_key
  lookup_key_stored raw v stable same address =
      rw (trim_of_HasNoSpace v (HasNoSpace-of_printable v address.printable), ← same)
        (to_lowercase_idem fold stable (trim raw))

  -- The stored form of an address normalises to itself, and the readers' key of it is the stored
  -- form, if lowercasing by the Unicode tables is stable.
  pub normalize_idem :
      (raw v : Text)
      → IsStable fold
      → normalize fold raw ≡ ok v
      → (normalize fold v ≡ ok v) × (lookup_key fold v ≡ v)
  normalize_idem raw v stable h =
      let (same, address) = (normalize_iff raw v).0 h in
      let key = lookup_key_stored raw v stable same address in
      ((normalize_iff v v).1 (key, address), key)
