-- ===== src/AccountMatch/Queries.antt =====
-- The queries of an identity select exactly the contacts that have what it asks for.
use core_swift_crm.Prelude.{
  ℕ, some-inj, Bool, true, false, ◌≤◌, Option, none, some, [], ◌∷◌, ◌≡◌, ◌≢◌, ◌↔◌, inl, inr, refl,
  sym, ap, ◌∙◌, arith, length, ltb, Bool-cases, Option-cases,
}
use mathlib.Core.Path.{subst}
use core_swift_crm.Text.{Text, is_empty}
use core_swift_crm.Text.Equality.{text_eq_iff}
use core_swift_crm.Text.Case.{to_lowercase}
use core_swift_crm.Text.Trim.{trim, trim_start, trim_end}
use core_swift_crm.AccountMatch.{
  Identity, ContactRow, present, or_blank, normalize_phone, normalize_email, btrim, phone_digits,
  phone_matches, has_email, has_phone, has_name, live, and_then, by_email, by_phone, by_name,
}
use core_swift_crm.AccountMatch.Asked.{
  digits, Given, IsLive, IsSameNumber, HasPhone, HasEmail, HasName,
}

nonempty_iff : (s : Text) → (is_empty s ≡ false) ↔ (s ≢ [])
nonempty_iff [] = ((λ e. absurd (cc e)), (λ ne. absurd (ne refl)))
nonempty_iff (c ∷ s) = ((λ _ e. cc e), (λ _. refl))

empty_eq : (s : Text) → is_empty s ≡ true → s ≡ []
empty_eq [] e = refl
empty_eq (c ∷ s) e = absurd (cc e)

present_iff : (field : Option Text) (t : Text) → (present field ≡ some t) ↔ Given field t
unfolding present
present_iff none t = ((λ e. absurd (cc e)), (λ g. absurd (cc g.1)))
present_iff (some s) t = (there, back)
  where
    there : present (some s) ≡ some t → Given (some s) t
    there e = elim (Bool-cases (is_empty (trim s))) [
      | inl blank ↦ absurd (ground (arith, blank, e))
      | inr full ↦
          let same : trim s ≡ t = some-inj (trim s) t (ground (arith, full, e)) in
          (s, refl, same, (λ n. (nonempty_iff (trim s)).0 full (same ∙ n)))
    ]

    back : Given (some s) t → present (some s) ≡ some t
    back (raw, e, same, ne) =
        let trimmed : trim s ≡ t = ap trim (some-inj s raw e) ∙ same in
        let full = (nonempty_iff (trim s)).1 (λ n. ne (sym trimmed ∙ n)) in
        ground (arith, full, trimmed)

-- A query that an identity may not ask, at a contact.
abbrev pub meets : Option (ContactRow → Bool) → ContactRow → Bool
meets none c = false
meets (some p) c = p c

meets_iff :
    {A : Type 0} (asked : Option A) (p : A → ContactRow → Bool) (c : ContactRow)
    → (meets (and_then asked (λ a. some (p a))) c ≡ true)
      ↔ ((a : A) × (asked ≡ some a) × (p a c ≡ true))
meets_iff none p c = ((λ e. absurd (cc e)), (λ h. absurd (cc h.1)))
meets_iff (some a) p c =
    ((λ e. (a, refl, e)), (λ h. subst (λ x. p x c ≡ true) (sym (some-inj a h.0 h.1)) h.2))

and_then_iff :
    {A B : Type 0} (o : Option A) (f : A → Option B) (b : B)
    → (and_then o f ≡ some b) ↔ ((a : A) × (o ≡ some a) × (f a ≡ some b))
and_then_iff none f b = ((λ e. absurd (cc e)), (λ h. absurd (cc h.1)))
and_then_iff (some a) f b = ((λ e. (a, refl, e)), (λ h. ap f (some-inj a h.0 h.1) ∙ h.2))

pub live_iff : (tenant_id : ℕ) (c : ContactRow) → (live tenant_id c ≡ true) ↔ IsLive tenant_id c
live_iff tenant_id c = ground arith

-- A column that may be null, at a test.
column_iff :
    (p : Text → Bool) (column : Option Text)
    → (elim column [ none ↦ false | some s ↦ p s ] ≡ true)
      ↔ ((s : Text) × (column ≡ some s) × (p s ≡ true))
column_iff p none = ((λ e. absurd (cc e)), (λ h. absurd (cc h.1)))
column_iff p (some s) =
    ((λ e. (s, refl, e)), (λ h. subst (λ x. p x ≡ true) (sym (some-inj s h.0 h.1)) h.2))

phone_matches_iff :
    (asked stored : Text)
    → (phone_matches asked (phone_digits stored) ≡ true) ↔ IsSameNumber asked stored
unfolding phone_matches phone_digits
phone_matches_iff asked stored =
    ground (arith, text_eq_iff (digits stored) asked, text_eq_iff (digits stored) (b'1' ∷ asked))

normalize_phone_iff :
    (t d : Text) → (normalize_phone t ≡ some d) ↔ ((digits t ≡ d) × (7 ≤ length (digits t)))
unfolding normalize_phone
normalize_phone_iff t d = elim (Bool-cases (ltb (length (digits t)) 7)) [
  | inl short ↦ ground (arith, short)
  | inr long ↦
      rw long ((λ e. (some-inj (digits t) d e, ground (arith, long))), (λ h. ap (λ x. some x) h.0))
]

module _ (fold lower : Text → Text) where
  normalize_email_iff :
      (t e : Text)
      → (normalize_email fold lower t ≡ some e)
        ↔ ((to_lowercase fold (trim t) ≡ e) × (to_lowercase fold (trim t) ≢ []))
  unfolding normalize_email
  normalize_email_iff t e = elim (Bool-cases (is_empty (to_lowercase fold (trim t)))) [
    | inl blank ↦ rw blank (
      (λ h. absurd (cc h)),
      (λ h. absurd (ground (arith, blank, (nonempty_iff (to_lowercase fold (trim t))).1 h.1))),
    )
    | inr full ↦ rw full (
      (λ h. (some-inj _ e h, (nonempty_iff (to_lowercase fold (trim t))).0 full)),
      (λ h. ap (λ x. some x) h.0),
    )
  ]

  pub by_email_iff :
      (identity : Identity) (c : ContactRow)
      → (meets (by_email fold lower identity) c ≡ true) ↔ HasEmail fold lower identity c
  by_email_iff identity c = (there, back)
    where
      there : meets (by_email fold lower identity) c ≡ true → HasEmail fold lower identity c
      there h =
          let (e, asked, has) = (meets_iff _ (has_email fold lower) c).0 h in
          let (t, given, normal) =
            (and_then_iff (present identity.email) (normalize_email fold lower) e).0 asked in
          let (same, full) = (normalize_email_iff t e).0 normal in
          let (stored, column, equal) = (column_iff _ c.email).0 has in
          (
            t,
            (present_iff identity.email t).0 given,
            full,
            (stored, column, (text_eq_iff (lower (btrim stored)) e).0 equal ∙ sym same),
          )

      back : HasEmail fold lower identity c → meets (by_email fold lower identity) c ≡ true
      back (t, given, full, (stored, column, same)) = (meets_iff _ (has_email fold lower) c).1 (
        to_lowercase fold (trim t),
        (and_then_iff (present identity.email) (normalize_email fold lower) _).1
            (t, (present_iff identity.email t).1 given, (normalize_email_iff t _).1 (refl, full)),
        (column_iff _ c.email).1 (stored, column, (text_eq_iff (lower (btrim stored)) _).1 same),
      )

  -- A blank company is none.
  company_asked :
      (identity : Identity)
      → to_lowercase fold (or_blank (present identity.company))
        ≡ to_lowercase fold (trim (or_blank identity.company))
  unfolding present trim trim_start trim_end
  company_asked identity = ap (to_lowercase fold) (elim (Option-cases identity.company) [
    | inl e ↦ rw e refl
    | inr (s, e) ↦ elim (Bool-cases (is_empty (trim s))) [
      | inl blank ↦ rw e (ground (arith, blank, empty_eq (trim s) blank))
      | inr full ↦ rw e (ground (arith, full))
    ]
  ])

  pub by_phone_iff :
      (identity : Identity) (c : ContactRow)
      → (meets (by_phone fold lower identity) c ≡ true) ↔ HasPhone identity c
  by_phone_iff identity c = (there, back)
    where
      there : meets (by_phone fold lower identity) c ≡ true → HasPhone identity c
      there h =
          let (d, asked, has) = (meets_iff _ (has_phone fold lower) c).0 h in
          let (t, given, normal) =
            (and_then_iff (present identity.phone) normalize_phone d).0 asked in
          let (same, long) = (normalize_phone_iff t d).0 normal in
          let (stored, column, equal) = (column_iff _ c.phone).0 has in
          (
            t,
            (present_iff identity.phone t).0 given,
            long,
            (stored, column, (phone_matches_iff (digits t) stored).0 (rw same equal)),
          )

      back : HasPhone identity c → meets (by_phone fold lower identity) c ≡ true
      back (t, given, long, (stored, column, same)) = (meets_iff _ (has_phone fold lower) c).1 (
        digits t,
        (and_then_iff (present identity.phone) normalize_phone (digits t)).1 (
          t,
          (present_iff identity.phone t).1 given,
          (normalize_phone_iff t (digits t)).1 (refl, long),
        ),
        (column_iff _ c.phone).1 (stored, column, (phone_matches_iff (digits t) stored).1 same),
      )

  has_name_iff :
      (first last company : Text) (c : ContactRow)
      → (has_name fold lower first last company c ≡ true) ↔ (
          (lower (btrim c.first_name) ≡ first)
          × (lower (btrim c.last_name) ≡ last)
          × (lower (btrim (or_blank c.company)) ≡ company))
  has_name_iff first last company c = ground (
    arith,
    text_eq_iff (lower (btrim c.first_name)) first,
    text_eq_iff (lower (btrim c.last_name)) last,
    text_eq_iff (lower (btrim (or_blank c.company))) company,
  )

  pub by_name_iff :
      (identity : Identity) (c : ContactRow)
      → (meets (by_name fold lower identity) c ≡ true) ↔ HasName fold lower identity c
  by_name_iff identity c = (there, back)
    where
      there : meets (by_name fold lower identity) c ≡ true → HasName fold lower identity c
      there h = elim (Option-cases (present identity.first_name)) [
        | inl e ↦ absurd (ground (arith, e, h))
        | inr (first, e) ↦ elim (Option-cases (present identity.last_name)) [
          | inl e' ↦ absurd (ground (arith, e, e', h))
          | inr (last, e') ↦
              let (one, two, three) = (has_name_iff _ _ _ c).0 (ground (arith, e, e', h)) in
              (
                first,
                (present_iff identity.first_name first).0 e,
                (
                  last,
                  (present_iff identity.last_name last).0 e',
                  one,
                  two,
                  three ∙ company_asked identity,
                ),
              )
        ]
      ]

      back : HasName fold lower identity c → meets (by_name fold lower identity) c ≡ true
      back (first, given, (last, given', one, two, three)) =
          rw
            (
              (present_iff identity.first_name first).1 given,
              (present_iff identity.last_name last).1 given',
            )
            ((has_name_iff _ _ _ c).1 (one, two, three ∙ sym (company_asked identity)))
