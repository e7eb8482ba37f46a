-- ===== src/AccountMatch/Asked.antt =====
-- What an identity asks for, and what it is for a contact to have it, apart from the queries.
use core_swift_crm.Prelude.{ℕ, true, ◌≤◌, Option, some, [], ◌∷◌, ◌≡◌, ◌≢◌, ◌⊎◌, length}
use core_swift_crm.Prelude.Tables.{select}
use core_swift_crm.Text.{Text, is_ascii_digit}
use core_swift_crm.Text.Case.{to_lowercase}
use core_swift_crm.Text.Trim.{trim}
use core_swift_crm.AccountMatch.{Identity, ContactRow, or_blank, btrim}

abbrev pub digits : Text → Text
digits s = select is_ascii_digit s

-- The text is given and not blank, and trimmed it is the other one.
abbrev pub Given : Option Text → Text → Type 0
Given field t = (raw : Text) × (field ≡ some raw) × (trim raw ≡ t) × (t ≢ [])

-- An active contact of the tenant.
abbrev pub IsLive : ℕ → ContactRow → Type 0
IsLive tenant_id c = (c.tenant_id ≡ tenant_id) × (c.is_active ≡ true)

-- The digits of the stored number are the asked ones, or a 1 and the ten asked ones.
abbrev pub IsSameNumber : Text → Text → Type 0
IsSameNumber asked stored =
    (digits stored ≡ asked) ⊎ ((length asked ≡ 10) × (digits stored ≡ b'1' ∷ asked))

abbrev pub HasPhone : Identity → ContactRow → Type 0
HasPhone identity c =
    (t : Text) × Given identity.phone t
    × (7 ≤ length (digits t))
    × ((stored : Text) × (c.phone ≡ some stored) × IsSameNumber (digits t) stored)

module _ (fold lower : Text → Text) where
  abbrev pub HasEmail : Identity → ContactRow → Type 0
  HasEmail identity c =
      (t : Text) × Given identity.email t
      × (to_lowercase fold (trim t) ≢ [])
      × ((stored : Text) × (c.email ≡ some stored)
          × (lower (btrim stored) ≡ to_lowercase fold (trim t)))

  -- Both names, and the company, which may be missing on both sides.
  abbrev pub HasName : Identity → ContactRow → Type 0
  HasName identity c =
      (first : Text) × Given identity.first_name first
      × ((last : Text) × Given identity.last_name last
          × (lower (btrim c.first_name) ≡ to_lowercase fold first)
          × (lower (btrim c.last_name) ≡ to_lowercase fold last)
          × (lower (btrim (or_blank c.company))
              ≡ to_lowercase fold (trim (or_blank identity.company))))
