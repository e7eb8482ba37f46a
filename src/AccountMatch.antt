-- ===== src/AccountMatch.antt =====
-- account_match/engine.rs: finding the contact and the company that an identity names.
-- Tables are lists of rows in the order of `created_at`, and each statement succeeds. `fold` is the
-- Unicode part of `to_lowercase`, and `lower` is the database's LOWER. `\D` is anything but 0 to 9.
pub mod Asked
pub mod Found
pub mod Queries
mod Tests
use core_swift_crm.Prelude.{
  ℕ, Bool, true, false, ◌&&◌, ◌||◌, not, Option, none, some, List, [], ◌∷◌, ◌==◌, ltb,
  if◌then◌else◌, length,
}
use core_swift_crm.Prelude.Tables.{select, select_one}
use core_swift_crm.Text.{
  Text, is_empty, is_ascii_digit, text_eq, contains_char, starts_with_char, ends_with_char,
}
use core_swift_crm.Text.Case.{to_lowercase}
use core_swift_crm.Text.Split.{last_part}
use core_swift_crm.Text.Trim.{trim}

pub record Identity : Type 0 where
  pub email : Option Text
  pub phone : Option Text
  pub first_name : Option Text
  pub last_name : Option Text
  pub company : Option Text

abbrev and_then {ℓ} : {A B : Type ℓ} → Option A → (A → Option B) → Option B
and_then none f = none
and_then (some a) f = f a

abbrev is_some {ℓ} : {A : Type ℓ} → Option A → Bool
is_some none = false
is_some (some a) = true

pub present : Option Text → Option Text
present none = none
present (some s) = if is_empty (trim s) then none else some (trim s)

abbrev or_blank : Option Text → Text
or_blank none = []
or_blank (some s) = s

pub normalize_phone : Text → Option Text
normalize_phone raw =
    let digits = select is_ascii_digit raw in if ltb (length digits) 7 then none else some digits

pub has_identifier : Identity → Bool
unfolding present normalize_phone
has_identifier identity =
    is_some (present identity.email)
    || is_some (normalize_phone (or_blank (present identity.phone)))
    || (is_some (present identity.first_name) && is_some (present identity.last_name))

pub record ContactRow : Type 0 where
  pub id : ℕ
  pub tenant_id : ℕ
  pub is_active : Bool
  pub first_name : Text
  pub last_name : Text
  pub email : Option Text
  pub phone : Option Text
  pub company : Option Text

pub record CompanyRow : Type 0 where
  pub id : ℕ
  pub tenant_id : ℕ
  pub is_active : Option Bool
  pub name : Text
  pub domain : Option Text

pub data Reason : Type 0 where
  email phone name_company no_reason : Reason

-- `confidence` in tenths.
pub record Match : Type 0 where
  pub matched : Bool
  pub reason : Reason
  pub confidence : ℕ
  pub contact : Option ContactRow
  pub company : Option CompanyRow

-- `btrim`: blanks only.
abbrev skip_blanks : Text → Text
skip_blanks [] = []
skip_blanks (c ∷ s) = if c == 32 then skip_blanks s else c ∷ s

drop_end_blanks : Text → Text
drop_end_blanks [] = []
drop_end_blanks (c ∷ s) =
    let rest = drop_end_blanks s in if is_empty rest && c == 32 then [] else c ∷ rest

pub btrim : Text → Text
unfolding drop_end_blanks
btrim s = drop_end_blanks (skip_blanks s)

-- `regexp_replace(phone, '\D', '', 'g')`
pub phone_digits : Text → Text
phone_digits s = select is_ascii_digit s

-- The stored digits are the asked ones, or a 1 and the ten asked ones.
pub phone_matches : Text → Text → Bool
phone_matches asked digits =
    text_eq digits asked || (length asked == 10 && text_eq digits (b'1' ∷ asked))

abbrev pub live : ℕ → ContactRow → Bool
live tenant_id c = c.tenant_id == tenant_id && c.is_active

abbrev is_live_company : ℕ → CompanyRow → Bool
is_live_company tenant_id c =
    c.tenant_id == tenant_id && elim c.is_active [ none ↦ true | some b ↦ b ]

abbrev pub hit : Reason → ℕ → Option CompanyRow → ContactRow → Match
hit reason confidence company c = record {
  matched = true;
  reason = reason;
  confidence = confidence;
  contact = some c;
  company = company;
}

-- One of the three queries, if the identity has what it asks for.
pub find : ℕ → List ContactRow → Option (ContactRow → Bool) → Option ContactRow
find tenant_id contacts none = none
find tenant_id contacts (some p) = select_one (λ c. live tenant_id c && p c) contacts

abbrev pub or_else : Option ContactRow → (ContactRow → Match) → Match → Match
or_else none f rest = rest
or_else (some c) f rest = f c

module _ (fold lower : Text → Text) where
  pub normalize_email : Text → Option Text
  normalize_email raw = let t = to_lowercase fold (trim raw) in if is_empty t then none else some t

  email_domain : Text → Option Text
  email_domain addr =
      let d = to_lowercase fold (trim (last_part b'@' addr)) in
      if contains_char addr b'@'
        && contains_char d b'.'
        && not (starts_with_char d b'.')
        && not (ends_with_char d b'.')
      then some d
      else none

  abbrev pub same_text : Text → Text → Bool
  same_text asked stored = text_eq (lower (btrim stored)) asked

  abbrev pub has_email : Text → ContactRow → Bool
  has_email asked c = elim c.email [ none ↦ false | some e ↦ same_text asked e ]

  abbrev pub has_phone : Text → ContactRow → Bool
  has_phone asked c = elim c.phone [ none ↦ false | some p ↦ phone_matches asked (phone_digits p) ]

  abbrev pub has_name : Text → Text → Text → ContactRow → Bool
  has_name first last company c =
      same_text first c.first_name
      && same_text last c.last_name
      && same_text company (or_blank c.company)

  abbrev asked_for : Option Text → Text → Bool
  asked_for none stored = false
  asked_for (some asked) stored = same_text asked stored

  pub match_company : List CompanyRow → ℕ → Identity → Option CompanyRow
  unfolding present email_domain
  match_company companies tenant_id identity =
      let domain = and_then (present identity.email) (λ e. email_domain (to_lowercase fold e)) in
      let name = and_then (present identity.company) (λ c. some (to_lowercase fold c)) in
      if not (is_some domain) && not (is_some name)
      then none
      else select_one
          (λ c.
            is_live_company tenant_id c
            && (asked_for domain (or_blank c.domain) || asked_for name c.name))
          companies

  abbrev pub by_email : Identity → Option (ContactRow → Bool)
  by_email identity =
      and_then (and_then (present identity.email) normalize_email) λ e. some (has_email e)

  abbrev pub by_phone : Identity → Option (ContactRow → Bool)
  by_phone identity =
      and_then (and_then (present identity.phone) normalize_phone) λ p. some (has_phone p)

  abbrev pub by_name : Identity → Option (ContactRow → Bool)
  by_name identity = and_then (present identity.first_name) λ first.
      and_then (present identity.last_name) λ last. some (
        has_name (to_lowercase fold first) (to_lowercase fold last)
          (to_lowercase fold (or_blank (present identity.company))))

  pub resolve : List ContactRow → List CompanyRow → ℕ → Identity → Match
  unfolding match_company normalize_email find
  resolve contacts companies tenant_id identity =
      let company = match_company companies tenant_id identity in
      or_else (find tenant_id contacts (by_email identity)) (hit email 10 company) (
        or_else (find tenant_id contacts (by_phone identity)) (hit phone 8 company) (
          or_else (find tenant_id contacts (by_name identity)) (hit name_company 6 company)
            (record {
              matched = false;
              reason = no_reason;
              confidence = 0;
              contact = none;
              company = company;
            })))
