-- ===== src/AccountMatch/Found.antt =====
-- What a match has shown of the contact.
use core_swift_crm.Prelude.{
  ℕ, Bool, true, false, ◌&&◌, Option, none, some, List, ◌≡◌, ◌↔◌, inl, inr, refl, arith, All,
  Option-cases,
}
use core_swift_crm.Prelude.Tables.{select_one-eq-some, select_one-none, All-map, All-always}
use core_swift_crm.Text.{Text}
use core_swift_crm.AccountMatch.{
  Identity, ContactRow, CompanyRow, Match, Reason, email, phone, name_company, no_reason, live,
  find, resolve, or_else, hit, match_company,
}
use core_swift_crm.AccountMatch.Asked.{IsLive, HasEmail, HasPhone, HasName}
use core_swift_crm.AccountMatch.Queries.{meets, by_email_iff, by_phone_iff, by_name_iff}

-- No active contact of the tenant has it.
abbrev pub NobodyHas : (ContactRow → Type 0) → ℕ → List ContactRow → Type 0
NobodyHas Has tenant_id contacts = All (λ c. IsLive tenant_id c → Has c → ⊥) contacts

module _ (tenant_id : ℕ) (contacts : List ContactRow) (q : Option (ContactRow → Bool))
    (Has : ContactRow → Type 0) (asks : (c : ContactRow) → (meets q c ≡ true) ↔ Has c) where
  find-some : (c : ContactRow) → find tenant_id contacts q ≡ some c → IsLive tenant_id c × Has c
  unfolding find
  find-some c e = elim (Option-cases q) [
    | inl n ↦ absurd (ground (arith, n, e))
    | inr (p, s) ↦
        let both =
          select_one-eq-some (λ x. live tenant_id x && p x) contacts c (ground (arith, s, e)) in
        (ground (arith, both), (asks c).0 (rw s (ground (arith, both))))
  ]

  find-none : find tenant_id contacts q ≡ none → NobodyHas Has tenant_id contacts
  unfolding find
  find-none e = elim (Option-cases q) [
    | inl n ↦ All-always _ (λ c here has. absurd (cc ((asks c).1 has, n))) contacts
    | inr (p, s) ↦
        All-map (λ c. (live tenant_id c && p c) ≡ false) _
          (λ c out here has.
            let met : p c ≡ true = ground (arith, s, (asks c).1 has) in
            absurd (ground (arith, out, met, here)))
          contacts (select_one-none _ contacts (ground (arith, s, e)))
  ]

module _ (fold lower : Text → Text) (tenant_id : ℕ) (identity : Identity)
    (contacts : List ContactRow) where
  -- The contact has what the reason names.
  abbrev HasReason : Reason → ContactRow → Type 0
  HasReason email = HasEmail fold lower identity
  HasReason phone = HasPhone identity
  HasReason name_company = HasName fold lower identity
  HasReason no_reason = λ c. ⊥

  -- Nobody has what is asked for before the reason.
  abbrev NobodyBefore : Reason → Type 0
  NobodyBefore email = Unit
  NobodyBefore phone = NobodyHas (HasReason email) tenant_id contacts
  NobodyBefore name_company =
      NobodyHas (HasReason email) tenant_id contacts
      × NobodyHas (HasReason phone) tenant_id contacts
  NobodyBefore no_reason =
      NobodyHas (HasReason email) tenant_id contacts
      × NobodyHas (HasReason phone) tenant_id contacts
      × NobodyHas (HasReason name_company) tenant_id contacts

  -- What an answer of `resolve` has shown.
  abbrev pub Finds : Match → Type 0
  Finds m = NobodyBefore m.reason × elim m.contact [
    | none ↦ (m.matched ≡ false) × (m.reason ≡ no_reason)
    | some c ↦ (m.matched ≡ true) × IsLive tenant_id c × HasReason m.reason c
  ]

  -- A query's answer is right about what it asks for.
  abbrev IsAnswer : (ContactRow → Type 0) → Option ContactRow → Type 0
  IsAnswer Has none = NobodyHas Has tenant_id contacts
  IsAnswer Has (some c) = IsLive tenant_id c × Has c

  find-IsAnswer :
      (q : Option (ContactRow → Bool)) (Has : ContactRow → Type 0)
      → ((c : ContactRow) → (meets q c ≡ true) ↔ Has c)
      → IsAnswer Has (find tenant_id contacts q)
  find-IsAnswer q Has asks = elim (Option-cases (find tenant_id contacts q)) [
    | inl e ↦ rw e (find-none tenant_id contacts q Has asks e)
    | inr (c, e) ↦ rw e (find-some tenant_id contacts q Has asks c e)
  ]

  -- The first answer of the three that names a contact is the match.
  first-Finds :
      (company : Option CompanyRow) (a b c : Option ContactRow)
      → IsAnswer (HasReason email) a
      → IsAnswer (HasReason phone) b
      → IsAnswer (HasReason name_company) c
      → Finds (
          or_else a (hit email 10 company) (
            or_else b (hit phone 8 company) (
              or_else c (hit name_company 6 company) (record {
                matched = false;
                reason = no_reason;
                confidence = 0;
                contact = none;
                company = company;
              }))))
  first-Finds company (some x) b c ha hb hc = (tt, (refl, ha.0, ha.1))
  first-Finds company none (some x) c ha hb hc = (ha, (refl, hb.0, hb.1))
  first-Finds company none none (some x) ha hb hc = ((ha, hb), (refl, hc.0, hc.1))
  first-Finds company none none none ha hb hc = ((ha, hb, hc), (refl, refl))

  -- A match names a contact exactly when it says that it matched. The contact is then an active one
  -- of the tenant and has what the reason says: the asked email; a number of the asked digits, or of
  -- a 1 and the ten asked ones; or the asked names and company. A match by the phone means that no
  -- active contact of the tenant has the email, one by the name that none has the email or the
  -- phone, and without a match none has any of the three.
  pub resolve-Finds :
      (companies : List CompanyRow)
      → Finds (resolve fold lower contacts companies tenant_id identity)
  unfolding resolve
  resolve-Finds companies =
      first-Finds (match_company fold lower companies tenant_id identity) _ _ _
        (find-IsAnswer _ (HasReason email) (by_email_iff fold lower identity))
        (find-IsAnswer _ (HasReason phone) (by_phone_iff fold lower identity))
        (find-IsAnswer _ (HasReason name_company) (by_name_iff fold lower identity))
