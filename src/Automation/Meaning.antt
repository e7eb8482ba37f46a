-- ===== src/Automation/Meaning.antt =====
-- What it is for a rule to name a tag, apart from the code that reads its configuration.
use core_swift_crm.Prelude.{
  ℕ, some-inj, Bool, true, false, ◌||◌, Option, none, some, ◌≡◌, ◌≢◌, ◌⊎◌, ◌↔◌, inl, inr, refl, sym,
  ap, ◌∙◌, arith, ◌==◌, ==_iff, length, Any, Bool-cases, Option-cases,
}
use mathlib.Core.Path.{subst}
use core_swift_crm.Text.{Text, codes, text_eq}
use core_swift_crm.Text.Equality.{text_eq-eq, text_eq_iff}
use core_swift_crm.Entitlements.{Json, Items, get}
use core_swift_crm.Automation.{
  str_field, array_field, as_str, as_items, str_uuid, is_uuid, matches_tag, one_tag, any_uuid,
  trigger_types,
}

or_iff :
    (a b : Bool) (P Q : Type 0) → ((a ≡ true) ↔ P) → ((b ≡ true) ↔ Q) → ((a || b) ≡ true) ↔ (P ⊎ Q)
or_iff true b P Q p q = ((λ _. inl (p.0 refl)), (λ _. refl))
or_iff false b P Q p q =
    ((λ e. inr (q.0 e)), (λ h. elim h [ inl x ↦ absurd (cc (p.1 x)) | inr y ↦ q.1 y ]))

codes_apart : codes "TagAdded" ≢ codes "TagRemoved"
codes_apart e = absurd (cc (ap (λ s. length s == 8) e))

module _ (parse_uuid : Text → Option ℕ) (tag_id : ℕ) where
  is_uuid_iff : (o : Option ℕ) → (is_uuid o tag_id ≡ true) ↔ (o ≡ some tag_id)
  is_uuid_iff none = ((λ e. absurd (cc e)), (λ e. absurd (cc e)))
  is_uuid_iff (some i) = (
    (λ e. ap (λ n. some n) ((==_iff i tag_id).0 e)),
    (λ e. (==_iff i tag_id).1 (some-inj i tag_id e)),
  )

  one_tag_iff :
      (s : Text)
      → (one_tag parse_uuid tag_id s ≡ true)
        ↔ ((id : ℕ) × (parse_uuid s ≡ some id) × ((id ≡ tag_id) ⊎ (s ≡ codes "*")))
  unfolding one_tag
  one_tag_iff s = elim (Option-cases (parse_uuid s)) [
    | inl e ↦ ((λ h. absurd (ground (arith, e, h))), (λ h. absurd (cc (e, h.1))))
    | inr (i, e) ↦
        let both =
          or_iff (i == tag_id) (text_eq s (codes "*")) _ _ (==_iff i tag_id)
            (text_eq_iff s (codes "*")) in
        (
          (λ h. (i, e, both.0 (ground (arith, e, h)))),
          (λ h.
              let same : i ≡ h.0 = some-inj i h.0 (sym e ∙ h.1) in
              let yes = both.1 (subst (λ n. (n ≡ tag_id) ⊎ (s ≡ codes "*")) (sym same) h.2) in
              ground (arith, e, yes)),
        )
  ]

module _ {F : Type 0} (parse_uuid : Text → Option ℕ) (tag_id : ℕ) where
  -- A text of the array is the id of the tag.
  abbrev pub Holds : Items F → Type 0
  Holds Items.no_more = ⊥
  Holds (Items.item v items) =
      ((s : Text) × (v ≡ Json.string s) × (parse_uuid s ≡ some tag_id)) ⊎ Holds items

  -- The configuration has a text `tag_id` that is the id of the tag (or "*", should that read as an
  -- id), or no text `tag_id` but an array `tag_ids` that holds it.
  abbrev pub NamesTag : Json F → Type 0
  NamesTag config =
      ((s : Text) × (get (codes "tag_id") config ≡ some (Json.string s))
        × ((id : ℕ) × (parse_uuid s ≡ some id) × ((id ≡ tag_id) ⊎ (s ≡ codes "*"))))
      ⊎ (((s : Text) → get (codes "tag_id") config ≢ some (Json.string s))
          × ((items : Items F) × (get (codes "tag_ids") config ≡ some (Json.array items))
              × Holds items))

  -- One item of the array.
  Says : Json F → Type 0
  Says v = (s : Text) × (v ≡ Json.string s) × (parse_uuid s ≡ some tag_id)

  item_iff : (v : Json F) → (is_uuid (str_uuid parse_uuid v) tag_id ≡ true) ↔ Says v
  unfolding Says
  item_iff v = (there v, back)
    where
      there : (v : Json F) → is_uuid (str_uuid parse_uuid v) tag_id ≡ true → Says v
      there (Json.string s) e = (s, refl, (is_uuid_iff parse_uuid tag_id (parse_uuid s)).0 e)
      there (Json.null) e = absurd (cc e)
      there (Json.bool b) e = absurd (cc e)
      there (Json.number n) e = absurd (cc e)
      there (Json.array items) e = absurd (cc e)
      there (Json.object fields) e = absurd (cc e)

      back : Says v → is_uuid (str_uuid parse_uuid v) tag_id ≡ true
      back (s, e, h) = rw e ((is_uuid_iff parse_uuid tag_id (parse_uuid s)).1 h)

  any_uuid_iff : (items : Items F) → (any_uuid parse_uuid tag_id items ≡ true) ↔ Holds items
  unfolding any_uuid Says
  any_uuid_iff Items.no_more = ((λ e. absurd (cc e)), (λ h. absurd h))
  any_uuid_iff (Items.item v items) = or_iff _ _ _ _ (item_iff v) (any_uuid_iff items)

  text_iff :
      (v : Option (Json F)) (s : Text)
      → (elim v [ none ↦ none | some w ↦ as_str w ] ≡ some s) ↔ (v ≡ some (Json.string s))
  text_iff v s = ((λ e. there v e), (λ e. rw e refl))
    where
      there :
          (v : Option (Json F))
          → elim v [ none ↦ none | some w ↦ as_str w ] ≡ some s
          → v ≡ some (Json.string s)
      there none e = absurd (cc e)
      there (some (Json.string x)) e = ap (λ y. some (Json.string y)) (some-inj x s e)
      there (some Json.null) e = absurd (cc e)
      there (some (Json.bool b)) e = absurd (cc e)
      there (some (Json.number n)) e = absurd (cc e)
      there (some (Json.array items)) e = absurd (cc e)
      there (some (Json.object fields)) e = absurd (cc e)

  array_iff :
      (v : Option (Json F)) (items : Items F)
      → (elim v [ none ↦ none | some w ↦ as_items w ] ≡ some items) ↔ (v ≡ some (Json.array items))
  array_iff v items = ((λ e. there v e), (λ e. rw e refl))
    where
      there :
          (v : Option (Json F))
          → elim v [ none ↦ none | some w ↦ as_items w ] ≡ some items
          → v ≡ some (Json.array items)
      there none e = absurd (cc e)
      there (some (Json.array x)) e = ap (λ y. some (Json.array y)) (some-inj x items e)
      there (some Json.null) e = absurd (cc e)
      there (some (Json.bool b)) e = absurd (cc e)
      there (some (Json.number n)) e = absurd (cc e)
      there (some (Json.string t)) e = absurd (cc e)
      there (some (Json.object fields)) e = absurd (cc e)

  pub matches_tag_iff :
      (config : Json F) → (matches_tag parse_uuid tag_id config ≡ true) ↔ NamesTag config
  unfolding matches_tag
  matches_tag_iff config = elim (Option-cases (str_field (codes "tag_id") config)) [
    | inr (s, e) ↦
        let is_text = (text_iff (get (codes "tag_id") config) s).0 e in
        (
          (λ h. inl (s, is_text, (one_tag_iff parse_uuid tag_id s).0 (ground (arith, e, h)))),
          (λ h. elim h [
            | inl (t, e', named) ↦
                let same : t ≡ s = some-inj t s (sym ((text_iff _ t).1 e') ∙ e) in
                let yes = (one_tag_iff parse_uuid tag_id t).1 named in ground (arith, e, same, yes)
            | inr other ↦ absurd (other.0 s is_text)
          ]),
        )
    | inl e ↦
        let no_text : (s : Text) → get (codes "tag_id") config ≢ some (Json.string s) =
          λ s is_text. absurd (cc ((text_iff _ s).1 is_text, e)) in
        elim (Option-cases (array_field (codes "tag_ids") config)) [
          | inl e' ↦ (
            (λ h. absurd (ground (arith, e, e', h))),
            (λ h. elim h [
              | inl (t, is_text, named) ↦ absurd (no_text t is_text)
              | inr (_, (items, is_array, held)) ↦ absurd (cc ((array_iff _ items).1 is_array, e'))
            ]),
          )
          | inr (items, e') ↦ (
            (λ h. inr (
              no_text,
              (items, (array_iff _ items).0 e', (any_uuid_iff items).0 (ground (arith, e, e', h))),
            )),
            (λ h. elim h [
              | inl (t, is_text, named) ↦ absurd (no_text t is_text)
              | inr (_, (items', is_array, held)) ↦
                  let same : items' ≡ items =
                    some-inj items' items (sym ((array_iff _ items').1 is_array) ∙ e') in
                  let yes = (any_uuid_iff items').1 held in ground (arith, e, e', same, yes)
            ]),
          )
        ]
  ]

-- The event, or the new name of the two that have one.
abbrev pub IsEventName : Text → Text → Type 0
IsEventName trigger_type name =
    (name ≡ trigger_type)
    ⊎ ((trigger_type ≡ codes "TagAdded") × (name ≡ codes "tag.assigned"))
    ⊎ ((trigger_type ≡ codes "TagRemoved") × (name ≡ codes "tag.unassigned"))

pub trigger_types_iff :
    (trigger_type name : Text)
    → Any (λ t. name ≡ t) (trigger_types trigger_type) ↔ IsEventName trigger_type name
unfolding trigger_types
trigger_types_iff trigger_type name = elim (Bool-cases (text_eq trigger_type (codes "TagAdded"))) [
  | inl added ↦
      let same = text_eq-eq trigger_type (codes "TagAdded") added in
      rw added (
        (λ h. elim h [
          | inl e ↦ inl (e ∙ sym same)
          | inr (inl e) ↦ inr (inl (same, e))
          | inr (inr e) ↦ absurd e
        ]),
        (λ h. elim h [
          | inl e ↦ inl (e ∙ same)
          | inr (inl e) ↦ inr (inl e.1)
          | inr (inr e) ↦ absurd (codes_apart (sym same ∙ e.0))
        ]),
      )
  | inr other ↦ elim (Bool-cases (text_eq trigger_type (codes "TagRemoved"))) [
    | inl removed ↦
        let same = text_eq-eq trigger_type (codes "TagRemoved") removed in
        rw (other, removed)
          (
            (λ h. elim h [
              | inl e ↦ inl (e ∙ sym same)
              | inr (inl e) ↦ inr (inr (same, e))
              | inr (inr e) ↦ absurd e
            ]),
            (λ h. elim h [
              | inl e ↦ inl (e ∙ same)
              | inr (inl e) ↦ absurd (codes_apart (sym e.0 ∙ same))
              | inr (inr e) ↦ inr (inl e.1)
            ]),
          )
    | inr neither ↦
        rw (other, neither)
          (
            (λ h. elim h [ inl e ↦ inl e | inr e ↦ absurd e ]),
            (λ h. elim h [
              | inl e ↦ inl e
              | inr (inl e) ↦
                  absurd (cc ((text_eq_iff trigger_type (codes "TagAdded")).1 e.0, other))
              | inr (inr e) ↦
                  absurd (cc ((text_eq_iff trigger_type (codes "TagRemoved")).1 e.0, neither))
            ]),
          )
  ]
]
