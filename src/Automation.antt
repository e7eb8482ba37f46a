-- ===== src/Automation.antt =====
-- automation/engine.rs: which rules an event fires. The result is the rules whose action is run, in
-- order; the actions themselves, and what they answer, are not modelled. Each statement succeeds.
-- `parse_uuid` is `Uuid::parse_str`, and `as_i64` reads an integer of a JSON number.
pub mod Fired
pub mod Meaning
mod Tests
use core_swift_crm.Prelude.{
  ℕ, Bool, false, ◌&&◌, ◌||◌, Option, none, some, List, [], ◌∷◌, ◌++◌, ◌==◌, if◌then◌else◌,
}
use core_swift_crm.Prelude.Int.{ℤ, pos, negsuc, leb_ℤ}
use core_swift_crm.Prelude.Tables.{select}
use core_swift_crm.Text.{Text, codes, text_eq}
use core_swift_crm.Entitlements.{Json, Items, get, Registry, resolve}

-- `is_active` is the projected column, in which a null reads as true.
pub record AutomationRule (F : Type 0) : Type 0 where
  pub id : ℕ
  pub tenant_id : ℕ
  pub trigger_type : Text
  pub trigger_config : Json F
  pub is_active : Bool

abbrev pub is_uuid : Option ℕ → ℕ → Bool
is_uuid none id = false
is_uuid (some i) id = i == id

-- `"*"` is asked for only of a text that reads as an id.
pub one_tag : (Text → Option ℕ) → ℕ → Text → Bool
one_tag parse_uuid tag_id tid_str = elim (parse_uuid tid_str) [
  | some conf_tid ↦ conf_tid == tag_id || text_eq tid_str (codes "*")
  | none ↦ false
]

pub trigger_types : Text → List Text
trigger_types trigger_type =
    if text_eq trigger_type (codes "TagAdded")
    then codes "TagAdded" ∷ codes "tag.assigned" ∷ []
    else if text_eq trigger_type (codes "TagRemoved")
    then codes "TagRemoved" ∷ codes "tag.unassigned" ∷ []
    else trigger_type ∷ []

abbrev i64_or : ℤ → Option ℤ → ℤ
i64_or d none = d
i64_or d (some v) = v

module _ {F : Type 0} where
  abbrev pub as_str : Json F → Option Text
  as_str (Json.string s) = some s
  as_str _ = none

  abbrev pub as_items : Json F → Option (Items F)
  as_items (Json.array items) = some items
  as_items _ = none

  abbrev pub str_field : Text → Json F → Option Text
  str_field key v = elim (get key v) [ none ↦ none | some w ↦ as_str w ]

  abbrev pub array_field : Text → Json F → Option (Items F)
  array_field key v = elim (get key v) [ none ↦ none | some w ↦ as_items w ]

  abbrev i64_field : (F → Option ℤ) → Text → Json F → Option ℤ
  i64_field as_i64 key v = elim (get key v) [ some (Json.number n) ↦ as_i64 n | _ ↦ none ]

  -- `WHERE tenant_id=$1 AND trigger_type=$2 AND is_active IS NOT FALSE`
  abbrev pub listens : ℕ → Text → AutomationRule F → Bool
  listens tenant_id trigger_type r =
      r.tenant_id == tenant_id && text_eq r.trigger_type trigger_type && r.is_active

  module _ (parse_uuid : Text → Option ℕ) where
    abbrev pub str_uuid : Json F → Option ℕ
    str_uuid v = elim (as_str v) [ none ↦ none | some s ↦ parse_uuid s ]

    pub any_uuid : ℕ → Items F → Bool
    any_uuid id Items.no_more = false
    any_uuid id (Items.item v items) = is_uuid (str_uuid v) id || any_uuid id items

    pub matches_tag : ℕ → Json F → Bool
    unfolding any_uuid one_tag
    matches_tag tag_id config = elim (str_field (codes "tag_id") config) [
      | some tid_str ↦ one_tag parse_uuid tag_id tid_str
      | none ↦ elim (array_field (codes "tag_ids") config) [
        | none ↦ false
        | some tag_ids ↦ any_uuid tag_id tag_ids
      ]
    ]

  -- The loop over the trigger types, each with its query.
  pub fire_each :
      (Text → Option ℕ) → List (AutomationRule F) → ℕ → ℕ → List Text → List (AutomationRule F)
  unfolding matches_tag
  fire_each parse_uuid rules tenant_id tag_id [] = []
  fire_each parse_uuid rules tenant_id tag_id (tt' ∷ types) =
      select (λ r. matches_tag parse_uuid tag_id r.trigger_config)
        (select (listens tenant_id tt') rules)
      ++ fire_each parse_uuid rules tenant_id tag_id types

  pub evaluate_tag_triggers :
      (Text → Option ℕ)
      → Registry F
      → List (AutomationRule F)
      → ℕ
      → ℕ
      → Text
      → List (AutomationRule F)
  unfolding trigger_types fire_each
  evaluate_tag_triggers parse_uuid reg rules tenant_id tag_id trigger_type =
      if (resolve reg tenant_id (codes "automation")).enabled
      then fire_each parse_uuid rules tenant_id tag_id (trigger_types trigger_type)
      else []

  pub should_fire : (F → Option ℤ) → ℤ → Text → Json F → Bool
  should_fire as_i64 total_score category config = elim (str_field (codes "category") config) [
    | some cat ↦ text_eq cat category
    | none ↦
        leb_ℤ (i64_or (negsuc 0x7fffffffffffffff) (i64_field as_i64 (codes "min_score") config))
          total_score
        && leb_ℤ total_score
            (i64_or (pos 0x7fffffffffffffff) (i64_field as_i64 (codes "max_score") config))
  ]

  pub fire_score_trigger :
      (F → Option ℤ) → List (AutomationRule F) → ℕ → ℤ → Text → List (AutomationRule F)
  unfolding should_fire
  fire_score_trigger as_i64 rules tenant_id total_score category =
      select (λ r. should_fire as_i64 total_score category r.trigger_config)
        (select (listens tenant_id (codes "ScoreChanged")) rules)

  pub matches_list : (Text → Option ℕ) → ℕ → Json F → Bool
  matches_list parse_uuid list_id config = elim (str_field (codes "list_id") config) [
    | some lid_str ↦ is_uuid (parse_uuid lid_str) list_id
    | none ↦ false
  ]

  pub fire_list_trigger :
      (Text → Option ℕ) → List (AutomationRule F) → ℕ → ℕ → Text → List (AutomationRule F)
  unfolding matches_list
  fire_list_trigger parse_uuid rules tenant_id list_id trigger_type =
      select (λ r. matches_list parse_uuid list_id r.trigger_config)
        (select (listens tenant_id trigger_type) rules)
