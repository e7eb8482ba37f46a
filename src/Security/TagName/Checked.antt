-- ===== src/Security/TagName/Checked.antt =====
-- What a stored tag name is.
use core_swift_crm.Prelude.{ℕ, String, false, ◌≡◌, ◌↔◌, arith, ◌≤◌, ok, length, any}
use core_swift_crm.Text.{Text, is_empty, is_control}
use core_swift_crm.Text.Trim.{trim}
use core_swift_crm.Security.TagName.{
  check_capped, normalize_capped, normalize, max_tag_name_chars, normalize_or_validation,
  or_validation, max_tag_color_chars, check_color, normalize_color, color_or_validation,
}

-- A name that the column can hold and that shows on one line.
abbrev pub FitsName : Text → Type 0
FitsName v = (is_empty v ≡ false) × (length v ≤ max_tag_name_chars) × (any is_control v ≡ false)

abbrev pub FitsColor : Text → Type 0
FitsColor v = (length v ≤ max_tag_color_chars) × (any is_control v ≡ false)

module _ (show : ℕ → String) where
  check_name_iff :
      (value v : Text)
      → (or_validation (check_capped show value max_tag_name_chars "name") ≡ ok v)
        ↔ ((value ≡ v) × FitsName value)
  unfolding check_capped
  check_name_iff value v = ground arith

  check_color_iff :
      (value v : Text)
      → (or_validation (check_color show value) ≡ ok v) ↔ ((value ≡ v) × FitsColor value)
  unfolding check_color
  check_color_iff value v = ground arith

  -- A name is accepted exactly when, trimmed, it is not empty, has at most 100 characters and no
  -- control character; the trimmed name is what is stored.
  pub normalize_or_validation_iff :
      (raw v : Text)
      → (normalize_or_validation show raw ≡ ok v) ↔ ((trim raw ≡ v) × FitsName (trim raw))
  unfolding normalize_or_validation normalize normalize_capped
  normalize_or_validation_iff raw v = check_name_iff (trim raw) v

  -- A colour is accepted exactly when, trimmed, it has at most 7 characters and no control
  -- character; a blank one is accepted as the empty text.
  pub color_or_validation_iff :
      (raw v : Text)
      → (color_or_validation show raw ≡ ok v) ↔ ((trim raw ≡ v) × FitsColor (trim raw))
  unfolding color_or_validation normalize_color
  color_or_validation_iff raw v = check_color_iff (trim raw) v
