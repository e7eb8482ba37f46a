-- ===== src/Security/TagName.antt =====
-- security/tag_name.rs: the names and colours of tags. A reason is the text of the refusal.
pub mod Checked
mod Tests
use Prim.Native.String
use core_swift_crm.Prelude.{ℕ, String, Result, ok, err, length, any, ltb, if◌then◌else◌}
use core_swift_crm.Errors.{AppError, validation}
use core_swift_crm.Text.{Text, is_empty, is_control}
use core_swift_crm.Text.Trim.{trim}

abbrev pub max_tag_name_chars : ℕ
max_tag_name_chars = 100

abbrev pub max_tag_color_chars : ℕ
max_tag_color_chars = 7

infixr 60 ◌^◌
abbrev ◌^◌ : String → String → String
a ^ b = String.◌++◌ a b

-- `show` prints a number.
module _ (show : ℕ → String) where
  check_capped : Text → ℕ → String → Result Text String
  check_capped value max_chars label =
      if is_empty value
      then err (label ^ ": is required")
      else if ltb max_chars (length value)
      then err (label ^ ": is longer than " ^ show max_chars ^ " characters")
      else if any is_control value
      then err (label ^ ": must not contain control characters")
      else ok value

  pub normalize_capped : Text → ℕ → String → Result Text String
  unfolding check_capped
  normalize_capped raw max_chars label = check_capped (trim raw) max_chars label

  pub normalize : Text → Result Text String
  unfolding normalize_capped
  normalize raw = normalize_capped raw max_tag_name_chars "name"

  check_color : Text → Result Text String
  check_color value =
      if ltb max_tag_color_chars (length value)
      then err ("color: is longer than " ^ show max_tag_color_chars ^ " characters")
      else if any is_control value
      then err "color: must not contain control characters"
      else ok value

  pub normalize_color : Text → Result Text String
  unfolding check_color
  normalize_color raw = check_color (trim raw)

abbrev or_validation : Result Text String → Result Text AppError
or_validation (ok v) = ok v
or_validation (err reason) = err (validation reason)

pub normalize_or_validation : (ℕ → String) → Text → Result Text AppError
unfolding normalize
normalize_or_validation show raw = or_validation (normalize show raw)

pub color_or_validation : (ℕ → String) → Text → Result Text AppError
unfolding normalize_color
color_or_validation show raw = or_validation (normalize_color show raw)
