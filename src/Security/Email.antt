-- ===== src/Security/Email.antt =====
-- security/email_addr.rs: the one check of an address before `users.email` is written.
-- `fold` is the Unicode part of `str::to_lowercase`. A reason is the text of the refusal.
pub mod Laws
mod Tests
use core_swift_crm.Prelude.{
  ℕ, String, Bool, ◌||◌, not, Option, none, some, ltb, if◌then◌else◌, any, Result, ok, err,
}
use core_swift_crm.Text.{
  Text, is_empty, codes, is_whitespace, is_control, byte_len, contains, contains_char,
  starts_with_char, ends_with_char,
}
use core_swift_crm.Text.Case.{to_lowercase}
use core_swift_crm.Text.Split.{split, split_once}
use core_swift_crm.Text.Trim.{trim}

abbrev pub max_address_len : ℕ
max_address_len = 254

pub has_hyphen_edge : Text → Bool
has_hyphen_edge label = starts_with_char label b'-' || ends_with_char label b'-'

check_domain : Text → Text → Text → Result Text String
unfolding has_hyphen_edge
check_domain value local domain =
    if is_empty domain
    then err "email: is missing the domain after @"
    else if not (contains_char domain b'.')
    then err "email: domain must contain a dot (e.g. example.com)"
    else if starts_with_char domain b'.'
        || ends_with_char domain b'.'
        || any is_empty (split b'.' domain)
    then err "email: domain has an empty dot-separated part"
    else if any has_hyphen_edge (split b'.' domain)
    then err "email: a part of the domain starts or ends with a hyphen"
    else if contains_char domain b'[' || contains_char domain b']'
    then err "email: the domain must be a name, not a bracketed address"
    else if contains_char local 34
    then err "email: must not contain quote marks"
    else ok value

check_parts : Text → Option (Text × Text) → Result Text String
unfolding check_domain
check_parts value none = err "email: must look like name@example.com"
check_parts value (some (local, domain)) =
    if contains_char domain b'@'
    then err "email: must contain exactly one @"
    else if is_empty local
    then err "email: is missing the part before @"
    else if starts_with_char local b'.' || ends_with_char local b'.' || contains local (codes "..")
    then err "email: has an empty dot-separated part before @"
    else check_domain value local domain

pub is_unprintable : ℕ → Bool
is_unprintable c = is_whitespace c || is_control c

check_value : Text → Result Text String
unfolding check_parts is_unprintable
check_value value =
    if is_empty value
    then err "email: is required"
    else if ltb max_address_len (byte_len value)
    then err "email: is longer than 254 characters"
    else if any is_unprintable value
    then err "email: must not contain whitespace or control characters"
    else check_parts value (split_once b'@' value)

module _ (fold : Text → Text) where
  unfoldable pub normalize : Text → Result Text String
  unfolding check_value
  normalize raw = check_value (to_lowercase fold (trim raw))

  -- The readers' form of an address, which refuses nothing.
  unfoldable pub lookup_key : Text → Text
  lookup_key raw = to_lowercase fold (trim raw)
