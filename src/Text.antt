-- ===== src/Text.antt =====
-- Rust's `str`, as the list of its code points, and the operations of the standard library that
-- the program uses on it.
pub mod Case
pub mod Dots
pub mod Equality
pub mod Prefix
pub mod Split
pub mod Trim
pub mod Utf8
use Prim.Native.Char.{code}
use core_swift_crm.Prelude.{
  ℕ, ◌+◌, String, Bool, true, false, ◌&&◌, ◌||◌, Option, none, some, List, [], ◌∷◌, leb, ltb, ◌==◌,
  if◌then◌else◌, any,
}

abbrev pub Text : Type 0
Text = List ℕ

-- The code points of a literal.
abbrev pub codes : String → Text
codes String.[] = []
codes (String.◌∷◌ c s) = code c ∷ codes s

abbrev pub is_empty : Text → Bool
is_empty [] = true
is_empty (c ∷ s) = false

abbrev pub in_range : ℕ → ℕ → ℕ → Bool
in_range lo hi c = leb lo c && leb c hi

-- `char::is_whitespace`: the code points with the property White_Space.
unfoldable pub is_whitespace : ℕ → Bool
is_whitespace c =
    in_range 9 13 c
    || c == 32
    || c == 0x85
    || c == 0xa0
    || c == 0x1680
    || in_range 0x2000 0x200a c
    || c == 0x2028
    || c == 0x2029
    || c == 0x202f
    || c == 0x205f
    || c == 0x3000

-- `char::is_control`: the general category Cc.
unfoldable pub is_control : ℕ → Bool
is_control c = ltb c 32 || in_range 127 159 c

unfoldable pub is_ascii_digit : ℕ → Bool
is_ascii_digit c = in_range b'0' b'9' c

-- `==` on `&str`.
unfoldable pub text_eq : Text → Text → Bool
text_eq [] [] = true
text_eq (a ∷ s) (b ∷ t) = a == b && text_eq s t
text_eq _ _ = false

-- `s.starts_with(prefix)`.
unfoldable pub starts_with : Text → Text → Bool
starts_with s [] = true
starts_with [] (p ∷ ps) = false
starts_with (c ∷ s) (p ∷ ps) = c == p && starts_with s ps

-- `s.strip_prefix(prefix)`.
unfoldable pub strip_prefix : Text → Text → Option Text
strip_prefix s [] = some s
strip_prefix [] (p ∷ ps) = none
strip_prefix (c ∷ s) (p ∷ ps) = let rest = strip_prefix s ps in if c == p then rest else none

-- `s.ends_with(suffix)`: some tail of `s`, `s` itself included, is the suffix.
unfoldable pub ends_with : Text → Text → Bool
ends_with [] suffix = is_empty suffix
ends_with (c ∷ s) suffix = text_eq (c ∷ s) suffix || ends_with s suffix

-- `s.contains(pattern)` for a text.
unfoldable pub contains : Text → Text → Bool
contains [] pattern_text = is_empty pattern_text
contains (c ∷ s) pattern_text = starts_with (c ∷ s) pattern_text || contains s pattern_text

-- `s.contains(ch)`, `s.starts_with(ch)`, `s.ends_with(ch)` for one character.
unfoldable pub contains_char : Text → ℕ → Bool
contains_char s ch = any (λ c. c == ch) s

unfoldable pub starts_with_char : Text → ℕ → Bool
starts_with_char [] ch = false
starts_with_char (c ∷ s) ch = c == ch

unfoldable pub ends_with_char : Text → ℕ → Bool
ends_with_char [] ch = false
ends_with_char (c ∷ s) ch = let rest = ends_with_char s ch in if is_empty s then c == ch else rest

-- `s.len()`: the bytes of the UTF-8 encoding.
unfoldable pub utf8_width : ℕ → ℕ
utf8_width c = if ltb c 0x80 then 1 else if ltb c 0x800 then 2 else if ltb c 0x10000 then 3 else 4

unfoldable pub byte_len : Text → ℕ
unfolding utf8_width
byte_len [] = 0
byte_len (c ∷ s) = utf8_width c + byte_len s
