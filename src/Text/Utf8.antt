-- ===== src/Text/Utf8.antt =====
-- `str::as_bytes` and `String::from_utf8`: the UTF-8 encoding of a text.
use core_swift_crm.Prelude.{
  ℕ, zero, suc, ◌+◌, ◌-◌, ◌*◌, ◌/◌, ◌%◌, ◌≡◌, Bool, true, false, ◌&&◌, ◌||◌, Option, none, some,
  List, [], ◌∷◌, refl, ltb, leb, if◌then◌else◌, arith, All, Bool-cases, inl, inr,
}
use core_swift_crm.Text.{Text, in_range}

abbrev pub Bytes : Type 0
Bytes = List ℕ

-- A `char` is a Unicode scalar value.
abbrev pub is_scalar : ℕ → Bool
is_scalar c = ltb c 0xd800 || in_range 0xe000 0x10ffff c

abbrev pub IsStr : Text → Type 0
IsStr s = All (λ c. is_scalar c ≡ true) s

abbrev pub continuation : ℕ → ℕ
continuation c = 0x80 + c % 64

unfoldable pub char_bytes : ℕ → Bytes → Bytes
char_bytes c rest =
    if ltb c 0x80
    then c ∷ rest
    else if ltb c 0x800
    then (0xc0 + c / 64) ∷ continuation c ∷ rest
    else if ltb c 0x10000
    then (0xe0 + c / 4096) ∷ continuation (c / 64) ∷ continuation c ∷ rest
    else (0xf0 + c / 262144)
      ∷ continuation (c / 4096)
      ∷ continuation (c / 64)
      ∷ continuation c
      ∷ rest

unfoldable pub as_bytes : Text → Bytes
unfolding char_bytes
as_bytes [] = []
as_bytes (c ∷ s) = char_bytes c (as_bytes s)

-- What a first byte announces: itself, or a number of further bytes with the least code point of
-- that length and the bits so far.
pub data Lead : Type 0 where
  ascii invalid : Lead
  more : ℕ → ℕ → ℕ → Lead

unfoldable pub lead : ℕ → Lead
lead b =
    if ltb b 0x80
    then ascii
    else if in_range 0xc2 0xdf b
    then more 1 0x80 (b - 0xc0)
    else if in_range 0xe0 0xef b
    then more 2 0x800 (b - 0xe0)
    else if in_range 0xf0 0xf4 b
    then more 3 0x10000 (b - 0xf0)
    else invalid

abbrev pub push : ℕ → Option Text → Option Text
push c none = none
push c (some s) = some (c ∷ s)

unfoldable pub decode_from : ℕ → ℕ → ℕ → Bytes → Option Text
unfolding lead
decode_from zero lo acc [] = some []
decode_from (suc n) lo acc [] = none
decode_from zero lo acc (b ∷ bs) = elim (lead b) [
  | ascii ↦ push b (decode_from zero 0 0 bs)
  | more n lo acc ↦ decode_from n lo acc bs
  | invalid ↦ none
]
decode_from (suc zero) lo acc (b ∷ bs) =
    let c = acc * 64 + b % 64 in
    elim (in_range 0x80 0xbf b && leb lo c && is_scalar c) [
      | true ↦ push c (decode_from zero 0 0 bs)
      | false ↦ none
    ]
decode_from (suc (suc n)) lo acc (b ∷ bs) = elim (in_range 0x80 0xbf b) [
  | true ↦ decode_from (suc n) lo (acc * 64 + b % 64) bs
  | false ↦ none
]

unfoldable pub from_utf8 : Bytes → Option Text
unfolding decode_from
from_utf8 bs = decode_from zero 0 0 bs

char_round_trip :
    (c : ℕ) (rest : Bytes)
    → is_scalar c ≡ true
    → decode_from zero 0 0 (char_bytes c rest) ≡ push c (decode_from zero 0 0 rest)
unfolding decode_from char_bytes lead
char_round_trip c rest h = ground arith

-- What is encoded is decoded to the same text.
pub from_utf8-as_bytes : (s : Text) → IsStr s → from_utf8 (as_bytes s) ≡ some s
unfolding from_utf8 as_bytes decode_from
from_utf8-as_bytes [] h = refl
from_utf8-as_bytes (c ∷ s) h =
    ground (arith, char_round_trip c (as_bytes s) h.0, from_utf8-as_bytes s h.1)

push-IsStr :
    (c : ℕ) (r : Option Text) (s : Text)
    → is_scalar c ≡ true
    → ((t : Text) → r ≡ some t → IsStr t)
    → push c r ≡ some s
    → IsStr s
push-IsStr c none s h rest e = absurd (cc e)
push-IsStr c (some t) s h rest e = let here = rest t refl in ground (arith, e, h, here)

lead-ascii : (b : ℕ) → lead b ≡ ascii → is_scalar b ≡ true
unfolding lead
lead-ascii b h = ground arith

abbrev DecodesToStr : Bytes → Type 0
DecodesToStr bs = (n lo acc : ℕ) (s : Text) → decode_from n lo acc bs ≡ some s → IsStr s

module _ (bs : Bytes) (rest : DecodesToStr bs) (s : Text) where
  started-IsStr :
      (b : ℕ) (l : Lead)
      → lead b ≡ l
      → elim l [
        | ascii ↦ push b (decode_from zero 0 0 bs)
        | more n lo acc ↦ decode_from n lo acc bs
        | invalid ↦ none
      ]
        ≡ some s
      → IsStr s
  started-IsStr b ascii e k =
      push-IsStr b (decode_from zero 0 0 bs) s (lead-ascii b e) (rest zero 0 0) k
  started-IsStr b (more n lo acc) e k = rest n lo acc s k
  started-IsStr b invalid e k = absurd (cc k)

  finished-IsStr :
      (t u : Bool) (c : ℕ)
      → elim (t && u && is_scalar c) [ true ↦ push c (decode_from zero 0 0 bs) | false ↦ none ]
        ≡ some s
      → IsStr s
  finished-IsStr t u c k = elim (Bool-cases (is_scalar c)) [
    | inl e ↦ push-IsStr c (decode_from zero 0 0 bs) s e (rest zero 0 0) (ground (arith, k, e))
    | inr e ↦ absurd (ground (arith, k, e))
  ]

  continued-IsStr :
      (t : Bool) (n lo acc : ℕ)
      → elim t [ true ↦ decode_from n lo acc bs | false ↦ none ] ≡ some s
      → IsStr s
  continued-IsStr true n lo acc k = rest n lo acc s k
  continued-IsStr false n lo acc k = absurd (cc k)

decode_from-IsStr : (bs : Bytes) → DecodesToStr bs
unfolding decode_from
decode_from-IsStr [] zero lo acc s h = ground arith
decode_from-IsStr [] (suc zero) lo acc s h = cc
decode_from-IsStr [] (suc (suc n)) lo acc s h = cc
decode_from-IsStr (b ∷ bs) zero lo acc s h =
    started-IsStr bs (decode_from-IsStr bs) s b (lead b) refl h
decode_from-IsStr (b ∷ bs) (suc zero) lo acc s h =
    let c = acc * 64 + b % 64 in
    finished-IsStr bs (decode_from-IsStr bs) s (in_range 0x80 0xbf b) (leb lo c) c h
decode_from-IsStr (b ∷ bs) (suc (suc n)) lo acc s h =
    continued-IsStr bs (decode_from-IsStr bs) s (in_range 0x80 0xbf b) (suc n) lo
      (acc * 64 + b % 64) h

-- What is decoded is a text.
pub from_utf8-IsStr : (bs : Bytes) (s : Text) → from_utf8 bs ≡ some s → IsStr s
unfolding from_utf8
from_utf8-IsStr bs s h = decode_from-IsStr bs zero 0 0 s h
