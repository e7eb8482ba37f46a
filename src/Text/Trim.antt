-- ===== src/Text/Trim.antt =====
-- `str::trim` and its laws.
use core_swift_crm.Prelude.{◌≡◌, refl, false, ◌&&◌, [], ◌∷◌, arith, if◌then◌else◌, any}
use core_swift_crm.Text.{Text, is_empty, is_whitespace}

unfoldable pub trim_start : Text → Text
trim_start [] = []
trim_start (c ∷ s) = if is_whitespace c then trim_start s else c ∷ s

unfoldable pub trim_end : Text → Text
trim_end [] = []
trim_end (c ∷ s) =
    let rest = trim_end s in if is_empty rest && is_whitespace c then [] else c ∷ rest

unfoldable pub trim : Text → Text
unfolding trim_start trim_end
trim s = trim_end (trim_start s)

-- No character of the text is whitespace.
abbrev pub HasNoSpace : Text → Type 0
HasNoSpace s = any is_whitespace s ≡ false

trim_end_of_HasNoSpace : (s : Text) → HasNoSpace s → trim_end s ≡ s
unfolding trim_end
trim_end_of_HasNoSpace [] h = refl
trim_end_of_HasNoSpace (c ∷ s) h = ground (arith, trim_end_of_HasNoSpace s)

trim_start_of_HasNoSpace : (s : Text) → HasNoSpace s → trim_start s ≡ s
unfolding trim_start
trim_start_of_HasNoSpace [] h = refl
trim_start_of_HasNoSpace (c ∷ s) h = ground arith

pub trim_of_HasNoSpace : (s : Text) → HasNoSpace s → trim s ≡ s
unfolding trim
trim_of_HasNoSpace s h = rw (trim_start_of_HasNoSpace s h) (trim_end_of_HasNoSpace s h)

trim_end_idem : (s : Text) → trim_end (trim_end s) ≡ trim_end s
unfolding trim_end
trim_end_idem [] = refl
trim_end_idem (c ∷ s) = ground (arith, trim_end_idem s)

-- What `trim_start` stops at.
abbrev StartsSolid : Text → Type 0
StartsSolid [] = Unit
StartsSolid (c ∷ s) = is_whitespace c ≡ false

StartsSolid-trim_start : (s : Text) → StartsSolid (trim_start s)
unfolding trim_start
StartsSolid-trim_start [] = tt
StartsSolid-trim_start (c ∷ s) = ground (arith, StartsSolid-trim_start s)

trim_start_of_StartsSolid : (s : Text) → StartsSolid s → trim_start s ≡ s
unfolding trim_start
trim_start_of_StartsSolid [] h = refl
trim_start_of_StartsSolid (c ∷ s) h = rw h

StartsSolid-trim_end : (s : Text) → StartsSolid s → StartsSolid (trim_end s)
unfolding trim_end
StartsSolid-trim_end [] h = tt
StartsSolid-trim_end (c ∷ s) h = ground arith

-- Trimming twice is trimming once.
pub trim_idem : (s : Text) → trim (trim s) ≡ trim s
unfolding trim
trim_idem s =
    let solid = StartsSolid-trim_end (trim_start s) (StartsSolid-trim_start s) in
    rw (trim_start_of_StartsSolid (trim_end (trim_start s)) solid) (trim_end_idem (trim_start s))
