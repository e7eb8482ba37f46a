-- ===== src/Auth/RoutePolicy/Matching.antt =====
-- What `matches_template` compares, and when two templates can match one path.
use core_swift_crm.Prelude.{
  ◌≡◌, refl, Bool, true, false, ◌&&◌, ◌||◌, not, List, [], ◌∷◌, arith, if◌then◌else◌, length,
}
use core_swift_crm.Text.{Text, codes, is_empty, text_eq, starts_with, strip_prefix}
use core_swift_crm.Text.Equality.{text_eq-eq, text_eq_self}
use core_swift_crm.Text.Split.{split}
use core_swift_crm.Auth.RoutePolicy.{segment_matches, segments_match, matches_template}

unfoldable pub is_param : Text → Bool
is_param seg = starts_with seg (codes ":")

-- Could some segment match both?
unfoldable pub segments_meet : Text → Text → Bool
segments_meet a b =
    if is_param a
    then is_param b || not (is_empty b)
    else if is_param b
    then not (is_empty a)
    else text_eq a b

unfoldable pub overlap : List Text → List Text → Bool
overlap [] [] = true
overlap (a ∷ as') (b ∷ bs) = segments_meet a b && overlap as' bs
overlap _ _ = false

pub segment_matches_lem :
    (t p : Text) → segment_matches t p ≡ (if is_param t then not (is_empty p) else text_eq t p)
unfolding segment_matches is_param strip_prefix starts_with
segment_matches_lem [] p = refl
segment_matches_lem (c ∷ t) p = ground arith

segments_meet_sound :
    (a b p : Text)
    → segment_matches a p ≡ true
    → segment_matches b p ≡ true
    → segments_meet a b ≡ true
unfolding segments_meet
segments_meet_sound a b p h k = ground (
  arith,
  segment_matches_lem a p,
  segment_matches_lem b p,
  text_eq-eq a p,
  text_eq-eq b p,
  text_eq_self p,
)

-- The two sides of `matches_template`: the same number of segments, pair by pair.
overlap_sound :
    (as' bs ps : List Text)
    → length as' ≡ length ps
    → length bs ≡ length ps
    → segments_match as' ps ≡ true
    → segments_match bs ps ≡ true
    → overlap as' bs ≡ true
unfolding overlap segments_match
overlap_sound [] [] ps la lb h k = refl
overlap_sound [] (b ∷ bs) ps la lb h k = absurd (omega arith)
overlap_sound (a ∷ as') [] ps la lb h k = absurd (omega arith)
overlap_sound (a ∷ as') (b ∷ bs) [] la lb h k = absurd (omega arith)
overlap_sound (a ∷ as') (b ∷ bs) (p ∷ ps) la lb h k =
    ground (arith, segments_meet_sound a b p, overlap_sound as' bs ps)

pub matches_template-eq-true :
    (t p : Text)
    → matches_template t p ≡ true
    → (length (split b'/' t) ≡ length (split b'/' p))
      × (segments_match (split b'/' t) (split b'/' p) ≡ true)
unfolding matches_template
matches_template-eq-true t p h = (ground arith, ground arith)

pub matches_overlap :
    (a b p : Text)
    → matches_template a p ≡ true
    → matches_template b p ≡ true
    → overlap (split b'/' a) (split b'/' b) ≡ true
matches_overlap a b p h k =
    let (la, ma) = matches_template-eq-true a p h in
    let (lb, mb) = matches_template-eq-true b p k in
    overlap_sound (split b'/' a) (split b'/' b) (split b'/' p) la lb ma mb
