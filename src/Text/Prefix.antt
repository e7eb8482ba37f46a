-- ===== src/Text/Prefix.antt =====
-- `strip_prefix` and `starts_with` say how a text begins.
use core_swift_crm.Prelude.{◌≡◌, ◌↔◌, refl, some, [], ◌∷◌, ◌++◌, arith}
use core_swift_crm.Text.{Text, strip_prefix}

strip_prefix-eq-some : (s p t : Text) → strip_prefix s p ≡ some t → s ≡ p ++ t
unfolding strip_prefix
strip_prefix-eq-some s [] t h = ground arith
strip_prefix-eq-some [] (p ∷ ps) t h = cc
strip_prefix-eq-some (c ∷ s) (p ∷ ps) t h = ground (arith, strip_prefix-eq-some s ps t)

strip_prefix-append : (p t : Text) → strip_prefix (p ++ t) p ≡ some t
unfolding strip_prefix
strip_prefix-append [] t = refl
strip_prefix-append (c ∷ p) t = ground (arith, strip_prefix-append p t)

-- A prefix is stripped exactly when the text is the prefix followed by the rest.
pub strip_prefix_iff : (s p t : Text) → (strip_prefix s p ≡ some t) ↔ (s ≡ p ++ t)
strip_prefix_iff s p t = (strip_prefix-eq-some s p t, λ e. rw e (strip_prefix-append p t))
