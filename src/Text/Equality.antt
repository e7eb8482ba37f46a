-- ===== src/Text/Equality.antt =====
-- `==` on texts decides equality.
use core_swift_crm.Prelude.{◌≡◌, ◌↔◌, refl, true, [], ◌∷◌, arith}
use mathlib.Core.Path.{subst}
use core_swift_crm.Text.{Text, text_eq}

pub text_eq-eq : (s t : Text) → text_eq s t ≡ true → s ≡ t
unfolding text_eq
text_eq-eq [] [] h = refl
text_eq-eq [] (b ∷ t) h = cc
text_eq-eq (a ∷ s) [] h = cc
text_eq-eq (a ∷ s) (b ∷ t) h = ground (arith, text_eq-eq s t)

pub text_eq_self : (s : Text) → text_eq s s ≡ true
unfolding text_eq
text_eq_self [] = refl
text_eq_self (a ∷ s) = ground (arith, text_eq_self s)

pub text_eq_iff : (s t : Text) → (text_eq s t ≡ true) ↔ (s ≡ t)
text_eq_iff s t = (text_eq-eq s t, (λ e. subst (λ x. text_eq s x ≡ true) e (text_eq_self s)))
