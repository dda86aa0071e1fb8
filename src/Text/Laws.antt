-- ===== src/Text/Laws.antt =====
-- Laws of the text functions.
use mechmind.Base.{ℕ, ◌≡◌, ◌↔◌, refl, ap, true, ◌∷◌, [], ◌++◌, arith}
use mechmind.Text.{Text, text_eq, upper, to_upper}

text_eq-eq : (s t : Text) → text_eq s t ≡ true → s ≡ t
unfolding text_eq
text_eq-eq [] [] h = refl
text_eq-eq [] (d ∷ t) h = cc
text_eq-eq (c ∷ s) [] h = cc
text_eq-eq (c ∷ s) (d ∷ t) h = ground (arith, text_eq-eq s t)

pub text_eq_refl : (s : Text) → text_eq s s ≡ true
unfolding text_eq
text_eq_refl [] = refl
text_eq_refl (c ∷ s) = ground (arith, text_eq_refl s)

eq-text_eq : (s t : Text) → s ≡ t → text_eq s t ≡ true
eq-text_eq s t e = rw e (text_eq_refl t)

-- The test decides equality.
pub text_eq_iff : (s t : Text) → (text_eq s t ≡ true) ↔ (s ≡ t)
text_eq_iff s t = (text_eq-eq s t, eq-text_eq s t)

upper_idem : (c : ℕ) → upper (upper c) ≡ upper c
unfolding upper
upper_idem c = ground arith

pub to_upper_idem : (s : Text) → to_upper (to_upper s) ≡ to_upper s
unfolding to_upper
to_upper_idem [] = refl
to_upper_idem (c ∷ s) = cc (upper_idem c, to_upper_idem s)

pub to_upper-append : (s t : Text) → to_upper (s ++ t) ≡ to_upper s ++ to_upper t
unfolding to_upper
to_upper-append [] t = refl
to_upper-append (c ∷ s) t = ap (λ r. upper c ∷ r) (to_upper-append s t)
