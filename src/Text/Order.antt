-- ===== src/Text/Order.antt =====
-- Equality and order of texts.
use lark_utils_exp.Prelude.{
  ◌⊎◌, inl, inr, lt, gt, Ordering, ◌≡◌, refl, ◌↔◌, [], ◌∷◌, true, eq, arith,
}
use lark_utils_exp.Text.{Text, text_eq, text_compare}

pub eq_of_text_eq : (s t : Text) → text_eq s t ≡ true → s ≡ t
unfolding text_eq
eq_of_text_eq [] [] h = refl
eq_of_text_eq [] (d ∷ t) h = cc
eq_of_text_eq (c ∷ s) [] h = cc
eq_of_text_eq (c ∷ s) (d ∷ t) h = ground (arith, eq_of_text_eq s t)

pub text_eq_refl : (s : Text) → text_eq s s ≡ true
unfolding text_eq
text_eq_refl [] = refl
text_eq_refl (c ∷ s) = ground (arith, text_eq_refl s)

pub text_eq_iff : (s t : Text) → (text_eq s t ≡ true) ↔ (s ≡ t)
text_eq_iff s t = (eq_of_text_eq s t, λ e. ground (arith, text_eq_refl s))

pub eq_of_text_compare : (s t : Text) → text_compare s t ≡ eq → s ≡ t
unfolding text_compare
eq_of_text_compare [] [] h = refl
eq_of_text_compare [] (d ∷ t) h = cc
eq_of_text_compare (c ∷ s) [] h = cc
eq_of_text_compare (c ∷ s) (d ∷ t) h = ground (arith, eq_of_text_compare s t)

pub text_compare_refl : (s : Text) → text_compare s s ≡ eq
unfolding text_compare
text_compare_refl [] = refl
text_compare_refl (c ∷ s) = ground (arith, text_compare_refl s)

pub text_compare_of_eq : (s t : Text) → s ≡ t → text_compare s t ≡ eq
text_compare_of_eq s t e = rw e (text_compare_refl t)

pub text_compare_swap : (s t : Text) → text_compare s t ≡ gt → text_compare t s ≡ lt
unfolding text_compare
text_compare_swap [] [] h = cc
text_compare_swap [] (d ∷ t) h = cc
text_compare_swap (c ∷ s) [] h = refl
text_compare_swap (c ∷ s) (d ∷ t) h = ground (arith, text_compare_swap s t)

pub text_compare_trans :
    (r s t : Text) → text_compare r s ≡ lt → text_compare s t ≡ lt → text_compare r t ≡ lt
unfolding text_compare
text_compare_trans [] [] [] h k = cc
text_compare_trans [] (d ∷ s) [] h k = cc
text_compare_trans [] [] (e ∷ t) h k = refl
text_compare_trans [] (d ∷ s) (e ∷ t) h k = refl
text_compare_trans (c ∷ r) [] t h k = cc
text_compare_trans (c ∷ r) (d ∷ s) [] h k = cc
text_compare_trans (c ∷ r) (d ∷ s) (e ∷ t) h k = ground (arith, text_compare_trans r s t)

pub text_compare_cases :
    (s t : Text) → (text_compare s t ≡ lt) ⊎ ((text_compare s t ≡ eq) ⊎ (text_compare s t ≡ gt))
text_compare_cases s t = order_cases (text_compare s t)
  where
    order_cases : (o : Ordering) → (o ≡ lt) ⊎ ((o ≡ eq) ⊎ (o ≡ gt))
    order_cases lt = inl refl
    order_cases eq = inr (inl refl)
    order_cases gt = inr (inr refl)
