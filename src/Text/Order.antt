-- ===== src/Text/Order.antt =====
-- Equality of texts.
use nomai.Base.{ℕ, ◌≡◌, refl, ◌↔◌, true, false, ◌||◌, [], ◌∷◌, ◌++◌, arith}
use nomai.Text.{Text, text_eq, text_lt, contains}

pub text_eq_iff : (s t : Text) → (text_eq s t ≡ true) ↔ (s ≡ t)
unfolding text_eq
text_eq_iff (a ∷ s) (b ∷ t) = ground (arith, text_eq_iff s t)
text_eq_iff _ _ = ground arith

pub text_eq_refl : (s : Text) → text_eq s s ≡ true
text_eq_refl s = (text_eq_iff s s).1 refl

pub contains-append : (x : ℕ) (s t : Text) → contains x (s ++ t) ≡ (contains x s || contains x t)
unfolding contains
contains-append x [] t = refl
contains-append x (c ∷ s) t = ground (arith, contains-append x s t)

-- The order of texts.
pub text_lt_asym : (s t : Text) → text_lt s t ≡ true → text_lt t s ≡ false
unfolding text_lt
text_lt_asym s [] h = cc
text_lt_asym [] (d ∷ t) h = refl
text_lt_asym (c ∷ s) (d ∷ t) h = ground (arith, text_lt_asym s t, h)

pub text_lt_late : (s t u : Text) → text_lt t s ≡ false → text_lt u t ≡ false → text_lt u s ≡ false
unfolding text_lt
text_lt_late [] t u h k = refl
text_lt_late (c ∷ s) [] u h k = cc
text_lt_late (c ∷ s) (d ∷ t) [] h k = cc
text_lt_late (c ∷ s) (d ∷ t) (e ∷ u) h k = ground (arith, text_lt_late s t u, h, k)

pub text_lt_same : (s t : Text) → text_lt s t ≡ false → text_lt t s ≡ false → s ≡ t
unfolding text_lt
text_lt_same [] [] h k = refl
text_lt_same [] (d ∷ t) h k = cc
text_lt_same (c ∷ s) [] h k = cc
text_lt_same (c ∷ s) (d ∷ t) h k = ground (arith, text_lt_same s t, h, k)

pub text_lt_irrefl : (s : Text) → text_lt s s ≡ false
unfolding text_lt
text_lt_irrefl [] = refl
text_lt_irrefl (c ∷ s) = ground (arith, text_lt_irrefl s)

pub text_lt_trans : (s t u : Text) → text_lt s t ≡ true → text_lt t u ≡ true → text_lt s u ≡ true
unfolding text_lt
text_lt_trans s [] u h k = cc
text_lt_trans s (d ∷ t) [] h k = cc
text_lt_trans [] (d ∷ t) (e ∷ u) h k = refl
text_lt_trans (c ∷ s) (d ∷ t) (e ∷ u) h k = ground (arith, text_lt_trans s t u, h, k)
