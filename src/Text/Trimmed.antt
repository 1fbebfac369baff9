-- ===== src/Text/Trimmed.antt =====
-- What trimmed texts begin and end with.
use nomai.Base.{
  ℕ, ◌≤◌, ◌≡◌, refl, sym, ap, ◌∙◌, inl, inr, true, false, ◌&&◌, [], ◌∷◌, arith, is_empty, length,
  ◌==◌, Bool-cases,
}
use nomai.Text.{Text, is_whitespace, trim, trim_start, trim_end, starts_with, ends_with}

nil_ne : {c : ℕ} {s : Text} → [] ≡ c ∷ s → ⊥
nil_ne h = cc

tail_path : {c d : ℕ} {s t : Text} → c ∷ s ≡ d ∷ t → s ≡ t
tail_path h = cc

trim_end_idem : (s : Text) → trim_end (trim_end s) ≡ trim_end s
unfolding trim_end
trim_end_idem [] = refl
trim_end_idem (c ∷ s) = ground (arith, trim_end_idem s)

length-trim_end-le : (s : Text) → length (trim_end s) ≤ length s
unfolding trim_end
length-trim_end-le [] = omega arith
length-trim_end-le (c ∷ s) = ground (arith, length-trim_end-le s)

length-trim_start-le : (s : Text) → length (trim_start s) ≤ length s
unfolding trim_start
length-trim_start-le [] = omega arith
length-trim_start-le (c ∷ s) = ground (arith, length-trim_start-le s)

trim_end-trim : (s : Text) → trim_end (trim s) ≡ trim s
unfolding trim
trim_end-trim s = trim_end_idem (trim_start s)

-- What is trimmed already begins and ends with no white space.
pub trim_end_of_trim : (s : Text) → trim s ≡ s → trim_end s ≡ s
trim_end_of_trim s h = ap trim_end (sym h) ∙ trim_end-trim s ∙ h

trim_cons_space : (c : ℕ) (s : Text) → is_whitespace c ≡ true → length (trim (c ∷ s)) ≤ length s
unfolding trim
trim_cons_space c s h =
    rw (h, trim_start) (omega (arith, length-trim_end-le (trim_start s), length-trim_start-le s))

pub starts_with_of_trim :
    (x : ℕ) (s : Text) → is_whitespace x ≡ true → trim s ≡ s → starts_with x s ≡ false
starts_with_of_trim x [] w h = refl
starts_with_of_trim x (c ∷ s) w h = elim (Bool-cases (c == x)) [
  | inl q ↦
      let e : c ≡ x = ground arith in
      absurd (omega (arith, trim_cons_space c s (rw e w), ap length h))
  | inr q ↦ q
]

shorter : (c : ℕ) (s : Text) → trim_end (c ∷ s) ≡ c ∷ s → trim_end s ≡ s
unfolding trim_end
shorter c s h = elim (Bool-cases (is_whitespace c && is_empty (trim_end s))) [
  | inl q ↦ absurd (nil_ne (rw (q, trim_end) at h))
  | inr q ↦ tail_path (rw (q, trim_end) at h)
]

pub ends_with_of_trim_end :
    (x : ℕ) (s : Text) → is_whitespace x ≡ true → trim_end s ≡ s → ends_with x s ≡ false
unfolding trim_end
ends_with_of_trim_end x [] w h = refl
ends_with_of_trim_end x (c ∷ []) w h = elim (Bool-cases (c == x)) [
  | inl q ↦ let e : c ≡ x = ground arith in ground arith
  | inr q ↦ q
]
ends_with_of_trim_end x (c ∷ d ∷ s) w h = ends_with_of_trim_end x (d ∷ s) w (shorter c (d ∷ s) h)
