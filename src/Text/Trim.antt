-- ===== src/Text/Trim.antt =====
-- Trimming, and splitting at the first character that passes a test.
use nomai.Base.{
  ℕ, ◌≤◌, ◌≡◌, refl, ap, Bool, true, false, not, ◌&&◌, [], ◌∷◌, ◌++◌, arith, is_empty, All,
}
use nomai.Text.{
  Text, is_whitespace, trim, trim_start, trim_end, trim_start_matches, before, from, starts_with,
  ends_with, contains, len,
}

is_empty-concat : (s : Text) (x : ℕ) → is_empty (s ++ x ∷ []) ≡ false
is_empty-concat [] x = refl
is_empty-concat (c ∷ s) x = refl

pub trim_end-concat :
    (s : Text) (x : ℕ) → is_whitespace x ≡ false → trim_end (s ++ x ∷ []) ≡ s ++ x ∷ []
unfolding trim_end
trim_end-concat [] x h = rw h
trim_end-concat (c ∷ s) x h = ground (arith, trim_end-concat s x, is_empty-concat s x)

pub is_empty-append : (s t : Text) → is_empty t ≡ false → is_empty (s ++ t) ≡ false
is_empty-append [] t h = h
is_empty-append (c ∷ s) t h = refl

-- A text that ends in a trimmed one is trimmed at its end.
pub trim_end-append :
    (s t : Text) → is_empty t ≡ false → trim_end t ≡ t → trim_end (s ++ t) ≡ s ++ t
unfolding trim_end
trim_end-append [] t h e = e
trim_end-append (c ∷ s) t h e = ground (arith, trim_end-append s t h e, is_empty-append s t h)

pub trim_start_lem : (c : ℕ) (s : Text) → is_whitespace c ≡ false → trim (c ∷ s) ≡ trim_end (c ∷ s)
unfolding trim
trim_start_lem c s h = ground arith

-- A text between two characters that are no white space is trimmed already.
pub trim_closed :
    (a b : ℕ) (s : Text)
    → is_whitespace a ≡ false
    → is_whitespace b ≡ false
    → trim (a ∷ (s ++ b ∷ [])) ≡ a ∷ (s ++ b ∷ [])
unfolding trim
trim_closed a b s h k = rw h (trim_end-concat (a ∷ s) b k)

-- A test for texts without white space.
unfoldable pub is_solid : Text → Bool
is_solid [] = true
is_solid (c ∷ s) = not (is_whitespace c) && is_solid s

pub is_solid-All : (s : Text) → is_solid s ≡ true → All (λ c. is_whitespace c ≡ false) s
unfolding is_solid
is_solid-All [] h = tt
is_solid-All (c ∷ s) h = (ground arith, is_solid-All s (ground arith))

-- So is one without white space.
pub trim_end_solid : (s : Text) → All (λ c. is_whitespace c ≡ false) s → trim_end s ≡ s
unfolding trim_end
trim_end_solid [] h = refl
trim_end_solid (c ∷ s) h = ground (arith, trim_end_solid s h.1)

pub trim_solid : (s : Text) → All (λ c. is_whitespace c ≡ false) s → trim s ≡ s
unfolding trim
trim_solid [] h = refl
trim_solid (c ∷ s) h = rw h.0 (trim_end_solid (c ∷ s) h)

pub trim_start_matches_lem :
    (x : ℕ) (s : Text) → starts_with x s ≡ false → trim_start_matches x s ≡ s
unfolding trim_start_matches
trim_start_matches_lem x [] h = refl
trim_start_matches_lem x (c ∷ s) h = rw h

pub ends_with-concat : (x : ℕ) (s : Text) → ends_with x (s ++ x ∷ []) ≡ true
ends_with-concat x [] = ground arith
ends_with-concat x (c ∷ []) = ground arith
ends_with-concat x (c ∷ d ∷ s) = ends_with-concat x (d ∷ s)

pub len-pos : (s : Text) (x : ℕ) → 1 ≤ len (s ++ x ∷ [])
unfolding len
len-pos [] x = ground arith
len-pos (c ∷ s) x = omega (arith, len-pos s x)

-- Trimming adds nothing.
contains-trim_start : (x : ℕ) (s : Text) → contains x s ≡ false → contains x (trim_start s) ≡ false
unfolding trim_start contains
contains-trim_start x [] h = refl
contains-trim_start x (c ∷ s) h = ground (arith, contains-trim_start x s)

contains-trim_end : (x : ℕ) (s : Text) → contains x s ≡ false → contains x (trim_end s) ≡ false
unfolding trim_end contains
contains-trim_end x [] h = refl
contains-trim_end x (c ∷ s) h = ground (arith, contains-trim_end x s)

pub contains-trim : (x : ℕ) (s : Text) → contains x s ≡ false → contains x (trim s) ≡ false
unfolding trim
contains-trim x s h = contains-trim_end x (trim_start s) (contains-trim_start x s h)

pub starts_with_of_contains : (x : ℕ) (s : Text) → contains x s ≡ false → starts_with x s ≡ false
unfolding contains
starts_with_of_contains x [] h = refl
starts_with_of_contains x (c ∷ s) h = ground arith

module _ (p : ℕ → Bool) where
  pub before-append :
      (k : Text) (x : ℕ) (v : Text)
      → All (λ c. p c ≡ false) k
      → p x ≡ true
      → before p (k ++ (x ∷ v)) ≡ k
  unfolding before
  before-append [] x v h e = rw e
  before-append (c ∷ k) x v h e = rw h.0 (ap (◌∷◌ c) (before-append k x v h.1 e))

  pub from-append :
      (k : Text) (x : ℕ) (v : Text)
      → All (λ c. p c ≡ false) k
      → p x ≡ true
      → from p (k ++ (x ∷ v)) ≡ x ∷ v
  unfolding from
  from-append [] x v h e = rw e
  from-append (c ∷ k) x v h e = rw h.0 (from-append k x v h.1 e)

  pub before-All : (k : Text) → All (λ c. p c ≡ false) k → before p k ≡ k
  unfolding before
  before-All [] h = refl
  before-All (c ∷ k) h = rw h.0 (ap (◌∷◌ c) (before-All k h.1))

  pub from-All : (k : Text) → All (λ c. p c ≡ false) k → from p k ≡ []
  unfolding from
  from-All [] h = refl
  from-All (c ∷ k) h = rw h.0 (from-All k h.1)
