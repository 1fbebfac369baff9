-- ===== src/Text/Lines.antt =====
-- Joining lines and splitting them again.
use nomai.Base.{ℕ, ◌≡◌, refl, ap, false, none, some, List, [], ◌∷◌, ◌++◌, map, arith, All}
use nomai.Text.{
  Text, contains, ends_with, strip_suffix, split_inclusive, strip_line, lines, unlines,
}

-- A line that `str::lines` gives back as it is: no "\n" in it, and no "\r" at its end.
pub record IsLine (l : Text) : Type 0 where
  pub no_newline : contains b'\n' l ≡ false
  pub no_return : ends_with b'\r' l ≡ false

pub split_inclusive-append :
    (l r : Text)
    → contains b'\n' l ≡ false
    → split_inclusive (l ++ (b'\n' ∷ r)) ≡ (l ++ b'\n' ∷ []) ∷ split_inclusive r
unfolding split_inclusive contains
split_inclusive-append [] r h = refl
split_inclusive-append (c ∷ l) r h = ground (arith, split_inclusive-append l r)

pub strip_suffix-concat : (x : ℕ) (l : Text) → strip_suffix x (l ++ x ∷ []) ≡ some l
unfolding strip_suffix
strip_suffix-concat x [] = ground arith
strip_suffix-concat x (c ∷ []) = ground arith
strip_suffix-concat x (c ∷ d ∷ l) = rw (strip_suffix-concat x (d ∷ l))

pub strip_suffix-none : (x : ℕ) (l : Text) → ends_with x l ≡ false → strip_suffix x l ≡ none
unfolding strip_suffix
strip_suffix-none x [] h = refl
strip_suffix-none x (c ∷ []) h = rw h
strip_suffix-none x (c ∷ d ∷ l) h = rw (strip_suffix-none x (d ∷ l) h)

pub strip_line_lem : (l : Text) → IsLine l → strip_line (l ++ b'\n' ∷ []) ≡ l
unfolding strip_line
strip_line_lem l h =
    ground (arith, strip_suffix-concat b'\n' l, strip_suffix-none b'\r' l h.no_return)

pub split_inclusive-unlines :
    (ls : List Text) → All IsLine ls → split_inclusive (unlines ls) ≡ map (λ l. l ++ b'\n' ∷ []) ls
unfolding split_inclusive
split_inclusive-unlines [] h = refl
split_inclusive-unlines (l ∷ ls) h =
    rw (split_inclusive-append l (unlines ls) (h.0).no_newline)
      (ap (◌∷◌ (l ++ b'\n' ∷ [])) (split_inclusive-unlines ls h.1))

strip_lines : (ls : List Text) → All IsLine ls → map strip_line (map (λ l. l ++ b'\n' ∷ []) ls) ≡ ls
strip_lines [] h = refl
strip_lines (l ∷ ls) h = rw (strip_line_lem l h.0, strip_lines ls h.1)

pub lines-unlines : (ls : List Text) → All IsLine ls → lines (unlines ls) ≡ ls
unfolding lines
lines-unlines ls h = rw (split_inclusive-unlines ls h) (strip_lines ls h)
