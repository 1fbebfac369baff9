-- ===== src/Text.antt =====
-- Text as the list of its code points, and the operations of Rust's `str` that the code calls.
pub mod Lines
pub mod Trim
pub mod Trimmed
pub mod Order
use Prim.Native.Char.{code}
use Prim.Native.Nat.{compare, Ordering}
use Prim.Native.String.{String}
use nomai.Base.{
  ℕ, ◌+◌, ◌≡◌, ◌↔◌, refl, Bool, true, false, ◌&&◌, ◌||◌, Option, none, some, List, [], ◌∷◌, ◌++◌,
  map, arith, leb, ltb, ◌==◌, if◌then◌else◌, is_empty,
}

abbrev pub Text : Type 0
Text = List ℕ

-- The code points of a literal.
abbrev pub codes : String → Text
codes String.[] = []
codes (String.◌∷◌ c s) = code c ∷ codes s

-- `char::is_whitespace`: the Unicode property White_Space.
unfoldable pub is_whitespace : ℕ → Bool
is_whitespace c =
    (leb 9 c && leb c 13)
    || c == 32
    || c == 0x85
    || c == 0xa0
    || c == 0x1680
    || (leb 0x2000 c && leb c 0x200a)
    || c == 0x2028
    || c == 0x2029
    || c == 0x202f
    || c == 0x205f
    || c == 0x3000

-- `char::len_utf8`
unfoldable pub len_utf8 : ℕ → ℕ
len_utf8 c = if ltb c 0x80 then 1 else if ltb c 0x800 then 2 else if ltb c 0x10000 then 3 else 4

-- `str::len`: the number of bytes.
unfoldable pub len : Text → ℕ
unfolding len_utf8
len [] = 0
len (c ∷ s) = len_utf8 c + len s

-- `str::contains(char)`
unfoldable pub contains : ℕ → Text → Bool
contains x [] = false
contains x (c ∷ s) = c == x || contains x s

-- `str::starts_with(char)` and `str::ends_with(char)`
abbrev pub starts_with : ℕ → Text → Bool
starts_with x [] = false
starts_with x (c ∷ s) = c == x

abbrev pub ends_with : ℕ → Text → Bool
ends_with x [] = false
ends_with x (c ∷ []) = c == x
ends_with x (c ∷ d ∷ s) = ends_with x (d ∷ s)

-- `==` on `str`
unfoldable pub text_eq : Text → Text → Bool
text_eq [] [] = true
text_eq (a ∷ s) (b ∷ t) = a == b && text_eq s t
text_eq _ _ = false

-- `Ord` on `str`: UTF-8 keeps the order of the code points.
unfoldable pub compare_text : Text → Text → Ordering
compare_text [] [] = Ordering.eq
compare_text [] (b ∷ t) = Ordering.lt
compare_text (a ∷ s) [] = Ordering.gt
compare_text (a ∷ s) (b ∷ t) =
    let rest = compare_text s t in
    elim (compare a b) [
      | Ordering.lt ↦ Ordering.lt
      | Ordering.eq ↦ rest
      | Ordering.gt ↦ Ordering.gt
    ]

-- `str::strip_suffix(char)`
unfoldable pub strip_suffix : ℕ → Text → Option Text
strip_suffix x [] = none
strip_suffix x (c ∷ []) = if c == x then some [] else none
strip_suffix x (c ∷ d ∷ s) = elim (strip_suffix x (d ∷ s)) [ none ↦ none | some r ↦ some (c ∷ r) ]

abbrev pub push_first : ℕ → List Text → List Text
push_first c [] = (c ∷ []) ∷ []
push_first c (l ∷ ls) = (c ∷ l) ∷ ls

-- `str::split_inclusive('\n')`
unfoldable pub split_inclusive : Text → List Text
split_inclusive [] = []
split_inclusive (c ∷ s) =
    let rest = split_inclusive s in if c == b'\n' then (c ∷ []) ∷ rest else push_first c rest

-- `str::lines`: a line ends at "\n" or "\r\n"; the last one may lack the end.
unfoldable pub strip_line : Text → Text
strip_line l = elim (strip_suffix b'\n' l) [
  | none ↦ l
  | some r ↦ elim (strip_suffix b'\r' r) [ none ↦ r | some r' ↦ r' ]
]

unfoldable pub lines : Text → List Text
unfolding split_inclusive strip_line strip_suffix
lines s = map strip_line (split_inclusive s)

-- `str::trim_start`, `str::trim_end`, `str::trim`, and `str::trim_start_matches(char)`
unfoldable pub trim_start : Text → Text
unfolding is_whitespace
trim_start [] = []
trim_start (c ∷ s) = if is_whitespace c then trim_start s else c ∷ s

unfoldable pub trim_end : Text → Text
unfolding is_whitespace
trim_end [] = []
trim_end (c ∷ s) =
    let rest = trim_end s in if is_whitespace c && is_empty rest then [] else c ∷ rest

unfoldable pub trim : Text → Text
unfolding trim_start trim_end
trim s = trim_end (trim_start s)

unfoldable pub trim_start_matches : ℕ → Text → Text
trim_start_matches x [] = []
trim_start_matches x (c ∷ s) = if c == x then trim_start_matches x s else c ∷ s

-- What stands before the first character that passes the test; and from it on, with it.
unfoldable pub before : (ℕ → Bool) → Text → Text
before p [] = []
before p (c ∷ s) = if p c then [] else c ∷ before p s

unfoldable pub from : (ℕ → Bool) → Text → Text
from p [] = []
from p (c ∷ s) = if p c then c ∷ s else from p s

-- Lines, each with its end.
abbrev pub unlines : List Text → Text
unlines [] = []
unlines (l ∷ ls) = l ++ (b'\n' ∷ unlines ls)

-- The order of texts, by code points as by the bytes of their UTF-8.
unfoldable pub text_lt : Text → Text → Bool
text_lt s [] = false
text_lt [] (d ∷ t) = true
text_lt (c ∷ s) (d ∷ t) = let rest = text_lt s t in ltb c d || (c == d && rest)
