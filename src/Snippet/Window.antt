-- ===== src/Snippet/Window.antt =====
-- What a snippet shows of the text, and how long it is.
use nomai.Base.{
  ℕ, ◌+◌, ◌-◌, ◌/◌, ◌≤◌, ◌<◌, ◌≡◌, Bool, true, false, ◌==◌, if◌then◌else◌, ◌&&◌, ◌||◌, [], ◌++◌,
  arith, ltb, min, max, length, take, drop, is_empty, length-append, length-take, Bool-cases,
  Option-cases, inl, inr,
}
use nomai.Snippet.{
  window, stars, ellipsis, find_first, slice, if_so, left_of, right_of, start_of, end_of, marked,
  extract_snippet,
}
use nomai.Text.{Text, text_eq}

length-if_so : (b : Bool) → length (if_so b ellipsis) ≤ 1
length-if_so true = omega arith
length-if_so false = omega arith

length-slice : (a b : ℕ) (s : Text) → length (slice a b s) ≤ b - a
length-slice a b s = let taken = length-take (b - a) (drop a s) in omega (arith, taken)

length-parts :
    (a b c e t : Text)
    → length (a ++ (b ++ (stars ++ (c ++ (stars ++ (e ++ t))))))
      ≡ length a + (length b + (length c + (length e + length t))) + 4
length-parts a b c e t = omega (
  arith,
  length-append a (b ++ (stars ++ (c ++ (stars ++ (e ++ t))))),
  length-append b (stars ++ (c ++ (stars ++ (e ++ t)))),
  length-append c (stars ++ (e ++ t)),
  length-append e t,
)

window_bound :
    (q hs total : ℕ)
    → (hs - (hs - (120 - q) / 2))
        + ((hs + q - hs) + (min (hs + q + (120 - q - (120 - q) / 2)) total - (hs + q)))
      ≤ max 120 q
window_bound q hs total = omega arith

length-marked : (chars q : Text) (hs : ℕ) → length (marked chars q hs) ≤ max window (length q) + 6
length-marked chars q hs =
    let he = hs + length q in
    let we = end_of chars q hs in
    let lead = if_so (ltb 0 (start_of q hs) && ltb 0 (left_of q)) ellipsis in
    let trail = if_so (ltb we (length chars) && ltb 0 (right_of q)) ellipsis in
    omega (
      arith,
      length-parts lead (slice (start_of q hs) hs chars) (slice hs he chars) (slice he we chars)
          trail,
      length-slice (start_of q hs) hs chars,
      length-slice hs he chars,
      length-slice he we chars,
      length-if_so (ltb 0 (start_of q hs) && ltb 0 (left_of q)),
      length-if_so (ltb we (length chars) && ltb 0 (right_of q)),
      window_bound (length q) hs (length chars),
    )

-- A snippet has at most the 120 characters of the window, or those of the query if they are more, and six
-- for the marks.
extract_snippet-length :
    (chars q : Text) → length (extract_snippet chars q) ≤ max window (length q) + 6
unfolding extract_snippet
extract_snippet-length chars q = elim (Bool-cases (is_empty q || is_empty chars)) [
  | inl e ↦ rw e (plain chars)
  | inr e ↦ elim (Option-cases (find_first chars q)) [
    | inl n ↦ rw (e, n) (plain chars)
    | inr (hs, n) ↦ rw (e, n) (length-marked chars q hs)
  ]
]
  where
    plain : (chars : Text) → length (take window chars) ≤ max window (length q) + 6
    plain chars = let taken = length-take window chars in omega (arith, taken)

-- An ellipsis where some of the text is cut off, if there is any padding on that side.
abbrev pub cut_mark : Text → ℕ → Text
cut_mark rest padding = if is_empty rest || padding == 0 then [] else ellipsis

-- A snippet of the query at `hs`, with what it leaves of the text in front and behind.
pub record IsShown (chars q : Text) (hs : ℕ) (snippet : Text) : Type 0 where
  pub front : Text
  pub before : Text
  pub behind : Text
  pub back : Text
  pub text : chars ≡ front ++ (before ++ (q ++ (behind ++ back)))
  pub first : (j : ℕ) → j < hs → text_eq (take (length q) (drop j chars)) q ≡ false
  pub left : length before ≡ min hs ((120 - length q) / 2)
  pub right :
      length behind ≡ min (length chars - (hs + length q)) (120 - length q - (120 - length q) / 2)
  pub shown :
      snippet
      ≡ cut_mark front ((120 - length q) / 2)
        ++ (before
            ++ (stars
                ++ (q
                    ++ (stars
                        ++ (behind ++ cut_mark back (120 - length q - (120 - length q) / 2))))))
