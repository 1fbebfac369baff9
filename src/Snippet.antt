-- ===== src/Snippet.antt =====
-- crates/core/src/snippet.rs: a window of a text around the first occurrence of a query, which is marked.
pub mod Window
mod Tests
use nomai.Base.{
  ℕ, suc, ◌+◌, ◌-◌, ◌/◌, Bool, ◌&&◌, ◌||◌, Option, none, some, List, [], ◌∷◌, ◌++◌, if◌then◌else◌,
  ltb, min, length, take, drop, is_empty,
}
use nomai.Text.{Text, codes, text_eq}

abbrev pub window : ℕ
window = 120

abbrev pub stars : Text
stars = codes "**"

abbrev pub ellipsis : Text
ellipsis = 0x2026 ∷ []

abbrev pub later : Option ℕ → Option ℕ
later none = none
later (some i) = some (suc i)

-- The first index from 0 on at which the query stands.
unfoldable pub first_from : Text → Text → Option ℕ
first_from needle [] = none
first_from needle (c ∷ hay) =
    let rest = first_from needle hay in
    if text_eq (take (length needle) (c ∷ hay)) needle then some 0 else later rest

unfoldable pub find_first : Text → Text → Option ℕ
find_first hay needle =
    if is_empty needle || ltb (length hay) (length needle) then none else first_from needle hay

-- `&chars[a..b]`
abbrev pub slice : ℕ → ℕ → Text → Text
slice a b s = take (b - a) (drop a s)

abbrev pub if_so : Bool → Text → Text
if_so b s = if b then s else []

abbrev pub left_of : Text → ℕ
left_of q = (window - length q) / 2

abbrev pub right_of : Text → ℕ
right_of q = window - length q - left_of q

abbrev pub start_of : Text → ℕ → ℕ
start_of q hs = hs - left_of q

abbrev pub end_of : Text → Text → ℕ → ℕ
end_of chars q hs = min (hs + length q + right_of q) (length chars)

abbrev pub marked : Text → Text → ℕ → Text
marked chars q hs =
    let he = hs + length q in
    let ws = start_of q hs in
    let we = end_of chars q hs in
    if_so (ltb 0 ws && ltb 0 (left_of q)) ellipsis
    ++ (slice ws hs chars
        ++ (stars
            ++ (slice hs he chars
                ++ (stars
                    ++ (slice he we chars
                        ++ if_so (ltb we (length chars) && ltb 0 (right_of q)) ellipsis)))))

abbrev pub snippet_at : Text → Text → Option ℕ → Text
snippet_at chars q none = take window chars
snippet_at chars q (some hs) = marked chars q hs

unfoldable pub extract_snippet : Text → Text → Text
extract_snippet chars q =
    if is_empty q || is_empty chars
    then take window chars
    else snippet_at chars q (find_first chars q)
