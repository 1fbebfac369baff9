-- ===== src/FtsQuery.antt =====
-- crates/core/src/fts_query.rs: a query as a sequence of quoted terms.
pub mod Terms
mod Tests
use nomai.Base.{ℕ, Bool, List, [], ◌∷◌, ◌++◌, map, if◌then◌else◌, is_empty}
use nomai.Text.{Text, is_whitespace}

abbrev pub quote : Text → Text
quote token = 0x22 ∷ (token ++ (0x22 ∷ []))

-- `join(" ")`
abbrev pub join_spaces : List Text → Text
join_spaces [] = []
join_spaces (t ∷ []) = t
join_spaces (t ∷ u ∷ ts) = t ++ (0x20 ∷ join_spaces (u ∷ ts))

abbrev pub unless_empty : Text → List Text → List Text
unless_empty token rest = if is_empty token then rest else token ∷ rest

-- `split_whitespace`, with the token in progress.
unfoldable pub tokens_from : Text → Text → List Text
tokens_from token [] = unless_empty token []
tokens_from token (c ∷ s) =
    let ended = tokens_from [] s in
    let longer = tokens_from (token ++ (c ∷ [])) s in
    if is_whitespace c then unless_empty token ended else longer

-- `char::is_alphanumeric` is a parameter.
module _ (is_alphanumeric : ℕ → Bool) where
  abbrev pub normalize : Text → Text
  normalize = map (λ c. if is_alphanumeric c then c else 0x20)

  unfoldable pub tokens : Text → List Text
  tokens query = tokens_from [] (normalize query)

  unfoldable pub escape : Text → Text
  escape query = join_spaces (map quote (tokens query))
