-- ===== src/FtsQuery/Terms.antt =====
-- What the terms of an escaped query are.
use nomai.Base.{
  ℕ, ◌≡◌, refl, ap, ◌∙◌, Bool, true, false, List, [], ◌∷◌, ◌++◌, append_assoc, map, filter,
  is_empty, All, All-append, Bool-cases, inl, inr,
}
use nomai.FtsQuery.{unless_empty, tokens_from, normalize, tokens, escape, quote, join_spaces}
use nomai.Text.{Text, is_whitespace}

abbrev pub joined : List Text → Text
joined [] = []
joined (t ∷ ts) = t ++ joined ts

joined-unless_empty : (t : Text) (ts : List Text) → joined (unless_empty t ts) ≡ t ++ joined ts
joined-unless_empty [] ts = refl
joined-unless_empty (c ∷ t) ts = refl

space : is_whitespace 0x20 ≡ true
unfolding is_whitespace
space = refl

module _ (is_alphanumeric : ℕ → Bool) where
  -- A term: some characters, and all of them alphanumeric.
  abbrev pub IsTerm : Text → Type 0
  IsTerm t = (is_empty t ≡ false) × All (λ c. is_alphanumeric c ≡ true) t

  unless_empty-All :
      (t : Text) (ts : List Text)
      → All (λ c. is_alphanumeric c ≡ true) t
      → All IsTerm ts
      → All IsTerm (unless_empty t ts)
  unless_empty-All [] ts h k = k
  unless_empty-All (c ∷ t) ts h k = ((refl, h), k)

  tokens_from-All :
      (t s : Text)
      → All (λ c. is_alphanumeric c ≡ true) t
      → All IsTerm (tokens_from t (normalize is_alphanumeric s))
  unfolding tokens_from
  tokens_from-All t [] h = unless_empty-All t [] h tt
  tokens_from-All t (c ∷ s) h = elim (Bool-cases (is_alphanumeric c)) [
    | inr a ↦ rw (a, space) (unless_empty-All t _ h (tokens_from-All [] s tt))
    | inl a ↦ elim (Bool-cases (is_whitespace c)) [
      | inl w ↦ rw (a, w) (unless_empty-All t _ h (tokens_from-All [] s tt))
      | inr w ↦ rw (a, w) (tokens_from-All (t ++ (c ∷ [])) s (All-append _ t (c ∷ []) h (a, tt)))
    ]
  ]

  module _ (no_space : (c : ℕ) → is_alphanumeric c ≡ true → is_whitespace c ≡ false) where
    joined-tokens_from :
        (t s : Text)
        → joined (tokens_from t (normalize is_alphanumeric s)) ≡ t ++ filter is_alphanumeric s
    unfolding tokens_from filter
    joined-tokens_from t [] = joined-unless_empty t []
    joined-tokens_from t (c ∷ s) = elim (Bool-cases (is_alphanumeric c)) [
      | inr a ↦ rw (a, space) (joined-unless_empty t _ ∙ ap (λ r. t ++ r) (joined-tokens_from [] s))
      | inl a ↦
          rw (a, no_space c a)
            (joined-tokens_from (t ++ (c ∷ [])) s
              ∙ append_assoc t (c ∷ []) (filter is_alphanumeric s))
    ]

    -- An escaped query is a sequence of quoted terms with a space between: each term has some characters,
    -- all of them alphanumeric, so that no operator and no quote stands in it, and the terms together
    -- are the alphanumeric characters of the query, in their order. No alphanumeric character is white
    -- space.
    pub escape-IsTerm :
        (query : Text)
        → (escape is_alphanumeric query ≡ join_spaces (map quote (tokens is_alphanumeric query)))
          × All IsTerm (tokens is_alphanumeric query)
          × (joined (tokens is_alphanumeric query) ≡ filter is_alphanumeric query)
    unfolding escape tokens
    escape-IsTerm query = (refl, tokens_from-All [] query tt, joined-tokens_from [] query)
