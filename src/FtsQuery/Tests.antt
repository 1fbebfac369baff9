-- ===== src/FtsQuery/Tests.antt =====
-- An escaped query.
use nomai.Base.{ℕ, ◌≡◌, refl, Bool, true, false, ◌&&◌, leb, All, map, filter, arith}
use nomai.FtsQuery.{quote, join_spaces, tokens_from, tokens, escape}
use nomai.FtsQuery.Terms.{IsTerm, joined, escape-IsTerm}
use nomai.Text.{codes, is_whitespace}

-- Small letters only.
abbrev is_letter : ℕ → Bool
is_letter c = leb 97 c && leb c 122

no_space : (c : ℕ) → is_letter c ≡ true → is_whitespace c ≡ false
unfolding is_whitespace
no_space c h = ground (arith, h)

test_escape : escape is_letter (codes "agent: memory") ≡ codes "\"agent\" \"memory\""
unfolding escape tokens tokens_from is_whitespace
test_escape = refl

escape-IsTerm_example :
    (escape is_letter (codes "agent: memory")
      ≡ join_spaces (map quote (tokens is_letter (codes "agent: memory"))))
    × All (IsTerm is_letter) (tokens is_letter (codes "agent: memory"))
    × (joined (tokens is_letter (codes "agent: memory")) ≡ filter is_letter (codes "agent: memory"))
escape-IsTerm_example = escape-IsTerm is_letter no_space (codes "agent: memory")
