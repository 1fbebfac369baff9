-- ===== src/SearchCache/Tests.antt =====
-- Runs of the search cache.
use nomai.Base.{ℕ, ◌≡◌, refl, arith, none, some, [], ◌∷◌, Result, ok}
use nomai.SearchCache.Lookups.{IsCache, bump-lookup, lookup-lookup}
use nomai.SearchCache.{
  fulltext, Key, Deps, SearchCache, CachedResults, Request, hash_opt, new, bump_generation, get,
  insert, bump_counter, key_of, store, lookup_or_compute,
}
use nomai.Text.{codes}

-- Results and errors are numbers, and a text is its own hash.
abbrev numbers : Deps
numbers = record { Value = ℕ; Error = ℕ; blake3 = λ s. s }

abbrev rust : Request numbers
rust = record {
  rpc = fulltext;
  query = codes "rust";
  limit = 10;
  block_type = none;
  tag = some (codes "a");
  weights_hash = none;
}

abbrev first : Result ℕ (CachedResults numbers)
first = ok (1 ∷ 2 ∷ [])

abbrev second : Result ℕ (CachedResults numbers)
second = ok (3 ∷ [])

abbrev key : Key
key = record {
  generation = 0;
  rpc = fulltext;
  query_hash = codes "rust";
  limit = 10;
  block_type_hash = none;
  tag_hash = some 97;
  weights_hash = none;
}

abbrev filled : SearchCache numbers
filled = record (new numbers) { map = (key, 1 ∷ 2 ∷ []) ∷ []; misses = 1; fulltext_misses = 1 }

lookup_first : lookup_or_compute numbers rust first (new numbers) ≡ (first, filled)
unfolding lookup_or_compute key_of hash_opt get insert store bump_counter
lookup_first = refl

filled-IsCache : IsCache numbers filled
filled-IsCache = record { old = (omega arith, tt) }

bump-lookup_example :
    (lookup_or_compute numbers rust second
      (store numbers key first (bump_generation numbers filled))).0
    ≡ second
bump-lookup_example =
    bump-lookup numbers filled key first rust second filled-IsCache (omega arith) (omega arith)

lookup-lookup_example :
    (lookup_or_compute numbers rust second (lookup_or_compute numbers rust first (new numbers)).1).0
    ≡ ok (1 ∷ 2 ∷ [])
unfolding lookup_or_compute key_of hash_opt get insert store bump_counter
lookup-lookup_example = lookup-lookup numbers rust first second (new numbers) (1 ∷ 2 ∷ []) refl
