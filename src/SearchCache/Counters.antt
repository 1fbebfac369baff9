-- ===== src/SearchCache/Counters.antt =====
-- The counters of the cache.
use nomai.Base.{
  ℕ, ◌+◌, ◌%◌, ◌^◌, ◌≡◌, refl, subst, List, [], ◌∷◌, inl, inr, Bool, true, false, arith,
  Option-cases, Result, ok, err,
}
use nomai.SearchCache.{
  Key, SearchRpc, semantic, fulltext, hybrid, Deps, SearchCache, CachedResults, Request, new,
  bump_generation, clear, bump_counter, store, get, key_of, lookup_or_compute,
}

module _ (d : Deps) where
  -- The counters after `n` lookups: as they wrap around, the totals are the sums over the kinds of
  -- search, and hits and misses together are the lookups.
  pub record IsCounted (n : ℕ) (c : SearchCache d) : Type 0 where
    pub lookups : (c.hits + c.misses) % 2 ^ 64 ≡ n % 2 ^ 64
    pub hits : c.hits ≡ (c.semantic_hits + c.fulltext_hits + c.hybrid_hits) % 2 ^ 64
    pub misses : c.misses ≡ (c.semantic_misses + c.fulltext_misses + c.hybrid_misses) % 2 ^ 64

  bump_counter-IsCounted :
      (rpc : SearchRpc) (hit : Bool) (n : ℕ) (c : SearchCache d)
      → IsCounted n c
      → IsCounted (n + 1) (bump_counter d rpc hit c)
  unfolding bump_counter
  bump_counter-IsCounted semantic true n c h = record {
    lookups = omega (arith, h.lookups);
    hits = omega (arith, h.hits);
    misses = h.misses;
  }
  bump_counter-IsCounted fulltext true n c h = record {
    lookups = omega (arith, h.lookups);
    hits = omega (arith, h.hits);
    misses = h.misses;
  }
  bump_counter-IsCounted hybrid true n c h = record {
    lookups = omega (arith, h.lookups);
    hits = omega (arith, h.hits);
    misses = h.misses;
  }
  bump_counter-IsCounted semantic false n c h = record {
    lookups = omega (arith, h.lookups);
    hits = h.hits;
    misses = omega (arith, h.misses);
  }
  bump_counter-IsCounted fulltext false n c h = record {
    lookups = omega (arith, h.lookups);
    hits = h.hits;
    misses = omega (arith, h.misses);
  }
  bump_counter-IsCounted hybrid false n c h = record {
    lookups = omega (arith, h.lookups);
    hits = h.hits;
    misses = omega (arith, h.misses);
  }

  store-IsCounted :
      (n : ℕ) (k : Key) (r : Result d.Error (CachedResults d)) (c : SearchCache d)
      → IsCounted n c
      → IsCounted n (store d k r c)
  unfolding store
  store-IsCounted n k (ok r) c h = record { lookups = h.lookups; hits = h.hits; misses = h.misses }
  store-IsCounted n k (err e) c h = h

  lookup-IsCounted :
      (n : ℕ) (q : Request d) (computed : Result d.Error (CachedResults d)) (c : SearchCache d)
      → IsCounted n c
      → IsCounted (n + 1) (lookup_or_compute d q computed c).1
  unfolding lookup_or_compute
  lookup-IsCounted n q computed c h = elim (Option-cases (get d (key_of d c q) c.map)) [
    | inl e ↦
        rw (e, lookup_or_compute)
          (store-IsCounted (n + 1) (key_of d c q) computed (bump_counter d q.rpc false c)
            (bump_counter-IsCounted q.rpc false n c h))
    | inr (r, e) ↦ rw (e, lookup_or_compute) (bump_counter-IsCounted q.rpc true n c h)
  ]

  pub data Call : Type 0 where
    bump cleared : Call
    lookup : Request d → Result d.Error (CachedResults d) → Call

  unfoldable pub run : Call → SearchCache d → SearchCache d
  run bump c = bump_generation d c
  run cleared c = (clear d c).1
  run (lookup q computed) c = (lookup_or_compute d q computed c).1

  unfoldable pub run_all : List Call → SearchCache d → SearchCache d
  run_all [] c = c
  run_all (o ∷ os) c = run_all os (run o c)

  abbrev pub lookups_of : List Call → ℕ
  lookups_of [] = 0
  lookups_of (lookup q computed ∷ os) = lookups_of os + 1
  lookups_of (_ ∷ os) = lookups_of os

  run_all-IsCounted :
      (os : List Call) (n : ℕ) (c : SearchCache d)
      → IsCounted n c
      → IsCounted (lookups_of os + n) (run_all os c)
  unfolding run_all run bump_generation clear
  run_all-IsCounted [] n c h = subst (λ m. IsCounted m c) (omega arith) h
  run_all-IsCounted (bump ∷ os) n c h =
      run_all-IsCounted os n (bump_generation d c)
        (record { lookups = h.lookups; hits = h.hits; misses = h.misses })
  run_all-IsCounted (cleared ∷ os) n c h =
      run_all-IsCounted os n (clear d c).1
        (record { lookups = h.lookups; hits = h.hits; misses = h.misses })
  run_all-IsCounted (lookup q computed ∷ os) n c h =
      subst (λ m. IsCounted m (run_all os (lookup_or_compute d q computed c).1))
        (shuffle (lookups_of os) n)
        (run_all-IsCounted os (n + 1) (lookup_or_compute d q computed c).1
          (lookup-IsCounted n q computed c h))
    where
      shuffle : (m n : ℕ) → m + (n + 1) ≡ m + 1 + n
      shuffle m n = omega arith

  -- After any sequence of lookups, bumps and clears of a new cache, up to the wrap-around of the
  -- counters, the hits and the misses together are the lookups, and each of them is the sum of
  -- those of the three kinds of search.
  run_all-new : (os : List Call) → IsCounted (lookups_of os) (run_all os (new d))
  run_all-new os =
      subst (λ m. IsCounted m (run_all os (new d))) (omega arith)
        (run_all-IsCounted os 0 (new d) (record { lookups = refl; hits = refl; misses = refl }))
