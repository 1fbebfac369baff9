-- ===== src/SearchCache/Lookups.antt =====
-- What a lookup gives after a change, and after another lookup.
use nomai.Base.{
  ℕ, ◌+◌, ◌≤◌, ◌<◌, ◌≡◌, ◌^◌, refl, ap, ◌∙◌, sym, subst, inl, inr, Bool, true, false, Option, none,
  some, List, [], ◌∷◌, arith, Bool-cases, All, All-map, Option-cases, Result, ok, err,
}
use nomai.SearchCache.{
  Key, same_key, same_rpc, same_opt, SearchRpc, semantic, fulltext, hybrid, Deps, SearchCache,
  CachedResults, Request, fetch_add, bump_generation, clear, get, insert, bump_counter, key_of,
  store, lookup_or_compute,
}
use nomai.Text.Order.{text_eq_refl}

same_key-generation : (k j : Key) → same_key k j ≡ true → k.generation ≡ j.generation
unfolding same_key
same_key-generation k j h = ground arith

bumped-above : (n : ℕ) → n + 1 < 2 ^ 64 → n < fetch_add n
bumped-above n w = omega arith

module _ (d : Deps) where
  abbrev pub IsOld : ℕ → List (Key × CachedResults d) → Type 0
  IsOld bound m = All (λ e. e.0.generation ≤ bound) m

  -- No stored result belongs to a later generation.
  pub record IsCache (c : SearchCache d) : Type 0 where
    pub old : IsOld c.generation c.map

  get_later :
      (k : Key) (bound : ℕ) (m : List (Key × CachedResults d))
      → IsOld bound m
      → bound < k.generation
      → get d k m ≡ none
  unfolding get
  get_later k bound [] h l = refl
  get_later k bound ((j, r) ∷ m) h l = elim (Bool-cases (same_key j k)) [
    | inl q ↦ absurd (omega (arith, h.0, l, same_key-generation j k q))
    | inr q ↦ rw q (get_later k bound m h.1 l)
  ]

  insert-IsOld :
      (k : Key) (bound : ℕ) (r : CachedResults d) (m : List (Key × CachedResults d))
      → k.generation ≤ bound
      → IsOld bound m
      → IsOld bound (insert d k r m)
  unfolding insert
  insert-IsOld k bound r [] l h = (l, tt)
  insert-IsOld k bound r ((j, s) ∷ m) l h = elim (Bool-cases (same_key j k)) [
    | inl q ↦ rw q (h.0, h.1)
    | inr q ↦ rw q (h.0, insert-IsOld k bound r m l h.1)
  ]

  store-IsOld :
      (k : Key) (bound : ℕ) (late : Result d.Error (CachedResults d)) (c : SearchCache d)
      → k.generation ≤ bound
      → IsOld bound c.map
      → IsOld bound (store d k late c).map
  unfolding store
  store-IsOld k bound (ok r) c l h = insert-IsOld k bound r c.map l h
  store-IsOld k bound (err e) c l h = h

  store-generation :
      (k : Key) (late : Result d.Error (CachedResults d)) (c : SearchCache d)
      → (store d k late c).generation ≡ c.generation
  unfolding store
  store-generation k (ok r) c = refl
  store-generation k (err e) c = refl

  bump_counter-map :
      (rpc : SearchRpc) (hit : Bool) (c : SearchCache d) → (bump_counter d rpc hit c).map ≡ c.map
  unfolding bump_counter
  bump_counter-map semantic true c = refl
  bump_counter-map semantic false c = refl
  bump_counter-map fulltext true c = refl
  bump_counter-map fulltext false c = refl
  bump_counter-map hybrid true c = refl
  bump_counter-map hybrid false c = refl

  bump_counter-generation :
      (rpc : SearchRpc) (hit : Bool) (c : SearchCache d)
      → (bump_counter d rpc hit c).generation ≡ c.generation
  unfolding bump_counter
  bump_counter-generation semantic true c = refl
  bump_counter-generation semantic false c = refl
  bump_counter-generation fulltext true c = refl
  bump_counter-generation fulltext false c = refl
  bump_counter-generation hybrid true c = refl
  bump_counter-generation hybrid false c = refl

  lookup_miss :
      (q : Request d) (computed : Result d.Error (CachedResults d)) (c : SearchCache d)
      → get d (key_of d c q) c.map ≡ none
      → lookup_or_compute d q computed c
        ≡ (computed, store d (key_of d c q) computed (bump_counter d q.rpc false c))
  unfolding lookup_or_compute
  lookup_miss q computed c e = rw (e, lookup_or_compute)

  lookup_hit :
      (q : Request d) (computed : Result d.Error (CachedResults d)) (c : SearchCache d)
      (r : CachedResults d)
      → get d (key_of d c q) c.map ≡ some r
      → lookup_or_compute d q computed c ≡ (ok r, bump_counter d q.rpc true c)
  unfolding lookup_or_compute
  lookup_hit q computed c r e = rw (e, lookup_or_compute)

  -- No stale result after a change. If the generation is bumped, and has not come to its last value,
  -- the next lookup gives what its own computation gives, whatever is stored, and even if a result
  -- that was computed for a key of the old generation is stored after the bump.
  pub bump-lookup :
      (c : SearchCache d) (k : Key) (late : Result d.Error (CachedResults d)) (q : Request d)
      (computed : Result d.Error (CachedResults d))
      → IsCache c
      → c.generation + 1 < 2 ^ 64
      → k.generation ≤ c.generation
      → (lookup_or_compute d q computed (store d k late (bump_generation d c))).0 ≡ computed
  unfolding bump_generation
  bump-lookup c k late q computed h w l =
      let c' = store d k late (bump_generation d c) in
      let g = store-generation k late (bump_generation d c) in
      let old = store-IsOld k c.generation late (bump_generation d c) l h.old in
      let above : c.generation < (key_of d c' q).generation =
        unfold key_of in subst (λ n. c.generation < n) (sym g) (bumped-above c.generation w) in
      ap (λ o. o.0)
        (lookup_miss q computed c' (get_later (key_of d c' q) c.generation c'.map old above))

  same_opt_refl : (a : Option ℕ) → same_opt a a ≡ true
  unfolding same_opt
  same_opt_refl none = refl
  same_opt_refl (some n) = ground arith

  same_rpc_refl : (r : SearchRpc) → same_rpc r r ≡ true
  unfolding same_rpc
  same_rpc_refl semantic = refl
  same_rpc_refl fulltext = refl
  same_rpc_refl hybrid = refl

  same_key_refl : (k : Key) → same_key k k ≡ true
  unfolding same_key
  same_key_refl k = ground (
    arith,
    same_rpc_refl k.rpc,
    text_eq_refl k.query_hash,
    same_opt_refl k.block_type_hash,
    same_opt_refl k.tag_hash,
    same_opt_refl k.weights_hash,
  )

  get-insert :
      (k : Key) (r : CachedResults d) (m : List (Key × CachedResults d))
      → get d k (insert d k r m) ≡ some r
  unfolding get insert
  get-insert k r [] = rw (same_key_refl k)
  get-insert k r ((j, s) ∷ m) = elim (Bool-cases (same_key j k)) [
    | inl q ↦ rw q (rw q)
    | inr q ↦ rw q (rw q (get-insert k r m))
  ]

  store-bumped :
      (q : Request d) (computed : Result d.Error (CachedResults d)) (c : SearchCache d)
      → IsCache c
      → IsOld
          (store d (key_of d c q) computed (bump_counter d q.rpc false c)).generation
          (store d (key_of d c q) computed (bump_counter d q.rpc false c)).map
  store-bumped q computed c h =
      let c1 = bump_counter d q.rpc false c in
      let same = bump_counter-generation q.rpc false c in
      let low : (key_of d c q).generation ≤ c.generation = unfold key_of in omega arith in
      let old = subst (IsOld c.generation) (sym (bump_counter-map q.rpc false c)) h.old in
      subst (λ n. IsOld n (store d (key_of d c q) computed c1).map)
        (sym (store-generation (key_of d c q) computed c1 ∙ same))
        (store-IsOld (key_of d c q) c.generation computed c1 low old)

  lookup-IsCache :
      (c : SearchCache d)
      → IsCache c
      → (q : Request d) (computed : Result d.Error (CachedResults d))
      → IsCache (lookup_or_compute d q computed c).1
  lookup-IsCache c h q computed = elim (Option-cases (get d (key_of d c q) c.map)) [
    | inl n ↦
        subst (λ o. IsCache o.1) (sym (lookup_miss q computed c n))
          (record { old = store-bumped q computed c h })
    | inr (s, f) ↦
        subst (λ o. IsCache o.1) (sym (lookup_hit q computed c s f))
          (record {
            old =
                subst (λ n. IsOld n (bump_counter d q.rpc true c).map)
                  (sym (bump_counter-generation q.rpc true c))
                  (subst (IsOld c.generation) (sym (bump_counter-map q.rpc true c)) h.old);
          })
  ]

  key_of-bump :
      (q : Request d) (hit : Bool) (c : SearchCache d)
      → key_of d (bump_counter d q.rpc hit c) q ≡ key_of d c q
  unfolding key_of
  key_of-bump q hit c =
      ap (λ n. record (key_of d c q) { generation = n }) (bump_counter-generation q.rpc hit c)

  still :
      (q : Request d) (s : CachedResults d) (c : SearchCache d)
      → get d (key_of d c q) c.map ≡ some s
      → get d (key_of d (bump_counter d q.rpc true c) q) (bump_counter d q.rpc true c).map ≡ some s
  still q s c f =
      ap (λ j. get d j (bump_counter d q.rpc true c).map) (key_of-bump q true c)
      ∙ ap (get d (key_of d c q)) (bump_counter-map q.rpc true c)
      ∙ f

  stored-again :
      (q : Request d) (r : CachedResults d) (again : Result d.Error (CachedResults d))
      (c : SearchCache d)
      → (lookup_or_compute d q again
          (store d (key_of d c q) (ok r) (bump_counter d q.rpc false c))).0
        ≡ ok r
  unfolding store key_of
  stored-again q r again c =
      let k = key_of d c q in
      let c' = store d k (ok r) (bump_counter d q.rpc false c) in
      ap (λ o. o.0)
        (lookup_hit q again c' r (
          subst (λ j. get d j (insert d k r (bump_counter d q.rpc false c).map) ≡ some r)
            (sym (key_of-bump q false c)) (get-insert k r (bump_counter d q.rpc false c).map)))

  -- One computation is enough. If a lookup ends well, the same lookup right behind it gives the
  -- same results, whatever its own computation would give.
  pub lookup-lookup :
      (q : Request d) (computed again : Result d.Error (CachedResults d)) (c : SearchCache d)
      (r : CachedResults d)
      → (lookup_or_compute d q computed c).0 ≡ ok r
      → (lookup_or_compute d q again (lookup_or_compute d q computed c).1).0 ≡ ok r
  lookup-lookup q computed again c r e = elim (Option-cases (get d (key_of d c q) c.map)) [
    | inl n ↦
        let step = lookup_miss q computed c n in
        let f : computed ≡ ok r = sym (ap (λ o. o.0) step) ∙ e in
        let put : Result d.Error (CachedResults d)
            → Result d.Error (CachedResults d) × SearchCache d =
          λ v. (v, store d (key_of d c q) v (bump_counter d q.rpc false c)) in
        ap (λ o. (lookup_or_compute d q again o.1).0) (step ∙ ap put f) ∙ stored-again q r again c
    | inr (s, f) ↦
        let step = lookup_hit q computed c s f in
        ap (λ o. (lookup_or_compute d q again o.1).0) step
        ∙ ap (λ o. o.0) (lookup_hit q again (bump_counter d q.rpc true c) s (still q s c f))
        ∙ sym (ap (λ o. o.0) step)
        ∙ e
  ]

  -- A bump that does not wrap around, a clear and a lookup leave no stored result of a later
  -- generation, if there was none before.
  keeps-IsCache :
      (c : SearchCache d)
      → IsCache c
      → c.generation + 1 < 2 ^ 64
      → IsCache (bump_generation d c)
        × IsCache (clear d c).1
        × ((q : Request d) (computed : Result d.Error (CachedResults d))
            → IsCache (lookup_or_compute d q computed c).1)
  unfolding bump_generation clear
  keeps-IsCache c h w = (
    record {
      old =
          let up = bumped-above c.generation w in
          All-map (λ e. e.0.generation ≤ c.generation) _ (λ e l. omega (arith, up, l)) c.map h.old;
    },
    record { old = tt },
    lookup-IsCache c h,
  )
