-- ===== src/EmbeddingCache/Transparent.antt =====
-- The cache changes no embedding.
use nomai.Base.{
  Bool, ◌⊎◌, ◌&&◌, ◌≢◌, ◌==◌, subst, false, true, ℕ, suc, ◌≡◌, ◌≢◌, refl, sym, ap, ◌∙◌, subst, true,
  Option, none, some, List, [], ◌∷◌, arith, length, map, any, find, find-All, is_empty, All,
  Bool-cases, Option-cases, inl, inr, Result, ok, err,
}
use nomai.Core.{ProviderError}
use nomai.EmbeddingCache.{
  Inner, Embedding, Row, CachedEmbedder, encode_f32_le, decode_f32_le, is_keyed_by, is_row_of,
  decoded, lookup, lookup_batch, insert_or_ignore, persist_batch, at_misses, assemble, unwrap_all,
  with_misses, embed,
}
use nomai.Text.{Text, text_eq}

module _ (inner : Inner) where
  decode-encode : (e : Embedding inner) → decode_f32_le inner (encode_f32_le inner e) ≡ e
  unfolding encode_f32_le decode_f32_le
  decode-encode [] = refl
  decode-encode (x ∷ xs) = rw (inner.from-to_le_bytes x, decode-encode xs) refl

  module _ (f : Text → Embedding inner)
      (embed_each : (ts : List Text)
        → (inner.embed ts ≡ ok (map f ts)) ⊎ ((e : ProviderError) × (inner.embed ts ≡ err e)))
      (hash_inj : (s t : Text) → inner.same_hash (inner.hash s) (inner.hash t) ≡ true → s ≡ t) where
    abbrev is_own : CachedEmbedder inner → Row inner → Bool
    is_own c r = text_eq r.model c.model && r.dim == c.dim

    -- A row is another model's or of another dimension, or it holds the embedding of the text of its hash.
    abbrev IsRight : CachedEmbedder inner → Row inner → Type 0
    IsRight c r =
        (is_own c r ≡ false)
        ⊎ ((t : Text) × (r.body_hash ≡ inner.hash t) × (r.embedding ≡ encode_f32_le inner (f t)))

    own_is_other : (a b e : Bool) → ((a && b) && e) ≡ true → (a && e) ≢ false
    own_is_other a b e h k = ground (arith, h, k)

    middle : (a b e : Bool) → ((a && b) && e) ≡ true → b ≡ true
    middle a b e h = ground (arith, h)

    found-right :
        (c : CachedEmbedder inner) (r : Row inner) (t : Text)
        → IsRight c r
        → is_row_of inner c (inner.hash t) r ≡ true
        → r.embedding ≡ encode_f32_le inner (f t)
    unfolding is_row_of
    found-right c r t (inl other) h = absurd (
        own_is_other (text_eq r.model c.model) (inner.same_hash r.body_hash (inner.hash t))
          (r.dim == c.dim) h other)
    found-right c r t (inr (u, hashed, right)) h =
        let same : inner.same_hash (inner.hash u) (inner.hash t) ≡ true =
          subst (λ b. inner.same_hash b (inner.hash t) ≡ true) hashed
            (middle (text_eq r.model c.model) _ (r.dim == c.dim) h) in
        right ∙ ap (λ v. encode_f32_le inner (f v)) (hash_inj u t same)

    abbrev pub IsSound : CachedEmbedder inner → Type 0
    IsSound c = All (IsRight c) c.rows

    lookup-right :
        (c : CachedEmbedder inner) (t : Text) (e : Embedding inner)
        → IsSound c
        → lookup inner c (inner.hash t) ≡ some e
        → e ≡ f t
    unfolding lookup
    lookup-right c t e s h = elim (Option-cases (find (is_row_of inner c (inner.hash t)) c.rows)) [
      | inl q ↦ absurd (none_ne_some (sym (ap (decoded inner) q) ∙ h))
      | inr (r, q) ↦
          let (right, hit) = find-All (IsRight c) (is_row_of inner c (inner.hash t)) c.rows r s q in
          let same : decode_f32_le inner r.embedding ≡ e =
            some_inj (sym (ap (decoded inner) q) ∙ h) in
          sym same ∙ ap (decode_f32_le inner) (found-right c r t right hit) ∙ decode-encode (f t)
    ]
      where
        none_ne_some : {x : Embedding inner} → none ≢ some x
        none_ne_some h = cc

        some_inj : {x y : Embedding inner} → some x ≡ some y → x ≡ y
        some_inj h = cc

    abbrev looked_up : CachedEmbedder inner → List Text → List (Option (Embedding inner))
    looked_up c ts = map (lookup inner c) (map inner.hash ts)

    cons_both :
        {x y : Embedding inner} {xs ys : List (Embedding inner)}
        → x ≡ y
        → xs ≡ ys
        → (x ∷ xs) ≡ (y ∷ ys)
    cons_both h k = rw (h, k) refl

    assemble-all :
        (c : CachedEmbedder inner) (dim : ℕ) (ts : List Text)
        → IsSound c
        → assemble inner dim (looked_up c ts) (map f (at_misses inner (looked_up c ts) ts))
          ≡ map f ts
    unfolding assemble at_misses
    assemble-all c dim [] s = refl
    assemble-all c dim (t ∷ ts) s = elim (Option-cases (lookup inner c (inner.hash t))) [
      | inl q ↦ rw q (ap (λ r. f t ∷ r) (assemble-all c dim ts s))
      | inr (e, q) ↦ rw q (cons_both (lookup-right c t e s q) (assemble-all c dim ts s))
    ]

    unwrap-assemble :
        (dim : ℕ) (cs : List (Option (Embedding inner))) (ts : List Text)
        → length cs ≡ length ts
        → at_misses inner cs ts ≡ []
        → unwrap_all inner cs ≡ assemble inner dim cs []
    unfolding unwrap_all assemble at_misses
    unwrap-assemble dim [] ts l h = refl
    unwrap-assemble dim (none ∷ cs) [] l h = absurd (omega (arith, l))
    unwrap-assemble dim (none ∷ cs) (t ∷ ts) l h = cc
    unwrap-assemble dim (some e ∷ cs) [] l h = absurd (omega (arith, l))
    unwrap-assemble dim (some e ∷ cs) (t ∷ ts) l h =
        ap (λ r. e ∷ r) (unwrap-assemble dim cs ts (omega (arith, l)) h)

    length-looked_up :
        (c : CachedEmbedder inner) (ts : List Text) → length (looked_up c ts) ≡ length ts
    length-looked_up c [] = refl
    length-looked_up c (t ∷ ts) = ap suc (length-looked_up c ts)

    is_empty-nil : (ts : List Text) → is_empty ts ≡ true → ts ≡ []
    is_empty-nil [] h = refl
    is_empty-nil (t ∷ ts) h = cc

    unwrap-all :
        (c : CachedEmbedder inner) (ts : List Text)
        → IsSound c
        → at_misses inner (looked_up c ts) ts ≡ []
        → unwrap_all inner (looked_up c ts) ≡ map f ts
    unwrap-all c ts s h =
        unwrap-assemble c.dim (looked_up c ts) ts (length-looked_up c ts) h
        ∙ ap (λ r. assemble inner c.dim (looked_up c ts) (map f r)) (sym h)
        ∙ assemble-all c c.dim ts s

    insert_or_ignore_sound :
        (c : CachedEmbedder inner) (now : inner.Time) (t : Text) (rows : List (Row inner))
        → All (IsRight c) rows
        → All (IsRight c) (insert_or_ignore inner c now (inner.hash t) (f t) rows)
    unfolding insert_or_ignore is_row_of
    insert_or_ignore_sound c now t rows s =
        elim (Bool-cases (any (is_keyed_by inner c (inner.hash t)) rows)) [
          | inl q ↦ rw q s
          | inr q ↦ rw q (inr (t, refl, refl), s)
        ]

    persist_batch_sound :
        (c : CachedEmbedder inner) (now : inner.Time) (ts : List Text) (rows : List (Row inner))
        → All (IsRight c) rows
        → All (IsRight c) (persist_batch inner c now (map inner.hash ts) (map f ts) rows)
    unfolding persist_batch
    persist_batch_sound c now [] rows s = s
    persist_batch_sound c now (t ∷ ts) rows s =
        persist_batch_sound c now ts _ (insert_or_ignore_sound c now t rows s)

    map-at_misses :
        (cached : List (Option (Embedding inner))) (ts : List Text)
        → at_misses inner cached (map inner.hash ts) ≡ map inner.hash (at_misses inner cached ts)
    unfolding at_misses
    map-at_misses [] ts = refl
    map-at_misses (none ∷ cs) [] = refl
    map-at_misses (none ∷ cs) (t ∷ ts) = ap (λ r. inner.hash t ∷ r) (map-at_misses cs ts)
    map-at_misses (some e ∷ cs) [] = refl
    map-at_misses (some e ∷ cs) (t ∷ ts) = map-at_misses cs ts

    -- The texts that are not in the cache.
    abbrev pub missed : CachedEmbedder inner → List Text → List Text
    missed c texts = at_misses inner (lookup_batch inner c (map inner.hash texts)) texts

    -- The provider's embeddings of the texts, or its error for those that are missing.
    abbrev pub IsAnswer :
        CachedEmbedder inner → List Text → Result ProviderError (List (Embedding inner)) → Type 0
    IsAnswer c texts r =
        (r ≡ ok (map f texts))
        ⊎ ((e : ProviderError) × (inner.embed (missed c texts) ≡ err e) × (r ≡ err e))

    abbrev Right :
        CachedEmbedder inner
        → List Text
        → Result ProviderError (List (Embedding inner)) × CachedEmbedder inner
        → Type 0
    Right c texts o = IsAnswer c texts o.0 × IsSound o.1

    with_misses-Right :
        (now : inner.Time) (c c1 : CachedEmbedder inner) (ts : List Text)
        → IsSound c
        → IsSound c1
        → Right c ts (
            with_misses inner now c1
              (map inner.hash ts)
              (looked_up c ts)
              (ok (map f (at_misses inner (looked_up c ts) ts))))
    unfolding is_row_of
    with_misses-Right now c c1 ts s s1 =
        let new = at_misses inner (looked_up c ts) ts in
        (
          inl (ap ok (assemble-all c c1.dim ts s)),
          subst (λ ks. All (IsRight c1) (persist_batch inner c1 now ks (map f new) c1.rows))
              (sym (map-at_misses (looked_up c ts) ts)) (persist_batch_sound c1 now new c1.rows s1),
        )

    with_provider-Right :
        (now : inner.Time) (c c1 : CachedEmbedder inner) (ts : List Text)
        → IsSound c
        → IsSound c1
        → Right c ts (
            with_misses inner now c1
              (map inner.hash ts)
              (looked_up c ts)
              (inner.embed (at_misses inner (looked_up c ts) ts)))
    unfolding lookup_batch
    with_provider-Right now c c1 ts s s1 = elim (embed_each (at_misses inner (looked_up c ts) ts)) [
      | inl h ↦
          subst (λ r. Right c ts (with_misses inner now c1 (map inner.hash ts) (looked_up c ts) r))
            (sym h) (with_misses-Right now c c1 ts s s1)
      | inr (e, h) ↦
          subst (λ r. Right c ts (with_misses inner now c1 (map inner.hash ts) (looked_up c ts) r))
            (sym h) (inr (e, h, refl), s1)
    ]

    embed-Right :
        (now : inner.Time) (texts : List Text) (c : CachedEmbedder inner)
        → IsSound c
        → Right c texts (embed inner now texts c)
    unfolding embed lookup_batch lookup is_row_of
    embed-Right now [] c s = (inl refl, s)
    embed-Right now (t ∷ ts) c s =
        let new = at_misses inner (looked_up c (t ∷ ts)) (t ∷ ts) in
        elim (Bool-cases (is_empty new)) [
          | inl q ↦ rw q (inl (ap ok (unwrap-all c (t ∷ ts) s (is_empty-nil new q))), s)
          | inr q ↦ rw q (with_provider-Right now c _ (t ∷ ts) s s)
        ]

    -- A history of calls.
    unfoldable pub embed_all :
        List (inner.Time × List Text) → CachedEmbedder inner → CachedEmbedder inner
    embed_all [] c = c
    embed_all ((now, texts) ∷ calls) c = embed_all calls (embed inner now texts c).1

    embed_all-IsSound :
        (calls : List (inner.Time × List Text)) (c : CachedEmbedder inner)
        → IsSound c
        → IsSound (embed_all calls c)
    unfolding embed_all
    embed_all-IsSound [] c s = s
    embed_all-IsSound ((now, texts) ∷ calls) c s =
        embed_all-IsSound calls (embed inner now texts c).1 (embed-Right now texts c s).1

    -- For a provider that embeds each text by itself or fails, and a hash without collisions, and for a
    -- table in which each row of the model and the dimension holds the embedding of the text of its
    -- hash, as in an empty one: after any calls, failed ones included, `embed` answers the provider's
    -- embeddings of the texts, in their order, or, only if the provider fails for the texts that are
    -- not in the table, its error.
    pub embed-inner :
        (calls : List (inner.Time × List Text)) (now : inner.Time) (texts : List Text)
        (c : CachedEmbedder inner)
        → IsSound c
        → IsAnswer (embed_all calls c) texts (embed inner now texts (embed_all calls c)).0
    embed-inner calls now texts c s =
        (embed-Right now texts (embed_all calls c) (embed_all-IsSound calls c s)).0
