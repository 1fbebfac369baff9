-- ===== src/EmbeddingCache.antt =====
-- crates/providers/src/cached.rs: embeddings kept in a table, by the model and the hash of the text.
pub mod Transparent
mod Tests
use nomai.Base.{
  ℕ, suc, ◌+◌, ◌-◌, ◌%◌, ◌^◌, ◌≡◌, Bool, true, false, not, ◌&&◌, Option, none, some, List, [], ◌∷◌,
  ◌++◌, if◌then◌else◌, ◌==◌, ltb, length, map, any, find, filter, is_empty, Result, ok, err,
}
use nomai.Core.{ProviderError}
use nomai.Text.{Text, text_eq}

-- blake3, the floats with their bytes, and the provider that is wrapped.
pub record Inner : Type 1 where
  pub Hash : Type 0
  pub hash : Text → Hash
  pub same_hash : Hash → Hash → Bool
  pub F32 : Type 0
  pub zero_f32 : F32
  pub to_le_bytes : F32 → ℕ × ℕ × ℕ × ℕ
  pub from_le_bytes : ℕ × ℕ × ℕ × ℕ → F32
  pub from-to_le_bytes : (x : F32) → from_le_bytes (to_le_bytes x) ≡ x
  pub Time : Type 0
  pub embed : List Text → Result ProviderError (List (List F32))

module _ (inner : Inner) where
  abbrev pub Embedding : Type 0
  Embedding = List inner.F32

  -- A row of `emb_cache`.
  pub record Row : Type 0 where
    pub model : Text
    pub body_hash : inner.Hash
    pub dim : ℕ
    pub embedding : List ℕ
    pub created_at : inner.Time

  pub record CachedEmbedder : Type 0 where
    pub model : Text
    pub dim : ℕ
    pub warn_rows : ℕ
    pub hits : ℕ
    pub misses : ℕ
    pub rows : List Row

  pub record CacheStats : Type 0 where
    pub model : Text
    pub dim : ℕ
    pub rows : ℕ
    pub hits : ℕ
    pub misses : ℕ
    pub warn_rows : ℕ
    pub warning : Bool

  unfoldable pub stats : CachedEmbedder → CacheStats
  stats c =
      let rows = length (filter (λ r. text_eq r.model c.model) c.rows) in
      record {
        model = c.model;
        dim = c.dim;
        rows = rows;
        hits = c.hits;
        misses = c.misses;
        warn_rows = c.warn_rows;
        warning = ltb c.warn_rows rows;
      }

  -- The bytes of an embedding, and `decode_f32_le`, which leaves a rest of less than four bytes.
  abbrev pub bytes : ℕ × ℕ × ℕ × ℕ → List ℕ → List ℕ
  bytes (a, b, c, d) rest = a ∷ b ∷ c ∷ d ∷ rest

  unfoldable pub encode_f32_le : Embedding → List ℕ
  encode_f32_le [] = []
  encode_f32_le (x ∷ xs) = bytes (inner.to_le_bytes x) (encode_f32_le xs)

  unfoldable pub decode_f32_le : List ℕ → Embedding
  decode_f32_le (a ∷ b ∷ c ∷ d ∷ rest) = inner.from_le_bytes (a, b, c, d) ∷ decode_f32_le rest
  decode_f32_le _ = []

  abbrev pub is_keyed_by : CachedEmbedder → inner.Hash → Row → Bool
  is_keyed_by c h r = text_eq r.model c.model && inner.same_hash r.body_hash h

  unfoldable pub is_row_of : CachedEmbedder → inner.Hash → Row → Bool
  is_row_of c h r = is_keyed_by c h r && r.dim == c.dim

  abbrev pub decoded : Option Row → Option Embedding
  decoded none = none
  decoded (some r) = some (decode_f32_le r.embedding)

  unfoldable pub lookup : CachedEmbedder → inner.Hash → Option Embedding
  lookup c h = decoded (find (is_row_of c h) c.rows)

  unfoldable pub lookup_batch : CachedEmbedder → List inner.Hash → List (Option Embedding)
  lookup_batch c hashes = map (lookup c) hashes

  -- `INSERT OR IGNORE`: the key of the table is the model and the hash.
  unfoldable pub insert_or_ignore :
      CachedEmbedder → inner.Time → inner.Hash → Embedding → List Row → List Row
  insert_or_ignore c now h e rows =
      if any (is_keyed_by c h) rows
      then rows
      else record {
        model = c.model;
        body_hash = h;
        dim = c.dim;
        embedding = encode_f32_le e;
        created_at = now;
      }
        ∷ rows

  -- The loop stops at the shorter of the two lists.
  unfoldable pub persist_batch :
      CachedEmbedder → inner.Time → List inner.Hash → List Embedding → List Row → List Row
  persist_batch c now (h ∷ hs) (e ∷ es) rows =
      persist_batch c now hs es (insert_or_ignore c now h e rows)
  persist_batch c now _ _ rows = rows

  -- The elements at the indices of the misses.
  unfoldable pub at_misses : {A : Type 0} → List (Option Embedding) → List A → List A
  at_misses (none ∷ cs) (x ∷ xs) = x ∷ at_misses cs xs
  at_misses (some e ∷ cs) (x ∷ xs) = at_misses cs xs
  at_misses _ _ = []

  abbrev pub zeros : ℕ → Embedding
  zeros ℕ.zero = []
  zeros (suc n) = inner.zero_f32 ∷ zeros n

  unfoldable pub assemble : ℕ → List (Option Embedding) → List Embedding → List Embedding
  assemble dim [] new = []
  assemble dim (some e ∷ cs) new = e ∷ assemble dim cs new
  assemble dim (none ∷ cs) [] = zeros dim ∷ assemble dim cs []
  assemble dim (none ∷ cs) (e ∷ new) = e ∷ assemble dim cs new

  -- `Option::unwrap` of each, where none is missing.
  unfoldable pub unwrap_all : List (Option Embedding) → List Embedding
  unwrap_all [] = []
  unwrap_all (some e ∷ cs) = e ∷ unwrap_all cs
  unwrap_all (none ∷ cs) = unwrap_all cs

  abbrev pub with_misses :
      inner.Time
      → CachedEmbedder
      → List inner.Hash
      → List (Option Embedding)
      → Result ProviderError (List Embedding)
      → Result ProviderError (List Embedding) × CachedEmbedder
  with_misses now c hashes cached (err e) = (err e, c)
  with_misses now c hashes cached (ok new) = (
    ok (assemble c.dim cached new),
    record c { rows = persist_batch c now (at_misses cached hashes) new c.rows },
  )

  unfoldable pub embed :
      inner.Time
      → List Text
      → CachedEmbedder
      → Result ProviderError (List Embedding) × CachedEmbedder
  embed now texts c =
      if is_empty texts
      then (ok [], c)
      else let hashes = map inner.hash texts in
        let cached = lookup_batch c hashes in
        let missed = at_misses cached texts in
        let counted = record c {
          hits = (c.hits + (length texts - length missed)) % 2 ^ 64;
          misses = (c.misses + length missed) % 2 ^ 64;
        } in
        if is_empty missed
        then (ok (unwrap_all cached), counted)
        else with_misses now counted hashes cached (inner.embed missed)
