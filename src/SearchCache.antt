-- ===== src/SearchCache.antt =====
-- crates/daemon/src/search_cache.rs: the cache of search results. An operation takes the cache and
-- returns the new one beside its result; atomic counters wrap around.
pub mod Lookups
pub mod Counters
mod Tests
use nomai.Base.{
  ℕ, ◌+◌, ◌*◌, ◌%◌, ◌^◌, ◌≡◌, refl, Bool, true, false, ◌&&◌, Option, none, some, List, [], ◌∷◌, ltb,
  ◌==◌, if◌then◌else◌, length, take, Result, ok, err,
}
use nomai.Text.{Text, text_eq}

pub data SearchRpc : Type 0 where
  semantic fulltext hybrid : SearchRpc

unfoldable pub same_rpc : SearchRpc → SearchRpc → Bool
same_rpc semantic semantic = true
same_rpc fulltext fulltext = true
same_rpc hybrid hybrid = true
same_rpc _ _ = false

-- A hash is the list of its bytes.
pub record Key : Type 0 where
  pub generation : ℕ
  pub rpc : SearchRpc
  pub query_hash : List ℕ
  pub limit : ℕ
  pub block_type_hash : Option ℕ
  pub tag_hash : Option ℕ
  pub weights_hash : Option ℕ

unfoldable pub same_opt : Option ℕ → Option ℕ → Bool
same_opt none none = true
same_opt (some a) (some b) = a == b
same_opt _ _ = false

unfoldable pub same_key : Key → Key → Bool
same_key k j =
    k.generation == j.generation
    && same_rpc k.rpc j.rpc
    && text_eq k.query_hash j.query_hash
    && k.limit == j.limit
    && same_opt k.block_type_hash j.block_type_hash
    && same_opt k.tag_hash j.tag_hash
    && same_opt k.weights_hash j.weights_hash

-- What the callers compute, their errors, and `blake3::hash`, which comes from another library.
pub record Deps : Type 1 where
  pub Value : Type 0
  pub Error : Type 0
  pub blake3 : Text → List ℕ

-- `u64::from_le_bytes`
abbrev pub from_le_bytes : List ℕ → ℕ
from_le_bytes [] = 0
from_le_bytes (b ∷ bs) = b + 256 * from_le_bytes bs

-- `fetch_add(1)` on an `AtomicU64`
abbrev pub fetch_add : ℕ → ℕ
fetch_add n = (n + 1) % 2 ^ 64

module _ (d : Deps) where
  unfoldable pub hash_opt : Option Text → Option ℕ
  hash_opt none = none
  hash_opt (some s) = some (from_le_bytes (take 8 (d.blake3 s)))

  abbrev pub CachedResults : Type 0
  CachedResults = List d.Value

  pub record SearchCache : Type 0 where
    pub map : List (Key × CachedResults)
    pub generation : ℕ
    pub hits : ℕ
    pub misses : ℕ
    pub semantic_hits : ℕ
    pub semantic_misses : ℕ
    pub fulltext_hits : ℕ
    pub fulltext_misses : ℕ
    pub hybrid_hits : ℕ
    pub hybrid_misses : ℕ

  abbrev pub new : SearchCache
  new = record {
    map = [];
    generation = 0;
    hits = 0;
    misses = 0;
    semantic_hits = 0;
    semantic_misses = 0;
    fulltext_hits = 0;
    fulltext_misses = 0;
    hybrid_hits = 0;
    hybrid_misses = 0;
  }

  unfoldable pub bump_generation : SearchCache → SearchCache
  bump_generation c = record c { generation = fetch_add c.generation }

  unfoldable pub clear : SearchCache → ℕ × SearchCache
  clear c = (length c.map, record c { map = [] })

  -- `DashMap::get` and `DashMap::insert`
  unfoldable pub get : Key → List (Key × CachedResults) → Option CachedResults
  get k [] = none
  get k ((j, r) ∷ m) = if same_key j k then some r else get k m

  unfoldable pub insert :
      Key → CachedResults → List (Key × CachedResults) → List (Key × CachedResults)
  insert k r [] = (k, r) ∷ []
  insert k r ((j, s) ∷ m) =
      let rest = insert k r m in if same_key j k then (j, r) ∷ m else (j, s) ∷ rest

  unfoldable pub bump_counter : SearchRpc → Bool → SearchCache → SearchCache
  bump_counter semantic true c = record c {
    hits = fetch_add c.hits;
    semantic_hits = fetch_add c.semantic_hits;
  }
  bump_counter semantic false c = record c {
    misses = fetch_add c.misses;
    semantic_misses = fetch_add c.semantic_misses;
  }
  bump_counter fulltext true c = record c {
    hits = fetch_add c.hits;
    fulltext_hits = fetch_add c.fulltext_hits;
  }
  bump_counter fulltext false c = record c {
    misses = fetch_add c.misses;
    fulltext_misses = fetch_add c.fulltext_misses;
  }
  bump_counter hybrid true c = record c {
    hits = fetch_add c.hits;
    hybrid_hits = fetch_add c.hybrid_hits;
  }
  bump_counter hybrid false c = record c {
    misses = fetch_add c.misses;
    hybrid_misses = fetch_add c.hybrid_misses;
  }

  -- The arguments of a lookup.
  pub record Request : Type 0 where
    pub rpc : SearchRpc
    pub query : Text
    pub limit : ℕ
    pub block_type : Option Text
    pub tag : Option Text
    pub weights_hash : Option ℕ

  unfoldable pub key_of : SearchCache → Request → Key
  key_of c q = record {
    generation = c.generation;
    rpc = q.rpc;
    query_hash = d.blake3 q.query;
    limit = q.limit;
    block_type_hash = hash_opt q.block_type;
    tag_hash = hash_opt q.tag;
    weights_hash = q.weights_hash;
  }

  -- Step 3 of a lookup. Other calls may run between the computation and this step.
  unfoldable pub store : Key → Result d.Error CachedResults → SearchCache → SearchCache
  store k (ok r) c = record c { map = insert k r c.map }
  store k (err e) c = c

  -- A lookup whose computation, if it is run, ends in `computed`.
  unfoldable pub lookup_or_compute :
      Request
      → Result d.Error CachedResults
      → SearchCache
      → Result d.Error CachedResults × SearchCache
  lookup_or_compute q computed c =
      let k = key_of c q in
      elim (get k c.map) [
        | some r ↦ (ok r, bump_counter q.rpc true c)
        | none ↦ (computed, store k computed (bump_counter q.rpc false c))
      ]
