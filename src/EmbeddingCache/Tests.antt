-- ===== src/EmbeddingCache/Tests.antt =====
-- Runs of the cache over a provider whose embedding of a text is the text.
use nomai.Base.{
  inl, inr, ℕ, ◌≡◌, ◌⊎◌, refl, ap, none, List, [], ◌∷◌, map, any, find, Result, ok, err,
  if◌then◌else◌, Bool-cases,
}
use nomai.Core.{ProviderError, network}
use nomai.EmbeddingCache.{
  Inner, CachedEmbedder, encode_f32_le, is_row_of, lookup, lookup_batch, at_misses, embed,
}
use nomai.EmbeddingCache.Transparent.{IsSound, IsAnswer, embed_all, embed-inner}
use nomai.Text.{Text, codes, text_eq}
use nomai.Text.Order.{text_eq_iff}

abbrev echo : Inner
echo = record {
  Hash = Text;
  hash = λ t. t;
  same_hash = text_eq;
  F32 = ℕ;
  zero_f32 = 0;
  to_le_bytes = λ n. (n, 0, 0, 0);
  from_le_bytes = λ b. b.0;
  from-to_le_bytes = λ x. refl;
  Time = ℕ;
  embed = λ ts. ok ts;
}

abbrev cache : CachedEmbedder echo
cache = record {
  model = codes "m";
  dim = 1;
  warn_rows = 10;
  hits = 0;
  misses = 0;
  rows =
      record {
        model = codes "m";
        body_hash = 7 ∷ [];
        dim = 1;
        embedding = 7 ∷ 0 ∷ 0 ∷ 0 ∷ [];
        created_at = 0;
      }
      ∷ [];
}

map_same : (ts : List Text) → ts ≡ map (λ t. t) ts
map_same [] = refl
map_same (t ∷ ts) = rw⁻¹ (map_same ts) refl

test_embed : (embed echo 1 ((8 ∷ []) ∷ (7 ∷ []) ∷ (8 ∷ []) ∷ []) cache).1.misses ≡ 2
unfolding embed lookup_batch lookup is_row_of at_misses find text_eq
test_embed = refl

-- The provider fails if it is asked for `9`.
abbrev failure : ProviderError
failure = record { kind = network; message = []; status = none }

abbrev embed_once : List Text → Result ProviderError (List (List ℕ))
embed_once ts = if any (text_eq (9 ∷ [])) ts then err failure else ok ts

abbrev flaky : Inner
flaky = record echo { embed = embed_once }

embed_each :
    (ts : List Text)
    → (embed_once ts ≡ ok (map (λ t. t) ts)) ⊎ ((e : ProviderError) × (embed_once ts ≡ err e))
embed_each ts = elim (Bool-cases (any (text_eq (9 ∷ [])) ts)) [
  | inl q ↦ inr (failure, rw q refl)
  | inr q ↦ inl (rw q (ap ok (map_same ts)))
]

abbrev flaky_cache : CachedEmbedder flaky
flaky_cache = record {
  model = codes "m";
  dim = 1;
  warn_rows = 10;
  hits = 0;
  misses = 0;
  rows =
      record {
        model = codes "m";
        body_hash = 7 ∷ [];
        dim = 1;
        embedding = 7 ∷ 0 ∷ 0 ∷ 0 ∷ [];
        created_at = 0;
      }
      ∷ [];
}

cache-IsSound : IsSound flaky (λ t. t) embed_each (λ s t h. (text_eq_iff s t).0 h) flaky_cache
unfolding is_row_of encode_f32_le text_eq
cache-IsSound = (inr (7 ∷ [], refl, refl), tt)

abbrev history : List (ℕ × List Text)
history = (1, (8 ∷ []) ∷ []) ∷ (2, (9 ∷ []) ∷ []) ∷ []

embed-inner_example :
    IsAnswer flaky
      (λ t. t)
      embed_each
      (λ s t h. (text_eq_iff s t).0 h)
      (embed_all flaky (λ t. t) embed_each (λ s t h. (text_eq_iff s t).0 h) history flaky_cache)
      ((8 ∷ []) ∷ (7 ∷ []) ∷ [])
      (embed flaky 3 ((8 ∷ []) ∷ (7 ∷ []) ∷ []) (
        embed_all flaky (λ t. t) embed_each (λ s t h. (text_eq_iff s t).0 h) history flaky_cache)).0
embed-inner_example =
    embed-inner flaky (λ t. t) embed_each (λ s t h. (text_eq_iff s t).0 h) history 3
      ((8 ∷ []) ∷ (7 ∷ []) ∷ []) flaky_cache cache-IsSound
