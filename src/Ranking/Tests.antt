-- ===== src/Ranking/Tests.antt =====
-- A ranking of three candidates.
use nomai.Base.{
  ℕ, ◌+◌, ◌*◌, ◌≡◌, refl, Bool, Option, none, some, List, [], ◌∷◌, ltb, ◌==◌, map, any, find,
  sort_by, insert_by, Rearranged, Rearranged-refl, swap,
}
use nomai.Core.Json.{Value, number, string, object, field, nil, get_field, insert_field}
use nomai.Core.Sample.{sample}
use nomai.Ranking.{
  Floats, AffinityHit, EntryMemorySignal, RankedCandidate, Learned, entry_id, score_of, index,
  set_index, note_affinity, affinity_by_entry, add_base, add_bases, add_supplement, add_supplements,
  score_candidate, goes_before, collect, ranking, rank_candidates,
}
use nomai.Ranking.Order.{IsAnswer, ranking-IsAnswer, rank_candidates-shuffle}
use nomai.Text.{Text, codes, text_eq}

abbrev to_score : Value ℕ → Option ℕ
to_score (number n) = some n
to_score v = none

abbrev to_id : Text → Option ℕ
to_id [] = none
to_id (c ∷ s) = some c

-- Scores are numbers of halves.
abbrev floats : Floats sample
floats = record {
  Score = ℕ;
  zero_score = 0;
  half = 1;
  one = 2;
  add = λ a b. a + b;
  mul = λ a b. a * b;
  greater = λ a b. ltb b a;
  position = λ a. a;
  score_to_value = λ a. number a;
  as_f64 = to_score;
  parse_ulid = to_id;
  count_to_value = λ n. number n;
  time_to_value = λ t. number t;
}

abbrev item : ℕ → ℕ → Value ℕ
item id score = object (
    field (codes "entry") (object (field (codes "id") (string (id ∷ [])) nil))
      (field (codes "fusion_score") (number score) nil))

abbrev hit : ℕ → ℕ → AffinityHit sample floats
hit id score = record {
  entry_id = id;
  block_id = none;
  chunk_id = none;
  similarity = 0;
  confidence = 0;
  affinity_rank = 0;
  affinity_score = score;
}

abbrev no_signal : ℕ → Option (EntryMemorySignal sample floats)
no_signal id = none

-- Entry 2 is transient.
abbrev transient : ℕ → Bool
transient id = id == 2

abbrev Order : Type 0
Order = List (RankedCandidate sample floats) → List (RankedCandidate sample floats)

abbrev as_is : Order
as_is cs = cs

abbrev turned : Order
turned (a ∷ b ∷ cs) = b ∷ a ∷ cs
turned cs = cs

turned_lem : (cs : List (RankedCandidate sample floats)) → Rearranged cs (turned cs)
turned_lem [] = Rearranged-refl []
turned_lem (a ∷ []) = Rearranged-refl (a ∷ [])
turned_lem (a ∷ b ∷ cs) = swap a b cs

abbrev base : List (Value ℕ)
base = item 1 3 ∷ item 2 5 ∷ item 1 9 ∷ []

abbrev supplemental : List (Value ℕ)
supplemental = item 4 7 ∷ item 3 7 ∷ item 2 7 ∷ []

abbrev hits : List (AffinityHit sample floats)
hits = hit 3 2 ∷ hit 3 4 ∷ hit 1 1 ∷ []

abbrev learned : Learned sample floats
learned = record {
  affinities = affinity_by_entry sample floats [] hits;
  signals = no_signal;
  transient = transient;
}

-- 3 has (0 + 4) * 2 * 2, 1 has (3 + 1) * 2 * 2, and 2 has 5 * 2 * 1: the tie of 1 and 3 goes to 1, whose
-- fused score is higher.
ranked :
    map (λ c. c.entry_id) (ranking sample floats turned base supplemental learned 10 2)
    ≡ 1 ∷ 3 ∷ 2 ∷ []
unfolding ranking collect add_bases add_base entry_id index get_field insert_field text_eq score_of
    add_supplements add_supplement set_index score_candidate goes_before affinity_by_entry
    note_affinity any find sort_by insert_by
ranked = refl

rank_candidates-shuffle_example :
    rank_candidates sample floats as_is base supplemental hits no_signal transient 10 2
    ≡ rank_candidates sample floats turned base supplemental hits no_signal transient 10 2
rank_candidates-shuffle_example =
    rank_candidates-shuffle sample floats as_is turned base supplemental hits no_signal transient 10
      2 Rearranged-refl turned_lem

ranking-IsAnswer_example :
    IsAnswer sample floats base
      (affinity_by_entry sample floats [] hits)
      10
      2
      (ranking sample floats turned base supplemental learned 10 2)
ranking-IsAnswer_example =
    ranking-IsAnswer sample floats turned base supplemental learned 10 2 turned_lem
