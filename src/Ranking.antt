-- ===== src/Ranking.antt =====
-- crates/daemon/src/adaptive_search.rs: the ranking of the candidates of a hybrid search by what was
-- learned from earlier ones (AffinityHit and EntryMemorySignal of crates/core/src/memory_model.rs).
pub mod Items
pub mod Order
mod Tests
use nomai.Base.{
  ℕ, ◌+◌, ◌≡◌, Bool, true, false, not, ◌&&◌, ◌||◌, Option, none, some, List, [], ◌∷◌, map, take,
  any, find, if◌then◌else◌, ◌==◌, ltb, sort_by,
}
use nomai.Core.{Deps, Json, same_id}
use nomai.Core.Json.{Value, null, bool, string, object, Fields, nil, field, get_field, insert_field}
use nomai.Text.{Text, codes}

-- `f64` and what serde and the library of ULIDs do. `position` numbers the floats in the order of
-- `f64::total_cmp`.
pub record Floats (d : Deps) : Type 1 where
  pub Score : Type 0
  pub zero_score : Score
  pub half : Score
  pub one : Score
  pub add : Score → Score → Score
  pub mul : Score → Score → Score
  pub greater : Score → Score → Bool
  pub position : Score → ℕ
  pub score_to_value : Score → Json d
  pub as_f64 : Json d → Option Score
  pub parse_ulid : Text → Option d.Ulid
  pub count_to_value : ℕ → Json d
  pub time_to_value : d.Time → Json d

pub record AffinityHit (d : Deps) (f : Floats d) : Type 0 where
  pub entry_id : d.Ulid
  pub block_id : Option d.Ulid
  pub chunk_id : Option d.Ulid
  pub similarity : f.Score
  pub confidence : f.Score
  pub affinity_rank : ℕ
  pub affinity_score : f.Score

pub record EntryMemorySignal (d : Deps) (f : Floats d) : Type 0 where
  pub entry_id : d.Ulid
  pub reinforcement_count : ℕ
  pub last_reinforced_at : d.Time
  pub memory_factor : f.Score

pub record RankedCandidate (d : Deps) (f : Floats d) : Type 0 where
  pub entry_id : d.Ulid
  pub item : Json d
  pub fusion_score : f.Score

-- The supplements that were added, with all candidates.
pub record Candidates (d : Deps) (f : Floats d) : Type 0 where
  pub added : ℕ
  pub all : List (RankedCandidate d f)

-- `value[key]`, which is null where there is none.
abbrev pub or_null : {N : Type 0} → Option (Value N) → Value N
or_null none = null
or_null (some v) = v

unfoldable pub index : {N : Type 0} → Text → Value N → Value N
index k (object fs) = or_null (get_field k fs)
index k v = null

-- `value[key] = v`: null becomes an object. It would panic on any other value that is no object; an item
-- with an entry's id is an object.
unfoldable pub set_index : {N : Type 0} → Text → Value N → Value N → Value N
set_index k v (object fs) = object (insert_field k v fs)
set_index k v null = object (field k v nil)
set_index k v item = item

abbrev pub as_str : {N : Type 0} → Value N → Option Text
as_str (string s) = some s
as_str v = none

abbrev pub and_then : {A B : Type 0} → Option A → (A → Option B) → Option B
and_then none g = none
and_then (some a) g = g a

abbrev pub map_or : {A B : Type 0} → B → (A → B) → Option A → B
map_or b g none = b
map_or b g (some a) = g a

module _ (d : Deps) (f : Floats d) where
  unfoldable pub entry_id : Json d → Option d.Ulid
  entry_id item = and_then (as_str (index (codes "id") (index (codes "entry") item))) f.parse_ulid

  -- The score of an item, or 0.0.
  unfoldable pub score_of : Text → Json d → f.Score
  score_of k item = map_or f.zero_score (λ s. s) (f.as_f64 (index k item))

  -- The best affinity of each entry.
  unfoldable pub note_affinity : AffinityHit d f → List (AffinityHit d f) → List (AffinityHit d f)
  note_affinity hit [] = hit ∷ []
  note_affinity hit (h ∷ hs) =
      let rest = h ∷ note_affinity hit hs in
      if same_id d h.entry_id hit.entry_id
      then (if f.greater hit.affinity_score h.affinity_score then hit else h) ∷ hs
      else rest

  unfoldable pub affinity_by_entry :
      List (AffinityHit d f) → List (AffinityHit d f) → List (AffinityHit d f)
  affinity_by_entry table [] = table
  affinity_by_entry table (hit ∷ hits) = affinity_by_entry (note_affinity hit table) hits

  abbrev pub affinity_of : d.Ulid → List (AffinityHit d f) → Option (AffinityHit d f)
  affinity_of id table = find (λ h. same_id d h.entry_id id) table

  abbrev pub has_affinity : d.Ulid → List (AffinityHit d f) → Bool
  has_affinity id table = any (λ h. same_id d h.entry_id id) table

  abbrev pub contains : d.Ulid → List (RankedCandidate d f) → Bool
  contains id cs = any (λ c. same_id d c.entry_id id) cs

  -- A base item, if its entry is not there yet.
  unfoldable pub add_base : Json d → List (RankedCandidate d f) → List (RankedCandidate d f)
  add_base item cs = elim (entry_id item) [
    | none ↦ cs
    | some id ↦
        if contains id cs
        then cs
        else record {
          entry_id = id;
          item = item;
          fusion_score = score_of (codes "fusion_score") item;
        }
          ∷ cs
  ]

  unfoldable pub add_bases : List (Json d) → List (RankedCandidate d f) → List (RankedCandidate d f)
  add_bases [] cs = cs
  add_bases (item ∷ items) cs = add_bases items (add_base item cs)

  -- A supplemental item, if its entry is not there yet and has an affinity.
  unfoldable pub add_supplement : List (AffinityHit d f) → Json d → Candidates d f → Candidates d f
  add_supplement table item st = elim (entry_id item) [
    | none ↦ st
    | some id ↦ if contains id st.all || not (has_affinity id table) then st else record {
      added = st.added + 1;
      all =
          record {
            entry_id = id;
            item = set_index (codes "fusion_score") (f.score_to_value f.zero_score) item;
            fusion_score = f.zero_score;
          }
          ∷ st.all;
    }
  ]

  unfoldable pub add_supplements :
      List (AffinityHit d f) → ℕ → List (Json d) → Candidates d f → Candidates d f
  add_supplements table limit [] st = st
  add_supplements table limit (item ∷ items) st =
      let on = add_supplements table limit items (add_supplement table item st) in
      if st.added == limit then st else on

  abbrev pub signal_value : Option (EntryMemorySignal d f) → Bool → Json d
  signal_value signal matched = object (
      field (codes "reinforcement_count")
        (f.count_to_value (map_or 0 (λ s. s.reinforcement_count) signal))
        (field (codes "last_reinforced_at")
          (map_or null (λ s. f.time_to_value s.last_reinforced_at) signal)
          (field (codes "affinity_matched") (bool matched) nil)))

  -- What is learned, as the code has it: two maps and a set.
  pub record Learned : Type 0 where
    pub affinities : List (AffinityHit d f)
    pub signals : d.Ulid → Option (EntryMemorySignal d f)
    pub transient : d.Ulid → Bool

  unfoldable pub score_candidate : Learned → RankedCandidate d f → RankedCandidate d f
  score_candidate l c =
      let signal = l.signals c.entry_id in
      let affinity = affinity_of c.entry_id l.affinities in
      let affinity_score = map_or f.zero_score (λ h. h.affinity_score) affinity in
      let memory_factor = map_or f.one (λ s. s.memory_factor) signal in
      let transient_factor = if l.transient c.entry_id then f.half else f.one in
      let final_score =
        f.mul (f.mul (f.add c.fusion_score affinity_score) memory_factor) transient_factor in
      let item1 = set_index (codes "score") (f.score_to_value final_score) c.item in
      let item2 = set_index (codes "affinity_score") (f.score_to_value affinity_score) item1 in
      let item3 = set_index (codes "memory_factor") (f.score_to_value memory_factor) item2 in
      record c {
        item =
            set_index (codes "signals") (signal_value signal (map_or false (λ h. true) affinity))
              item3;
      }

  -- The order of the answer: by the score in the item, then by the fused score, both falling, then by id.
  abbrev pub score_key : RankedCandidate d f → ℕ
  score_key c = f.position (score_of (codes "score") c.item)

  abbrev pub fusion_key : RankedCandidate d f → ℕ
  fusion_key c = f.position c.fusion_score

  abbrev pub id_key : RankedCandidate d f → ℕ
  id_key c = d.number c.entry_id

  unfoldable pub goes_before : RankedCandidate d f → RankedCandidate d f → Bool
  goes_before a b =
      ltb (score_key b) (score_key a)
      || (score_key a == score_key b
          && (ltb (fusion_key b) (fusion_key a)
              || (fusion_key a == fusion_key b && ltb (id_key a) (id_key b))))

  unfoldable pub collect :
      List (Json d) → List (Json d) → List (AffinityHit d f) → ℕ → List (RankedCandidate d f)
  collect base supplemental table supplement_limit =
      (add_supplements table supplement_limit supplemental
        (record { added = 0; all = add_bases base [] })).all

  -- `shuffle` is the order in which the hash map gives its values.
  unfoldable pub ranking :
      (List (RankedCandidate d f) → List (RankedCandidate d f))
      → List (Json d)
      → List (Json d)
      → Learned
      → ℕ
      → ℕ
      → List (RankedCandidate d f)
  ranking shuffle base supplemental l limit supplement_limit = take limit (
      sort_by goes_before (
        map (score_candidate l)
          (shuffle (collect base supplemental l.affinities supplement_limit))))

  unfoldable pub rank_candidates :
      (List (RankedCandidate d f) → List (RankedCandidate d f))
      → List (Json d)
      → List (Json d)
      → List (AffinityHit d f)
      → (d.Ulid → Option (EntryMemorySignal d f))
      → (d.Ulid → Bool)
      → ℕ
      → ℕ
      → List (Json d)
  rank_candidates shuffle base supplemental hits signals transient limit supplement_limit =
      map (λ c. c.item)
        (ranking shuffle base supplemental
          (record {
            affinities = affinity_by_entry [] hits;
            signals = signals;
            transient = transient;
          })
          limit supplement_limit)
