-- ===== src/Search.antt =====
-- `dedupe_hits` of crates/core/src/service.rs: the rows of a full-text search, best first, as one hit for
-- each entry.
pub mod Hits
mod Tests
use nomai.Base.{
  ℕ, ◌+◌, ◌%◌, ◌^◌, ◌≡◌, Bool, Option, none, some, List, [], ◌∷◌, ◌++◌, any, take, length,
  if◌then◌else◌, ltb,
}
use nomai.Core.{Deps, same_id}
use nomai.Text.{Text}

-- The ids as text, and `rank.abs() as f32`, on a type of ranks and one of scores.
pub record Ranks (d : Deps) : Type 1 where
  pub parse_ulid : Text → Option d.Ulid
  pub Rank : Type 0
  pub Score : Type 0
  pub to_score : Rank → Score

pub record FtsRow (d : Deps) (r : Ranks d) : Type 0 where
  pub entry_id : Text
  pub block_id : Text
  pub block_type : Text
  pub text : Text
  pub rank : r.Rank

pub record DedupedHit (d : Deps) (r : Ranks d) : Type 0 where
  pub entry_id : d.Ulid
  pub score : r.Score
  pub match_count : ℕ
  pub matched_block_ids : List d.Ulid
  pub best_block_id : d.Ulid
  pub best_block_type : Text
  pub best_text : Text

abbrev pub ids_cap : ℕ
ids_cap = 64

module _ (d : Deps) (r : Ranks d) where
  -- The counter is a `u32`.
  unfoldable pub count_match : d.Ulid → DedupedHit d r → DedupedHit d r
  count_match bid hit = record hit {
    match_count = (hit.match_count + 1) % 2 ^ 32;
    matched_block_ids =
        if ltb (length hit.matched_block_ids) ids_cap
        then hit.matched_block_ids ++ bid ∷ []
        else hit.matched_block_ids;
  }

  abbrev pub new_hit : d.Ulid → d.Ulid → FtsRow d r → DedupedHit d r
  new_hit id bid row = record {
    entry_id = id;
    score = r.to_score row.rank;
    match_count = 0;
    matched_block_ids = [];
    best_block_id = bid;
    best_block_type = row.block_type;
    best_text = row.text;
  }

  -- The hit of the entry, a new one at the end if there is none, counts the row. `order` and `map` are one
  -- list here.
  unfoldable pub add_row :
      d.Ulid → d.Ulid → FtsRow d r → List (DedupedHit d r) → List (DedupedHit d r)
  add_row id bid row [] = count_match bid (new_hit id bid row) ∷ []
  add_row id bid row (hit ∷ hits) =
      let rest = hit ∷ add_row id bid row hits in
      if same_id d hit.entry_id id then count_match bid hit ∷ hits else rest

  -- Rows whose ids are no ULIDs are skipped.
  abbrev pub add_parsed :
      Option d.Ulid → Option d.Ulid → FtsRow d r → List (DedupedHit d r) → List (DedupedHit d r)
  add_parsed none bid row hits = hits
  add_parsed (some id) none row hits = hits
  add_parsed (some id) (some bid) row hits = add_row id bid row hits

  unfoldable pub add_rows : List (FtsRow d r) → List (DedupedHit d r) → List (DedupedHit d r)
  add_rows [] hits = hits
  add_rows (row ∷ rows) hits =
      add_rows rows (add_parsed (r.parse_ulid row.entry_id) (r.parse_ulid row.block_id) row hits)

  unfoldable pub dedupe_hits : List (FtsRow d r) → ℕ → List (DedupedHit d r)
  dedupe_hits rows limit = take limit (add_rows rows [])
