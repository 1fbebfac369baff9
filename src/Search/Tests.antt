-- ===== src/Search/Tests.antt =====
-- Four rows of two entries, and one whose id is none.
use nomai.Base.{ℕ, ◌≡◌, refl, Option, none, some, List, [], ◌∷◌, take, map}
use nomai.Core.Sample.{sample}
use nomai.Search.{Ranks, FtsRow, DedupedHit, dedupe_hits, add_rows, add_row, count_match}
use nomai.Search.Hits.{parsed_rows, firsts, summary, dedupe_hits-summary}
use nomai.Text.{Text}

abbrev first_code : Text → Option ℕ
first_code [] = none
first_code (c ∷ s) = some c

abbrev ranks : Ranks sample
ranks = record { parse_ulid = first_code; Rank = ℕ; Score = ℕ; to_score = λ rank. rank }

abbrev row : ℕ → ℕ → ℕ → FtsRow sample ranks
row id block rank = record {
  entry_id = id ∷ [];
  block_id = block ∷ [];
  block_type = [];
  text = block ∷ [];
  rank = rank;
}

abbrev lost_row : FtsRow sample ranks
lost_row = record { entry_id = []; block_id = 9 ∷ []; block_type = []; text = []; rank = 5 }

abbrev found_rows : List (FtsRow sample ranks)
found_rows = row 2 10 9 ∷ lost_row ∷ row 1 11 8 ∷ row 2 12 7 ∷ row 2 13 6 ∷ []

abbrev best_hit : DedupedHit sample ranks
best_hit = record {
  entry_id = 2;
  score = 9;
  match_count = 3;
  matched_block_ids = 10 ∷ 12 ∷ 13 ∷ [];
  best_block_id = 10;
  best_block_type = [];
  best_text = 10 ∷ [];
}

hits_test : dedupe_hits sample ranks found_rows 1 ≡ best_hit ∷ []
unfolding dedupe_hits add_rows add_row count_match
hits_test = refl

dedupe_hits-summary_example :
    dedupe_hits sample ranks found_rows 1
    ≡ take 1 (
        map
          (summary sample ranks (parsed_rows sample ranks found_rows))
          (firsts sample ranks (parsed_rows sample ranks found_rows)))
dedupe_hits-summary_example = dedupe_hits-summary sample ranks found_rows 1
