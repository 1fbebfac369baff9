-- ===== src/Blocks/Tests.antt =====
-- Runs of the operations on blocks.
use nomai.Base.{
  ℕ, ◌+◌, ◌^◌, ◌≤◌, ◌<◌, ◌≡◌, refl, none, some, List, [], ◌∷◌, ◌++◌, true, false, map, any, filter,
  find, All, arith, ok, length,
}
use nomai.Blocks.{
  Tables, Call, Codec, is_block, is_insertable, same_place, clashes, is_chunk_insertable,
  insert_block, insert_chunk, insert_chunks, derive_chunks, chunk_attrs, insert_event,
  insert_event_checked, create_in_tx, delete_chunks,
}
use nomai.Blocks.Index.{IsIndexed}
use nomai.Blocks.Reads.{list_chunks-chunk_text, list-append}
use nomai.Blocks.Service.{
  max_ordinal, next_ordinal, append_in_tx, append, read_block, object_only, rechunk, update_row,
  update_in_tx, update, is_in, is_set, is_benchmark_entry, is_visible, list_visible,
  list_chunks_visible,
}
use nomai.Blocks.Steps.{Op, appended, changed, entry_inserted, step, run, no_rows, run-IsIndexed}
use nomai.Chunking.{chunk_text, program}
use nomai.Core.{check_attrs}
use nomai.Core.Json.{null, object, nil, insert_field}
use nomai.Core.Model.{Block, Entry}
use nomai.Core.Sample.{sample}
use nomai.Core.Transaction.{in_tx}
use nomai.Events.{log_event}
use nomai.Text.{codes, text_eq}

abbrev entry : ℕ → Entry sample
entry n = record {
  id = n;
  title = [];
  blocks = [];
  tags = [];
  attrs = null;
  source = none;
  created_at = 0;
  updated_at = 0;
}

abbrev call : ℕ → Call sample
call n = record { id = n; chunk_id = λ i. n + i; event_id = n; now = n; event_now = n }

-- Chunks of 4 bytes.
abbrev codec : Codec sample
codec = record {
  block_to_value = λ b. null;
  constraint_error = 19;
  constraint_message = codes "UNIQUE constraint failed";
  chunk_target_size = 4;
}

abbrev calls : List (Op sample codec)
calls =
    entry_inserted (entry 1)
    ∷ appended (call 10) 1 (codes "note") (codes "abcdef") none
    ∷ appended (call 20) 1 (codes "claim") (codes "xyz") none
    ∷ changed (call 30) 10 none (some (codes "abcdefghi")) none
    ∷ []

abbrev db : Tables sample
db = run sample codec calls (no_rows sample codec)

-- What the runs below unfold.
operations : Unit {0}
unfolding run step append append_in_tx update update_in_tx in_tx create_in_tx check_attrs
    insert_block is_insertable same_place derive_chunks insert_chunks insert_chunk
    is_chunk_insertable clashes chunk_attrs insert_event_checked insert_event log_event next_ordinal
    max_ordinal read_block object_only rechunk update_row delete_chunks any filter find text_eq
    program insert_field
operations = tt

after_calls :
    (map (λ c. c.text) db.chunks ≡ codes "i" ∷ codes "efgh" ∷ codes "abcd" ∷ codes "xyz" ∷ [])
    × (map (λ b. b.ordinal) db.blocks ≡ 1 ∷ 0 ∷ [])
    × (map (λ r. r.block_id) db.index ≡ 10 ∷ 20 ∷ [])
unfolding operations
after_calls = (refl, refl, refl)

abbrev first : Block sample
first = record {
  id = 10;
  entry_id = 1;
  ordinal = 0;
  type = codes "note";
  text = codes "abcdefghi";
  attrs = object nil;
  created_at = 10;
  updated_at = 30;
}

first_found : find (is_block sample codec 10) db.blocks ≡ some first
unfolding operations
first_found = refl

first_visible : is_visible sample codec false db first ≡ true
unfolding operations is_visible is_benchmark_entry is_set
first_visible = refl

few_chunks : length (chunk_text first.text 4) ≤ 2 ^ 32
unfolding program
few_chunks = omega arith

run-IsIndexed_example : IsIndexed sample codec db
run-IsIndexed_example = run-IsIndexed sample codec calls

list_chunks-chunk_text_example :
    map (λ c. c.text) (list_chunks_visible sample codec 10 false db).items
    ≡ chunk_text (codes "abcdefghi") 4
list_chunks-chunk_text_example =
    list_chunks-chunk_text sample codec first false db (run-IsIndexed sample codec calls)
      first_found first_visible few_chunks

abbrev third : Block sample
third = record {
  id = 40;
  entry_id = 1;
  ordinal = 2;
  type = codes "note";
  text = codes "new";
  attrs = object nil;
  created_at = 40;
  updated_at = 40;
}

third_appended : (append sample codec (call 40) 1 (codes "note") (codes "new") none db).0 ≡ ok third
unfolding operations
third_appended = refl

third_visible : is_visible sample codec false db third ≡ true
unfolding operations is_visible is_benchmark_entry is_set
third_visible = refl

small_ordinals : All (λ b. b.ordinal + 1 < 2 ^ 32) (filter (is_in sample codec 1) db.blocks)
unfolding operations
small_ordinals = omega arith

list-append_example :
    (list_visible sample codec 1 false
      (append sample codec (call 40) 1 (codes "note") (codes "new") none db).1).items
    ≡ (list_visible sample codec 1 false db).items ++ third ∷ []
list-append_example =
    list-append sample codec (call 40) 1 (codes "note") (codes "new") none false db third
      third_appended third_visible small_ordinals
