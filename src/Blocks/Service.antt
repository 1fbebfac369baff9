-- ===== src/Blocks/Service.antt =====
-- The other operations of crates/core/src/block_service.rs, and those of chunk_service.rs on chunks and
-- their embeddings.
use nomai.Base.{
  ℕ, ◌+◌, ◌%◌, ◌^◌, Bool, true, false, not, ◌&&◌, ◌||◌, Option, none, some, List, [], ◌∷◌,
  if◌then◌else◌, any, filter, find, map, max, sort_by, by_key, length, Result, ok, err, ok_or,
  ◌>>=◌,
}
use nomai.Blocks.{
  Chunk, Tables, Call, Codec, Fallible, has_entry, is_block, is_chunk_of, is_row_of, index_row,
  delete_chunks, delete_blocks, derive_chunks, block_event, insert_event, insert_event_checked,
  create_in_tx,
}
use nomai.Core.{Deps, CoreError, not_found, validation, Json, same_id}
use nomai.Core.Json.{Value, null, object, get_field, is_object}
use nomai.Core.Model.{Block, Entry}
use nomai.Core.Transaction.{in_tx}
use nomai.Text.{Text, codes, text_eq}

pub record BlockListResult (d : Deps) : Type 0 where
  pub items : List (Block d)
  pub total : ℕ

pub record ChunkListResult (d : Deps) : Type 0 where
  pub items : List (Chunk d)
  pub total : ℕ

abbrev pub unwrap_or : {A : Type 0} → Option A → A → A
unwrap_or none a = a
unwrap_or (some b) a = b

-- `json_extract(attrs, '$.key') IS NOT NULL`
abbrev pub is_value : {N : Type 0} → Option (Value N) → Bool
is_value none = false
is_value (some null) = false
is_value (some v) = true

unfoldable pub is_set : {N : Type 0} → Text → Value N → Bool
is_set k (object fs) = is_value (get_field k fs)
is_set k v = false

module _ (d : Deps) (codec : Codec d) where
  -- `MAX(ordinal)`, which is NULL of no rows.
  unfoldable pub max_ordinal : List (Block d) → Option ℕ
  max_ordinal [] = none
  max_ordinal (b ∷ bs) = some (max b.ordinal (unwrap_or (max_ordinal bs) 0))

  -- `max_ordinal.map(|m| (m + 1) as u32).unwrap_or(0)`
  abbrev pub after_max : Option ℕ → ℕ
  after_max none = 0
  after_max (some m) = (m + 1) % 2 ^ 32

  abbrev pub is_in : d.Ulid → Block d → Bool
  is_in entry_id b = same_id d b.entry_id entry_id

  unfoldable pub next_ordinal : d.Ulid → Tables d → ℕ
  next_ordinal entry_id db = after_max (max_ordinal (filter (is_in entry_id) db.blocks))

  unfoldable pub append_in_tx :
      Call d
      → d.Ulid
      → Text
      → Text
      → Option (Json d)
      → Tables d
      → Fallible d codec (Block d × Tables d)
  append_in_tx call entry_id type text attrs db =
      if has_entry d codec entry_id db.entries
      then create_in_tx d codec call
          (record {
            entry_id = entry_id;
            ordinal = next_ordinal entry_id db;
            type = type;
            text = text;
            attrs = attrs;
          })
          true db
      else err (not_found entry_id)

  unfoldable pub append :
      Call d
      → d.Ulid
      → Text
      → Text
      → Option (Json d)
      → Tables d
      → Result (CoreError d) (Block d) × Tables d
  append call entry_id type text attrs = in_tx d (append_in_tx call entry_id type text attrs)

  unfoldable pub read_block : d.Ulid → Tables d → Fallible d codec (Block d)
  read_block id db = ok_or (find (is_block d codec id) db.blocks) (not_found id)

  abbrev pub set_columns : Block d → Block d → Block d
  set_columns u b =
      if is_block d codec u.id b
      then record b { type = u.type; text = u.text; attrs = u.attrs; updated_at = u.updated_at }
      else b

  -- `UPDATE blocks`, with the trigger `blocks_au`.
  unfoldable pub update_row : Block d → Tables d → Tables d
  update_row u db = record db {
    blocks = map (set_columns u) db.blocks;
    index = index_row d codec u ∷ filter (λ r. not (is_row_of d codec u.id r)) db.index;
  }

  -- The chunks are derived anew only if the text is another one.
  unfoldable pub rechunk : Call d → Text → Block d → Tables d → Fallible d codec (Tables d)
  rechunk call old_text u db =
      if not (text_eq u.text old_text)
      then derive_chunks d codec call u (delete_chunks d codec (is_chunk_of d codec u.id) db)
      else ok db

  unfoldable pub object_only : Json d → Fallible d codec (Json d)
  object_only attrs =
      if not (is_object attrs)
      then err (validation (codes "attrs must be a JSON object"))
      else ok attrs

  abbrev pub updated : Call d → Block d → Option Text → Option Text → Json d → Block d
  updated call existing type text attrs = record existing {
    type = unwrap_or type existing.type;
    text = unwrap_or text existing.text;
    attrs = attrs;
    updated_at = call.now;
  }

  unfoldable pub update_in_tx :
      Call d
      → d.Ulid
      → Option Text
      → Option Text
      → Option (Json d)
      → Tables d
      → Fallible d codec (Block d × Tables d)
  update_in_tx call id type text attrs db = do
    existing ← read_block id db
    new_attrs ← object_only (unwrap_or attrs existing.attrs)
    let u = updated call existing type text new_attrs
    db1 ← rechunk call existing.text u (update_row u db)
    db2 ← insert_event_checked d codec (block_event d codec call (codes "block.updated") u) db1
    ok (u, db2)

  unfoldable pub update :
      Call d
      → d.Ulid
      → Option Text
      → Option Text
      → Option (Json d)
      → Tables d
      → Result (CoreError d) (Block d) × Tables d
  update call id type text attrs = in_tx d (update_in_tx call id type text attrs)

  unfoldable pub delete_in_tx : Call d → d.Ulid → Tables d → Fallible d codec (Block d × Tables d)
  delete_in_tx call id db = do
    block ← read_block id db
    let db1 = delete_blocks d codec (is_block d codec id) db
    db2 ← insert_event d codec (block_event d codec call (codes "block.deleted") block) db1
    ok (block, db2)

  unfoldable pub delete : Call d → d.Ulid → Tables d → Result (CoreError d) (Block d) × Tables d
  delete call id = in_tx d (delete_in_tx call id)

  -- `BENCHMARK_ENTRY_PREDICATE`: the fixtures of a benchmark run.
  unfoldable pub is_benchmark_entry : Entry d → Bool
  is_benchmark_entry e =
      is_set (codes "benchmark_run_id") e.attrs && is_set (codes "benchmark_case_id") e.attrs

  -- The join with the entry of a block, and what it shows.
  unfoldable pub is_visible : Bool → Tables d → Block d → Bool
  is_visible include_benchmark db b =
      any (λ e. same_id d e.id b.entry_id && (include_benchmark || not (is_benchmark_entry e)))
        db.entries

  unfoldable pub get_visible : d.Ulid → Bool → Tables d → Fallible d codec (Block d)
  get_visible id include_benchmark db =
      ok_or (find (λ b. is_block d codec id b && is_visible include_benchmark db b) db.blocks)
        (not_found id)

  unfoldable pub list_visible : d.Ulid → Bool → Tables d → BlockListResult d
  list_visible entry_id include_benchmark db =
      let items =
        sort_by (by_key (λ b. b.ordinal))
          (filter (λ b. is_in entry_id b && is_visible include_benchmark db b) db.blocks) in
      record { items = items; total = length items }

  -- The join of a chunk with its block and its entry.
  unfoldable pub is_chunk_visible : Bool → Tables d → Chunk d → Bool
  is_chunk_visible include_benchmark db c =
      any (λ b. is_block d codec c.block_id b && is_visible include_benchmark db b) db.blocks

  unfoldable pub get_chunk_visible : d.Ulid → Bool → Tables d → Fallible d codec (Chunk d)
  get_chunk_visible id include_benchmark db =
      ok_or (find (λ c. same_id d c.id id && is_chunk_visible include_benchmark db c) db.chunks)
        (not_found id)

  unfoldable pub list_chunks_visible : d.Ulid → Bool → Tables d → ChunkListResult d
  list_chunks_visible block_id include_benchmark db =
      let items = sort_by (by_key (λ c. c.ordinal)) (
        filter (λ c. is_chunk_of d codec block_id c && is_chunk_visible include_benchmark db c)
          db.chunks) in
      record { items = items; total = length items }

  unfoldable pub delete_embedding : d.Ulid → Tables d → Tables d
  delete_embedding chunk_id db = record db {
    vectors = filter (λ v. not (same_id d v.chunk_id chunk_id)) db.vectors;
  }

  -- The vector of a chunk is deleted and inserted: `vec0` has no upsert.
  unfoldable pub write_embedding : d.Ulid → List ℕ → Tables d → Tables d
  write_embedding chunk_id embedding db =
      let db1 = delete_embedding chunk_id db in
      record db1 { vectors = record { chunk_id = chunk_id; embedding = embedding } ∷ db1.vectors }
