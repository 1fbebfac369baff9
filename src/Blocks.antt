-- ===== src/Blocks.antt =====
-- crates/core/src/block_model.rs, chunk_model.rs and block_service.rs: the blocks of the entries, with
-- the chunks and the rows of the full-text index that are derived from them, as the tables and the
-- triggers of crates/core/migrations (V6, V8, V9, V10) keep them.
pub mod Service
pub mod Index
pub mod Removal
pub mod Updating
pub mod Steps
pub mod Reads
mod Tests
use nomai.Base.{
  ℕ, suc, ◌+◌, ◌%◌, ◌^◌, ◌≡◌, Bool, true, false, not, ◌&&◌, ◌||◌, Option, none, some, List, [], ◌∷◌,
  ◌++◌, if◌then◌else◌, ◌==◌, any, filter, find, map, Result, ok, err, ok_or, ◌>>=◌,
}
use nomai.Chunking.{chunk_text}
use nomai.Core.{Deps, CoreError, not_found, validation, storage, Json, same_id, check_attrs}
use nomai.Core.Json.{Value, object, string, is_object, insert_field}
use nomai.Core.Model.{Block, Entry}
use nomai.Core.Transaction.{in_tx}
use nomai.Events.{Event, log_event}
use nomai.Text.{Text, codes, text_eq}

pub record CreateBlock (d : Deps) : Type 0 where
  pub entry_id : d.Ulid
  pub ordinal : ℕ
  pub type : Text
  pub text : Text
  pub attrs : Option (Json d)

pub record Chunk (d : Deps) : Type 0 where
  pub id : d.Ulid
  pub block_id : d.Ulid
  pub ordinal : ℕ
  pub text : Text
  pub attrs : Json d
  pub created_at : d.Time
  pub updated_at : d.Time

-- A row of `fts_blocks`, and one of `vec_chunk_embeddings` with the bytes of its vector.
pub record IndexRow (d : Deps) : Type 0 where
  pub block_id : d.Ulid
  pub entry_id : d.Ulid
  pub type : Text
  pub text : Text

pub record VectorRow (d : Deps) : Type 0 where
  pub chunk_id : d.Ulid
  pub embedding : List ℕ

-- The tables, each with its newest row first.
pub record Tables (d : Deps) : Type 0 where
  pub entries : List (Entry d)
  pub blocks : List (Block d)
  pub chunks : List (Chunk d)
  pub index : List (IndexRow d)
  pub vectors : List (VectorRow d)
  pub events : List (Event d)

-- What a call takes from outside: the new ids, those of the chunks by their position, and the clock.
pub record Call (d : Deps) : Type 0 where
  pub id : d.Ulid
  pub chunk_id : ℕ → d.Ulid
  pub event_id : d.Ulid
  pub now : d.Time
  pub event_now : d.Time

-- serde's and SQLite's part, and the setting `chunking.target_size`.
pub record Codec (d : Deps) : Type 1 where
  pub block_to_value : Block d → Json d
  pub constraint_error : d.SqlError
  pub constraint_message : Text
  pub chunk_target_size : ℕ

module _ (d : Deps) (codec : Codec d) where
  abbrev pub Fallible : Type 0 → Type 0
  Fallible A = Result (CoreError d) A

  -- `storage::map_constraint_violation`
  abbrev pub violation : CoreError d
  violation = validation (codes "constraint violation: " ++ codec.constraint_message)

  abbrev pub has_entry : d.Ulid → List (Entry d) → Bool
  has_entry id = any (λ e. same_id d e.id id)

  abbrev pub is_block : d.Ulid → Block d → Bool
  is_block id b = same_id d b.id id

  abbrev pub is_chunk_of : d.Ulid → Chunk d → Bool
  is_chunk_of id c = same_id d c.block_id id

  abbrev pub is_row_of : d.Ulid → IndexRow d → Bool
  is_row_of id r = same_id d r.block_id id

  -- `PRIMARY KEY` and `UNIQUE(entry_id, ordinal)`
  unfoldable pub same_place : Block d → Block d → Bool
  same_place a b =
      same_id d a.id b.id || (same_id d a.entry_id b.entry_id && a.ordinal == b.ordinal)

  unfoldable pub is_insertable : Block d → Tables d → Bool
  is_insertable b db = has_entry b.entry_id db.entries && not (any (same_place b) db.blocks)

  -- `PRIMARY KEY` and `UNIQUE(block_id, ordinal)`
  unfoldable pub clashes : Chunk d → Chunk d → Bool
  clashes a b = same_id d a.id b.id || (same_id d a.block_id b.block_id && a.ordinal == b.ordinal)

  unfoldable pub is_chunk_insertable : Chunk d → Tables d → Bool
  is_chunk_insertable c db = any (is_block c.block_id) db.blocks && not (any (clashes c) db.chunks)

  abbrev pub index_row : Block d → IndexRow d
  index_row b = record { block_id = b.id; entry_id = b.entry_id; type = b.type; text = b.text }

  -- The insertion of a row, with the trigger `blocks_ai`.
  unfoldable pub insert_block : Block d → Tables d → Fallible (Tables d)
  insert_block b db =
      if is_insertable b db
      then ok (record db { blocks = b ∷ db.blocks; index = index_row b ∷ db.index })
      else err violation

  unfoldable pub insert_chunk : Chunk d → Tables d → Fallible (Tables d)
  insert_chunk c db =
      if is_chunk_insertable c db then ok (record db { chunks = c ∷ db.chunks }) else err violation

  -- `DELETE FROM chunks`, with the trigger `chunks_ad`.
  unfoldable pub delete_chunks : (Chunk d → Bool) → Tables d → Tables d
  delete_chunks p db = record db {
    chunks = filter (λ c. not (p c)) db.chunks;
    vectors =
        filter (λ v. not (any (λ c. same_id d c.id v.chunk_id) (filter p db.chunks))) db.vectors;
  }

  -- `DELETE FROM blocks`, with the trigger `blocks_ad` and the cascade to the chunks.
  unfoldable pub delete_blocks : (Block d → Bool) → Tables d → Tables d
  delete_blocks p db =
      let gone = filter p db.blocks in
      let db1 = delete_chunks (λ c. any (is_block c.block_id) gone) db in
      record db1 {
        blocks = filter (λ b. not (p b)) db1.blocks;
        index = filter (λ r. not (any (is_block r.block_id) gone)) db1.index;
      }

  -- `DELETE FROM entries`, with the cascade to the blocks.
  unfoldable pub delete_entry_row : d.Ulid → Tables d → Tables d
  delete_entry_row id db =
      let db1 = delete_blocks (λ b. same_id d b.entry_id id) db in
      record db1 { entries = filter (λ e. not (same_id d e.id id)) db1.entries }

  -- The attributes of the chunks of a block.
  unfoldable pub chunk_attrs : Text → Json d → Json d
  chunk_attrs type (object fs) = object (insert_field (codes "parent_block_type") (string type) fs)
  chunk_attrs type attrs = attrs

  abbrev pub new_chunk : Call d → d.Ulid → Json d → ℕ → Text → Chunk d
  new_chunk call block_id attrs i text = record {
    id = call.chunk_id i;
    block_id = block_id;
    ordinal = i % 2 ^ 32;
    text = text;
    attrs = attrs;
    created_at = call.now;
    updated_at = call.now;
  }

  -- The loops over the texts of the chunks; `chunk_ordinal as u32`.
  unfoldable pub insert_chunks :
      Call d → d.Ulid → Json d → ℕ → List Text → Tables d → Fallible (Tables d)
  insert_chunks call block_id attrs i [] db = ok db
  insert_chunks call block_id attrs i (t ∷ ts) db = do
    db1 ← insert_chunk (new_chunk call block_id attrs i t) db
    insert_chunks call block_id attrs (suc i) ts db1

  abbrev pub block_event : Call d → Text → Block d → Event d
  block_event call kind b = record {
    id = call.event_id;
    type = kind;
    target_type = codes "block";
    target_id = b.id;
    payload = codec.block_to_value b;
    created_at = call.event_now;
  }

  unfoldable pub insert_event : Event d → Tables d → Fallible (Tables d)
  insert_event e db = do
    events ← log_event d codec.constraint_error e db.events
    ok (record db { events = events })

  -- The same, behind `map_constraint_violation`.
  unfoldable pub insert_event_checked : Event d → Tables d → Fallible (Tables d)
  insert_event_checked e db = elim (insert_event e db) [ ok db1 ↦ ok db1 | err why ↦ err violation ]

  abbrev pub new_block : Call d → CreateBlock d → Json d → Block d
  new_block call p attrs = record {
    id = call.id;
    entry_id = p.entry_id;
    ordinal = p.ordinal;
    type = p.type;
    text = p.text;
    attrs = attrs;
    created_at = call.now;
    updated_at = call.now;
  }

  -- The chunks of a block.
  unfoldable pub derive_chunks : Call d → Block d → Tables d → Fallible (Tables d)
  derive_chunks call b =
      insert_chunks call b.id (chunk_attrs b.type b.attrs) 0
        (chunk_text b.text codec.chunk_target_size)

  unfoldable pub create_in_tx :
      Call d → CreateBlock d → Bool → Tables d → Fallible (Block d × Tables d)
  create_in_tx call p emit_event db = do
    attrs ← check_attrs d (codes "attrs must be a JSON object") p.attrs
    let block = new_block call p attrs
    db1 ← insert_block block db
    db2 ← derive_chunks call block db1
    db3 ←
        (if emit_event
          then insert_event_checked (block_event call (codes "block.created") block) db2
          else ok db2)
    ok (block, db3)

  unfoldable pub create :
      Call d → CreateBlock d → Tables d → Result (CoreError d) (Block d) × Tables d
  create call p = in_tx d (create_in_tx call p true)
