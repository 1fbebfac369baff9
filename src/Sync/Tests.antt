-- ===== src/Sync/Tests.antt =====
-- A pass over two directories, one with its file and one without, and an index with two other rows.
use nomai.Base.{
  ℕ, ◌+◌, ◌≡◌, ◌≢◌, ◌↔◌, refl, true, false, Option, none, some, [], ◌∷◌, any, filter, find, arith,
  ◌==◌, ==_iff, if◌then◌else◌, Bool-cases, inl, inr, ok, err, ◌++◌,
}
use nomai.Blocks
use nomai.Blocks.{
  insert_block, is_insertable, same_place, derive_chunks, insert_chunks, insert_chunk,
  is_chunk_insertable, clashes, chunk_attrs, create_in_tx, delete_chunks, delete_blocks,
  delete_entry_row,
}
use nomai.Chunking
use nomai.Core.{CoreError, check_attrs}
use nomai.Core.Json.{null, number, string, object, nil, field, insert_field}
use nomai.Core.Model.{Entry}
use nomai.Core.Sample.{sample}
use nomai.NomaiFormat.Document.{program}
use nomai.Sync.{
  Formats, Files, Index, Pass, trim_newlines, to_fields, read_entry, create_blocks, insert_entry,
  reindex_one, db_rows, decide, delete_entry, sync_entry, sync_entries, sweep, sync_from_fs,
  verify_fs,
}
use nomai.Sync.Passes.{IsFaithful}
use nomai.Sync.Rebuild.{wipe, rebuild_entries, rebuild_index}
use nomai.Sync.Rebuilt.{IsRebuilt, rebuild_index-IsRebuilt}
use nomai.Sync.Reindexing.{row_at}
use nomai.Sync.Synced.{IsSynced, sync_from_fs-IsSynced, verify_fs-sync_from_fs}
use nomai.Text.{Text, codes, text_eq}

abbrev first_code : Text → Option ℕ
first_code [] = none
first_code (c ∷ s) = some c

same_iff : (a b : ℕ) → ((a == b) ≡ true) ↔ (a ≡ b)
same_iff = ==_iff

abbrev formats : Formats sample
formats = record {
  Other = ℕ;
  parse_ulid = first_code;
  parse_from_rfc3339 = first_code;
  other_to_string = λ n. n ∷ [];
  other_to_value = λ n. number n;
  same_time = λ a b. a == b;
  same_time_iff = same_iff;
  parse-print_time = λ t. refl;
}

abbrev codec : Blocks.Codec sample
codec = record {
  block_to_value = λ b. null;
  constraint_error = 19;
  constraint_message = codes "UNIQUE constraint failed";
  chunk_target_size = 4;
}

-- `A` has a file of time 70, and `B` has none.
abbrev mtime : ℕ → Option ℕ
mtime id = if id == b'A' then some 70 else none

abbrev files : Files sample
files = record {
  scan_entry_ids = b'A' ∷ b'B' ∷ [];
  content = λ id. ok (
      codes
        "#format_version 1\n#id A\n#title T\n#tags a\n#created_at X\n#updated_at Y\n\n@claim\nabcdef\n");
  entry_mtime = mtime;
}

abbrev entry : ℕ → Entry sample
entry n = record {
  id = n;
  title = [];
  blocks = [];
  tags = [];
  attrs = null;
  source = none;
  created_at = 0;
  updated_at = 0;
}

-- Rows for `B`, and for `C`, which has no directory.
abbrev index : Index sample
index = record {
  tables = record {
    entries = entry b'B' ∷ entry b'C' ∷ [];
    blocks = [];
    chunks = [];
    index = [];
    vectors = [];
    events = [];
  };
  fs_mtime = λ id. some (70 ∷ []);
}

abbrev calls : ℕ → ℕ → Blocks.Call sample
calls id n = record { id = n; chunk_id = λ i. n + i; event_id = n; now = n; event_now = n }

-- What a run unfolds.
operations : Unit {0}
unfolding sync_from_fs sync_entries sync_entry sweep db_rows decide reindex_one read_entry
    insert_entry create_blocks delete_entry to_fields trim_newlines create_in_tx check_attrs
    insert_block is_insertable same_place derive_chunks insert_chunks insert_chunk
    is_chunk_insertable clashes chunk_attrs delete_entry_row delete_blocks delete_chunks
    insert_field any filter find text_eq program Chunking.program
operations = tt

abbrev row : Entry sample
row = record {
  id = b'A';
  title = codes "T";
  blocks = [];
  tags = codes "a" ∷ [];
  attrs = object nil;
  source = none;
  created_at = b'X';
  updated_at = b'Y';
}

abbrev chunk : ℕ → ℕ → Text → Blocks.Chunk sample
chunk id i t = record {
  id = id;
  block_id = 0;
  ordinal = i;
  text = t;
  attrs = object (field (codes "parent_block_type") (string (codes "claim")) nil);
  created_at = 0;
  updated_at = 0;
}

-- What the pass leaves: the row of `A` with its block and the chunks.
abbrev after_pass : Pass sample
after_pass = record {
  index = record {
    tables = record {
      entries = row ∷ [];
      blocks =
          record {
            id = 0;
            entry_id = b'A';
            ordinal = 0;
            type = codes "claim";
            text = codes "abcdef";
            attrs = object nil;
            created_at = 0;
            updated_at = 0;
          }
          ∷ [];
      chunks = chunk 1 1 (codes "ef") ∷ chunk 0 0 (codes "abcd") ∷ [];
      index =
          record { block_id = 0; entry_id = b'A'; type = codes "claim"; text = codes "abcdef" }
          ∷ [];
      vectors = [];
      events = [];
    };
    fs_mtime = λ id. if id == b'A' then some (70 ∷ []) else some (70 ∷ []);
  };
  result = record { added = 1; updated = 0; removed = 2; unchanged = 0; reindexed_ids = b'A' ∷ [] };
}

passed : sync_from_fs sample codec formats calls files index ≡ ok after_pass
unfolding operations
passed = refl

no_row :
    (id : ℕ) (e : Entry sample)
    → (id == b'A') ≡ true
    → row_at sample codec formats id index ≢ some e
unfolding find
no_row id e q h = let same : id ≡ b'A' = ground (arith, q) in ground (arith, same, h)

no_file : (id t : ℕ) → (id == b'A') ≡ false → mtime id ≢ some t
no_file id t q h = ground (arith, q, h)

faithful : IsFaithful sample codec formats files index
faithful id t stamp e m r c s = elim (Bool-cases (id == b'A')) [
  | inl q ↦ absurd (no_row id e q r)
  | inr q ↦ absurd (no_file id t q m)
]

sync_from_fs-IsSynced_example : IsSynced sample codec formats files after_pass.index
sync_from_fs-IsSynced_example =
    sync_from_fs-IsSynced sample codec formats files calls index after_pass faithful passed

verify_fs-sync_from_fs_example :
    verify_fs sample codec formats files after_pass.index
    ≡ record { fs_only = 1; db_only = 0; stale_mtime = 0; consistent = 1 }
unfolding filter
verify_fs-sync_from_fs_example =
    verify_fs-sync_from_fs sample codec formats files calls index after_pass faithful passed

-- A rebuild in which the second of the files cannot be read.
abbrev broken_files : Files sample
broken_files = record files { content = λ id. if id == b'A' then files.content id else err 5 }

abbrev show : CoreError sample → Text
show e = codes "broken"

rebuilt_test :
    (rebuild_index sample codec formats show calls broken_files index).result
    ≡ record { reindexed = 1; errors = (codes "entry " ++ b'B' ∷ codes ": broken") ∷ [] }
unfolding operations rebuild_index rebuild_entries wipe
rebuilt_test = refl

rebuild_index-IsRebuilt_example :
    IsRebuilt sample codec formats show broken_files index
      (rebuild_index sample codec formats show calls broken_files index)
rebuild_index-IsRebuilt_example =
    rebuild_index-IsRebuilt sample codec formats show broken_files calls index
