-- ===== src/Sync.antt =====
-- The synchronisation of the index with the files: reindex_one, sync_from_fs and verify_fs of
-- crates/core/src/service.rs, and read_entry of crates/core/src/content_store.rs.
pub mod Reindexing
pub mod Passes
pub mod Synced
pub mod Rebuild
pub mod Quiet
pub mod Rebuilt
mod Tests
use nomai.Base.{
  ℕ, suc, ◌+◌, ◌%◌, ◌^◌, ◌≡◌, ◌↔◌, Bool, true, false, not, ◌&&◌, Option, none, some, List, [], ◌∷◌,
  ◌++◌, map, if◌then◌else◌, ◌==◌, any, find, filter, is_empty, Result, ok, err, ok_or, ◌>>=◌,
}
use nomai.Blocks.{Tables, CreateBlock, has_entry, delete_entry_row, create_in_tx}
use nomai.Blocks
use nomai.Core.{Deps, CoreError, nomai_format, io, storage, Json, same_id}
use nomai.Core.Json.{Value, Fields, object, string, nil, field}
use nomai.Core.Model.{Entry}
use nomai.NomaiFormat.Document.{parse}
use nomai.NomaiFormat.Model.{Externals, NomaiDoc, JsonMap, as_str}
use nomai.NomaiFormat.Model
use nomai.Text.{Text}

-- What the formats need: ULIDs, times, and JSON values that are no strings.
pub record Formats (d : Deps) : Type 1 where
  pub Other : Type 0
  pub parse_ulid : Text → Option d.Ulid
  pub parse_from_rfc3339 : Text → Option d.Time
  pub other_to_string : Other → Text
  pub other_to_value : Other → Json d
  pub same_time : d.Time → d.Time → Bool
  pub same_time_iff : (a b : d.Time) → (same_time a b ≡ true) ↔ (a ≡ b)
  pub parse-print_time : (t : d.Time) → parse_from_rfc3339 (d.to_rfc3339 t) ≡ some t

-- The directories under `entries/` whose names are ULIDs, and the file `entry.nomai` of each. They do not
-- change during a pass.
pub record Files (d : Deps) : Type 0 where
  pub scan_entry_ids : List d.Ulid
  pub content : d.Ulid → Result d.IoError Text
  pub entry_mtime : d.Ulid → Option d.Time

-- The tables, with the column `fs_mtime` of the entries.
pub record Index (d : Deps) : Type 0 where
  pub tables : Tables d
  pub fs_mtime : d.Ulid → Option Text

pub record SyncResult (d : Deps) : Type 0 where
  pub added : ℕ
  pub updated : ℕ
  pub removed : ℕ
  pub unchanged : ℕ
  pub reindexed_ids : List d.Ulid

pub record VerifyResult : Type 0 where
  pub fs_only : ℕ
  pub db_only : ℕ
  pub stale_mtime : ℕ
  pub consistent : ℕ

-- The variables of a pass.
pub record Pass (d : Deps) : Type 0 where
  pub index : Index d
  pub result : SyncResult d

-- What a pass does with a directory.
pub data Action : Type 0 where
  add update remove skip : Action

-- `trim_end_matches('\n')`
unfoldable pub trim_newlines : Text → Text
trim_newlines [] = []
trim_newlines (c ∷ s) =
    let rest = trim_newlines s in if c == b'\n' && is_empty rest then [] else c ∷ rest

module _ (d : Deps) (codec : Blocks.Codec d) (fm : Formats d) where
  abbrev pub externals : Externals
  externals = record {
    Ulid = d.Ulid;
    DateTime = d.Time;
    Other = fm.Other;
    parse_ulid = fm.parse_ulid;
    ulid_to_string = d.ulid_to_string;
    parse_date_time = fm.parse_from_rfc3339;
    to_rfc3339 = d.to_rfc3339;
    other_to_string = fm.other_to_string;
  }

  abbrev pub to_value : Model.Value externals → Json d
  to_value (Model.Value.string s) = string s
  to_value (Model.Value.other o) = fm.other_to_value o

  -- `Value::Object(attrs.clone())`
  unfoldable pub to_fields : JsonMap externals → Fields d.Number
  to_fields [] = nil
  to_fields ((k, v) ∷ m) = field k (to_value v) (to_fields m)

  abbrev pub parsed :
      Result Model.ParseError (NomaiDoc externals) → Result (CoreError d) (NomaiDoc externals)
  parsed (ok doc) = ok doc
  parsed (err e) = err (nomai_format e)

  abbrev pub read : Result d.IoError Text → Result (CoreError d) (NomaiDoc externals)
  read (ok text) = parsed (parse {x = externals} text)
  read (err e) = err (io e)

  unfoldable pub read_entry : Files d → d.Ulid → Result (CoreError d) (NomaiDoc externals)
  read_entry files id = read (files.content id)

  abbrev pub entry_row : d.Ulid → NomaiDoc externals → Entry d
  entry_row id doc = record {
    id = id;
    title = doc.title;
    blocks = [];
    tags = doc.tags;
    attrs = object (to_fields doc.attrs);
    source = doc.source;
    created_at = doc.created_at;
    updated_at = doc.updated_at;
  }

  abbrev pub block_row : d.Ulid → ℕ → Model.Block externals → CreateBlock d
  block_row id i b = record {
    entry_id = id;
    ordinal = i % 2 ^ 32;
    type = as_str b.type;
    text = trim_newlines b.text;
    attrs = some (object (to_fields b.attrs));
  }

  -- The loop over the blocks of a document; each creation takes its ids and times from `calls`.
  unfoldable pub create_blocks :
      (ℕ → Blocks.Call d)
      → d.Ulid
      → ℕ
      → List (Model.Block externals)
      → Tables d
      → Result (CoreError d) (Tables d)
  create_blocks calls id i [] db = ok db
  create_blocks calls id i (b ∷ bs) db = do
    (block, db1) ← create_in_tx d codec (calls i) (block_row id i b) false db
    create_blocks calls id (suc i) bs db1

  unfoldable pub insert_entry : Entry d → Tables d → Result (CoreError d) (Tables d)
  insert_entry e db =
      if has_entry d codec e.id db.entries
      then err (storage codec.constraint_error)
      else ok (record db { entries = e ∷ db.entries })

  abbrev pub mtime_text : Option d.Time → Text
  mtime_text none = []
  mtime_text (some t) = d.to_rfc3339 t

  -- The column of one row.
  abbrev pub set_mtime : d.Ulid → Text → (d.Ulid → Option Text) → d.Ulid → Option Text
  set_mtime id s column j = if same_id d j id then some s else column j

  -- A failure rolls back.
  unfoldable pub reindex_one :
      (ℕ → Blocks.Call d) → Files d → d.Ulid → Index d → Result (CoreError d) (Index d)
  reindex_one calls files id ix = do
    doc ← read_entry files id
    db1 ← insert_entry (entry_row id doc) (delete_entry_row d codec id ix.tables)
    db2 ← create_blocks calls id 0 doc.blocks db1
    ok (record {
      tables = db2;
      fs_mtime = set_mtime id (mtime_text (files.entry_mtime id)) ix.fs_mtime;
    })

  -- `SELECT id, fs_mtime FROM entries`
  unfoldable pub db_rows : Index d → List (d.Ulid × Option Text)
  db_rows ix = map (λ e. (e.id, ix.fs_mtime e.id)) ix.tables.entries

  abbrev pub find_row : d.Ulid → List (d.Ulid × Option Text) → Option (d.Ulid × Option Text)
  find_row id rows = find (λ r. same_id d r.0 id) rows

  -- `Some(fs_mtime)`, compared with what the column holds.
  abbrev pub is_mtime : Option d.Time → d.Time → Bool
  is_mtime none t = false
  is_mtime (some s) t = fm.same_time s t

  unfoldable pub decide : Option (d.Ulid × Option Text) → Option d.Time → Action
  decide none (some t) = add
  decide (some (id, some s)) (some t) =
      if is_mtime (fm.parse_from_rfc3339 s) t then skip else update
  decide (some row) none = remove
  decide (some (id, none)) (some t) = update
  decide none none = skip

  unfoldable pub delete_entry : d.Ulid → Index d → Index d
  delete_entry id ix = record ix { tables = delete_entry_row d codec id ix.tables }

  -- One directory. An error comes with the index as it is left.
  abbrev pub reindexed :
      Index d
      → (Index d → Pass d)
      → Result (CoreError d) (Index d)
      → Result (CoreError d × Index d) (Pass d)
  reindexed ix f (ok ix1) = ok (f ix1)
  reindexed ix f (err e) = err (e, ix)

  unfoldable pub sync_entry :
      (d.Ulid → ℕ → Blocks.Call d)
      → Files d
      → List (d.Ulid × Option Text)
      → d.Ulid
      → Pass d
      → Result (CoreError d × Index d) (Pass d)
  sync_entry calls files rows id p =
      let r = p.result in
      elim (decide (find_row id rows) (files.entry_mtime id)) [
        | add ↦
            reindexed p.index
              (λ ix. record {
                index = ix;
                result = record r {
                  added = r.added + 1;
                  reindexed_ids = r.reindexed_ids ++ id ∷ [];
                };
              })
              (reindex_one (calls id) files id p.index)
        | update ↦
            reindexed p.index
              (λ ix. record {
                index = ix;
                result = record r {
                  updated = r.updated + 1;
                  reindexed_ids = r.reindexed_ids ++ id ∷ [];
                };
              })
              (reindex_one (calls id) files id p.index)
        | remove ↦ ok (record {
          index = delete_entry id p.index;
          result = record r { removed = r.removed + 1 };
        })
        | skip ↦ ok (record p { result = record r { unchanged = r.unchanged + 1 } })
      ]

  -- The walk over the directories.
  unfoldable pub sync_entries :
      (d.Ulid → ℕ → Blocks.Call d)
      → Files d
      → List (d.Ulid × Option Text)
      → List d.Ulid
      → Pass d
      → Result (CoreError d × Index d) (Pass d)
  sync_entries calls files rows [] p = ok p
  sync_entries calls files rows (id ∷ ids) p =
      sync_entry calls files rows id p >>= sync_entries calls files rows ids

  abbrev pub is_scanned : Files d → d.Ulid → Bool
  is_scanned files id = any (λ i. same_id d i id) files.scan_entry_ids

  -- The sweep over the rows whose directory is gone.
  unfoldable pub sweep : Files d → List (d.Ulid × Option Text) → Pass d → Pass d
  sweep files [] p = p
  sweep files ((id, m) ∷ rows) p =
      let r = p.result in
      sweep files rows (
        if is_scanned files id then p else record {
          index = delete_entry id p.index;
          result = record r { removed = r.removed + 1 };
        })

  unfoldable pub sync_from_fs :
      (d.Ulid → ℕ → Blocks.Call d) → Files d → Index d → Result (CoreError d × Index d) (Pass d)
  sync_from_fs calls files ix = do
    let rows = db_rows ix
    p ← sync_entries calls files rows files.scan_entry_ids (record {
      index = ix;
      result = record { added = 0; updated = 0; removed = 0; unchanged = 0; reindexed_ids = [] };
    })
    ok (sweep files rows p)

  -- `db_mtime == fs_mtime`, of two options.
  abbrev pub same_mtime : Option d.Time → Option d.Time → Bool
  same_mtime none none = true
  same_mtime (some a) (some b) = fm.same_time a b
  same_mtime _ _ = false

  unfoldable pub verify_entry :
      Files d → List (d.Ulid × Option Text) → d.Ulid → VerifyResult → VerifyResult
  verify_entry files rows id v = elim (find_row id rows) [
    | none ↦ record v { fs_only = v.fs_only + 1 }
    | some (i, some s) ↦
        if same_mtime (fm.parse_from_rfc3339 s) (files.entry_mtime id)
        then record v { consistent = v.consistent + 1 }
        else record v { stale_mtime = v.stale_mtime + 1 }
    | some (i, none) ↦ record v { consistent = v.consistent + 1 }
  ]

  unfoldable pub verify_entries :
      Files d → List (d.Ulid × Option Text) → List d.Ulid → VerifyResult → VerifyResult
  verify_entries files rows [] v = v
  verify_entries files rows (id ∷ ids) v =
      verify_entries files rows ids (verify_entry files rows id v)

  unfoldable pub count_orphans : Files d → List (d.Ulid × Option Text) → VerifyResult → VerifyResult
  count_orphans files [] v = v
  count_orphans files ((id, m) ∷ rows) v =
      count_orphans files rows
        (if is_scanned files id then v else record v { db_only = v.db_only + 1 })

  unfoldable pub verify_fs : Files d → Index d → VerifyResult
  verify_fs files ix =
      let rows = db_rows ix in
      count_orphans files rows (
        verify_entries files rows files.scan_entry_ids
          (record { fs_only = 0; db_only = 0; stale_mtime = 0; consistent = 0 }))
