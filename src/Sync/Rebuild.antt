-- ===== src/Sync/Rebuild.antt =====
-- `rebuild_index` of crates/core/src/service.rs: the index is wiped, and every file is indexed again.
use nomai.Base.{ℕ, ◌+◌, List, [], ◌∷◌, ◌++◌, Result, ok, err}
use nomai.Blocks
use nomai.Core.{Deps, CoreError}
use nomai.Sync.{Formats, Files, Index, reindex_one}
use nomai.Text.{Text, codes}

pub record RebuildResult : Type 0 where
  pub reindexed : ℕ
  pub errors : List Text

-- The variables of a rebuild.
pub record Rebuild (d : Deps) : Type 0 where
  pub index : Index d
  pub result : RebuildResult

-- `show` is the `Display` of an error.
module _ (d : Deps) (codec : Blocks.Codec d) (fm : Formats d) (show : CoreError d → Text) where
  -- The log is kept. The table of the links is not among those of an index.
  unfoldable pub wipe : Index d → Index d
  wipe ix = record ix {
    tables = record {
      entries = [];
      blocks = [];
      chunks = [];
      index = [];
      vectors = [];
      events = ix.tables.events;
    };
  }

  abbrev pub error_message : d.Ulid → CoreError d → Text
  error_message id e = codes "entry " ++ d.ulid_to_string id ++ codes ": " ++ show e

  abbrev pub rebuilt : d.Ulid → Rebuild d → Result (CoreError d) (Index d) → Rebuild d
  rebuilt id p (ok ix) =
      let r = p.result in record { index = ix; result = record r { reindexed = r.reindexed + 1 } }
  rebuilt id p (err e) =
      let r = p.result in
      record p { result = record r { errors = r.errors ++ error_message id e ∷ [] } }

  unfoldable pub rebuild_entries :
      (d.Ulid → ℕ → Blocks.Call d) → Files d → List d.Ulid → Rebuild d → Rebuild d
  rebuild_entries calls files [] p = p
  rebuild_entries calls files (id ∷ ids) p =
      rebuild_entries calls files ids
        (rebuilt id p (reindex_one d codec fm (calls id) files id p.index))

  unfoldable pub rebuild_index : (d.Ulid → ℕ → Blocks.Call d) → Files d → Index d → Rebuild d
  rebuild_index calls files ix =
      rebuild_entries calls files files.scan_entry_ids
        (record { index = wipe ix; result = record { reindexed = 0; errors = [] } })
