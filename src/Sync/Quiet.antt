-- ===== src/Sync/Quiet.antt =====
-- Indexing a file writes no event.
use nomai.Base.{
  ℕ, suc, ◌≡◌, refl, ◌∙◌, false, List, [], ◌∷◌, Bool-cases, inl, inr, Holds, Holds-bind,
  Holds-bind_on, Holds-map,
}
use nomai.Blocks
use nomai.Blocks.{
  Tables, Chunk, insert_block, insert_chunk, insert_chunks, is_insertable, is_chunk_insertable,
  derive_chunks, create_in_tx, delete_entry_row, delete_blocks, delete_chunks, chunk_attrs,
  new_block,
}
use nomai.Chunking.{chunk_text}
use nomai.Core.{Deps, Json, check_attrs}
use nomai.Core.Model.{Entry, Block}
use nomai.NomaiFormat.Model
use nomai.Sync.{
  Formats, Files, Index, externals, block_row, create_blocks, insert_entry, read_entry, entry_row,
  reindex_one,
}
use nomai.Text.{Text, codes}
use nomai.Blocks.{has_entry}

module _ (d : Deps) (codec : Blocks.Codec d) (fm : Formats d) where
  abbrev IsQuiet : Tables d → Tables d → Type 0
  IsQuiet db db1 = db1.events ≡ db.events

  insert_block-IsQuiet :
      (b : Block d) (db : Tables d) → Holds (IsQuiet db) (insert_block d codec b db)
  unfolding insert_block
  insert_block-IsQuiet b db = elim (Bool-cases (is_insertable d codec b db)) [
    | inl q ↦ rw q refl
    | inr q ↦ rw q tt
  ]

  insert_chunk-IsQuiet :
      (c : Chunk d) (db : Tables d) → Holds (IsQuiet db) (insert_chunk d codec c db)
  unfolding insert_chunk
  insert_chunk-IsQuiet c db = elim (Bool-cases (is_chunk_insertable d codec c db)) [
    | inl q ↦ rw q refl
    | inr q ↦ rw q tt
  ]

  insert_chunks-IsQuiet :
      (call : Blocks.Call d) (id : d.Ulid) (attrs : Json d) (i : ℕ) (ts : List Text) (db : Tables d)
      → Holds (IsQuiet db) (insert_chunks d codec call id attrs i ts db)
  unfolding insert_chunks
  insert_chunks-IsQuiet call id attrs i [] db = refl
  insert_chunks-IsQuiet call id attrs i (t ∷ ts) db =
      Holds-bind_on (IsQuiet db) (IsQuiet db) (insert_chunk d codec _ db) _
        (insert_chunk-IsQuiet _ db)
        λ db1 e.
          Holds-map (IsQuiet db1) (IsQuiet db) (insert_chunks d codec call id attrs (suc i) ts db1)
            (λ db2 f. f ∙ e) (insert_chunks-IsQuiet call id attrs (suc i) ts db1)

  create_in_tx-IsQuiet :
      (call : Blocks.Call d) (p : Blocks.CreateBlock d) (db : Tables d)
      → Holds (λ o. IsQuiet db o.1) (create_in_tx d codec call p false db)
  unfolding create_in_tx derive_chunks
  create_in_tx-IsQuiet call p db =
      Holds-bind (λ o. IsQuiet db o.1) (check_attrs d (codes "attrs must be a JSON object") p.attrs)
        _
        λ attrs.
          Holds-bind_on (IsQuiet db) (λ o. IsQuiet db o.1)
            (insert_block d codec (new_block d codec call p attrs) db) _
            (insert_block-IsQuiet (new_block d codec call p attrs) db)
            λ db1 e.
              Holds-bind_on (IsQuiet db1) (λ o. IsQuiet db o.1)
                (derive_chunks d codec call (new_block d codec call p attrs) db1) _
                (insert_chunks-IsQuiet call call.id _ 0 (chunk_text p.text codec.chunk_target_size)
                  db1)
                λ db2 f. f ∙ e

  create_blocks-IsQuiet :
      (calls : ℕ → Blocks.Call d) (id : d.Ulid) (i : ℕ)
      (bs : List (Model.Block (externals d codec fm))) (db : Tables d)
      → Holds (IsQuiet db) (create_blocks d codec fm calls id i bs db)
  unfolding create_blocks
  create_blocks-IsQuiet calls id i [] db = refl
  create_blocks-IsQuiet calls id i (b ∷ bs) db =
      Holds-bind_on (λ o. IsQuiet db o.1) (IsQuiet db)
        (create_in_tx d codec (calls i) (block_row d codec fm id i b) false db) _
        (create_in_tx-IsQuiet (calls i) (block_row d codec fm id i b) db)
        λ o e.
          Holds-map (IsQuiet o.1) (IsQuiet db) (create_blocks d codec fm calls id (suc i) bs o.1)
            (λ db2 f. f ∙ e) (create_blocks-IsQuiet calls id (suc i) bs o.1)

  insert_entry-IsQuiet :
      (e : Entry d) (db : Tables d) → Holds (IsQuiet db) (insert_entry d codec fm e db)
  unfolding insert_entry
  insert_entry-IsQuiet e db = elim (Bool-cases (has_entry d codec e.id db.entries)) [
    | inl q ↦ rw q tt
    | inr q ↦ rw q refl
  ]

  delete-IsQuiet : (id : d.Ulid) (db : Tables d) → IsQuiet db (delete_entry_row d codec id db)
  unfolding delete_entry_row delete_blocks delete_chunks
  delete-IsQuiet id db = refl

  pub reindex_one_quiet :
      (calls : ℕ → Blocks.Call d) (files : Files d) (id : d.Ulid) (ix : Index d)
      → Holds
          (λ ix1. ix1.tables.events ≡ ix.tables.events)
          (reindex_one d codec fm calls files id ix)
  unfolding reindex_one
  reindex_one_quiet calls files id ix = Holds-bind Done (read_entry d codec fm files id) _ λ doc.
      Holds-bind_on (IsQuiet cleared) Done
        (insert_entry d codec fm (entry_row d codec fm id doc) cleared) _
        (insert_entry-IsQuiet (entry_row d codec fm id doc) cleared)
        λ db1 e.
          Holds-bind_on (IsQuiet db1) Done (create_blocks d codec fm calls id 0 doc.blocks db1) _
            (create_blocks-IsQuiet calls id 0 doc.blocks db1)
            λ db2 f. f ∙ e ∙ delete-IsQuiet id ix.tables
    where
      cleared : Tables d
      cleared = delete_entry_row d codec id ix.tables

      Done : Index d → Type 0
      Done ix1 = ix1.tables.events ≡ ix.tables.events
