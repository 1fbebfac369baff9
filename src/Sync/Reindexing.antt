-- ===== src/Sync/Reindexing.antt =====
-- What indexing one file and deleting one entry do to the rows of the index.
use nomai.Base.{
  ℕ, suc, ◌%◌, ◌^◌, ◌≡◌, refl, ap, ◌∙◌, true, false, not, ◌&&◌, Option, none, some, List, [], ◌∷◌,
  arith, map, find, find-of-filter, find-of-filter-none, find_first, filter, filter_keep,
  filter_drop, filter-filter, filter-ext, filter_none, All-each, ==_refl, Bool-cases, inl, inr, ok,
  Holds, Holds-map, Holds-bind_on, Holds-bind_eq,
}
use nomai.Blocks
use nomai.Blocks.{Tables, has_entry, delete_entry_row, delete_blocks, delete_chunks, create_in_tx}
use nomai.Blocks.Reads.{IsAdded, create_in_tx-IsAdded}
use nomai.Core.{Deps, Json, check_attrs, same_id}
use nomai.Core.Json.{object}
use nomai.Core.Model.{Block, Entry}
use nomai.NomaiFormat.Model
use nomai.NomaiFormat.Model.{NomaiDoc, as_str}
use nomai.Sync.{
  Formats, Files, Index, externals, to_fields, read_entry, entry_row, block_row, create_blocks,
  insert_entry, mtime_text, set_mtime, reindex_one, delete_entry, trim_newlines,
}
use nomai.Text.{Text, codes}

module _ (d : Deps) (codec : Blocks.Codec d) (fm : Formats d) where
  -- The row of an entry, and its blocks, the last one first.
  abbrev pub row_at : d.Ulid → Index d → Option (Entry d)
  row_at id ix = find (λ e. same_id d e.id id) ix.tables.entries

  abbrev pub blocks_in : d.Ulid → List (Block d) → List (Block d)
  blocks_in id bs = filter (λ b. same_id d b.entry_id id) bs

  abbrev pub shape : Block d → ℕ × Text × Text × Json d
  shape b = (b.ordinal, b.type, b.text, b.attrs)

  -- The blocks of a document as they are stored.
  unfoldable pub doc_shapes :
      ℕ
      → List (Model.Block (externals d codec fm))
      → List (ℕ × Text × Text × Json d)
      → List (ℕ × Text × Text × Json d)
  doc_shapes i [] below = below
  doc_shapes i (b ∷ bs) below = doc_shapes (suc i) bs (
      (i % 2 ^ 32, as_str b.type, trim_newlines b.text, object (to_fields d codec fm b.attrs))
      ∷ below)

  -- Nothing of the entry has changed.
  pub record IsSameAt (j : d.Ulid) (ix ix1 : Index d) : Type 0 where
    pub row : row_at j ix1 ≡ row_at j ix
    pub blocks : blocks_in j ix1.tables.blocks ≡ blocks_in j ix.tables.blocks
    pub column : ix1.fs_mtime j ≡ ix.fs_mtime j

  -- The row and the blocks of an entry are those of its file, and its column holds the time of the file.
  pub record IsMirror (files : Files d) (id : d.Ulid) (t : d.Time) (ix : Index d) : Type 0 where
    pub doc : NomaiDoc (externals d codec fm)
    pub stamp : Text
    pub read : read_entry d codec fm files id ≡ ok doc
    pub row : row_at id ix ≡ some (entry_row d codec fm id doc)
    pub blocks : map shape (blocks_in id ix.tables.blocks) ≡ doc_shapes 0 doc.blocks []
    pub column : ix.fs_mtime id ≡ some stamp
    pub stamped : fm.parse_from_rfc3339 stamp ≡ some t

  other_way : (i j : d.Ulid) → same_id d i j ≡ false → same_id d j i ≡ false
  other_way i j h = ground (arith, h)

  delete_entry_row-blocks :
      (id : d.Ulid) (db : Tables d)
      → (delete_entry_row d codec id db).blocks
        ≡ filter (λ b. not (same_id d b.entry_id id)) db.blocks
  unfolding delete_entry_row delete_blocks delete_chunks
  delete_entry_row-blocks id db = refl

  delete_entry_row-entries :
      (id : d.Ulid) (db : Tables d)
      → (delete_entry_row d codec id db).entries ≡ filter (λ e. not (same_id d e.id id)) db.entries
  unfolding delete_entry_row delete_blocks delete_chunks
  delete_entry_row-entries id db = refl

  blocks_in-deleted :
      (id : d.Ulid) (db : Tables d) → blocks_in id (delete_entry_row d codec id db).blocks ≡ []
  blocks_in-deleted id db =
      ap (blocks_in id) (delete_entry_row-blocks id db)
      ∙ filter-filter (λ b. same_id d b.entry_id id) (λ b. not (same_id d b.entry_id id)) db.blocks
      ∙ filter_none _ db.blocks (All-each _ db.blocks (λ b. neither b))
    where
      neither : (b : Block d) → (same_id d b.entry_id id && not (same_id d b.entry_id id)) ≡ false
      neither b = ground arith

  blocks_in-others :
      (id j : d.Ulid) (db : Tables d)
      → same_id d j id ≡ false
      → blocks_in j (delete_entry_row d codec id db).blocks ≡ blocks_in j db.blocks
  blocks_in-others id j db h =
      ap (blocks_in j) (delete_entry_row-blocks id db)
      ∙ filter-filter (λ b. same_id d b.entry_id j) (λ b. not (same_id d b.entry_id id)) db.blocks
      ∙ filter-ext _ (λ b. same_id d b.entry_id j) db.blocks (λ b. its b)
    where
      its :
          (b : Block d)
          → (same_id d b.entry_id j && not (same_id d b.entry_id id)) ≡ same_id d b.entry_id j
      its b = ground (arith, h)

  row-deleted :
      (id : d.Ulid) (db : Tables d)
      → find (λ e. same_id d e.id id) (delete_entry_row d codec id db).entries ≡ none
  row-deleted id db =
      ap (find (λ e. same_id d e.id id)) (delete_entry_row-entries id db)
      ∙ find-of-filter-none _ _ db.entries (λ e h. gone e h)
    where
      gone : (e : Entry d) → same_id d e.id id ≡ true → not (same_id d e.id id) ≡ false
      gone e h = ground (arith, h)

  row-others :
      (id j : d.Ulid) (db : Tables d)
      → same_id d j id ≡ false
      → find (λ e. same_id d e.id j) (delete_entry_row d codec id db).entries
        ≡ find (λ e. same_id d e.id j) db.entries
  row-others id j db h =
      ap (find (λ e. same_id d e.id j)) (delete_entry_row-entries id db)
      ∙ find-of-filter _ _ db.entries (λ e k. kept e k)
    where
      kept : (e : Entry d) → same_id d e.id j ≡ true → not (same_id d e.id id) ≡ true
      kept e k = ground (arith, h, k)

  pub delete_entry-row :
      (id : d.Ulid) (ix : Index d) → row_at id (delete_entry d codec fm id ix) ≡ none
  unfolding delete_entry
  delete_entry-row id ix = row-deleted id ix.tables

  pub delete_entry-IsSameAt :
      (id j : d.Ulid) (ix : Index d)
      → same_id d j id ≡ false
      → IsSameAt j ix (delete_entry d codec fm id ix)
  unfolding delete_entry
  delete_entry-IsSameAt id j ix h = record {
    row = row-others id j ix.tables h;
    blocks = blocks_in-others id j ix.tables h;
    column = refl;
  }

  -- What creating the blocks of a document does.
  pub record IsFilled (id : d.Ulid) (i : ℕ) (bs : List (Model.Block (externals d codec fm)))
      (db db1 : Tables d) : Type 0 where
    pub entries : db1.entries ≡ db.entries
    pub own :
        map shape (blocks_in id db1.blocks) ≡ doc_shapes i bs (map shape (blocks_in id db.blocks))
    pub others :
        (j : d.Ulid) → same_id d j id ≡ false → blocks_in j db1.blocks ≡ blocks_in j db.blocks

  create_blocks-IsFilled :
      (calls : ℕ → Blocks.Call d) (id : d.Ulid) (i : ℕ)
      (bs : List (Model.Block (externals d codec fm))) (db : Tables d)
      → Holds (IsFilled id i bs db) (create_blocks d codec fm calls id i bs db)
  unfolding create_blocks doc_shapes
  create_blocks-IsFilled calls id i [] db = record {
    entries = refl;
    own = refl;
    others = λ j h. refl;
  }
  create_blocks-IsFilled calls id i (b ∷ bs) db =
      Holds-bind_on (λ o. IsAdded d codec p db o.0 o.1) (IsFilled id i (b ∷ bs) db)
        (create_in_tx d codec (calls i) p false db) _
        (create_in_tx-IsAdded d codec (calls i) p false db)
        λ o k.
          Holds-map (IsFilled id (suc i) bs o.1) (IsFilled id i (b ∷ bs) db)
            (create_blocks d codec fm calls id (suc i) bs o.1) (λ db2 h. both o.0 o.1 db2 k h)
            (create_blocks-IsFilled calls id (suc i) bs o.1)
    where
      p : Blocks.CreateBlock d
      p = block_row d codec fm id i b

      attrs_of :
          (c : Block d)
          → check_attrs d (codes "attrs must be a JSON object") p.attrs ≡ ok c.attrs
          → c.attrs ≡ object (to_fields d codec fm b.attrs)
      attrs_of c h = unfold check_attrs in cc

      shaped :
          (c : Block d)
          → c.ordinal ≡ p.ordinal
          → c.type ≡ p.type
          → c.text ≡ p.text
          → c.attrs ≡ object (to_fields d codec fm b.attrs)
          → shape c ≡ (
            i % 2 ^ 32,
            as_str b.type,
            trim_newlines b.text,
            object (to_fields d codec fm b.attrs),
          )
      shaped c o t u a = rw (o, t, u, a) refl

      both :
          (c : Block d) (db1 db2 : Tables d)
          → IsAdded d codec p db c db1
          → IsFilled id (suc i) bs db1 db2
          → IsFilled id i (b ∷ bs) db db2
      both c db1 db2 k h = record {
        entries = h.entries ∙ k.0;
        own =
            h.own
            ∙ ap (doc_shapes (suc i) bs) (
                ap (λ r. map shape (blocks_in id r)) (k.1)
                ∙ ap (map shape) (filter_keep (λ x. same_id d x.entry_id id) c db.blocks (its k.2))
                ∙ ap (λ s. s ∷ map shape (blocks_in id db.blocks))
                    (shaped c k.3 k.4 k.5 (attrs_of c k.6)));
        others = λ j f.
            h.others j f
            ∙ ap (blocks_in j) k.1
            ∙ filter_drop (λ x. same_id d x.entry_id j) c db.blocks (not_its j k.2 f);
      }
        where
          its : c.entry_id ≡ id → same_id d c.entry_id id ≡ true
          its e = rw e (==_refl (d.number id))

          not_its :
              (j : d.Ulid)
              → c.entry_id ≡ id
              → same_id d j id ≡ false
              → same_id d c.entry_id j ≡ false
          not_its j e f = rw e (other_way j id f)

  insert_entry_rows :
      (e : Entry d) (db : Tables d)
      → Holds
          (λ t. (t.entries ≡ e ∷ db.entries) × (t.blocks ≡ db.blocks))
          (insert_entry d codec fm e db)
  unfolding insert_entry
  insert_entry_rows e db = elim (Bool-cases (has_entry d codec e.id db.entries)) [
    | inl q ↦ rw q tt
    | inr q ↦ rw q (refl, refl)
  ]

  -- A file that is indexed: its row, and the rows of the others.
  pub reindex_one_rows :
      (calls : ℕ → Blocks.Call d) (files : Files d) (id : d.Ulid) (ix : Index d)
      → Holds
          (λ ix1.
            ((t : d.Time) → files.entry_mtime id ≡ some t → IsMirror files id t ix1)
            × ((j : d.Ulid) → same_id d j id ≡ false → IsSameAt j ix ix1))
          (reindex_one d codec fm calls files id ix)
  unfolding reindex_one
  reindex_one_rows calls files id ix =
      Holds-bind_eq Done (read_entry d codec fm files id) _ λ doc read.
        Holds-bind_on
          (λ db1.
            (db1.entries ≡ entry_row d codec fm id doc ∷ cleared.entries)
            × (db1.blocks ≡ cleared.blocks))
          Done (insert_entry d codec fm (entry_row d codec fm id doc) cleared) _
          (insert_entry_rows (entry_row d codec fm id doc) cleared)
          λ db1 k.
            Holds-bind_on (IsFilled id 0 doc.blocks db1) Done
              (create_blocks d codec fm calls id 0 doc.blocks db1) _
              (create_blocks-IsFilled calls id 0 doc.blocks db1)
              λ db2 h. (λ t m. mirror t m doc read db1 db2 k h, λ j f. same doc db1 db2 k h j f)
    where
      cleared : Tables d
      cleared = delete_entry_row d codec id ix.tables

      Done : Index d → Type 0
      Done ix1 =
          ((t : d.Time) → files.entry_mtime id ≡ some t → IsMirror files id t ix1)
          × ((j : d.Ulid) → same_id d j id ≡ false → IsSameAt j ix ix1)

      stamped : Tables d → Index d
      stamped db2 = record {
        tables = db2;
        fs_mtime =
            set_mtime d codec fm id (mtime_text d codec fm (files.entry_mtime id)) ix.fs_mtime;
      }

      mirror :
          (t : d.Time)
          → files.entry_mtime id ≡ some t
          → (doc : NomaiDoc (externals d codec fm)) → read_entry d codec fm files id ≡ ok doc
          → (db1 db2 : Tables d)
          → (db1.entries ≡ entry_row d codec fm id doc ∷ cleared.entries)
            × (db1.blocks ≡ cleared.blocks)
          → IsFilled id 0 doc.blocks db1 db2
          → IsMirror files id t (stamped db2)
      mirror t m doc read db1 db2 k h = record {
        doc = doc;
        stamp = d.to_rfc3339 t;
        read = read;
        row =
            ap (find (λ e. same_id d e.id id)) (h.entries ∙ k.0)
            ∙ find_first (λ e. same_id d e.id id) (entry_row d codec fm id doc) cleared.entries
                (==_refl (d.number id));
        blocks =
            h.own
            ∙ ap (λ bs. doc_shapes 0 doc.blocks (map shape bs))
                (ap (blocks_in id) k.1 ∙ blocks_in-deleted id ix.tables);
        column = rw (m, ==_refl (d.number id)) refl;
        stamped = fm.parse-print_time t;
      }

      same :
          (doc : NomaiDoc (externals d codec fm)) (db1 db2 : Tables d)
          → (db1.entries ≡ entry_row d codec fm id doc ∷ cleared.entries)
            × (db1.blocks ≡ cleared.blocks)
          → IsFilled id 0 doc.blocks db1 db2
          → (j : d.Ulid) → same_id d j id ≡ false
          → IsSameAt j ix (stamped db2)
      same doc db1 db2 k h j f = record {
        row =
            ap (find (λ e. same_id d e.id j)) (h.entries ∙ k.0)
            ∙ skipped doc j (other_way j id f)
            ∙ row-others id j ix.tables f;
        blocks = h.others j f ∙ ap (blocks_in j) k.1 ∙ blocks_in-others id j ix.tables f;
        column = rw f refl;
      }
        where
          skipped :
              (doc : NomaiDoc (externals d codec fm)) (j : d.Ulid)
              → same_id d id j ≡ false
              → find (λ e. same_id d e.id j) (entry_row d codec fm id doc ∷ cleared.entries)
                ≡ find (λ e. same_id d e.id j) cleared.entries
          skipped doc j g = unfold find in rw g refl

  pub reindex_one-IsMirror :
      (calls : ℕ → Blocks.Call d) (files : Files d) (id : d.Ulid) (t : d.Time) (ix : Index d)
      → files.entry_mtime id ≡ some t
      → Holds
          (λ ix1.
            IsMirror files id t ix1 × ((j : d.Ulid) → same_id d j id ≡ false → IsSameAt j ix ix1))
          (reindex_one d codec fm calls files id ix)
  reindex_one-IsMirror calls files id t ix m =
      Holds-map _ _ (reindex_one d codec fm calls files id ix) (λ ix1 h. (h.0 t m, h.1))
        (reindex_one_rows calls files id ix)
