-- ===== src/Blocks/Steps.antt =====
-- The tables after any calls: the index and the chunks are those of the blocks.
use nomai.Base.{
  ℕ, filter, ◌≡◌, ◌==◌, refl, ap, ◌∙◌, Bool, true, false, Option, some, List, [], ◌∷◌, arith,
  if◌then◌else◌, any_more, find, find-All, All-each, All-map, Bool-cases, inl, inr, Result, ok, err,
  ok_or-some, ==_refl, Holds, Holds-bind, Holds-bind_on, Holds-bind_eq,
}
use nomai.Blocks.{
  VectorRow, CreateBlock, Tables, Call, Codec, has_entry, is_block, insert_block, derive_chunks,
  new_block, insert_event, violation, insert_event_checked, create_in_tx, delete_entry_row,
}
use nomai.Blocks.Index.{IsIndexed, insert_block-IsIndexed}
use nomai.Blocks.Removal.{delete_blocks-IsIndexed, delete_entry_row-IsIndexed}
use nomai.Blocks.Service.{
  append_in_tx, append, read_block, object_only, updated, unwrap_or, update_in_tx, update,
  delete_in_tx, delete, write_embedding, delete_embedding,
}
use nomai.Blocks.Updating.{rechunk-IsIndexed}
use nomai.Core.{Deps, CoreError, Json, check_attrs, same_id}
use nomai.Core.Model.{Block, Entry}
use nomai.Core.Transaction.{in_tx, close_keeps}
use nomai.Events.{Event, log_event}
use nomai.Text.{Text}

module _ (d : Deps) (codec : Codec d) where
  abbrev pub no_rows : Tables d
  no_rows = record { entries = []; blocks = []; chunks = []; index = []; vectors = []; events = [] }

  insert_event-IsIndexed :
      (e : Event d) (db : Tables d)
      → IsIndexed d codec db
      → Holds (IsIndexed d codec) (insert_event d codec e db)
  unfolding insert_event
  insert_event-IsIndexed e db v =
      Holds-bind (IsIndexed d codec) (log_event d codec.constraint_error e db.events) _ (λ es.
        record {
          linked = record {
            blocks_apart = v.linked.blocks_apart;
            blocks_in = v.linked.blocks_in;
            chunks_apart = v.linked.chunks_apart;
            chunks_in = v.linked.chunks_in;
            index_rows = v.linked.index_rows;
          };
          chunks_derived = v.chunks_derived;
        })

  insert_event_checked-IsIndexed :
      (e : Event d) (db : Tables d)
      → IsIndexed d codec db
      → Holds (IsIndexed d codec) (insert_event_checked d codec e db)
  unfolding insert_event_checked
  insert_event_checked-IsIndexed e db v =
      checked (insert_event d codec e db) (insert_event-IsIndexed e db v)
    where
      checked :
          (r : Result (CoreError d) (Tables d))
          → Holds (IsIndexed d codec) r
          → Holds
              (IsIndexed d codec)
              (elim r [ ok db1 ↦ ok db1 | err why ↦ err (violation d codec) ])
      checked (ok db1) h = h
      checked (err why) h = tt

  create_in_tx-IsIndexed :
      (call : Call d) (p : CreateBlock d) (emit_event : Bool) (db : Tables d)
      → IsIndexed d codec db
      → Holds (λ o. IsIndexed d codec o.1) (create_in_tx d codec call p emit_event db)
  unfolding create_in_tx
  create_in_tx-IsIndexed call p emit_event db v = Holds-bind _ (check_attrs d _ p.attrs) _ λ attrs.
      let b = new_block d codec call p attrs in
      Holds-bind_on (λ t. Holds (IsIndexed d codec) (derive_chunks d codec call b t)) _
        (insert_block d codec b db) _ (insert_block-IsIndexed d codec call b db v)
        λ db1 h.
          Holds-bind_on (IsIndexed d codec) _ (derive_chunks d codec call b db1) _ h
            λ db2 w. Holds-bind_on (IsIndexed d codec) _ _ _ (logged emit_event _ db2 w) λ db3 k. k
    where
      logged :
          (emit : Bool) (e : Event d) (db2 : Tables d)
          → IsIndexed d codec db2
          → Holds (IsIndexed d codec) (if emit then insert_event_checked d codec e db2 else ok db2)
      logged true e db2 w = insert_event_checked-IsIndexed e db2 w
      logged false e db2 w = w

  append_in_tx-IsIndexed :
      (call : Call d) (id : d.Ulid) (type text : Text) (attrs : Option (Json d)) (db : Tables d)
      → IsIndexed d codec db
      → Holds (λ o. IsIndexed d codec o.1) (append_in_tx d codec call id type text attrs db)
  unfolding append_in_tx
  append_in_tx-IsIndexed call id type text attrs db v =
      elim (Bool-cases (has_entry d codec id db.entries)) [
        | inl q ↦ rw q (create_in_tx-IsIndexed call _ true db v)
        | inr q ↦ rw q tt
      ]

  update_in_tx-IsIndexed :
      (call : Call d) (id : d.Ulid) (type text : Option Text) (attrs : Option (Json d))
      (db : Tables d)
      → IsIndexed d codec db
      → Holds (λ o. IsIndexed d codec o.1) (update_in_tx d codec call id type text attrs db)
  unfolding update_in_tx read_block
  update_in_tx-IsIndexed call id type text attrs db v =
      Holds-bind_eq _ (read_block d codec id db) _ λ y e.
        Holds-bind _ (object_only d codec (unwrap_or attrs y.attrs)) _ λ new_attrs.
          Holds-bind_on (IsIndexed d codec) _ _ _
            (rechunk-IsIndexed d codec (updated d codec call y type text new_attrs) y db v
              (found y e) (rw (==_refl (d.number y.id)) refl) call)
            λ db1 w.
              Holds-bind_on (IsIndexed d codec) _ _ _ (insert_event_checked-IsIndexed _ db1 w)
                λ db2 k. k
    where
      found :
          (y : Block d)
          → read_block d codec id db ≡ ok y
          → find (is_block d codec y.id) db.blocks ≡ some y
      found y e =
          let f = ok_or-some _ _ y e in
          let same =
            (find-All (λ x. Unit {0}) (is_block d codec id) db.blocks y (All-each _ _ (λ x. tt))
              f).1 in
          ap (λ n. find (λ b. d.number b.id == n) db.blocks) (ground (arith, same)) ∙ f

  delete_in_tx-IsIndexed :
      (call : Call d) (id : d.Ulid) (db : Tables d)
      → IsIndexed d codec db
      → Holds (λ o. IsIndexed d codec o.1) (delete_in_tx d codec call id db)
  unfolding delete_in_tx
  delete_in_tx-IsIndexed call id db v = Holds-bind _ (read_block d codec id db) _ λ b.
      Holds-bind_on (IsIndexed d codec) _ (insert_event d codec _ _) _
        (insert_event-IsIndexed _ _ (delete_blocks-IsIndexed d codec (is_block d codec id) db v))
        λ db1 w. w

  -- What can happen to the tables: the calls of the services, with the event of a creation or without
  -- it, an entry that is inserted or deleted, and what the embedder writes.
  pub data Op : Type 0 where
    created : Call d → CreateBlock d → Bool → Op
    appended : Call d → d.Ulid → Text → Text → Option (Json d) → Op
    changed : Call d → d.Ulid → Option Text → Option Text → Option (Json d) → Op
    deleted : Call d → d.Ulid → Op
    entry_inserted : Entry d → Op
    entry_deleted : d.Ulid → Op
    embedded : d.Ulid → List ℕ → Op
    unembedded : d.Ulid → Op

  unfoldable pub step : Op → Tables d → Tables d
  step (created call p emit_event) db = (in_tx d (create_in_tx d codec call p emit_event) db).1
  step (appended call id type text attrs) db = (append d codec call id type text attrs db).1
  step (changed call id type text attrs) db = (update d codec call id type text attrs db).1
  step (deleted call id) db = (delete d codec call id db).1
  step (entry_inserted e) db =
      if has_entry d codec e.id db.entries then db else record db { entries = e ∷ db.entries }
  step (entry_deleted id) db = delete_entry_row d codec id db
  step (embedded id embedding) db = write_embedding d codec id embedding db
  step (unembedded id) db = delete_embedding d codec id db

  unfoldable pub run : List Op → Tables d → Tables d
  run [] db = db
  run (o ∷ os) db = run os (step o db)

  add_entry :
      (e : Entry d) (db : Tables d)
      → IsIndexed d codec db
      → IsIndexed d codec (record db { entries = e ∷ db.entries })
  add_entry e db v = record {
    linked = record {
      blocks_apart = v.linked.blocks_apart;
      blocks_in =
          All-map _ _ (λ b h. any_more (λ x. same_id d x.id b.entry_id) e db.entries h) db.blocks
            v.linked.blocks_in;
      chunks_apart = v.linked.chunks_apart;
      chunks_in = v.linked.chunks_in;
      index_rows = v.linked.index_rows;
    };
    chunks_derived = v.chunks_derived;
  }

  new_vectors :
      (vs : List (VectorRow d)) (db : Tables d)
      → IsIndexed d codec db
      → IsIndexed d codec (record db { vectors = vs })
  new_vectors vs db v = record {
    linked = record {
      blocks_apart = v.linked.blocks_apart;
      blocks_in = v.linked.blocks_in;
      chunks_apart = v.linked.chunks_apart;
      chunks_in = v.linked.chunks_in;
      index_rows = v.linked.index_rows;
    };
    chunks_derived = v.chunks_derived;
  }

  step-IsIndexed : (o : Op) (db : Tables d) → IsIndexed d codec db → IsIndexed d codec (step o db)
  unfolding step append update delete in_tx write_embedding delete_embedding
  step-IsIndexed (created call p emit_event) db v =
      close_keeps d (IsIndexed d codec) db _ v (create_in_tx-IsIndexed call p emit_event db v)
  step-IsIndexed (appended call id type text attrs) db v =
      close_keeps d (IsIndexed d codec) db _ v (append_in_tx-IsIndexed call id type text attrs db v)
  step-IsIndexed (changed call id type text attrs) db v =
      close_keeps d (IsIndexed d codec) db _ v (update_in_tx-IsIndexed call id type text attrs db v)
  step-IsIndexed (deleted call id) db v =
      close_keeps d (IsIndexed d codec) db _ v (delete_in_tx-IsIndexed call id db v)
  step-IsIndexed (entry_inserted e) db v = elim (Bool-cases (has_entry d codec e.id db.entries)) [
    | inl q ↦ rw q v
    | inr q ↦ rw q (add_entry e db v)
  ]
  step-IsIndexed (entry_deleted id) db v = delete_entry_row-IsIndexed d codec id db v
  step-IsIndexed (embedded id embedding) db v = new_vectors _ db v
  step-IsIndexed (unembedded id) db v = new_vectors _ db v

  run_from-IsIndexed :
      (os : List Op) (db : Tables d) → IsIndexed d codec db → IsIndexed d codec (run os db)
  unfolding run
  run_from-IsIndexed [] db v = v
  run_from-IsIndexed (o ∷ os) db v = run_from-IsIndexed os (step o db) (step-IsIndexed o db v)

  -- Whatever is called, in any order and with any ids: the chunks of each block are, in their order and
  -- numbered from 0 (in 32 bits), those that its text is cut into; the full-text index has one row for
  -- each block, with its type and text, and none for an id that is no block's; the ids of the blocks and
  -- their places in their entries are distinct, and so are those of the chunks; each block has its
  -- entry, and each chunk its block.
  pub run-IsIndexed : (os : List Op) → IsIndexed d codec (run os no_rows)
  unfolding filter
  run-IsIndexed os = run_from-IsIndexed os no_rows (record {
    linked = record {
      blocks_apart = tt;
      blocks_in = tt;
      chunks_apart = tt;
      chunks_in = tt;
      index_rows = λ id. refl;
    };
    chunks_derived = tt;
  })
