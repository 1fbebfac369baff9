-- ===== src/Batch.antt =====
-- crates/daemon/src/handlers/batch.rs: several operations in one transaction, which refer to each
-- other's results.
pub mod Refs
pub mod Atomic
mod Tests
use nomai.Base.{
  ℕ, suc, ◌+◌, ◌≡◌, Bool, true, false, not, ◌&&◌, ◌||◌, Option, none, some, List, [], ◌∷◌, ◌++◌,
  if◌then◌else◌, ◌==◌, ltb, length, get_elem?, is_empty, any, Result, ok, err, ok_or, ◌>>=◌, ◌>>◌,
}
use nomai.Core.{Deps, CoreError, validation, config, Json, same_id}
use nomai.Core.Json.{
  Value, Items, Fields, null, bool, number, string, array, object, empty, item, nil, field,
  get_field,
}
use nomai.Text.{Text, codes, text_eq}

pub record BatchOp (d : Deps) : Type 0 where
  pub id : Option Text
  pub method : Text
  pub params : Json d

-- The entry of an operation in the results: `{"ok": true, "result": …}` or an error.
pub data OpResult (d : Deps) : Type 0 where
  done : Json d → OpResult d
  failed : CoreError d → OpResult d
  skipped : OpResult d

abbrev pub Ids : Type 0
Ids = List (Text × ℕ)

-- `HashMap::get`, where a later entry replaces an earlier one.
unfoldable pub index_of : Text → Ids → Option ℕ
index_of id [] = none
index_of id (p ∷ ids) = if text_eq p.0 id then some p.1 else index_of id ids

abbrev pub allowed_methods : List Text
allowed_methods =
    codes "entry.create"
    ∷ codes "entry.update"
    ∷ codes "entry.delete"
    ∷ codes "link.create"
    ∷ codes "link.delete"
    ∷ codes "events.purge"
    ∷ []

-- `splitn(2, '.')`
unfoldable pub split_once : Text → Text × Option Text
split_once [] = ([], none)
split_once (c ∷ s) =
    let rest = split_once s in if c == 0x2e then ([], some s) else (c ∷ rest.0, rest.1)

abbrev pub push : ℕ → List Text → List Text
push c [] = (c ∷ []) ∷ []
push c (t ∷ ts) = (c ∷ t) ∷ ts

-- `split('.')`
unfoldable pub split_dots : Text → List Text
split_dots [] = [] ∷ []
split_dots (c ∷ s) = let rest = split_dots s in if c == 0x2e then [] ∷ rest else push c rest

module _ (d : Deps) where
  -- `Value::get` by a key
  abbrev pub get : Text → Json d → Option (Json d)
  get key (object fs) = get_field key fs
  get key _ = none

  unfoldable pub get_path : Text → List Text → Json d → Result (CoreError d) (Json d)
  get_path path [] current = ok current
  get_path path (f ∷ fs) current = do
    next ← ok_or (get f current) (
        validation
          (codes "$ref: field '" ++ (f ++ (codes "' not found in path '" ++ (path ++ codes "'")))))
    get_path path fs next

  abbrev pub result_of : OpResult d → Option (Json d)
  result_of (done v) = some v
  result_of _ = none

  abbrev pub follow : Option Text → Json d → Result (CoreError d) (Json d)
  follow none result = ok result
  follow (some path) result = get_path path (split_dots path) result

  -- An index that is out of bounds would panic; the indexes are those of earlier operations.
  unfoldable pub resolve_ref_path : Text → List (OpResult d) → Ids → Result (CoreError d) (Json d)
  resolve_ref_path path results ids = do
    let parts = split_once path
    idx ←
        ok_or (index_of parts.0 ids)
          (validation (codes "$ref: unknown op_id '" ++ (parts.0 ++ codes "'")))
    wrapper ← ok_or (get_elem? results idx) (config (codes "index out of bounds"))
    result ←
        ok_or (result_of wrapper)
          (validation (codes "$ref: op '" ++ (parts.0 ++ codes "' has no result (failed?)")))
    follow parts.1 result

  -- The value of `$ref` in an object that has no other field.
  unfoldable pub as_ref : Fields d.Number → Option (Json d)
  as_ref (field k v nil) = if text_eq k (codes "$ref") then some v else none
  as_ref _ = none

  abbrev pub resolve_ref : Json d → List (OpResult d) → Ids → Result (CoreError d) (Json d)
  resolve_ref (string path) results ids = resolve_ref_path path results ids
  resolve_ref _ results ids = err (validation (codes "$ref value must be a string"))

  module _ (results : List (OpResult d)) (ids : Ids) where
    -- An object that is a placeholder gives what it refers to, another one its fields, resolved.
    abbrev pub resolve_object :
        Option (Json d) → Result (CoreError d) (Fields d.Number) → Result (CoreError d) (Json d)
    resolve_object (some v) resolved = resolve_ref v results ids
    resolve_object none resolved = resolved >>= (λ gs. ok (object gs))

    unfoldable mutual
      pub resolve_refs : Json d → Result (CoreError d) (Json d)
      resolve_refs (object fs) = resolve_object (as_ref fs) (resolve_fields fs)
      resolve_refs (array xs) = resolve_items xs >>= (λ ys. ok (array ys))
      resolve_refs v = ok v

      pub resolve_items : Items d.Number → Result (CoreError d) (Items d.Number)
      resolve_items empty = ok empty
      resolve_items (item x xs) =
          resolve_refs x >>= (λ y. resolve_items xs >>= (λ ys. ok (item y ys)))

      pub resolve_fields : Fields d.Number → Result (CoreError d) (Fields d.Number)
      resolve_fields nil = ok nil
      resolve_fields (field k v fs) =
          resolve_refs v >>= (λ w. resolve_fields fs >>= (λ gs. ok (field k w gs)))

  abbrev pub register : Option Text → ℕ → Ids → Ids
  register none i ids = ids
  register (some id) i ids = (id, i) ∷ ids

  pub record Progress (S : Type 0) : Type 0 where
    pub db : S
    pub results : List (OpResult d)
    pub id_to_index : Ids
    pub deleted_entry_ids : List d.Ulid
    pub failed_at : Option (CoreError d)

  -- `Value::as_str`
  abbrev pub as_str : Option (Json d) → Option Text
  as_str (some (string s)) = some s
  as_str _ = none

  -- What a batch calls: what a method does to the tables, on an error too, and, behind the commit, the
  -- clean-up of the memories of deleted entries and the embedding of an entry. `key_order` is the order
  -- in which a hash map gives its keys, and `error_to_string` the `Display` of an error.
  pub record Services (S : Type 0) : Type 0 where
    pub dispatch_in_tx : Text → Json d → S → Result (CoreError d) (Json d) × S
    pub parse_ulid : Text → Option d.Ulid
    pub delete_entries_signals : List d.Ulid → S → Result (CoreError d) (Unit {0}) × S
    pub embed_entry_chunks : d.Ulid → S → Result (CoreError d) (Unit {0}) × S
    pub key_order : List d.Ulid → List d.Ulid
    pub error_to_string : CoreError d → Text

  -- What the transaction leaves for the steps behind it.
  pub record Committed : Type 0 where
    pub results : List (OpResult d)
    pub deleted_entry_ids : List d.Ulid

  module _ {S : Type 0} (services : Services S) where
    abbrev pub parsed : Option Text → Option d.Ulid
    parsed none = none
    parsed (some s) = services.parse_ulid s

    abbrev pub check_allowed : Text → Result (CoreError d) (Unit {0})
    check_allowed method =
        if any (text_eq method) allowed_methods
        then ok tt
        else err (
            validation
              (codes "method '" ++ (method ++ codes "' not allowed in batch (mutation only)")))

    unfoldable pub prepare : BatchOp d → List (OpResult d) → Ids → Result (CoreError d) (Json d)
    prepare op results ids = do check_allowed op.method; resolve_refs results ids op.params

    abbrev pub dispatch_prepared :
        BatchOp d → S → Result (CoreError d) (Json d) → Result (CoreError d) (Json d) × S
    dispatch_prepared op db (ok params) = services.dispatch_in_tx op.method params db
    dispatch_prepared op db (err e) = (err e, db)

    -- The entry that an operation deletes.
    abbrev pub deleted_entry_id : BatchOp d → Result (CoreError d) (Json d) → Option d.Ulid
    deleted_entry_id op (err e) = none
    deleted_entry_id op (ok params) =
        let id = parsed (as_str (get (codes "id") params)) in
        if text_eq op.method (codes "entry.delete") then id else none

    abbrev pub push_deleted : Option d.Ulid → List d.Ulid → List d.Ulid
    push_deleted none ids = ids
    push_deleted (some id) ids = ids ++ (id ∷ [])

    abbrev pub push_result :
        ℕ → BatchOp d → Progress S → Option d.Ulid → Result (CoreError d) (Json d) × S → Progress S
    push_result i op p deleted (ok v, db) = record {
      db = db;
      results = p.results ++ (done v ∷ []);
      id_to_index = register op.id i p.id_to_index;
      deleted_entry_ids = push_deleted deleted p.deleted_entry_ids;
      failed_at = none;
    }
    push_result i op p deleted (err e, db) = record {
      db = db;
      results = p.results ++ (failed e ∷ []);
      id_to_index = p.id_to_index;
      deleted_entry_ids = p.deleted_entry_ids;
      failed_at = some e;
    }

    abbrev pub push_prepared :
        ℕ → BatchOp d → Progress S → Result (CoreError d) (Json d) → Progress S
    push_prepared i op p params =
        push_result i op p (deleted_entry_id op params) (dispatch_prepared op p.db params)

    abbrev pub run_op_unless : Option (CoreError d) → ℕ → BatchOp d → Progress S → Progress S
    run_op_unless (some e) i op p = record p { results = p.results ++ (skipped ∷ []) }
    run_op_unless none i op p = push_prepared i op p (prepare op p.results p.id_to_index)

    -- The body of the loop over the operations, and the loop.
    unfoldable pub run_op : ℕ → BatchOp d → Progress S → Progress S
    run_op i op p = run_op_unless p.failed_at i op p

    unfoldable pub run_ops : ℕ → List (BatchOp d) → Progress S → Progress S
    run_ops i [] p = p
    run_ops i (op ∷ ops) p = run_ops (suc i) ops (run_op i op p)

    abbrev pub finish : S → Progress S → Option (CoreError d) → Result (CoreError d) Committed × S
    finish db p none =
        (ok (record { results = p.results; deleted_entry_ids = p.deleted_entry_ids }), p.db)
    finish db p (some e) = (err e, db)

    -- The checks, the transaction, and `COMMIT` or `ROLLBACK`.
    unfoldable pub transact : List (BatchOp d) → S → Result (CoreError d) Committed × S
    transact ops db =
        if is_empty ops
        then (err (validation (codes "batch requires at least one op")), db)
        else if ltb 1000 (length ops)
        then (err (validation (codes "batch exceeds 1000 ops limit")), db)
        else let p = run_ops 0 ops (record {
          db = db;
          results = [];
          id_to_index = [];
          deleted_entry_ids = [];
          failed_at = none;
        }) in
          finish db p p.failed_at

    abbrev pub or_else : Option Text → Option Text → Option Text
    or_else none b = b
    or_else (some a) b = some a

    abbrev pub field_of : Text → Json d → Option Text
    field_of key v = as_str (get key v)

    -- The entry that an operation has written.
    abbrev pub touched_by : BatchOp d → OpResult d → Option Text
    touched_by op (done v) =
        if text_eq op.method (codes "entry.create")
        then field_of (codes "id") v
        else if text_eq op.method (codes "entry.update")
        then field_of (codes "id") op.params
        else if text_eq op.method (codes "block.append")
        then or_else (field_of (codes "entry_id") v) (field_of (codes "entry_id") op.params)
        else if text_eq op.method (codes "block.update")
        then field_of (codes "entry_id") v
        else none
    touched_by op _ = none

    abbrev pub insert_id : Option d.Ulid → List d.Ulid → List d.Ulid
    insert_id none ids = ids
    insert_id (some id) ids = if any (λ i. same_id d i id) ids then ids else id ∷ ids

    unfoldable pub touched : List (BatchOp d) → List (OpResult d) → List d.Ulid
    touched (op ∷ ops) (r ∷ rs) = insert_id (parsed (touched_by op r)) (touched ops rs)
    touched _ _ = []

    -- The loop over the touched entries, up to the first error.
    abbrev pub embed_next :
        (S → Result (CoreError d) (Unit {0}) × S)
        → Result (CoreError d) (Unit {0}) × S
        → Result (CoreError d) (Unit {0}) × S
    embed_next rest (ok u, db) = rest db
    embed_next rest (err e, db) = (err e, db)

    unfoldable pub embed_entries : List d.Ulid → S → Result (CoreError d) (Unit {0}) × S
    embed_entries [] db = (ok tt, db)
    embed_entries (id ∷ ids) db = embed_next (embed_entries ids) (services.embed_entry_chunks id db)

    abbrev pub cleanup_error : Result (CoreError d) (Unit {0}) → Option (CoreError d)
    cleanup_error (ok u) = none
    cleanup_error (err e) = some e

    unfoldable pub clean_up : List d.Ulid → S → Option (CoreError d) × S
    clean_up ids db =
        if is_empty ids
        then (none, db)
        else let o = services.delete_entries_signals ids db in (cleanup_error o.0, o.1)

    abbrev pub answer :
        List (OpResult d)
        → Option (CoreError d)
        → Result (CoreError d) (Unit {0})
        → Result (CoreError d) (List (OpResult d))
    answer results cleanup (err e) = err e
    answer results (some e) (ok u) = err (
        config (
          codes "batch entry deletions committed, but adaptive-memory cleanup failed: "
          ++ (services.error_to_string e
              ++ codes "; run index.sync or index.rebuild to retry reconciliation")))
    answer results none (ok u) = ok results

    -- What follows the transaction: a committed batch stays committed, also if the clean-up or an embedding
    -- fails.
    unfoldable pub after_commit :
        List (BatchOp d) → Committed → S → Result (CoreError d) (List (OpResult d)) × S
    after_commit ops c db =
        let cleaned = clean_up c.deleted_entry_ids db in
        let embedded = embed_entries (services.key_order (touched ops c.results)) cleaned.1 in
        (answer c.results cleaned.0 embedded.0, embedded.1)

    abbrev pub settle :
        List (BatchOp d)
        → Result (CoreError d) Committed × S
        → Result (CoreError d) (List (OpResult d)) × S
    settle ops (ok c, db) = after_commit ops c db
    settle ops (err e, db) = (err e, db)

    -- `call`. An answer is the `results`.
    unfoldable pub call : List (BatchOp d) → S → Result (CoreError d) (List (OpResult d)) × S
    call ops db = settle ops (transact ops db)
