-- ===== src/Links.antt =====
-- crates/core/src/link_model.rs and crates/core/src/link_service.rs: directed edges between entries, and
-- what deleting and reindexing an entry (crates/core/src/service.rs) does to them.
pub mod Steps
pub mod Replay
pub mod Queries
pub mod Neighbors
pub mod Pages
pub mod RoundTrip
mod Tests
use nomai.Base.{
  ◌≡◌, ℕ, Bool, true, false, not, ◌&&◌, ◌||◌, Option, none, some, List, [], ◌∷◌, ◌++◌, map, take,
  drop, length, if◌then◌else◌, filter, sort_by, any, find, ltb, ok_or, Result, ok, err, ◌>>=◌,
}
use nomai.Core.{Deps, CoreError, not_found, validation, storage, Json, same_id, check_attrs}
use nomai.Core.Model.{Block, Entry}
use nomai.Core.Transaction.{in_tx}
use nomai.Events.{Event, log_event}
use nomai.Text.{Text, codes, text_eq, text_lt}

pub record Link (d : Deps) : Type 0 where
  pub id : d.Ulid
  pub source_id : d.Ulid
  pub target_id : d.Ulid
  pub relation : Text
  pub attrs : Json d
  pub created_at : d.Time

pub record CreateLink (d : Deps) : Type 0 where
  pub source_id : d.Ulid
  pub target_id : d.Ulid
  pub relation : Text
  pub attrs : Option (Json d)

pub record ListLinkQuery (d : Deps) : Type 0 where
  pub from : Option d.Ulid
  pub to : Option d.Ulid
  pub relation : Option Text
  pub limit : ℕ
  pub offset : ℕ

pub record ListLinkResult (d : Deps) : Type 0 where
  pub items : List (Link d)
  pub total : ℕ

pub data Direction : Type 0 where
  out in_ both : Direction

pub record NeighborsQuery (d : Deps) : Type 0 where
  pub id : d.Ulid
  pub relation : Option Text
  pub direction : Direction
  pub limit : ℕ

pub record NeighborsResult (d : Deps) : Type 0 where
  pub entries : List (Entry d)
  pub links : List (Link d)

-- The tables, each with its newest row first.
pub record Db (d : Deps) : Type 0 where
  pub entries : List (Entry d)
  pub blocks : List (Block d)
  pub links : List (Link d)
  pub events : List (Event d)

-- What a call takes from outside: new ids, the clock, and serde's and SQLite's part of it.
pub record Call (d : Deps) : Type 0 where
  pub id : d.Ulid
  pub now : d.Time
  pub event_id : d.Ulid
  pub event_now : d.Time

pub record Codec (d : Deps) : Type 1 where
  pub link_to_value : Link d → Json d
  pub value_to_link : Json d → Option (Link d)
  pub entry_to_value : Entry d → Json d
  pub link_round_trip : (l : Link d) → value_to_link (link_to_value l) ≡ some l
  pub constraint_message : Text
  pub primary_key_error : d.SqlError

module _ (d : Deps) where
  abbrev pub same_edge : Link d → Link d → Bool
  same_edge l m =
      same_id d l.source_id m.source_id
      && same_id d l.target_id m.target_id
      && text_eq l.relation m.relation

  -- `PRIMARY KEY` and `UNIQUE(source_id, target_id, relation)`
  unfoldable pub conflicts : Link d → Link d → Bool
  conflicts l m = same_id d l.id m.id || same_edge l m

  abbrev pub has_entry : d.Ulid → List (Entry d) → Bool
  has_entry id = any (λ e. same_id d e.id id)

  -- The link can be inserted: its ends exist and it conflicts with no link.
  unfoldable pub is_insertable : Link d → Db d → Bool
  is_insertable l db =
      has_entry l.source_id db.entries
      && has_entry l.target_id db.entries
      && not (any (conflicts l) db.links)

  module _ (codec : Codec d) where
    unfoldable pub insert_event : Event d → Db d → Result (CoreError d) (Db d)
    insert_event e db = do
      events ← log_event d codec.primary_key_error e db.events
      ok (record db { events = events })

    unfoldable pub insert_link : Link d → Db d → Result (CoreError d) (Db d)
    insert_link l db =
        if is_insertable l db
        then ok (record db { links = l ∷ db.links })
        else err (validation (codes "link constraint violation: " ++ codec.constraint_message))

    abbrev pub new_link : Call d → CreateLink d → Json d → Link d
    new_link call p attrs = record {
      id = call.id;
      source_id = p.source_id;
      target_id = p.target_id;
      relation = p.relation;
      attrs = attrs;
      created_at = call.now;
    }

    abbrev pub link_event : Call d → Text → d.Ulid → Link d → Event d
    link_event call kind target_id l = record {
      id = call.event_id;
      type = kind;
      target_type = codes "link";
      target_id = target_id;
      payload = codec.link_to_value l;
      created_at = call.event_now;
    }

    unfoldable pub create_in_tx :
        Call d → CreateLink d → Db d → Result (CoreError d) (Link d × Db d)
    create_in_tx call p db = do
      attrs ← check_attrs d (codes "attrs must be a JSON object") p.attrs
      let link = new_link call p attrs
      db1 ← insert_link link db
      db2 ← insert_event (link_event call (codes "link.created") link.id link) db1
      ok (link, db2)

    unfoldable pub create : Call d → CreateLink d → Db d → Result (CoreError d) (Link d) × Db d
    create call p = in_tx d (create_in_tx call p)

    unfoldable pub get : d.Ulid → Db d → Result (CoreError d) (Link d)
    get id db = elim (find (λ l. same_id d l.id id) db.links) [
      | some l ↦ ok l
      | none ↦ err (not_found id)
    ]

    unfoldable pub delete_in_tx : Call d → d.Ulid → Db d → Result (CoreError d) (Unit {0} × Db d)
    delete_in_tx call id db = do
      before ← get id db
      let db1 = record db { links = filter (λ l. not (same_id d l.id id)) db.links }
      db2 ← insert_event (link_event call (codes "link.deleted") id before) db1
      ok (tt, db2)

    unfoldable pub delete : Call d → d.Ulid → Db d → Result (CoreError d) (Unit {0}) × Db d
    delete call id = in_tx d (delete_in_tx call id)

    -- `EntryService::delete_in_tx`, with the cascades of the schema: the blocks of the entry and the links
    -- at either end of it go with the row.
    abbrev pub touches : d.Ulid → Link d → Bool
    touches id l = same_id d l.source_id id || same_id d l.target_id id

    unfoldable pub delete_entry_row : d.Ulid → Db d → Db d
    delete_entry_row id db = record db {
      entries = filter (λ e. not (same_id d e.id id)) db.entries;
      blocks = filter (λ b. not (same_id d b.entry_id id)) db.blocks;
      links = filter (λ l. not (touches id l)) db.links;
    }

    abbrev pub entry_event : Call d → d.Ulid → Entry d → Event d
    entry_event call target_id e = record {
      id = call.event_id;
      type = codes "entry.deleted";
      target_type = codes "entry";
      target_id = target_id;
      payload = codec.entry_to_value e;
      created_at = call.event_now;
    }

    abbrev pub blocks_of : d.Ulid → List (Block d) → List (Block d)
    blocks_of id bs =
        sort_by (λ a b. ltb a.ordinal b.ordinal) (filter (λ b. same_id d b.entry_id id) bs)

    unfoldable pub delete_entry_in_tx :
        Call d → d.Ulid → Db d → Result (CoreError d) (Unit {0} × Db d)
    delete_entry_in_tx call id db = do
      row ← ok_or (find (λ e. same_id d e.id id) db.entries) (not_found id)
      let before = record row { blocks = blocks_of id db.blocks }
      db1 ← insert_event (entry_event call id before) (delete_entry_row id db)
      ok (tt, db1)

    unfoldable pub delete_entry : Call d → d.Ulid → Db d → Result (CoreError d) (Unit {0}) × Db d
    delete_entry call id = in_tx d (delete_entry_in_tx call id)

    -- The start of `EntryService::reindex_one`: the row is deleted and the one that the file gives is
    -- inserted. The blocks of the file follow.
    unfoldable pub replace_entry : Entry d → Db d → Db d
    replace_entry e db =
        let db1 = delete_entry_row e.id db in record db1 { entries = e ∷ db1.entries }
