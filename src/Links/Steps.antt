-- ===== src/Links/Steps.antt =====
-- The tables after any calls: what the schema and the services keep.
use nomai.Base.{
  ℕ, ◌≡◌, ◌≢◌, Bool, true, false, not, List, [], ◌∷◌, arith, if◌then◌else◌, Bool-cases, inl, inr,
  filter, All, All-map, All-filter, filter-All, IsKeyed, filter-IsKeyed, IsApart, filter-IsApart,
  any-All, any-filter, any_more, ok_or, find, Holds, Holds-bind, Holds-bind_on,
}
use nomai.Core.{Deps, check_attrs, same_id}
use nomai.Core.Model.{Entry}
use nomai.Core.Transaction.{in_tx, close_keeps}
use nomai.Events.{Event, event_key, has_event, log_event}
use nomai.Links.{
  Link, CreateLink, Db, Call, Codec, conflicts, has_entry, is_insertable, insert_event, insert_link,
  new_link, create_in_tx, create, get, delete_in_tx, delete, touches, delete_entry_row,
  delete_entry_in_tx, delete_entry, replace_entry,
}

module _ (d : Deps) where
  abbrev pub entry_key : Entry d → ℕ
  entry_key e = d.number e.id

  abbrev pub HasEnds : List (Entry d) → Link d → Type 0
  HasEnds es l = (has_entry d l.source_id es ≡ true) × (has_entry d l.target_id es ≡ true)

  -- The ids of the entries and of the events are distinct, no two links have one id or join the same
  -- ends by the same relation, and both ends of every link exist.
  pub record IsValid (db : Db d) : Type 0 where
    pub entries_keyed : IsKeyed entry_key db.entries
    pub events_keyed : IsKeyed (event_key d) db.events
    pub links_apart : IsApart (conflicts d) db.links
    pub links_between : All (HasEnds db.entries) db.links

  abbrev pub no_rows : Db d
  no_rows = record { entries = []; blocks = []; links = []; events = [] }

  module _ (codec : Codec d) where
    insert_event-IsValid :
        (e : Event d) (db : Db d) → IsValid db → Holds IsValid (insert_event d codec e db)
    unfolding insert_event log_event
    insert_event-IsValid e db v = elim (Bool-cases (has_event d e.id db.events)) [
      | inl q ↦ rw q tt
      | inr q ↦ rw q (record {
        entries_keyed = v.entries_keyed;
        events_keyed =
            (All-map _ _ (λ x f. fresh x f) db.events (any-All _ db.events q), v.events_keyed);
        links_apart = v.links_apart;
        links_between = v.links_between;
      })
    ]
      where
        fresh : (x : Event d) → same_id d x.id e.id ≡ false → event_key d e ≢ event_key d x
        fresh x f = ground (arith, f)

    insert_link-IsValid :
        (l : Link d) (db : Db d) → IsValid db → Holds IsValid (insert_link d codec l db)
    unfolding insert_link is_insertable
    insert_link-IsValid l db v = elim (Bool-cases (is_insertable d l db)) [
      | inl q ↦ rw q (record {
        entries_keyed = v.entries_keyed;
        events_keyed = v.events_keyed;
        links_apart = (any-All _ db.links (ground (arith, q)), v.links_apart);
        links_between = ((ground (arith, q), ground (arith, q)), v.links_between);
      })
      | inr q ↦ rw q tt
    ]

    create_in_tx-IsValid :
        (call : Call d) (p : CreateLink d) (db : Db d)
        → IsValid db
        → Holds (λ o. IsValid o.1) (create_in_tx d codec call p db)
    unfolding create_in_tx
    create_in_tx-IsValid call p db v = Holds-bind _ (check_attrs d _ p.attrs) _ λ attrs.
        let l = new_link d codec call p attrs in
        Holds-bind_on IsValid _ (insert_link d codec l db) _ (insert_link-IsValid l db v) λ db1 v1.
          Holds-bind_on IsValid _ (insert_event d codec _ db1) _ (insert_event-IsValid _ db1 v1)
            λ db2 v2. v2

    filter_links :
        (p : Link d → Bool) (db : Db d)
        → IsValid db
        → IsValid (record db { links = filter p db.links })
    filter_links p db v = record {
      entries_keyed = v.entries_keyed;
      events_keyed = v.events_keyed;
      links_apart = filter-IsApart (conflicts d) p db.links v.links_apart;
      links_between = All-filter _ p db.links v.links_between;
    }

    delete_in_tx-IsValid :
        (call : Call d) (id : d.Ulid) (db : Db d)
        → IsValid db
        → Holds (λ o. IsValid o.1) (delete_in_tx d codec call id db)
    unfolding delete_in_tx
    delete_in_tx-IsValid call id db v = Holds-bind _ (get d codec id db) _ λ l.
        Holds-bind_on IsValid _ (insert_event d codec _ _) _
          (insert_event-IsValid _ _ (filter_links _ db v)) λ db1 v1. v1

    still_between :
        (id : d.Ulid) (es : List (Entry d)) (ls : List (Link d))
        → All (HasEnds es) ls
        → All
            (HasEnds (filter (λ e. not (same_id d e.id id)) es))
            (filter (λ l. not (touches d codec id l)) ls)
    unfolding filter
    still_between id es [] h = tt
    still_between id es (l ∷ ls) h = elim (Bool-cases (touches d codec id l)) [
      | inl q ↦ rw q (still_between id es ls h.1)
      | inr q ↦ rw q (
        (kept l.source_id (ground (arith, q)) h.0.0, kept l.target_id (ground (arith, q)) h.0.1),
        still_between id es ls h.1,
      )
    ]
      where
        kept :
            (end : d.Ulid)
            → same_id d end id ≡ false
            → has_entry d end es ≡ true
            → has_entry d end (filter (λ e. not (same_id d e.id id)) es) ≡ true
        kept end f =
            any-filter (λ e. same_id d e.id end) (λ e. not (same_id d e.id id)) es
              (λ e g. ground (arith, f, g))

    delete_entry_row-IsValid :
        (id : d.Ulid) (db : Db d) → IsValid db → IsValid (delete_entry_row d codec id db)
    unfolding delete_entry_row
    delete_entry_row-IsValid id db v = record {
      entries_keyed = filter-IsKeyed entry_key _ db.entries v.entries_keyed;
      events_keyed = v.events_keyed;
      links_apart = filter-IsApart (conflicts d) _ db.links v.links_apart;
      links_between = still_between id db.entries db.links v.links_between;
    }

    delete_entry_in_tx-IsValid :
        (call : Call d) (id : d.Ulid) (db : Db d)
        → IsValid db
        → Holds (λ o. IsValid o.1) (delete_entry_in_tx d codec call id db)
    unfolding delete_entry_in_tx
    delete_entry_in_tx-IsValid call id db v = Holds-bind _ (ok_or (find _ db.entries) _) _ λ e.
        Holds-bind_on IsValid _ (insert_event d codec _ _) _
          (insert_event-IsValid _ _ (delete_entry_row-IsValid id db v)) λ db1 v1. v1

    add_entry :
        (e : Entry d) (db : Db d)
        → All (λ x. entry_key e ≢ entry_key x) db.entries
        → IsValid db
        → IsValid (record db { entries = e ∷ db.entries })
    add_entry e db fresh v = record {
      entries_keyed = (fresh, v.entries_keyed);
      events_keyed = v.events_keyed;
      links_apart = v.links_apart;
      links_between =
          All-map _ _ (λ l h. (more l.source_id h.0, more l.target_id h.1)) db.links
            v.links_between;
    }
      where
        more :
            (end : d.Ulid)
            → has_entry d end db.entries ≡ true
            → has_entry d end (e ∷ db.entries) ≡ true
        more end = any_more (λ x. same_id d x.id end) e db.entries

    replace_entry-IsValid :
        (e : Entry d) (db : Db d) → IsValid db → IsValid (replace_entry d codec e db)
    unfolding replace_entry delete_entry_row
    replace_entry-IsValid e db v =
        add_entry e (delete_entry_row d codec e.id db)
          (All-map _ _ (λ x f. other x f) _
            (filter-All (λ x. not (same_id d x.id e.id)) db.entries))
          (delete_entry_row-IsValid e.id db v)
      where
        other : (x : Entry d) → not (same_id d x.id e.id) ≡ true → entry_key e ≢ entry_key x
        other x f = ground (arith, f)

    -- What can happen to the tables. `inserted` stands for the services that write entries.
    pub data Op : Type 0 where
      created : Call d → CreateLink d → Op
      deleted : Call d → d.Ulid → Op
      inserted : Entry d → Op
      entry_deleted : Call d → d.Ulid → Op
      reindexed : Entry d → Op

    unfoldable pub step : Op → Db d → Db d
    step (created call p) db = (create d codec call p db).1
    step (deleted call id) db = (delete d codec call id db).1
    step (inserted e) db =
        if has_entry d e.id db.entries then db else record db { entries = e ∷ db.entries }
    step (entry_deleted call id) db = (delete_entry d codec call id db).1
    step (reindexed e) db = replace_entry d codec e db

    unfoldable pub run : List Op → Db d → Db d
    run [] db = db
    run (o ∷ os) db = run os (step o db)

    step-IsValid : (o : Op) (db : Db d) → IsValid db → IsValid (step o db)
    unfolding step create delete delete_entry in_tx
    step-IsValid (created call p) db v =
        close_keeps d (λ t. IsValid t) db _ v (create_in_tx-IsValid call p db v)
    step-IsValid (deleted call id) db v =
        close_keeps d (λ t. IsValid t) db _ v (delete_in_tx-IsValid call id db v)
    step-IsValid (inserted e) db v = elim (Bool-cases (has_entry d e.id db.entries)) [
      | inl q ↦ rw q v
      | inr q ↦ rw q (
          add_entry e db
            (All-map _ _ (λ x f. ground (arith, f)) db.entries (any-All _ db.entries q)) v)
    ]
    step-IsValid (entry_deleted call id) db v =
        close_keeps d (λ t. IsValid t) db _ v (delete_entry_in_tx-IsValid call id db v)
    step-IsValid (reindexed e) db v = replace_entry-IsValid e db v

    run_from-IsValid : (os : List Op) (db : Db d) → IsValid db → IsValid (run os db)
    unfolding run
    run_from-IsValid [] db v = v
    run_from-IsValid (o ∷ os) db v = run_from-IsValid os (step o db) (step-IsValid o db v)

    -- Whatever is called, in any order, with any ids: no two links of the tables have one id or join the
    -- same ends by the same relation, both ends of every link exist, and the ids of the entries and of
    -- the events are distinct.
    pub run-IsValid : (os : List Op) → IsValid (run os no_rows)
    run-IsValid os =
        run_from-IsValid os no_rows
          (record { entries_keyed = tt; events_keyed = tt; links_apart = tt; links_between = tt })
