-- ===== src/Links/RoundTrip.antt =====
-- What a call leaves when it fails, and a link that is created, fetched and deleted.
use nomai.Base.{
  ◌≡◌, refl, ap, ◌∙◌, false, not, some, ◌∷◌, arith, ==_refl, Bool-cases, inl, inr, filter,
  filter_drop, filter-All', any, any-All, All-map, find, find_first, ok, err, Holds, Holds-bind,
  Holds-bind_on,
}
use nomai.Core.{Deps, CoreError, check_attrs, same_id}
use nomai.Core.Transaction.{in_tx, close-error, close-ok}
use nomai.Events.{Event, has_event, log_event}
use nomai.Text.{codes}
use nomai.Links.{
  Link, CreateLink, Db, Call, Codec, conflicts, is_insertable, insert_event, insert_link,
  link_event, new_link, create_in_tx, create, get, delete_in_tx, delete,
}

module _ (d : Deps) where
  module _ (codec : Codec d) where
    -- A creation that fails leaves the tables as they were, though it fails behind the insertion of the
    -- link if the id of its event is taken.
    create-error :
        (call : Call d) (p : CreateLink d) (db : Db d) (e : CoreError d)
        → (create d codec call p db).0 ≡ err e
        → (create d codec call p db).1 ≡ db
    unfolding create in_tx
    create-error call p db e = close-error d db _ e

    abbrev Written : Db d → Link d → Db d → Type 0
    Written db l db1 = (any (conflicts d l) db.links ≡ false) × (db1.links ≡ l ∷ db.links)

    insert_link-Written : (l : Link d) (db : Db d) → Holds (Written db l) (insert_link d codec l db)
    unfolding insert_link is_insertable
    insert_link-Written l db = elim (Bool-cases (is_insertable d l db)) [
      | inl q ↦ rw q (ground (arith, q), refl)
      | inr q ↦ rw q tt
    ]

    insert_event-Written :
        (db : Db d) (l : Link d) (e : Event d) (db1 : Db d)
        → Written db l db1
        → Holds (Written db l) (insert_event d codec e db1)
    unfolding insert_event log_event
    insert_event-Written db l e db1 h = elim (Bool-cases (has_event d e.id db1.events)) [
      | inl q ↦ rw q tt
      | inr q ↦ rw q h
    ]

    create_in_tx-Written :
        (call : Call d) (p : CreateLink d) (db : Db d)
        → Holds (λ o. Written db o.0 o.1) (create_in_tx d codec call p db)
    unfolding create_in_tx
    create_in_tx-Written call p db = Holds-bind _ (check_attrs d _ p.attrs) _ λ attrs.
        let l = new_link d codec call p attrs in
        Holds-bind_on (Written db l) _ (insert_link d codec l db) _ (insert_link-Written l db)
          λ db1 h1.
            Holds-bind_on (Written db l) _ (insert_event d codec _ db1) _
              (insert_event-Written db l _ db1 h1) λ db2 h2. h2

    get-found :
        (id : d.Ulid) (l : Link d) (db : Db d)
        → find (λ m. same_id d m.id id) db.links ≡ some l
        → get d codec id db ≡ ok l
    unfolding get
    get-found id l db h = rw (get, h) refl

    delete-found :
        (call : Call d) (id : d.Ulid) (l : Link d) (db : Db d)
        → get d codec id db ≡ ok l
        → has_event d call.event_id db.events ≡ false
        → delete d codec call id db ≡ (
          ok tt,
          record db {
            links = filter (λ m. not (same_id d m.id id)) db.links;
            events = link_event d codec call (codes "link.deleted") id l ∷ db.events;
          },
        )
    unfolding delete in_tx delete_in_tx insert_event log_event
    delete-found call id l db h fresh = rw (h, fresh) refl

    delete-first :
        (db : Db d) (l : Link d)
        → any (conflicts d l) db.links ≡ false
        → filter (λ m. not (same_id d m.id l.id)) (l ∷ db.links) ≡ db.links
    unfolding conflicts
    delete-first db l h =
        filter_drop _ l db.links (rw (==_refl (d.number l.id)) refl)
        ∙ filter-All' _ db.links
            (All-map _ _ (λ m f. ground (arith, f)) db.links (any-All (conflicts d l) db.links h))

    -- A link that was created is fetched by its id as it was returned, and deleting it by its id succeeds
    -- and gives the links that were there before, if the id of the event is new.
    pub create-get-delete :
        (call again : Call d) (p : CreateLink d) (db : Db d) (l : Link d)
        → (create d codec call p db).0 ≡ ok l
        → has_event d again.event_id (create d codec call p db).1.events ≡ false
        → (get d codec l.id (create d codec call p db).1 ≡ ok l)
          × ((delete d codec again l.id (create d codec call p db).1).0 ≡ ok tt)
          × ((delete d codec again l.id (create d codec call p db).1).1.links ≡ db.links)
    unfolding create delete in_tx
    create-get-delete call again p db l h fresh =
        let db1 = (create d codec call p db).1 in
        let w : Written db l db1 =
          close-ok d (Written db) db (create_in_tx d codec call p db) l
            (create_in_tx-Written call p db) h in
        let found : get d codec l.id db1 ≡ ok l = get-found l.id l db1 (
          ap (find (λ m. same_id d m.id l.id)) w.1
          ∙ find_first (λ m. same_id d m.id l.id) l db.links (==_refl (d.number l.id))) in
        let gone = delete-found again l.id l db1 found fresh in
        (
          found,
          ap (λ o. o.0) gone,
          ap (λ o. o.1.links) gone
              ∙ ap (filter (λ m. not (same_id d m.id l.id))) w.1
              ∙ delete-first db l w.0,
        )
