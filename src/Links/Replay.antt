-- ===== src/Links/Replay.antt =====
-- The log of the changes against the table of the links.
use nomai.Base.{
  ◌≡◌, refl, sym, ap, ◌∙◌, Bool, true, false, not, none, some, List, [], ◌∷◌, if◌then◌else◌,
  Bool-cases, inl, inr, filter, All, ok_or, find, Holds, Holds-bind, Holds-bind_on,
}
use nomai.Core.{Deps, check_attrs, same_id}
use nomai.Core.Model.{Entry}
use nomai.Core.Transaction.{in_tx, close_keeps}
use nomai.Events.{Event, has_event, log_event}
use nomai.Links.{
  Link, CreateLink, Db, Call, Codec, has_entry, is_insertable, insert_event, insert_link,
  link_event, entry_event, new_link, create_in_tx, create, get, delete_in_tx, delete, touches,
  delete_entry_row, delete_entry_in_tx, delete_entry,
}
use nomai.Links.Steps.{Op, created, deleted, inserted, entry_deleted, reindexed, step, run, no_rows}
use nomai.Text.{codes, text_eq}

module _ (d : Deps) (codec : Codec d) where
  -- What a reader of the log makes of an event, and of the whole log, the newest event first.
  unfoldable pub apply_event : Event d → List (Link d) → List (Link d)
  apply_event e ls =
      if text_eq e.type (codes "link.created")
      then elim (codec.value_to_link e.payload) [ some l ↦ l ∷ ls | none ↦ ls ]
      else if text_eq e.type (codes "link.deleted")
      then filter (λ l. not (same_id d l.id e.target_id)) ls
      else if text_eq e.type (codes "entry.deleted")
      then filter (λ l. not (touches d codec e.target_id l)) ls
      else ls

  unfoldable pub replay : List (Event d) → List (Link d)
  replay [] = []
  replay (e ∷ es) = apply_event e (replay es)

  apply_event-created :
      (call : Call d) (l : Link d) (ls : List (Link d))
      → apply_event (link_event d codec call (codes "link.created") l.id l) ls ≡ l ∷ ls
  unfolding apply_event text_eq
  apply_event-created call l ls = rw (codec.link_round_trip l) refl

  apply_event-deleted :
      (call : Call d) (id : d.Ulid) (l : Link d) (ls : List (Link d))
      → apply_event (link_event d codec call (codes "link.deleted") id l) ls
        ≡ filter (λ m. not (same_id d m.id id)) ls
  unfolding apply_event text_eq
  apply_event-deleted call id l ls = refl

  apply_event-entry_deleted :
      (call : Call d) (id : d.Ulid) (e : Entry d) (ls : List (Link d))
      → apply_event (entry_event d codec call id e) ls ≡ filter (λ l. not (touches d codec id l)) ls
  unfolding apply_event text_eq
  apply_event-entry_deleted call id e ls = refl

  abbrev IsReplayed : Db d → Type 0
  IsReplayed db = db.links ≡ replay db.events

  -- An event is written behind the change that it tells.
  insert_event-IsReplayed :
      (e : Event d) (db : Db d)
      → db.links ≡ apply_event e (replay db.events)
      → Holds IsReplayed (insert_event d codec e db)
  unfolding insert_event log_event replay
  insert_event-IsReplayed e db h = elim (Bool-cases (has_event d e.id db.events)) [
    | inl q ↦ rw q tt
    | inr q ↦ rw q h
  ]

  insert_link-logged :
      (call : Call d) (l : Link d) (db : Db d)
      → IsReplayed db
      → Holds
          (λ db1.
            db1.links
            ≡ apply_event
                (link_event d codec call (codes "link.created") l.id l)
                (replay db1.events))
          (insert_link d codec l db)
  unfolding insert_link
  insert_link-logged call l db h = elim (Bool-cases (is_insertable d l db)) [
    | inl q ↦ rw q (ap (λ ls. l ∷ ls) h ∙ sym (apply_event-created call l (replay db.events)))
    | inr q ↦ rw q tt
  ]

  create_in_tx-IsReplayed :
      (call : Call d) (p : CreateLink d) (db : Db d)
      → IsReplayed db
      → Holds (λ o. IsReplayed o.1) (create_in_tx d codec call p db)
  unfolding create_in_tx
  create_in_tx-IsReplayed call p db h = Holds-bind _ (check_attrs d _ p.attrs) _ λ attrs.
      let l = new_link d codec call p attrs in
      Holds-bind_on
        (λ db1.
          db1.links
          ≡ apply_event (link_event d codec call (codes "link.created") l.id l) (replay db1.events))
        _ (insert_link d codec l db) _ (insert_link-logged call l db h)
        λ db1 h1.
          Holds-bind_on IsReplayed _ (insert_event d codec _ db1) _
            (insert_event-IsReplayed _ db1 h1) λ db2 h2. h2

  delete_in_tx-IsReplayed :
      (call : Call d) (id : d.Ulid) (db : Db d)
      → IsReplayed db
      → Holds (λ o. IsReplayed o.1) (delete_in_tx d codec call id db)
  unfolding delete_in_tx
  delete_in_tx-IsReplayed call id db h = Holds-bind _ (get d codec id db) _ λ l.
      Holds-bind_on IsReplayed _ (insert_event d codec _ _) _
        (insert_event-IsReplayed _ _
          (ap (filter (λ m. not (same_id d m.id id))) h ∙ sym (apply_event-deleted call id l _)))
        λ db1 h1. h1

  delete_entry_in_tx-IsReplayed :
      (call : Call d) (id : d.Ulid) (db : Db d)
      → IsReplayed db
      → Holds (λ o. IsReplayed o.1) (delete_entry_in_tx d codec call id db)
  unfolding delete_entry_in_tx delete_entry_row
  delete_entry_in_tx-IsReplayed call id db h = Holds-bind _ (ok_or (find _ db.entries) _) _ λ e.
      Holds-bind_on IsReplayed _ (insert_event d codec _ _) _
        (insert_event-IsReplayed _ _ (
          ap (filter (λ l. not (touches d codec id l))) h
          ∙ sym (apply_event-entry_deleted call id _ _)))
        λ db1 h1. h1

  -- Every change but reindexing, which writes no event.
  abbrev pub is_logged : Op d codec → Bool
  is_logged (reindexed e) = false
  is_logged _ = true

  step-IsReplayed :
      (o : Op d codec) (db : Db d)
      → is_logged o ≡ true
      → IsReplayed db
      → IsReplayed (step d codec o db)
  unfolding step create delete delete_entry in_tx
  step-IsReplayed (created call p) db l h =
      close_keeps d IsReplayed db _ h (create_in_tx-IsReplayed call p db h)
  step-IsReplayed (deleted call id) db l h =
      close_keeps d IsReplayed db _ h (delete_in_tx-IsReplayed call id db h)
  step-IsReplayed (inserted e) db l h = elim (Bool-cases (has_entry d e.id db.entries)) [
    | inl q ↦ rw q h
    | inr q ↦ rw q h
  ]
  step-IsReplayed (entry_deleted call id) db l h =
      close_keeps d IsReplayed db _ h (delete_entry_in_tx-IsReplayed call id db h)
  step-IsReplayed (reindexed e) db l h = cc

  run_from-IsReplayed :
      (os : List (Op d codec)) (db : Db d)
      → All (λ o. is_logged o ≡ true) os
      → IsReplayed db
      → IsReplayed (run d codec os db)
  unfolding run
  run_from-IsReplayed [] db l h = h
  run_from-IsReplayed (o ∷ os) db l h =
      run_from-IsReplayed os (step d codec o db) l.1 (step-IsReplayed o db l.0 h)

  -- After any calls that create and delete links and entries, but do not reindex one, the log tells the
  -- links: replaying its events from nothing, with an entry's links deleted with it, gives the table.
  pub run-replay :
      (os : List (Op d codec))
      → All (λ o. is_logged o ≡ true) os
      → (run d codec os (no_rows d)).links ≡ replay (run d codec os (no_rows d)).events
  run-replay os l = run_from-IsReplayed os (no_rows d) l (unfold replay in refl)
