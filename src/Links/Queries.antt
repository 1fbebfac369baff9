-- ===== src/Links/Queries.antt =====
-- The queries of crates/core/src/link_service.rs, `list` and `neighbors`.
use nomai.Base.{
  Bool, true, false, ◌&&◌, ◌||◌, Option, none, some, List, [], ◌∷◌, ◌++◌, map, take, drop, length,
  if◌then◌else◌, filter, sort_by, any, Result, ok, err,
}
use nomai.Core.{Deps, CoreError, validation, same_id}
use nomai.Core.Model.{Entry}
use nomai.Events.{if_given}
use nomai.Links.{
  Link, ListLinkQuery, ListLinkResult, Direction, out, in_, both, NeighborsQuery, NeighborsResult,
  Db,
}
use nomai.Text.{codes, text_eq, text_lt}

module _ (d : Deps) where
  -- `ORDER BY created_at, id`, both of them texts in the tables
  abbrev pub older : Link d → Link d → Bool
  older l m =
      text_lt (d.to_rfc3339 l.created_at) (d.to_rfc3339 m.created_at)
      || (text_eq (d.to_rfc3339 l.created_at) (d.to_rfc3339 m.created_at)
          && text_lt (d.ulid_to_string l.id) (d.ulid_to_string m.id))

  unfoldable pub is_listed : ListLinkQuery d → Link d → Bool
  is_listed q l =
      if_given (same_id d l.source_id) q.from
      && if_given (same_id d l.target_id) q.to
      && if_given (text_eq l.relation) q.relation

  unfoldable pub listed : ListLinkQuery d → Db d → List (Link d)
  listed q db = sort_by older (filter (is_listed q) db.links)

  abbrev pub is_none : {A : Type 0} → Option A → Bool
  is_none none = true
  is_none (some a) = false

  unfoldable pub list : ListLinkQuery d → Db d → Result (CoreError d) (ListLinkResult d)
  list q db =
      if is_none q.from && is_none q.to
      then err (validation (codes "list requires at least one of `from` or `to`"))
      else ok (record {
        items = take q.limit (drop q.offset (listed q db));
        total = length (filter (is_listed q) db.links);
      })

  abbrev pub is_directed : Direction → d.Ulid → Link d → Bool
  is_directed out id l = same_id d l.source_id id
  is_directed in_ id l = same_id d l.target_id id
  is_directed both id l = same_id d l.source_id id || same_id d l.target_id id

  unfoldable pub is_near : NeighborsQuery d → Link d → Bool
  is_near q l = is_directed q.direction q.id l && if_given (text_eq l.relation) q.relation

  -- `CASE WHEN l.source_id = ?1 THEN l.target_id ELSE l.source_id END`
  abbrev pub other_end : d.Ulid → Link d → d.Ulid
  other_end id l = if same_id d l.source_id id then l.target_id else l.source_id

  abbrev pub with_link : Link d → Entry d → Link d × Entry d
  with_link l e = (l, record e { blocks = [] })

  -- `JOIN entries`: the row of an entry comes without its blocks.
  unfoldable pub join : d.Ulid → List (Entry d) → List (Link d) → List (Link d × Entry d)
  join id es [] = []
  join id es (l ∷ ls) =
      map (with_link l) (filter (λ e. same_id d e.id (other_end id l)) es) ++ join id es ls

  unfoldable pub neighbor_rows : NeighborsQuery d → Db d → List (Link d × Entry d)
  neighbor_rows q db =
      take q.limit
        (sort_by (λ a b. older a.0 b.0) (join q.id db.entries (filter (is_near q) db.links)))

  -- The loop over the rows: `seen` holds the ids of the entries that are pushed.
  unfoldable pub collect : List d.Ulid → List (Link d × Entry d) → NeighborsResult d
  collect seen [] = record { entries = []; links = [] }
  collect seen (row ∷ rows) =
      let is_seen = any (same_id d row.1.id) seen in
      let rest = collect (if is_seen then seen else row.1.id ∷ seen) rows in
      record {
        entries = if is_seen then rest.entries else row.1 ∷ rest.entries;
        links = row.0 ∷ rest.links;
      }

  unfoldable pub neighbors : NeighborsQuery d → Db d → NeighborsResult d
  neighbors q db = collect [] (neighbor_rows q db)
