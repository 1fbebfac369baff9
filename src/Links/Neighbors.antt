-- ===== src/Links/Neighbors.antt =====
-- What `list` and `neighbors` answer.
use nomai.Base.{
  ◌≡◌, ◌≢◌, refl, sym, ap, ◌∙◌, subst, Bool, true, false, ◌||◌, List, [], ◌∷◌, arith, map, take,
  if◌then◌else◌, ◌==◌, ==_iff, Bool-cases, inl, inr, filter, sort_by, any, All, All-map, All-take,
  All-both, All-filter, All-append, All-sort_by, All-of-map, filter-All, any_self, any-map,
  map-take, map-append, map-sort_by, IsKeyed, filter-key,
}
use nomai.Core.{Deps, same_id}
use nomai.Core.Model.{Entry}
use nomai.Links.{Link, NeighborsQuery, Db, has_entry}
use nomai.Links.Queries.{
  older, is_near, other_end, with_link, join, neighbor_rows, collect, neighbors,
}
use nomai.Links.Steps.{IsValid, entry_key, HasEnds}

module _ (d : Deps) where
  abbrev Row : Type 0
  Row = Link d × Entry d

  join-links :
      (id : d.Ulid) (es : List (Entry d)) (ls : List (Link d))
      → IsKeyed (entry_key d) es
      → All (HasEnds d es) ls
      → map (λ r. r.0) (join d id es ls) ≡ ls
  unfolding join
  join-links id es [] k h = refl
  join-links id es (l ∷ ls) k h =
      let (e, one) = filter-key (entry_key d) (d.number (other_end d id l)) es k (ends h.0) in
      map-append (λ r. r.0)
        (map (with_link d l) (filter (λ x. same_id d x.id (other_end d id l)) es)) (join d id es ls)
      ∙ rw one (ap (λ r. l ∷ r) (join-links id es ls k h.1))
    where
      ends : HasEnds d es l → has_entry d (other_end d id l) es ≡ true
      ends h = elim (Bool-cases (same_id d l.source_id id)) [ inl q ↦ rw q h.1 | inr q ↦ rw q h.0 ]

  abbrev IsOtherEnd : d.Ulid → Row → Type 0
  IsOtherEnd id r = same_id d r.1.id (other_end d id r.0) ≡ true

  join-All :
      (id : d.Ulid) (es : List (Entry d)) (ls : List (Link d))
      → All (IsOtherEnd id) (join d id es ls)
  unfolding join
  join-All id es [] = tt
  join-All id es (l ∷ ls) =
      All-append (IsOtherEnd id) _ (join d id es ls)
        (All-of-map (with_link d l) (IsOtherEnd id) _
          (filter-All (λ e. same_id d e.id (other_end d id l)) es))
        (join-All id es ls)

  collect-links :
      (seen : List d.Ulid) (rows : List Row) → (collect d seen rows).links ≡ map (λ r. r.0) rows
  unfolding collect
  collect-links seen [] = refl
  collect-links seen (r ∷ rows) =
      ap (λ ls. r.0 ∷ ls)
        (collect-links (if any (same_id d r.1.id) seen then seen else r.1.id ∷ seen) rows)

  collect-All :
      (P : Entry d → Type 0) (seen : List d.Ulid) (rows : List Row)
      → All (λ r. P r.1) rows
      → All P (collect d seen rows).entries
  unfolding collect
  collect-All P seen [] h = tt
  collect-All P seen (r ∷ rows) h = elim (Bool-cases (any (same_id d r.1.id) seen)) [
    | inl q ↦ rw q (collect-All P seen rows h.1)
    | inr q ↦ rw q (h.0, collect-All P (r.1.id ∷ seen) rows h.1)
  ]

  abbrev IsNew : List d.Ulid → Entry d → Type 0
  IsNew seen e = any (same_id d e.id) seen ≡ false

  IsNew-more :
      (id : d.Ulid) (seen : List d.Ulid) (e : Entry d)
      → IsNew (id ∷ seen) e
      → (same_id d e.id id ≡ false) × IsNew seen e
  unfolding any
  IsNew-more id seen e h = (ground (arith, h), ground (arith, h))

  collect-IsKeyed :
      (seen : List d.Ulid) (rows : List Row)
      → All (IsNew seen) (collect d seen rows).entries
        × IsKeyed (entry_key d) (collect d seen rows).entries
  unfolding collect
  collect-IsKeyed seen [] = (tt, tt)
  collect-IsKeyed seen (r ∷ rows) = elim (Bool-cases (any (same_id d r.1.id) seen)) [
    | inl q ↦ rw q (collect-IsKeyed seen rows)
    | inr q ↦
        let (new, keyed) = collect-IsKeyed (r.1.id ∷ seen) rows in
        rw q (
          (q, All-map _ _ (λ e n. (IsNew-more r.1.id seen e n).1) _ new),
          (All-map _ _ (λ e n. apart e (IsNew-more r.1.id seen e n).0) _ new, keyed),
        )
  ]
    where
      apart : (e : Entry d) → same_id d e.id r.1.id ≡ false → entry_key d r.1 ≢ entry_key d e
      apart e n = ground (arith, n)

  -- The entry of a row is pushed unless it was before.
  abbrev IsCovered : List d.Ulid → List (Entry d) → Row → Type 0
  IsCovered seen es r = (any (same_id d r.1.id) seen || has_entry d r.1.id es) ≡ true

  collect_seen :
      (seen : List d.Ulid) (r : Row) (rows : List Row)
      → any (same_id d r.1.id) seen ≡ true
      → (collect d seen (r ∷ rows)).entries ≡ (collect d seen rows).entries
  unfolding collect
  collect_seen seen r rows h = rw h refl

  collect_new :
      (seen : List d.Ulid) (r : Row) (rows : List Row)
      → any (same_id d r.1.id) seen ≡ false
      → (collect d seen (r ∷ rows)).entries ≡ r.1 ∷ (collect d (r.1.id ∷ seen) rows).entries
  unfolding collect
  collect_new seen r rows h = rw h refl

  IsCovered-first :
      (seen : List d.Ulid) (es : List (Entry d)) (r : Row) → IsCovered seen (r.1 ∷ es) r
  unfolding any
  IsCovered-first seen es r = ground arith

  IsCovered-moved :
      (seen : List d.Ulid) (es : List (Entry d)) (e : Entry d) (r : Row)
      → IsCovered (e.id ∷ seen) es r
      → IsCovered seen (e ∷ es) r
  unfolding any
  IsCovered-moved seen es e r h = ground (arith, h)

  collect-IsCovered :
      (seen : List d.Ulid) (rows : List Row)
      → All (IsCovered seen (collect d seen rows).entries) rows
  collect-IsCovered seen [] = tt
  collect-IsCovered seen (r ∷ rows) = elim (Bool-cases (any (same_id d r.1.id) seen)) [
    | inl q ↦
        subst (λ es. All (IsCovered seen es) (r ∷ rows)) (sym (collect_seen seen r rows q))
          (rw q refl, collect-IsCovered seen rows)
    | inr q ↦
        let rest = collect-IsCovered (r.1.id ∷ seen) rows in
        subst (λ es. All (IsCovered seen es) (r ∷ rows)) (sym (collect_new seen r rows q))
          (IsCovered-first seen _ r, All-map _ _ (λ s c. IsCovered-moved seen _ r.1 s c) rows rest)
  ]

  neighbor_rows-All :
      (q : NeighborsQuery d) (db : Db d) → All (IsOtherEnd q.id) (neighbor_rows d q db)
  unfolding neighbor_rows
  neighbor_rows-All q db =
      All-take _ q.limit _
        (All-sort_by _ _ _ (join-All q.id db.entries (filter (is_near d q) db.links)))

  neighbor_rows-links :
      (q : NeighborsQuery d) (db : Db d)
      → IsValid d db
      → map (λ r. r.0) (neighbor_rows d q db)
        ≡ take q.limit (sort_by (older d) (filter (is_near d q) db.links))
  unfolding neighbor_rows
  neighbor_rows-links q db v =
      let near = filter (is_near d q) db.links in
      map-take (λ r. r.0) q.limit _
      ∙ ap (take q.limit) (
          map-sort_by (λ r. r.0) (older d) (join d q.id db.entries near)
          ∙ ap (sort_by (older d)) (
              join-links q.id db.entries near v.entries_keyed
                (All-filter _ (is_near d q) db.links v.links_between)))

  none_seen : (es : List (Entry d)) (r : Row) → IsCovered [] es r → has_entry d r.1.id es ≡ true
  unfolding any
  none_seen es r c = c

  abbrev pub IsEndOf : d.Ulid → List (Link d) → Entry d → Type 0
  IsEndOf id ls e = any (λ l. same_id d e.id (other_end d id l)) ls ≡ true

  rows-ends :
      (id : d.Ulid) (rows : List Row) (ls : List (Link d))
      → ls ≡ map (λ r. r.0) rows
      → All (IsOtherEnd id) rows
      → All (λ r. IsEndOf id ls r.1) rows
  rows-ends id rows ls h ends =
      All-map (λ r. any (λ s. same_id d r.1.id (other_end d id s.0)) rows ≡ true) _
        (λ r k. ap (any (is_end r)) h ∙ any-map (λ s. s.0) (is_end r) rows ∙ k) rows
        (any_self (λ r s. same_id d r.1.id (other_end d id s.0)) rows ends)
    where
      is_end : Row → Link d → Bool
      is_end r l = same_id d r.1.id (other_end d id l)

  -- On valid tables, `neighbors` answers the first `limit` links of the direction and the relation, in
  -- the order of their times and ids; the other end of each of them is among the entries, each entry
  -- is the other end of one of them, and no entry comes twice.
  pub neighbors-links :
      (q : NeighborsQuery d) (db : Db d)
      → IsValid d db
      → ((neighbors d q db).links
          ≡ take q.limit (sort_by (older d) (filter (is_near d q) db.links)))
        × All
            (λ l. has_entry d (other_end d q.id l) (neighbors d q db).entries ≡ true)
            (neighbors d q db).links
        × All (IsEndOf q.id (neighbors d q db).links) (neighbors d q db).entries
        × IsKeyed (entry_key d) (neighbors d q db).entries
  unfolding neighbors
  neighbors-links q db v =
      let rows = neighbor_rows d q db in
      let ends = neighbor_rows-All q db in
      let links = collect-links [] rows in
      (
        links ∙ neighbor_rows-links q db v,
        subst (All _) (sym links) (
            All-of-map (λ r. r.0) _ rows
              (All-map _ _ (λ r h. covered r h.0 h.1) rows
                (All-both _ _ rows ends (collect-IsCovered [] rows)))),
        collect-All (λ e. IsEndOf q.id (neighbors d q db).links e) [] rows
            (rows-ends q.id rows _ links ends),
        (collect-IsKeyed [] rows).1,
      )
    where
      covered :
          (r : Row)
          → IsOtherEnd q.id r
          → IsCovered [] (collect d [] (neighbor_rows d q db)).entries r
          → has_entry d (other_end d q.id r.0) (collect d [] (neighbor_rows d q db)).entries ≡ true
      covered r h c =
          subst
            (λ k.
              any (λ (x : Entry d). d.number x.id == k)
                (collect d [] (neighbor_rows d q db)).entries
              ≡ true)
            ((==_iff (d.number r.1.id) (d.number (other_end d q.id r.0))).0 h) (none_seen _ r c)
