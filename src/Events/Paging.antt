-- ===== src/Events/Paging.antt =====
-- The pages of the log.
use nomai.Base.{
  subst, ℕ, ◌+◌, ◌<◌, ◌%◌, ◌^◌, ◌≡◌, refl, sym, ap, ◌∙◌, inl, inr, Bool, true, not, ◌&&◌, some,
  List, arith, ltb, ltb→le, if◌then◌else◌, length, take, drop, last?, length-take, take_all,
  take-take, min, ◌≤◌, Bool-cases, Option-cases, filter, sort_by, by_key, length-sort_by, IsKeyed,
  filter-IsKeyed, filter-sort_by, filter-above, filter-filter, filter-ext, length-filter, last-All,
  filter-All, All-sort_by, ◌+◌, sort_by-IsSorted,
}
use nomai.Core.{Deps}
use nomai.Events.{
  Event, ListEventsQuery, asc, desc, EventListOrder, event_key, is_since, is_of_kind, matching,
  order_by_id, rows, list, if_given, PurgeQuery, purge, is_purged,
}

module _ (d : Deps) where
  length-order_by_id :
      (o : EventListOrder) (es : List (Event d)) → length (order_by_id d o es) ≡ length es
  length-order_by_id asc es = length-sort_by (by_key (event_key d)) es
  length-order_by_id desc es = length-sort_by (λ a b. by_key (event_key d) b a) es

  page :
      (n : ℕ) (es : List (Event d))
      → n + 1 < 2 ^ 32
      → (if ltb n (length (take (n + 1) es) % 2 ^ 32)
          then take n (take (n + 1) es)
          else take (n + 1) es)
        ≡ take n es
  page n es h = elim (Bool-cases (ltb n (length (take (n + 1) es) % 2 ^ 32))) [
    | inl q ↦ rw (q, take-take n (n + 1) es (omega arith))
    | inr q ↦ rw q (all (ltb→le n _ q))
  ]
    where
      all : length (take (n + 1) es) % 2 ^ 32 ≤ n → take (n + 1) es ≡ take n es
      all l =
          let short = length-take (n + 1) es in
          let low : length es ≤ n = omega (arith, l, short, h) in
          take_all (n + 1) es (omega (arith, low)) ∙ sym (take_all n es low)

  more :
      (n : ℕ) (es : List (Event d))
      → n + 1 < 2 ^ 32
      → ltb n (length (take (n + 1) es) % 2 ^ 32) ≡ ltb n (length es)
  more n es h = ap (λ l. ltb n (l % 2 ^ 32)) (length-take (n + 1) es) ∙ bounded (length es)
    where
      bounded : (l : ℕ) → ltb n (min (n + 1) l % 2 ^ 32) ≡ ltb n l
      bounded l = ground (arith, h)

  -- A page holds the first `limit` rows of the query, the total counts all of its rows, and
  -- `has_more` says whether there are rows behind the page; for a limit below 2 ^ 32 - 1.
  list-page :
      (q : ListEventsQuery d) (es : List (Event d))
      → q.limit + 1 < 2 ^ 32
      → ((list d q es).items ≡ take q.limit (rows d q es))
        × ((list d q es).total ≡ length (rows d q es))
        × ((list d q es).has_more ≡ ltb q.limit (length (rows d q es)))
  unfolding list rows
  list-page q es h = (
    page q.limit (rows d q es) h,
    sym (length-order_by_id q.order (filter (matching d q) es)),
    more q.limit (rows d q es) h,
  )

  absorbed :
      (q : ListEventsQuery d) (m x : Event d)
      → is_since d q m ≡ true
      → matching d (record q { since = some m.id }) x
        ≡ (ltb (event_key d m) (event_key d x) && matching d q x)
  unfolding matching is_since is_of_kind
  absorbed q m x h = elim (Option-cases q.since) [
    | inl e ↦ rw e refl
    | inr (s, e) ↦
        let low : ltb (d.number s) (event_key d m) ≡ true =
          subst (λ o. if_given (λ t. ltb (d.number t) (event_key d m)) o ≡ true) e h in
        rw e (narrowed (d.number s) (event_key d m) (event_key d x) (is_of_kind d q x) low)
  ]
    where
      narrowed :
          (a b c : ℕ) (k : Bool) → ltb a b ≡ true → (ltb b c && k) ≡ (ltb b c && (ltb a c && k))
      narrowed a b c k h = ground (arith, h)

  since_of : (q : ListEventsQuery d) (x : Event d) → matching d q x ≡ true → is_since d q x ≡ true
  unfolding matching
  since_of q x h = ground (arith, h)

  sorted_rows : ListEventsQuery d → List (Event d) → List (Event d)
  sorted_rows q es = sort_by (by_key (event_key d)) (filter (matching d q) es)

  next_rows :
      (q : ListEventsQuery d) (es : List (Event d)) (m : Event d)
      → IsKeyed (event_key d) es
      → last? (take q.limit (sorted_rows q es)) ≡ some m
      → sorted_rows (record q { since = some m.id }) es ≡ drop q.limit (sorted_rows q es)
  unfolding sorted_rows
  next_rows q es m keyed e =
      let above : Event d → Bool = λ x. ltb (event_key d m) (event_key d x) in
      let kept = filter-IsKeyed (event_key d) (matching d q) es keyed in
      let m_matches =
        last-All (event_key d) (λ x. matching d q x ≡ true) q.limit _ m
          (All-sort_by _ (by_key (event_key d)) _ (filter-All (matching d q) es)) e in
      ap (sort_by (by_key (event_key d))) (
        filter-ext _ _ es (λ x. absorbed q m x (since_of q m m_matches))
        ∙ sym (filter-filter above (matching d q) es))
      ∙ filter-sort_by (event_key d) above (filter (matching d q) es) kept
      ∙ filter-above (event_key d) q.limit _ m (sort_by-IsSorted (event_key d) _ kept) e

  rows_asc :
      (q : ListEventsQuery d) (es : List (Event d)) → q.order ≡ asc → rows d q es ≡ sorted_rows q es
  unfolding rows sorted_rows
  rows_asc q es h = ap (λ o. order_by_id d o (filter (matching d q) es)) h

  -- Reading an ascending query on from the last event of a page gives what the page left: no event
  -- is skipped and none is shown twice. The ids of the events are distinct.
  pub next-page :
      (q : ListEventsQuery d) (es : List (Event d)) (m : Event d)
      → q.order ≡ asc
      → IsKeyed (event_key d) es
      → last? (take q.limit (rows d q es)) ≡ some m
      → rows d (record q { since = some m.id }) es ≡ drop q.limit (rows d q es)
  next-page q es m asc_q keyed e =
      let same = rows_asc q es asc_q in
      rows_asc (record q { since = some m.id }) es asc_q
      ∙ next_rows q es m keyed (sym (ap (λ r. last? (take q.limit r)) same) ∙ e)
      ∙ sym (ap (drop q.limit) same)

  -- A purge deletes the events that it names, counts them, and leaves the others in their order.
  purge-kept :
      (q : PurgeQuery d) (es : List (Event d))
      → ((purge d q es).0 + length (purge d q es).1 ≡ length es)
        × ((purge d q es).0 ≡ length (filter (is_purged d q) es))
        × ((purge d q es).1 ≡ filter (λ e. not (is_purged d q e)) es)
  unfolding purge
  purge-kept q es =
      let parts = length-filter (is_purged d q) es in
      (omega (arith, parts), omega (arith, parts), refl)
