-- ===== src/Events/Tests.antt =====
-- Runs of the log's operations.
use nomai.Base.{
  ℕ, ◌≡◌, refl, none, some, List, [], ◌∷◌, arith, take, drop, last?, IsKeyed, sort_by, insert_by,
  filter,
}
use nomai.Core.Json.{null}
use nomai.Core.Sample.{sample}
use nomai.Events.{
  PurgeQuery, Event, ListEventsQuery, asc, event_key, rows, list, purge, matching, is_since,
  is_of_kind, is_purged,
}
use nomai.Events.Paging.{next-page}
use nomai.Text.{codes, text_eq}

abbrev created : ℕ → Event sample
created n = record {
  id = n;
  type = codes "link.created";
  target_type = codes "link";
  target_id = 7;
  payload = null;
  created_at = n;
}

abbrev log : List (Event sample)
log = created 5 ∷ created 3 ∷ created 8 ∷ created 1 ∷ []

abbrev query : ListEventsQuery sample
query = record {
  since = some 1;
  type = some (codes "link.created");
  target_type = none;
  target_id = none;
  limit = 2;
  order = asc;
}

test_list : (list sample query log).items ≡ created 3 ∷ created 5 ∷ []
unfolding list rows sort_by insert_by filter matching is_since is_of_kind text_eq
test_list = refl

test_purge : purge sample (record { before = 4; type = none }) log ≡ (2, created 5 ∷ created 8 ∷ [])
unfolding purge filter is_purged text_eq
test_purge = refl

log-IsKeyed : IsKeyed (event_key sample) log
log-IsKeyed = (
  ((λ e. omega (arith, e)), ((λ e. omega (arith, e)), ((λ e. omega (arith, e)), tt))),
  (
    ((λ e. omega (arith, e)), ((λ e. omega (arith, e)), tt)),
    (((λ e. omega (arith, e)), tt), (tt, tt)),
  ),
)

last_row : last? (take 2 (rows sample query log)) ≡ some (created 5)
unfolding rows sort_by insert_by filter matching is_since is_of_kind text_eq
last_row = refl

next-page_example :
    rows sample (record query { since = some 5 }) log ≡ drop 2 (rows sample query log)
next-page_example = next-page sample query log (created 5) refl log-IsKeyed last_row

abbrev old : PurgeQuery sample
old = record { before = 4; type = none }
