-- ===== src/Links/Tests.antt =====
-- Runs of the links' operations.
use nomai.Base.{
  ℕ, ◌≡◌, refl, Option, none, some, List, [], ◌∷◌, ◌++◌, true, false, take, drop, length, filter,
  find, ◌+◌, sort_by, any, All, IsKeyed, ok, err,
}
use nomai.Core.{check_attrs, validation}
use nomai.Core.Json.{Value, null, number, string, array, object, empty, item, nil}
use nomai.Core.Model.{Entry}
use nomai.Core.Sample.{sample}
use nomai.Core.Transaction.{in_tx}
use nomai.Events.{log_event, has_event}
use nomai.Links.{
  Link, CreateLink, Db, Call, Codec, ListLinkQuery, ListLinkResult, NeighborsQuery, both, create,
  delete, get, has_entry, create_in_tx, delete_in_tx, insert_link, insert_event, is_insertable,
  conflicts,
}
use nomai.Links.Neighbors.{neighbors-links, IsEndOf}
use nomai.Links.Pages.{IsListing, list-pages}
use nomai.Links.Queries.{older, is_near, list, other_end, neighbors}
use nomai.Links.Replay.{replay, run-replay}
use nomai.Links.RoundTrip.{create-get-delete}
use nomai.Links.Steps.{
  Op, created, deleted, inserted, run, step, no_rows, IsValid, run-IsValid, entry_key,
}
use nomai.Text.{codes, text_eq}

abbrev entry : ℕ → Entry sample
entry n = record {
  id = n;
  title = [];
  blocks = [];
  tags = [];
  attrs = null;
  source = none;
  created_at = 0;
  updated_at = 0;
}

abbrev call : ℕ → Call sample
call n = record { id = n; now = n; event_id = n; event_now = n }

abbrev link : ℕ → ℕ → CreateLink sample
link a b = record { source_id = a; target_id = b; relation = codes "cites"; attrs = none }

-- A link as an array of its fields.
abbrev encode : Link sample → Value ℕ
encode l = array (
    item (number l.id) (
      item (number l.source_id) (
        item (number l.target_id)
          (item (string l.relation) (item l.attrs (item (number l.created_at) empty))))))

abbrev decode : Value ℕ → Option (Link sample)
decode
      (array (
        item
          (number i)
          (item (number s) (item (number t) (item (string r) (item a (item (number c) empty))))))) =
    some (record { id = i; source_id = s; target_id = t; relation = r; attrs = a; created_at = c })
decode _ = none

abbrev codec : Codec sample
codec = record {
  link_to_value = encode;
  value_to_link = decode;
  entry_to_value = λ e. null;
  link_round_trip = λ l. refl;
  constraint_message = codes "UNIQUE constraint failed";
  primary_key_error = 19;
}

abbrev calls : List (Op sample codec)
calls =
    inserted (entry 1)
    ∷ inserted (entry 2)
    ∷ created (call 5) (link 1 2)
    ∷ created (call 6) (link 2 1)
    ∷ deleted (call 7) 5
    ∷ []

abbrev two_entries : Db sample
two_entries = record { entries = entry 2 ∷ entry 1 ∷ []; blocks = []; links = []; events = [] }

abbrev new_link_row : Link sample
new_link_row = record {
  id = 5;
  source_id = 1;
  target_id = 2;
  relation = codes "cites";
  attrs = object nil;
  created_at = 5;
}

test_run :
    (run sample codec calls (no_rows sample)).links
    ≡ record {
      id = 6;
      source_id = 2;
      target_id = 1;
      relation = codes "cites";
      attrs = object nil;
      created_at = 6;
    }
      ∷ []
unfolding run step create delete in_tx create_in_tx delete_in_tx insert_link insert_event log_event
    is_insertable any conflicts text_eq check_attrs filter get find
test_run = refl

one_link : Db sample
unfolding create in_tx create_in_tx insert_link insert_event log_event is_insertable any conflicts
    text_eq check_attrs
one_link = (create sample codec (call 5) (link 1 2) two_entries).1

test_duplicate :
    (create sample codec (call 6) (link 1 2) one_link).0
    ≡ err (validation (codes "link constraint violation: UNIQUE constraint failed"))
unfolding one_link create in_tx create_in_tx insert_link insert_event log_event is_insertable any
    conflicts text_eq check_attrs
test_duplicate = refl

run-replay_example :
    (run sample codec calls (no_rows sample)).links
    ≡ replay sample codec (run sample codec calls (no_rows sample)).events
run-replay_example = run-replay sample codec calls (refl, (refl, (refl, (refl, (refl, tt)))))

run-IsValid_example : IsValid sample (run sample codec calls (no_rows sample))
run-IsValid_example = run-IsValid sample codec calls

created_link : (create sample codec (call 5) (link 1 2) two_entries).0 ≡ ok new_link_row
unfolding create in_tx create_in_tx insert_link insert_event log_event is_insertable any conflicts
    text_eq check_attrs
created_link = refl

fresh_event :
    has_event sample 6 (create sample codec (call 5) (link 1 2) two_entries).1.events ≡ false
unfolding create in_tx create_in_tx insert_link insert_event log_event is_insertable any conflicts
    text_eq check_attrs
fresh_event = refl

create-get-delete_example :
    (get sample codec 5 (create sample codec (call 5) (link 1 2) two_entries).1 ≡ ok new_link_row)
    × ((delete sample codec (call 6) 5 (create sample codec (call 5) (link 1 2) two_entries).1).0
        ≡ ok tt)
    × ((delete sample codec
          (call 6)
          5
          (create sample codec (call 5) (link 1 2) two_entries).1).1.links
        ≡ [])
create-get-delete_example =
    create-get-delete sample codec (call 5) (call 6) (link 1 2) two_entries new_link_row
      created_link fresh_event

failed_link :
    (create sample codec (call 5) (link 1 3) two_entries).0
    ≡ err (validation (codes "link constraint violation: UNIQUE constraint failed"))
unfolding create in_tx create_in_tx insert_link insert_event log_event is_insertable any conflicts
    text_eq check_attrs
failed_link = refl

abbrev from_one : ListLinkQuery sample
from_one = record { from = some 1; to = none; relation = none; limit = 1; offset = 0 }

list-pages_example :
    (all : List (Link sample)) × (r : ListLinkResult sample) × (s : ListLinkResult sample)
    × IsListing sample from_one one_link all
    × (list sample from_one one_link ≡ ok r)
    × (list sample (record from_one { offset = 0 + 1 }) one_link ≡ ok s)
    × (r.items ++ s.items ≡ take (1 + 1) (drop 0 all))
    × (r.total ≡ length all)
    × (s.total ≡ length all)
list-pages_example = list-pages sample from_one one_link refl

abbrev near_one : NeighborsQuery sample
near_one = record { id = 1; relation = none; direction = both; limit = 50 }

abbrev after_calls : Db sample
after_calls = run sample codec calls (no_rows sample)

neighbors-links_example :
    ((neighbors sample near_one after_calls).links
      ≡ take 50 (sort_by (older sample) (filter (is_near sample near_one) after_calls.links)))
    × All
        (λ l.
          has_entry sample (other_end sample 1 l) (neighbors sample near_one after_calls).entries
          ≡ true)
        (neighbors sample near_one after_calls).links
    × All
        (IsEndOf sample 1 (neighbors sample near_one after_calls).links)
        (neighbors sample near_one after_calls).entries
    × IsKeyed (entry_key sample) (neighbors sample near_one after_calls).entries
neighbors-links_example =
    neighbors-links sample near_one after_calls (run-IsValid sample codec calls)
