-- ===== src/Events.antt =====
-- crates/core/src/event_model.rs and crates/core/src/event_service.rs: the log of the changes, which
-- the other services write and this one reads and cleans up.
pub mod Paging
mod Tests
use Prim.Native.Nat.{max}
use nomai.Base.{
  ℕ, ◌+◌, ◌-◌, ◌%◌, ◌^◌, Bool, true, false, not, ◌&&◌, ◌||◌, Option, none, some, List, [], ◌∷◌, ltb,
  ◌==◌, if◌then◌else◌, length, take, any, filter, sort_by, by_key, Result, ok, err,
}
use nomai.Core.{Deps, CoreError, not_found, storage, Json, same_id}
use nomai.Text.{Text, text_eq}

pub record Event (d : Deps) : Type 0 where
  pub id : d.Ulid
  pub type : Text
  pub target_type : Text
  pub target_id : d.Ulid
  pub payload : Json d
  pub created_at : d.Time

pub data EventListOrder : Type 0 where
  asc desc : EventListOrder

pub record ListEventsQuery (d : Deps) : Type 0 where
  pub since : Option d.Ulid
  pub type : Option Text
  pub target_type : Option Text
  pub target_id : Option d.Ulid
  pub limit : ℕ
  pub order : EventListOrder

pub record ListEventsResult (d : Deps) : Type 0 where
  pub items : List (Event d)
  pub has_more : Bool
  pub total : ℕ

pub record PurgeQuery (d : Deps) : Type 0 where
  pub before : d.Ulid
  pub type : Option Text

-- A clause of the WHERE that stands only if its parameter is given.
abbrev pub if_given : {A : Type 0} → (A → Bool) → Option A → Bool
if_given p none = true
if_given p (some a) = p a

module _ (d : Deps) where
  -- `INSERT INTO events`, whose primary key is the id.
  abbrev pub has_event : d.Ulid → List (Event d) → Bool
  has_event id = any (λ e. same_id d e.id id)

  unfoldable pub log_event :
      d.SqlError → Event d → List (Event d) → Result (CoreError d) (List (Event d))
  log_event duplicate e es = if has_event e.id es then err (storage duplicate) else ok (e ∷ es)

  abbrev pub event_key : Event d → ℕ
  event_key e = d.number e.id

  unfoldable pub is_since : ListEventsQuery d → Event d → Bool
  is_since q e = if_given (λ s. ltb (d.number s) (event_key e)) q.since

  unfoldable pub is_of_kind : ListEventsQuery d → Event d → Bool
  is_of_kind q e =
      if_given (λ t. text_eq e.type t) q.type
      && if_given (λ t. text_eq e.target_type t) q.target_type
      && if_given (λ i. same_id d e.target_id i) q.target_id

  unfoldable pub matching : ListEventsQuery d → Event d → Bool
  matching q e = is_since q e && is_of_kind q e

  -- `ORDER BY id ASC` or `DESC`
  abbrev pub order_by_id : EventListOrder → List (Event d) → List (Event d)
  order_by_id asc = sort_by (by_key event_key)
  order_by_id desc = sort_by (λ a b. by_key event_key b a)

  -- Every row of a query, in its order.
  unfoldable pub rows : ListEventsQuery d → List (Event d) → List (Event d)
  rows q events = order_by_id q.order (filter (matching q) events)

  -- One more row than the limit is fetched, to see whether there are more. `items.len() as u32`
  -- wraps around.
  unfoldable pub list : ListEventsQuery d → List (Event d) → ListEventsResult d
  list q events =
      let fetched = take (q.limit + 1) (rows q events) in
      let has_more = ltb q.limit (length fetched % 2 ^ 32) in
      record {
        items = if has_more then take q.limit fetched else fetched;
        has_more = has_more;
        total = length (filter (matching q) events);
      }

  unfoldable pub get : d.Ulid → List (Event d) → Result (CoreError d) (Event d)
  get id [] = err (not_found id)
  get id (e ∷ es) = if same_id d e.id id then ok e else get id es

  unfoldable pub is_purged : PurgeQuery d → Event d → Bool
  is_purged q e = ltb (event_key e) (d.number q.before) && if_given (λ t. text_eq e.type t) q.type

  unfoldable pub purge : PurgeQuery d → List (Event d) → ℕ × List (Event d)
  purge q events =
      let kept = filter (λ e. not (is_purged q e)) events in (length events - length kept, kept)
