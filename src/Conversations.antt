-- ===== src/Conversations.antt =====
-- crates/core/src/conversation_model.rs and crates/core/src/conversation_service.rs: conversations, the
-- turns of each, and the triggers of crates/core/migrations/V11__conversations.sql that count them.
pub mod Service
pub mod Ordinals
pub mod Rows
pub mod Steps
pub mod Turns
mod Tests
use nomai.Base.{
  ℕ, suc, ◌+◌, ◌%◌, ◌^◌, ◌≡◌, Bool, true, false, not, ◌&&◌, ◌||◌, Option, none, some, List, [], ◌∷◌,
  if◌then◌else◌, ◌==◌, ltb, any, filter, find, sort_by, by_key, map, max, Result, ok, err, ok_or,
  ◌>>=◌, ◌>>◌,
}
use nomai.Core.{Deps, CoreError, not_found, validation, storage, Json, same_id, check_attrs}
use nomai.Core.Json.{Value, object, nil, is_object}
use nomai.Core.Transaction.{in_tx}
use nomai.Events.{Event, log_event}
use nomai.Text.{Text, codes}

pub record Conversation (d : Deps) : Type 0 where
  pub id : d.Ulid
  pub title : Text
  pub tags : List Text
  pub attrs : Json d
  pub turn_count : ℕ
  pub created_at : d.Time
  pub updated_at : d.Time

pub record Turn (d : Deps) : Type 0 where
  pub id : d.Ulid
  pub conversation_id : d.Ulid
  pub ordinal : ℕ
  pub role : Text
  pub content : Text
  pub attrs : Json d
  pub created_at : d.Time

pub record CreateTurn (d : Deps) : Type 0 where
  pub role : Text
  pub content : Text
  pub attrs : Option (Json d)

pub record CreateConversation (d : Deps) : Type 0 where
  pub title : Option Text
  pub tags : Option (List Text)
  pub attrs : Option (Json d)
  pub turns : Option (List (CreateTurn d))

pub record AppendTurns (d : Deps) : Type 0 where
  pub conversation_id : d.Ulid
  pub turns : List (CreateTurn d)

pub record UpdateConversation (d : Deps) : Type 0 where
  pub title : Option Text
  pub tags : Option (List Text)
  pub attrs : Option (Json d)

pub record ConversationWithTurns (d : Deps) : Type 0 where
  pub conversation : Conversation d
  pub turns : List (Turn d)

-- The tables, each with its newest row first.
pub record Tables (d : Deps) : Type 0 where
  pub conversations : List (Conversation d)
  pub turns : List (Turn d)
  pub events : List (Event d)

-- What a call takes from outside: the new ids, those of the turns by their position, and the clock, that
-- of SQLite too.
pub record Call (d : Deps) : Type 0 where
  pub id : d.Ulid
  pub turn_id : ℕ → d.Ulid
  pub event_id : d.Ulid
  pub now : d.Time
  pub trigger_now : d.Time
  pub event_now : d.Time

-- serde's part, and SQLite's errors: a constraint that does not hold, and a column that is no `u32`.
pub record Codec (d : Deps) : Type 1 where
  pub with_turns_to_value : ConversationWithTurns d → Json d
  pub turns_to_value : List (Turn d) → Json d
  pub conversation_to_value : Conversation d → Json d
  pub constraint_error : d.SqlError
  pub range_error : d.SqlError

abbrev pub unwrap_or : {A : Type 0} → Option A → A → A
unwrap_or none a = a
unwrap_or (some b) a = b

module _ (d : Deps) (codec : Codec d) where
  abbrev pub Fallible : Type 0 → Type 0
  Fallible A = Result (CoreError d) A

  abbrev pub has_conversation : d.Ulid → List (Conversation d) → Bool
  has_conversation id = any (λ c. same_id d c.id id)

  abbrev pub is_turn_of : d.Ulid → Turn d → Bool
  is_turn_of id t = same_id d t.conversation_id id

  -- `turn_count` is read as a `u32`.
  unfoldable pub read_conversation : d.Ulid → Tables d → Fallible (Conversation d)
  read_conversation id db = do
    c ← ok_or (find (λ c. same_id d c.id id) db.conversations) (not_found id)
    if ltb c.turn_count (2 ^ 32) then ok c else err (storage codec.range_error)

  unfoldable pub read_turns : d.Ulid → Tables d → List (Turn d)
  read_turns id db = sort_by (by_key (λ t. t.ordinal)) (filter (is_turn_of id) db.turns)

  -- The constraints of `turns`: the key, the conversation, and `UNIQUE(conversation_id, ordinal)`.
  unfoldable pub is_insertable : Turn d → Tables d → Bool
  is_insertable t db =
      has_conversation t.conversation_id db.conversations
      && not (any (λ u. same_id d u.id t.id) db.turns)
      && not (any (λ u. is_turn_of t.conversation_id u && u.ordinal == t.ordinal) db.turns)

  -- The trigger `turns_ai`.
  unfoldable pub count_turn : d.Time → d.Ulid → Conversation d → Conversation d
  count_turn now id c =
      if same_id d c.id id then record c { turn_count = c.turn_count + 1; updated_at = now } else c

  unfoldable pub insert_turn_row : d.Time → Turn d → Tables d → Fallible (Tables d)
  insert_turn_row now t db =
      if is_insertable t db
      then ok (record db {
        turns = t ∷ db.turns;
        conversations = map (count_turn now t.conversation_id) db.conversations;
      })
      else err (storage codec.constraint_error)

  abbrev pub new_turn : Call d → d.Ulid → ℕ → ℕ → CreateTurn d → Json d → Turn d
  new_turn call conversation_id ordinal i ct attrs = record {
    id = call.turn_id i;
    conversation_id = conversation_id;
    ordinal = ordinal;
    role = ct.role;
    content = ct.content;
    attrs = attrs;
    created_at = call.now;
  }

  unfoldable pub insert_turn_in_tx :
      Call d → d.Ulid → ℕ → ℕ → CreateTurn d → Tables d → Fallible (Turn d × Tables d)
  insert_turn_in_tx call conversation_id ordinal i ct db = do
    attrs ← check_attrs d (codes "turn attrs must be a JSON object") ct.attrs
    let turn = new_turn call conversation_id ordinal i ct attrs
    db1 ← insert_turn_row call.trigger_now turn db
    ok (turn, db1)

  -- The loops over the new turns: the ordinal is `start + i as u32`, a `u32`.
  unfoldable pub insert_turns :
      Call d → d.Ulid → ℕ → ℕ → List (CreateTurn d) → Tables d → Fallible (List (Turn d) × Tables d)
  insert_turns call conversation_id start i [] db = ok ([], db)
  insert_turns call conversation_id start i (ct ∷ cts) db = do
    (turn, db1) ← insert_turn_in_tx call conversation_id ((start + i % 2 ^ 32) % 2 ^ 32) i ct db
    (turns, db2) ← insert_turns call conversation_id start (suc i) cts db1
    ok (turn ∷ turns, db2)

  abbrev pub event : Call d → Text → d.Ulid → Json d → Event d
  event call kind id payload = record {
    id = call.event_id;
    type = kind;
    target_type = codes "conversation";
    target_id = id;
    payload = payload;
    created_at = call.event_now;
  }

  unfoldable pub insert_event : Event d → Tables d → Fallible (Tables d)
  insert_event e db = do
    events ← log_event d codec.constraint_error e db.events
    ok (record db { events = events })

  abbrev pub new_conversation : Call d → CreateConversation d → Json d → Conversation d
  new_conversation call p attrs = record {
    id = call.id;
    title = unwrap_or p.title [];
    tags = unwrap_or p.tags [];
    attrs = attrs;
    turn_count = 0;
    created_at = call.now;
    updated_at = call.now;
  }

  unfoldable pub insert_conversation : Conversation d → Tables d → Fallible (Tables d)
  insert_conversation c db =
      if has_conversation c.id db.conversations
      then err (storage codec.constraint_error)
      else ok (record db { conversations = c ∷ db.conversations })
