-- ===== src/Conversations/Service.antt =====
-- The calls of crates/core/src/conversation_service.rs.
use nomai.Base.{
  ℕ, ◌+◌, ◌%◌, ◌^◌, not, Option, none, some, List, [], ◌∷◌, if◌then◌else◌, filter, map, max, ok,
  err, ◌>>=◌, ◌>>◌,
}
use nomai.Conversations.{
  Conversation, Turn, CreateConversation, AppendTurns, UpdateConversation, ConversationWithTurns,
  Tables, Call, Codec, unwrap_or, Fallible, is_turn_of, read_conversation, read_turns, insert_turns,
  event, insert_event, new_conversation, insert_conversation,
}
use nomai.Core.{Deps, validation, same_id, check_attrs, Json}
use nomai.Core.Json.{is_object}
use nomai.Core.Transaction.{in_tx}
use nomai.Text.{codes}

module _ (d : Deps) (codec : Codec d) where
  unfoldable pub create_in_tx :
      Call d
      → CreateConversation d
      → Tables d
      → Fallible d codec (ConversationWithTurns d × Tables d)
  create_in_tx call p db = do
    attrs ← check_attrs d (codes "attrs must be a JSON object") p.attrs
    db1 ← insert_conversation d codec (new_conversation d codec call p attrs) db
    (turns, db2) ← insert_turns d codec call call.id 0 0 (unwrap_or p.turns []) db1
    conversation ← read_conversation d codec call.id db2
    let created : ConversationWithTurns d = record { conversation = conversation; turns = turns }
    db3 ←
        insert_event d codec
          (event d codec call (codes "conversation.created") call.id
            (codec.with_turns_to_value created))
          db2
    ok (created, db3)

  unfoldable pub create :
      Call d
      → CreateConversation d
      → Tables d
      → Fallible d codec (ConversationWithTurns d) × Tables d
  create call p = in_tx d (create_in_tx call p)

  unfoldable pub get : d.Ulid → Tables d → Fallible d codec (ConversationWithTurns d)
  get id db = do
    conversation ← read_conversation d codec id db
    ok (record { conversation = conversation; turns = read_turns d codec id db })

  -- `SELECT MAX(ordinal)`, and one more: a `u32`.
  unfoldable pub max_ordinal : List (Turn d) → Option ℕ
  max_ordinal [] = none
  max_ordinal (t ∷ ts) = some (max t.ordinal (unwrap_or (max_ordinal ts) 0))

  abbrev pub after_max : Option ℕ → ℕ
  after_max none = 0
  after_max (some m) = (m + 1) % 2 ^ 32

  abbrev pub next_ordinal : d.Ulid → Tables d → ℕ
  next_ordinal id db = after_max (max_ordinal (filter (is_turn_of d codec id) db.turns))

  unfoldable pub append_turns_in_tx :
      Call d → AppendTurns d → Tables d → Fallible d codec (List (Turn d) × Tables d)
  append_turns_in_tx call p db = do
    found ← read_conversation d codec p.conversation_id db
    (turns, db1) ←
        insert_turns d codec call p.conversation_id (next_ordinal p.conversation_id db) 0 p.turns db
    db2 ←
        insert_event d codec
          (event d codec call (codes "turn.appended") p.conversation_id
            (codec.turns_to_value turns))
          db1
    ok (turns, db2)

  unfoldable pub append_turns :
      Call d → AppendTurns d → Tables d → Fallible d codec (List (Turn d)) × Tables d
  append_turns call p = in_tx d (append_turns_in_tx call p)

  abbrev pub check_new_attrs : Option (Json d) → Fallible d codec (Unit {0})
  check_new_attrs none = ok tt
  check_new_attrs (some attrs) =
      if not (is_object attrs)
      then err (validation (codes "attrs must be a JSON object"))
      else ok tt

  -- The `UPDATE` of one row.
  unfoldable pub put_conversation : Conversation d → List (Conversation d) → List (Conversation d)
  put_conversation c = map (λ b.
      if same_id d b.id c.id
      then record b { title = c.title; tags = c.tags; attrs = c.attrs; updated_at = c.updated_at }
      else b)

  abbrev pub updated : Call d → UpdateConversation d → Conversation d → Conversation d
  updated call p c = record c {
    title = unwrap_or p.title c.title;
    tags = unwrap_or p.tags c.tags;
    attrs = unwrap_or p.attrs c.attrs;
    updated_at = call.now;
  }

  unfoldable pub update_in_tx :
      Call d
      → d.Ulid
      → UpdateConversation d
      → Tables d
      → Fallible d codec (Conversation d × Tables d)
  update_in_tx call id p db = do
    existing ← read_conversation d codec id db
    check_new_attrs p.attrs
    let c = record (updated call p existing) { id = id }
    let db1 = record db { conversations = put_conversation c db.conversations }
    db2 ←
        insert_event d codec
          (event d codec call (codes "conversation.updated") id (codec.conversation_to_value c)) db1
    ok (c, db2)

  unfoldable pub update :
      Call d
      → d.Ulid
      → UpdateConversation d
      → Tables d
      → Fallible d codec (Conversation d) × Tables d
  update call id p = in_tx d (update_in_tx call id p)

  -- Deleting the row deletes the turns of the conversation.
  unfoldable pub delete_conversation_row : d.Ulid → Tables d → Tables d
  delete_conversation_row id db = record db {
    conversations = filter (λ c. not (same_id d c.id id)) db.conversations;
    turns = filter (λ t. not (is_turn_of d codec id t)) db.turns;
  }

  unfoldable pub delete_in_tx : Call d → d.Ulid → Tables d → Fallible d codec (Unit {0} × Tables d)
  delete_in_tx call id db = do
    before ← read_conversation d codec id db
    db1 ←
        insert_event d codec
          (event d codec call (codes "conversation.deleted") id
            (codec.conversation_to_value before))
          db
    ok (tt, delete_conversation_row id db1)

  unfoldable pub delete : Call d → d.Ulid → Tables d → Fallible d codec (Unit {0}) × Tables d
  delete call id = in_tx d (delete_in_tx call id)
