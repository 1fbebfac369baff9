-- ===== src/Conversations/Tests.antt =====
-- Runs of the conversations' operations.
use nomai.Base.{ℕ, ◌+◌, ◌≡◌, refl, none, some, [], ◌∷◌, ◌++◌, any, find, filter, ok}
use nomai.Conversations.{
  Turn, CreateTurn, CreateConversation, AppendTurns, ConversationWithTurns, Tables, Call, Codec,
  read_conversation, read_turns, is_insertable, count_turn, insert_turn_row, insert_turn_in_tx,
  insert_turns, insert_event, insert_conversation,
}
use nomai.Conversations.Rows.{IsValid}
use nomai.Conversations.Service.{
  create_in_tx, create, max_ordinal, append_turns_in_tx, append_turns,
}
use nomai.Conversations.Steps.{created, appended, step, run, no_rows, run-ordinals}
use nomai.Conversations.Turns.{append-read_turns}
use nomai.Core.{check_attrs}
use nomai.Core.Json.{null, object, nil}
use nomai.Core.Sample.{sample}
use nomai.Core.Transaction.{in_tx}
use nomai.Events.{log_event}
use nomai.Text.{codes}

abbrev codec : Codec sample
codec = record {
  with_turns_to_value = λ c. null;
  turns_to_value = λ ts. null;
  conversation_to_value = λ c. null;
  constraint_error = 19;
  range_error = 25;
}

abbrev call : ℕ → Call sample
call n = record {
  id = n;
  turn_id = λ i. n + i;
  event_id = n;
  now = n;
  trigger_now = n;
  event_now = n;
}

abbrev said : ℕ → CreateTurn sample
said n = record { role = codes "user"; content = n ∷ []; attrs = none }

abbrev talk : CreateConversation sample
talk = record { title = none; tags = none; attrs = none; turns = some (said 1 ∷ said 2 ∷ []) }

abbrev turn : ℕ → ℕ → Turn sample
turn o n = record {
  id = 100 + o;
  conversation_id = 100;
  ordinal = o;
  role = codes "user";
  content = n ∷ [];
  attrs = object nil;
  created_at = 100;
}

abbrev new_talk : ConversationWithTurns sample
new_talk = record {
  conversation = record {
    id = 100;
    title = [];
    tags = [];
    attrs = object nil;
    turn_count = 2;
    created_at = 100;
    updated_at = 100;
  };
  turns = turn 0 1 ∷ turn 1 2 ∷ [];
}

run-ordinals_example : IsValid sample codec (
    run sample codec
      (created (call 100) talk
        ∷ appended (call 200) (record { conversation_id = 100; turns = said 3 ∷ [] })
        ∷ [])
      (no_rows sample codec))
run-ordinals_example = run-ordinals sample codec (
    created (call 100) talk
    ∷ appended (call 200) (record { conversation_id = 100; turns = said 3 ∷ [] })
    ∷ [])

abbrev one_talk : Tables sample
one_talk = run sample codec (created (call 100) talk ∷ []) (no_rows sample codec)

abbrev more : AppendTurns sample
more = record { conversation_id = 100; turns = said 3 ∷ [] }

abbrev third : Turn sample
third = record {
  id = 200;
  conversation_id = 100;
  ordinal = 2;
  role = codes "user";
  content = 3 ∷ [];
  attrs = object nil;
  created_at = 200;
}

turn_appended : (append_turns sample codec (call 200) more one_talk).0 ≡ ok (third ∷ [])
unfolding run step append_turns append_turns_in_tx max_ordinal filter create in_tx create_in_tx
    insert_conversation insert_turns insert_turn_in_tx insert_turn_row is_insertable count_turn
    check_attrs insert_event log_event read_conversation any find
turn_appended = refl

append-read_turns_example :
    read_turns sample codec 100 (append_turns sample codec (call 200) more one_talk).1
    ≡ read_turns sample codec 100 one_talk ++ (third ∷ [])
append-read_turns_example =
    append-read_turns sample codec (call 200) more one_talk (third ∷ [])
      (run-ordinals sample codec (created (call 100) talk ∷ [])) turn_appended
