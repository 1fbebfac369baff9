-- ===== src/Conversations/Steps.antt =====
-- The tables after any calls, in any order and with any ids.
use nomai.Base.{
  ℕ, suc, ◌+◌, ◌%◌, ◌^◌, ◌<◌, ◌≡◌, refl, subst, ==_iff, List, [], ◌∷◌, arith, ltb, ltb→lt, find,
  find-All, Bool-cases, Option-cases, inl, inr, ok_or, Holds, Holds-bind, Holds-bind_on,
}
use nomai.Conversations.{
  CreateTurn, CreateConversation, AppendTurns, UpdateConversation, Tables, Call, Codec, unwrap_or,
  read_conversation, insert_turn_row, insert_turn_in_tx, insert_turns, insert_event,
  insert_conversation,
}
use nomai.Conversations.Ordinals.{countdown, ordinals, next_ordinal-countdown}
use nomai.Conversations.Rows.{
  IsCounted, IsValid, HasTurns, insert_event-IsValid, insert_conversation-HasTurns,
  insert_turn_row-HasTurns, put_conversation-IsValid, delete_conversation_row-IsValid,
}
use nomai.Conversations.Service.{
  create_in_tx, create, append_turns_in_tx, append_turns, check_new_attrs, update_in_tx, update,
  delete_in_tx, delete,
}
use nomai.Core.{Deps, CoreError, check_attrs, same_id, not_found}
use nomai.Core.Transaction.{in_tx, close_keeps}

module _ (d : Deps) (codec : Codec d) where
  pub insert_turn_in_tx-HasTurns :
      (call : Call d) (id : d.Ulid) (o i n : ℕ) (ct : CreateTurn d) (db : Tables d)
      → o ≡ n % 2 ^ 32
      → HasTurns d codec id n db
      → Holds (λ r. HasTurns d codec id (suc n) r.1) (insert_turn_in_tx d codec call id o i ct db)
  unfolding insert_turn_in_tx
  insert_turn_in_tx-HasTurns call id o i n ct db e v =
      Holds-bind _ (check_attrs d _ ct.attrs) _ λ attrs.
        Holds-bind_on (HasTurns d codec id (suc n)) _
          (insert_turn_row d codec call.trigger_now _ db) _
          (insert_turn_row-HasTurns d codec call.trigger_now _ db n e v) λ db1 v1. v1

  insert_turns-HasTurns :
      (call : Call d) (id : d.Ulid) (start i n : ℕ) (cts : List (CreateTurn d)) (db : Tables d)
      → start + i ≡ n
      → HasTurns d codec id n db
      → Holds (λ r. IsValid d codec r.1) (insert_turns d codec call id start i cts db)
  unfolding insert_turns
  insert_turns-HasTurns call id start i n [] db e v = v.0
  insert_turns-HasTurns call id start i n (ct ∷ cts) db e v =
      Holds-bind_on (λ r. HasTurns d codec id (suc n) r.1) _
        (insert_turn_in_tx d codec call id _ i ct db) _
        (insert_turn_in_tx-HasTurns call id _ i n ct db (omega (arith, e)) v)
        λ r v1.
          Holds-bind_on (λ s. IsValid d codec s.1) _
            (insert_turns d codec call id start (suc i) cts r.1) _
            (insert_turns-HasTurns call id start (suc i) (suc n) cts r.1 (omega (arith, e)) v1)
            λ s v2. v2

  pub read_conversation-HasTurns :
      (id : d.Ulid) (db : Tables d)
      → IsValid d codec db
      → Holds
          (λ c. (c.id ≡ id) × HasTurns d codec id c.turn_count db × (c.turn_count < 2 ^ 32))
          (read_conversation d codec id db)
  unfolding read_conversation
  read_conversation-HasTurns id db v =
      Holds-bind_on (λ c. (c.id ≡ id) × HasTurns d codec id c.turn_count db) _
        (ok_or (find (λ c. same_id d c.id id) db.conversations) _) _ found
        λ c h. elim (Bool-cases (ltb c.turn_count (2 ^ 32))) [
          | inl q ↦ rw q (h.0, h.1, ltb→lt c.turn_count (2 ^ 32) q)
          | inr q ↦ rw q tt
        ]
    where
      found :
          Holds {E = CoreError d}
            (λ c. (c.id ≡ id) × HasTurns d codec id c.turn_count db)
            (ok_or (find (λ c. same_id d c.id id) db.conversations) (not_found id))
      found = elim (Option-cases (find (λ c. same_id d c.id id) db.conversations)) [
        | inl e ↦ rw e tt
        | inr (c, e) ↦
            let (counted, q) =
              find-All (IsCounted d codec db.turns) (λ c. same_id d c.id id) db.conversations c
                v.counted e in
            let same : c.id ≡ id = d.number_inj c.id id ((==_iff _ _).0 q) in
            rw e (
              same,
              (
                v,
                subst (λ j. ordinals d codec j db.turns ≡ countdown c.turn_count) same counted.0,
                counted.1,
              ),
            )
      ]

  create_in_tx-IsValid :
      (call : Call d) (p : CreateConversation d) (db : Tables d)
      → IsValid d codec db
      → Holds (λ o. IsValid d codec o.1) (create_in_tx d codec call p db)
  unfolding create_in_tx
  create_in_tx-IsValid call p db v = Holds-bind _ (check_attrs d _ p.attrs) _ λ attrs.
      Holds-bind_on (HasTurns d codec call.id 0) _ (insert_conversation d codec _ db) _
        (insert_conversation-HasTurns d codec _ db refl v)
        λ db1 v1.
          Holds-bind_on (λ r. IsValid d codec r.1) _
            (insert_turns d codec call call.id 0 0 (unwrap_or p.turns []) db1) _
            (insert_turns-HasTurns call call.id 0 0 0 _ db1 (omega arith) v1)
            λ r v2. Holds-bind _ (read_conversation d codec call.id r.1) _ λ c.
              Holds-bind_on (IsValid d codec) _ (insert_event d codec _ r.1) _
                (insert_event-IsValid d codec _ r.1 v2) λ db3 v3. v3

  append_turns_in_tx-IsValid :
      (call : Call d) (p : AppendTurns d) (db : Tables d)
      → IsValid d codec db
      → Holds (λ o. IsValid d codec o.1) (append_turns_in_tx d codec call p db)
  unfolding append_turns_in_tx
  append_turns_in_tx-IsValid call p db v =
      let id = p.conversation_id in
      Holds-bind_on _ (λ o. IsValid d codec o.1) (read_conversation d codec id db) _
        (read_conversation-HasTurns id db v)
        λ c h.
          let start = next_ordinal-countdown d codec id db c.turn_count h.1.1 h.2 in
          Holds-bind_on (λ r. IsValid d codec r.1) _ (insert_turns d codec call id _ 0 p.turns db) _
            (insert_turns-HasTurns call id _ 0 c.turn_count p.turns db (omega (arith, start)) h.1)
            λ r v2.
              Holds-bind_on (IsValid d codec) _ (insert_event d codec _ r.1) _
                (insert_event-IsValid d codec _ r.1 v2) λ db3 v3. v3

  update_in_tx-IsValid :
      (call : Call d) (id : d.Ulid) (p : UpdateConversation d) (db : Tables d)
      → IsValid d codec db
      → Holds (λ o. IsValid d codec o.1) (update_in_tx d codec call id p db)
  unfolding update_in_tx
  update_in_tx-IsValid call id p db v = Holds-bind _ (read_conversation d codec id db) _ λ c.
      Holds-bind _ (check_new_attrs d codec p.attrs) _ λ _.
        Holds-bind_on (IsValid d codec) _ (insert_event d codec _ _) _
          (insert_event-IsValid d codec _ _ (put_conversation-IsValid d codec _ db v)) λ db3 v3. v3

  delete_in_tx-IsValid :
      (call : Call d) (id : d.Ulid) (db : Tables d)
      → IsValid d codec db
      → Holds (λ o. IsValid d codec o.1) (delete_in_tx d codec call id db)
  unfolding delete_in_tx
  delete_in_tx-IsValid call id db v = Holds-bind _ (read_conversation d codec id db) _ λ c.
      Holds-bind_on (IsValid d codec) _ (insert_event d codec _ _) _
        (insert_event-IsValid d codec _ _ v)
        λ db1 v1. delete_conversation_row-IsValid d codec id db1 v1

  pub data Op : Type 0 where
    created : Call d → CreateConversation d → Op
    appended : Call d → AppendTurns d → Op
    updated_ : Call d → d.Ulid → UpdateConversation d → Op
    deleted : Call d → d.Ulid → Op

  unfoldable pub step : Op → Tables d → Tables d
  step (created call p) db = (create d codec call p db).1
  step (appended call p) db = (append_turns d codec call p db).1
  step (updated_ call id p) db = (update d codec call id p db).1
  step (deleted call id) db = (delete d codec call id db).1

  unfoldable pub run : List Op → Tables d → Tables d
  run [] db = db
  run (o ∷ os) db = run os (step o db)

  abbrev pub no_rows : Tables d
  no_rows = record { conversations = []; turns = []; events = [] }

  step-IsValid : (o : Op) (db : Tables d) → IsValid d codec db → IsValid d codec (step o db)
  unfolding step create append_turns update delete in_tx
  step-IsValid (created call p) db v =
      close_keeps d (IsValid d codec) db _ v (create_in_tx-IsValid call p db v)
  step-IsValid (appended call p) db v =
      close_keeps d (IsValid d codec) db _ v (append_turns_in_tx-IsValid call p db v)
  step-IsValid (updated_ call id p) db v =
      close_keeps d (IsValid d codec) db _ v (update_in_tx-IsValid call id p db v)
  step-IsValid (deleted call id) db v =
      close_keeps d (IsValid d codec) db _ v (delete_in_tx-IsValid call id db v)

  run_from-IsValid :
      (os : List Op) (db : Tables d) → IsValid d codec db → IsValid d codec (run os db)
  unfolding run
  run_from-IsValid [] db v = v
  run_from-IsValid (o ∷ os) db v = run_from-IsValid os (step o db) (step-IsValid o db v)

  -- Whatever is called, in any order and with any ids, and however often the ordinal of a turn would
  -- wrap around: the turns of each conversation have the ordinals 0 to `turn_count - 1`, every turn has
  -- its conversation, and the ids of the conversations are distinct.
  pub run-ordinals : (os : List Op) → IsValid d codec (run os no_rows)
  run-ordinals os = run_from-IsValid os no_rows (record { keyed = tt; counted = tt; owned = tt })
