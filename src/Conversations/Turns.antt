-- ===== src/Conversations/Turns.antt =====
-- What a client reads back after it created a conversation or appended turns.
use nomai.Base.{
  ℕ, zero, suc, ◌+◌, ◌%◌, ◌^◌, ◌≤◌, ◌<◌, ◌≡◌, refl, sym, ap, ◌∙◌, subst, true, List, [], ◌∷◌, ◌++◌,
  append-nil, append_assoc, arith, ltb, length, map, filter, filter_keep, sort_by, insert_by_last,
  by_key, ==_refl, All, All-map, All-map-of, All-sort_by, Bool-cases, inl, inr, ok, Holds,
  Holds-bind, Holds-bind_on, Holds-both,
}
use nomai.Conversations.{
  Turn, CreateTurn, AppendTurns, Tables, Call, Codec, is_turn_of, is_insertable, read_conversation,
  read_turns, new_turn, insert_turn_row, insert_turn_in_tx, insert_turns, insert_event,
}
use nomai.Conversations.Ordinals.{countdown, ordinals, next_ordinal-countdown}
use nomai.Conversations.Rows.{IsValid, HasTurns, not_full}
use nomai.Conversations.Service.{append_turns_in_tx, append_turns}
use nomai.Conversations.Steps.{insert_turn_in_tx-HasTurns, read_conversation-HasTurns}
use nomai.Core.{Deps, check_attrs}
use nomai.Core.Transaction.{in_tx, close-ok}
use nomai.Events.{Event, log_event}

-- n, n + 1, …: `k` numbers
unfoldable pub count_from : ℕ → ℕ → List ℕ
count_from n zero = []
count_from n (suc k) = n ∷ count_from (suc n) k

countdown_below : (n k : ℕ) → n ≤ k → All (λ o. o < k) (countdown n)
unfolding countdown
countdown_below zero k h = tt
countdown_below (suc n) k h = (omega (arith, h), countdown_below n k (omega (arith, h)))

module _ (d : Deps) (codec : Codec d) where
  -- A turn with an ordinal above the others is read behind them.
  read_turns-last :
      (t : Turn d) (db db1 : Tables d) (n : ℕ)
      → t.ordinal ≡ n
      → ordinals d codec t.conversation_id db.turns ≡ countdown n
      → db1.turns ≡ t ∷ db.turns
      → read_turns d codec t.conversation_id db1
        ≡ read_turns d codec t.conversation_id db ++ (t ∷ [])
  unfolding read_turns sort_by
  read_turns-last t db db1 n o h e =
      ap
        (λ ts. sort_by (by_key (λ u. u.ordinal)) (filter (is_turn_of d codec t.conversation_id) ts))
        e
      ∙ ap (sort_by (by_key (λ u. u.ordinal))) (
          filter_keep (is_turn_of d codec t.conversation_id) t db.turns
            (==_refl (d.number t.conversation_id)))
      ∙ insert_by_last (by_key (λ u. u.ordinal)) t _ (
          All-sort_by _ (by_key (λ u. u.ordinal))
            (filter (is_turn_of d codec t.conversation_id) db.turns)
            (All-map _ _ (λ u l. low u l) _
              (All-map-of (λ u. u.ordinal) (λ p. p < n)
                (filter (is_turn_of d codec t.conversation_id) db.turns)
                (subst (All (λ p. p < n)) (sym h) (countdown_below n n (omega arith))))))
    where
      low : (u : Turn d) → u.ordinal < n → ltb u.ordinal t.ordinal ≡ true
      low u l = ground (arith, l, o)

  -- One turn more, the last.
  abbrev IsNext : d.Ulid → ℕ → Tables d → Turn d × Tables d → Type 0
  IsNext id n db r =
      (r.0.ordinal ≡ n) × (read_turns d codec id r.1 ≡ read_turns d codec id db ++ (r.0 ∷ []))

  insert_turn_row-IsNext :
      (now : d.Time) (t : Turn d) (db : Tables d) (n : ℕ)
      → t.ordinal ≡ n % 2 ^ 32
      → HasTurns d codec t.conversation_id n db
      → Holds (λ db1. IsNext t.conversation_id n db (t, db1)) (insert_turn_row d codec now t db)
  unfolding insert_turn_row
  insert_turn_row-IsNext now t db n o v = elim (Bool-cases (is_insertable d codec t db)) [
    | inr q ↦ rw q tt
    | inl q ↦
        let less = not_full d codec t db n q o v in
        let ordinal : t.ordinal ≡ n = omega (arith, o, less) in
        rw q (ordinal, read_turns-last t db _ n ordinal v.1 refl)
  ]

  insert_turn_in_tx-IsNext :
      (call : Call d) (id : d.Ulid) (o i n : ℕ) (ct : CreateTurn d) (db : Tables d)
      → o ≡ n % 2 ^ 32
      → HasTurns d codec id n db
      → Holds (IsNext id n db) (insert_turn_in_tx d codec call id o i ct db)
  unfolding insert_turn_in_tx
  insert_turn_in_tx-IsNext call id o i n ct db e v =
      Holds-bind _ (check_attrs d _ ct.attrs) _ λ attrs.
        let t = new_turn d codec call id o i ct attrs in
        Holds-bind_on (λ db1. IsNext id n db (t, db1)) _
          (insert_turn_row d codec call.trigger_now t db) _
          (insert_turn_row-IsNext call.trigger_now t db n e v) λ db1 h. h

  -- The new turns have the next ordinals, and are read behind the others, in their order.
  abbrev AreNext : d.Ulid → ℕ → ℕ → Tables d → List (Turn d) × Tables d → Type 0
  AreNext id n k db r =
      (map (λ t. t.ordinal) r.0 ≡ count_from n k)
      × (read_turns d codec id r.1 ≡ read_turns d codec id db ++ r.0)

  insert_turns-AreNext :
      (call : Call d) (id : d.Ulid) (start i n : ℕ) (cts : List (CreateTurn d)) (db : Tables d)
      → start + i ≡ n
      → HasTurns d codec id n db
      → Holds (AreNext id n (length cts) db) (insert_turns d codec call id start i cts db)
  unfolding insert_turns count_from
  insert_turns-AreNext call id start i n [] db e v =
      (refl, sym (append-nil (read_turns d codec id db)))
  insert_turns-AreNext call id start i n (ct ∷ cts) db e v =
      let ord : (start + i % 2 ^ 32) % 2 ^ 32 ≡ n % 2 ^ 32 = omega (arith, e) in
      Holds-bind_on (λ r. HasTurns d codec id (suc n) r.1 × IsNext id n db r) _
        (insert_turn_in_tx d codec call id _ i ct db) _
        (Holds-both _ _ (insert_turn_in_tx d codec call id _ i ct db)
          (insert_turn_in_tx-HasTurns d codec call id _ i n ct db ord v)
          (insert_turn_in_tx-IsNext call id _ i n ct db ord v))
        λ r h.
          Holds-bind_on (AreNext id (suc n) (length cts) r.1) _
            (insert_turns d codec call id start (suc i) cts r.1) _
            (insert_turns-AreNext call id start (suc i) (suc n) cts r.1 (omega (arith, e)) h.0)
            λ s k. (
              cons_both h.1.0 k.0,
              k.1
                  ∙ ap (λ ts. ts ++ s.0) h.1.1
                  ∙ append_assoc (read_turns d codec id db) (r.0 ∷ []) s.0,
            )
    where
      cons_both : {o n : ℕ} {os ns : List ℕ} → o ≡ n → os ≡ ns → (o ∷ os) ≡ (n ∷ ns)
      cons_both e h = rw (e, h) refl

  insert_event-same :
      (id : d.Ulid) (e : Event d) (db : Tables d)
      → Holds
          (λ db1.
            (read_turns d codec id db1 ≡ read_turns d codec id db)
            × (read_conversation d codec id db1 ≡ read_conversation d codec id db))
          (insert_event d codec e db)
  unfolding insert_event read_turns read_conversation
  insert_event-same id e db = Holds-bind _ (log_event d _ e db.events) _ λ es. (refl, refl)

  append_turns_in_tx-AreNext :
      (call : Call d) (p : AppendTurns d) (db : Tables d)
      → IsValid d codec db
      → Holds
          (λ o.
            read_turns d codec p.conversation_id o.1
            ≡ read_turns d codec p.conversation_id db ++ o.0)
          (append_turns_in_tx d codec call p db)
  unfolding append_turns_in_tx
  append_turns_in_tx-AreNext call p db v =
      let id = p.conversation_id in
      Holds-bind_on _ _ (read_conversation d codec id db) _
        (read_conversation-HasTurns d codec id db v)
        λ c h.
          let start = next_ordinal-countdown d codec id db c.turn_count h.1.1 h.2 in
          Holds-bind_on (AreNext id c.turn_count (length p.turns) db) _
            (insert_turns d codec call id _ 0 p.turns db) _
            (insert_turns-AreNext call id _ 0 c.turn_count p.turns db (omega (arith, start)) h.1)
            λ r k.
              Holds-bind_on _ _ (insert_event d codec _ r.1) _ (insert_event-same id _ r.1)
                λ db2 s. s.0 ∙ k.1

  -- On valid tables, turns that were appended are read behind those that were there, in their order.
  pub append-read_turns :
      (call : Call d) (p : AppendTurns d) (db : Tables d) (ts : List (Turn d))
      → IsValid d codec db
      → (append_turns d codec call p db).0 ≡ ok ts
      → read_turns d codec p.conversation_id (append_turns d codec call p db).1
        ≡ read_turns d codec p.conversation_id db ++ ts
  unfolding append_turns in_tx
  append-read_turns call p db ts v h =
      close-ok d
        (λ ts db1.
          read_turns d codec p.conversation_id db1 ≡ read_turns d codec p.conversation_id db ++ ts)
        db (append_turns_in_tx d codec call p db) ts (append_turns_in_tx-AreNext call p db v) h
