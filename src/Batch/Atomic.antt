-- ===== src/Batch/Atomic.antt =====
-- The loop of a batch against the plain sequence of its operations, and what an error leaves.
use nomai.Base.{
  ℕ, suc, ◌+◌, ◌≤◌, ◌≡◌, ◌≢◌, refl, sym, ap, ◌∙◌, subst, Bool, true, false, Option, none, some,
  List, [], ◌∷◌, ◌++◌, arith, ltb, ltb→le, length, length-append, is_empty, All, All-append,
  Bool-cases, inl, inr, Result, ok, err, ◌>>=◌, ◌⊎◌, Holds, Holds-ok, Holds-map, Holds-bind,
}
use nomai.Batch.{
  BatchOp, OpResult, done, failed, skipped, Ids, register, Progress, Services, Committed, prepare,
  deleted_entry_id, push_deleted, push_result, push_prepared, run_op, run_ops, finish, transact,
  touched, embed_next, embed_entries, clean_up, answer, after_commit, settle, call,
}
use nomai.Core.{Deps, CoreError, Json, validation}
use nomai.Core.Transaction.{close}
use nomai.Text.{codes}

module _ (d : Deps) {S : Type 0} (services : Services d S) where
  abbrev as_result : {A : Type 0} → Result (CoreError d) A × S → Result (CoreError d) (A × S)
  as_result (ok a, db) = ok (a, db)
  as_result (err e, db) = err e

  abbrev pub none_yet : Committed d
  none_yet = record { results = []; deleted_entry_ids = [] }

  -- One more operation that has succeeded.
  abbrev pub with_op : BatchOp d → Json d → Json d → Committed d → Committed d
  with_op op params v c = record {
    results = c.results ++ (done v ∷ []);
    deleted_entry_ids =
        push_deleted d services (deleted_entry_id d services op (ok params)) c.deleted_entry_ids;
  }

  -- The operations one after the other, up to the first that fails: each is resolved against the results
  -- of those before it.
  unfoldable pub in_order :
      ℕ → List (BatchOp d) → Committed d → Ids → S → Result (CoreError d) (Committed d × S)
  in_order i [] c ids db = ok (c, db)
  in_order i (op ∷ ops) c ids db = do
    params ← prepare d services op c.results ids
    (v, db1) ← as_result (services.dispatch_in_tx op.method params db)
    in_order (suc i) ops (with_op op params v c) (register d op.id i ids) db1

  -- How the transaction ends.
  abbrev ended : S → Progress d S → Result (CoreError d) (Committed d) × S
  ended db p = finish d services db p p.failed_at

  -- Behind a failure nothing is done.
  run_ops-failed :
      (db now : S) (results : List (OpResult d)) (ids : Ids) (gone : List d.Ulid) (i : ℕ)
      (ops : List (BatchOp d)) (e : CoreError d)
      → ended db (
          run_ops d services i ops (record {
            db = now;
            results = results;
            id_to_index = ids;
            deleted_entry_ids = gone;
            failed_at = some e;
          }))
        ≡ (err e, db)
  unfolding run_ops run_op
  run_ops-failed db now results ids gone i [] e = refl
  run_ops-failed db now results ids gone i (op ∷ ops) e =
      run_ops-failed db now (results ++ (skipped ∷ [])) ids gone (suc i) ops e

  abbrev at : S → Committed d → Ids → Progress d S
  at now c ids = record {
    db = now;
    results = c.results;
    id_to_index = ids;
    deleted_entry_ids = c.deleted_entry_ids;
    failed_at = none;
  }

  abbrev InOrder : S → ℕ → List (BatchOp d) → Type 0
  InOrder db i ops =
      (now : S) (c : Committed d) (ids : Ids)
      → ended db (run_ops d services i ops (at now c ids)) ≡ close d db (in_order i ops c ids now)

  dispatched :
      (db now : S) (i : ℕ) (op : BatchOp d) (ops : List (BatchOp d)) (c : Committed d) (ids : Ids)
      (params : Json d) (o : Result (CoreError d) (Json d) × S)
      → InOrder db (suc i) ops
      → ended db (
          run_ops d services (suc i) ops (
            push_result d services i op
              (at now c ids)
              (deleted_entry_id d services op (ok params))
              o))
        ≡ close d db (
            as_result o
            >>= (λ x. in_order (suc i) ops (with_op op params x.0 c) (register d op.id i ids) x.1))
  dispatched db now i op ops c ids params (ok v, after) ih =
      ih after (with_op op params v c) (register d op.id i ids)
  dispatched db now i op ops c ids params (err e, after) ih =
      run_ops-failed db after (c.results ++ (failed e ∷ [])) ids c.deleted_entry_ids (suc i) ops e

  prepared :
      (db now : S) (i : ℕ) (op : BatchOp d) (ops : List (BatchOp d)) (c : Committed d) (ids : Ids)
      (r : Result (CoreError d) (Json d))
      → InOrder db (suc i) ops
      → ended db (run_ops d services (suc i) ops (push_prepared d services i op (at now c ids) r))
        ≡ close d db (
            r >>= (λ params. as_result (services.dispatch_in_tx op.method params now) >>= (λ x.
              in_order (suc i) ops (with_op op params x.0 c) (register d op.id i ids) x.1)))
  prepared db now i op ops c ids (ok params) ih =
      dispatched db now i op ops c ids params (services.dispatch_in_tx op.method params now) ih
  prepared db now i op ops c ids (err e) ih =
      run_ops-failed db now (c.results ++ (failed e ∷ [])) ids c.deleted_entry_ids (suc i) ops e

  run_ops-InOrder : (db : S) (i : ℕ) (ops : List (BatchOp d)) → InOrder db i ops
  unfolding run_ops run_op in_order
  run_ops-InOrder db i [] now c ids = refl
  run_ops-InOrder db i (op ∷ ops) now c ids =
      prepared db now i op ops c ids (prepare d services op c.results ids)
        (run_ops-InOrder db (suc i) ops)

  -- The transaction of a batch of 1 to 1000 operations, whose loop goes on behind a failure, does what the
  -- operations do one after the other up to the first that fails: the tables are then as they were and
  -- it ends with its error; otherwise they are as the last one left them and it ends with the result of
  -- each.
  pub transact-in_order :
      (ops : List (BatchOp d)) (db : S)
      → is_empty ops ≡ false
      → length ops ≤ 1000
      → transact d services ops db ≡ close d db (in_order 0 ops none_yet [] db)
  unfolding transact
  transact-in_order ops db h l =
      rw (h, within (length ops) l) (run_ops-InOrder db 0 ops db none_yet [])
    where
      within : (n : ℕ) → n ≤ 1000 → ltb 1000 n ≡ false
      within n l = ground (arith, l)

  refused :
      (ops : List (BatchOp d)) (db : S)
      → is_empty ops ≡ true
      → transact d services ops db ≡ (err (validation (codes "batch requires at least one op")), db)
  unfolding transact
  refused ops db h = rw h refl

  too_long :
      (ops : List (BatchOp d)) (db : S)
      → is_empty ops ≡ false
      → ltb 1000 (length ops) ≡ true
      → transact d services ops db ≡ (err (validation (codes "batch exceeds 1000 ops limit")), db)
  unfolding transact
  too_long ops db h l = rw (h, l) refl

  -- A batch is refused before it starts, or it is one of 1 to 1000 operations.
  transact-cases :
      (ops : List (BatchOp d)) (db : S)
      → ((e : CoreError d) × (transact d services ops db ≡ (err e, db)))
        ⊎ (transact d services ops db ≡ close d db (in_order 0 ops none_yet [] db))
  transact-cases ops db = elim (Bool-cases (is_empty ops)) [
    | inl q ↦ inl (validation (codes "batch requires at least one op"), refused ops db q)
    | inr q ↦ elim (Bool-cases (ltb 1000 (length ops))) [
      | inl r ↦ inl (validation (codes "batch exceeds 1000 ops limit"), too_long ops db q r)
      | inr r ↦ inr (transact-in_order ops db q (ltb→le 1000 (length ops) r))
    ]
  ]

  -- A call ends with its error and the tables as they were, or it goes on behind its commit.
  call-cases :
      (ops : List (BatchOp d)) (db : S)
      → ((e : CoreError d) × (call d services ops db ≡ (err e, db)))
        ⊎ ((o : Committed d × S) × (in_order 0 ops none_yet [] db ≡ ok o)
            × (call d services ops db ≡ after_commit d services ops o.0 o.1))
  unfolding call
  call-cases ops db = elim (transact-cases ops db) [
    | inl (e, q) ↦ inl (e, ap (settle d services ops) q)
    | inr q ↦ closed (in_order 0 ops none_yet [] db) refl q
  ]
    where
      closed :
          (r : Result (CoreError d) (Committed d × S))
          → in_order 0 ops none_yet [] db ≡ r
          → transact d services ops db ≡ close d db (in_order 0 ops none_yet [] db)
          → ((e : CoreError d) × (settle d services ops (transact d services ops db) ≡ (err e, db)))
            ⊎ ((o : Committed d × S) × (in_order 0 ops none_yet [] db ≡ ok o)
                × (settle d services ops (transact d services ops db)
                    ≡ after_commit d services ops o.0 o.1))
      closed (ok o) e q = inr (o, e, ap (settle d services ops) (q ∙ ap (close d db) e))
      closed (err why) e q = inl (why, ap (settle d services ops) (q ∙ ap (close d db) e))

  module _ {C : Type 0} (content : S → C)
      (clean_up_keeps : (ids : List d.Ulid) (db : S)
        → content (services.delete_entries_signals ids db).1 ≡ content db)
      (embed_keeps : (id : d.Ulid) (db : S)
        → content (services.embed_entry_chunks id db).1 ≡ content db) where
    clean_up-content :
        (ids : List d.Ulid) (db : S) → content (clean_up d services ids db).1 ≡ content db
    unfolding clean_up
    clean_up-content [] db = refl
    clean_up-content (id ∷ ids) db = clean_up_keeps (id ∷ ids) db

    embed_entries-content :
        (ids : List d.Ulid) (db : S) → content (embed_entries d services ids db).1 ≡ content db
    unfolding embed_entries
    embed_entries-content [] db = refl
    embed_entries-content (id ∷ ids) db =
        next (embed_entries-content ids) (services.embed_entry_chunks id db) (embed_keeps id db)
      where
        next :
            ((db1 : S) → content (embed_entries d services ids db1).1 ≡ content db1)
            → (o : Result (CoreError d) (Unit {0}) × S) → content o.1 ≡ content db
            → content (embed_next d services (embed_entries d services ids) o).1 ≡ content db
        next rest (ok u, db1) h = rest db1 ∙ h
        next rest (err e, db1) h = h

    abbrev pub cleaned : Committed d × S → Option (CoreError d) × S
    cleaned o = clean_up d services o.0.deleted_entry_ids o.1

    abbrev pub embedded : List (BatchOp d) → Committed d × S → Result (CoreError d) (Unit {0}) × S
    embedded ops o =
        embed_entries d services (services.key_order (touched d services ops o.0.results))
          (cleaned o).1

    answer-error :
        (results : List (OpResult d)) (cleanup : Option (CoreError d))
        (embedding : Result (CoreError d) (Unit {0})) (e : CoreError d)
        → answer d services results cleanup embedding ≡ err e
        → (embedding ≡ err e) ⊎ ((why : CoreError d) × (cleanup ≡ some why))
    answer-error results cleanup (err e0) e h = let same : e0 ≡ e = cc in inl (ap err same)
    answer-error results (some why) (ok u) e h = inr (why, refl)
    answer-error results none (ok u) e h = cc

    -- A call that ends with an error has done all of its operations or none. Either the tables are as they
    -- were; or all the operations have succeeded and were committed, an embedding has failed with the
    -- error or the clean-up has failed behind the commit, and what the operations have written
    -- stands, as these two steps change no `content` of the tables.
    pub call-error :
        (ops : List (BatchOp d)) (db : S) (e : CoreError d)
        → (call d services ops db).0 ≡ err e
        → ((call d services ops db).1 ≡ db)
          ⊎ ((o : Committed d × S) × (in_order 0 ops none_yet [] db ≡ ok o)
              × (((embedded ops o).0 ≡ err e) ⊎ ((why : CoreError d) × ((cleaned o).0 ≡ some why)))
              × (content (call d services ops db).1 ≡ content o.1))
    unfolding after_commit
    call-error ops db e h = elim (call-cases ops db) [
      | inl (why, q) ↦ inl (ap (λ o. o.1) q)
      | inr (o, r, q) ↦ inr (
        o,
        r,
        answer-error o.0.results (cleaned o).0 (embedded ops o).0 e (sym (ap (λ x. x.0) q) ∙ h),
        ap (λ x. content x.1) q
            ∙ embed_entries-content (services.key_order (touched d services ops o.0.results)) _
            ∙ clean_up-content o.0.deleted_entry_ids o.1,
      )
    ]

  abbrev pub is_done : OpResult d → Bool
  is_done (done v) = true
  is_done _ = false

  abbrev AllDone : ℕ → List (OpResult d) → Type 0
  AllDone n rs = (length rs ≡ n) × All (λ r. is_done r ≡ true) rs

  in_order-done :
      (i : ℕ) (ops : List (BatchOp d)) (c : Committed d) (ids : Ids) (db : S)
      → All (λ r. is_done r ≡ true) c.results
      → Holds (λ o. AllDone (length c.results + length ops) o.0.results) (in_order i ops c ids db)
  unfolding in_order
  in_order-done i [] c ids db h = (omega arith, h)
  in_order-done i (op ∷ ops) c ids db h =
      Holds-bind _ (prepare d services op c.results ids) _ λ params.
        Holds-bind _ (as_result (services.dispatch_in_tx op.method params db)) _ λ x.
          Holds-map (λ o. AllDone (length (c.results ++ (done x.0 ∷ [])) + length ops) o.0.results)
            _ (in_order (suc i) ops (with_op op params x.0 c) _ x.1)
            (λ o k. (
              k.0
                  ∙ one_more _ (length c.results) (length ops)
                      (length-append c.results (done x.0 ∷ [])),
              k.1,
            ))
            (in_order-done (suc i) ops (with_op op params x.0 c) _ x.1
              (All-append (λ r. is_done r ≡ true) c.results (done x.0 ∷ []) h (refl, tt)))
    where
      one_more : (a b c : ℕ) → a ≡ b + 1 → a + c ≡ b + suc c
      one_more a b c e = omega (arith, e)

  answer-results :
      (results rs : List (OpResult d)) (cleanup : Option (CoreError d))
      (embedded : Result (CoreError d) (Unit {0}))
      → answer d services results cleanup embedded ≡ ok rs
      → results ≡ rs
  answer-results results rs cleanup (err e) h = cc
  answer-results results rs (some e) (ok u) h = cc
  answer-results results rs none (ok u) h = cc

  -- An answer has a result for each operation, and none of them is an error or was skipped.
  pub call-results :
      (ops : List (BatchOp d)) (db : S) (rs : List (OpResult d))
      → (call d services ops db).0 ≡ ok rs
      → (length rs ≡ length ops) × All (λ r. is_done r ≡ true) rs
  unfolding after_commit
  call-results ops db rs h = elim (call-cases ops db) [
    | inl (why, q) ↦ absurd (err_is_ok (sym (ap (λ o. o.0) q) ∙ h))
    | inr (o, r, q) ↦
        let all =
          Holds-ok (λ o. AllDone (0 + length ops) o.0.results) r
            (in_order-done 0 ops none_yet [] db tt) in
        let same = answer-results o.0.results rs _ _ (sym (ap (λ x. x.0) q) ∙ h) in
        subst (AllDone (length ops)) same (all.0 ∙ from_zero (length ops), all.1)
  ]
    where
      err_is_ok : {e : CoreError d} {rs : List (OpResult d)} → err e ≢ ok rs
      err_is_ok h = cc

      from_zero : (n : ℕ) → 0 + n ≡ n
      from_zero n = omega arith
