-- ===== src/Batch/Tests.antt =====
-- Runs of batches over a service that keeps the values it is given.
use nomai.Base.{
  ℕ, ◌≡◌, refl, ap, true, Option, none, some, List, [], ◌∷◌, arith, length, any, if◌then◌else◌, All,
  Result, ok, err, ◌||◌, ◌⊎◌, ◌==◌,
}
use nomai.Batch.{
  BatchOp, OpResult, done, index_of, split_once, split_dots, get_path, resolve_ref_path, as_ref,
  resolve_refs, prepare, run_op, run_ops, Services, Committed, clean_up, touched, embed_entries,
  after_commit, transact, call,
}
use nomai.Batch.Atomic.{
  embedded, cleaned, none_yet, in_order, transact-in_order, call-error, call-results, is_done,
}
use nomai.Batch.Refs.{IsResolved, AreResolved, has_ref, resolve_refs-IsResolved}
use nomai.Core.{CoreError, validation, config}
use nomai.Core.Json.{Value, number, string, object, nil, field, get_field}
use nomai.Core.Sample.{sample}
use nomai.Core.Transaction.{close}
use nomai.Text.{Text, codes, text_eq}

abbrev keep : Text → Value ℕ → List (Value ℕ) → Result (CoreError sample) (Value ℕ) × List (Value ℕ)
keep method v db =
    if text_eq method (codes "link.create") || text_eq method (codes "entry.create")
    then (ok (object (field (codes "id") v nil)), v ∷ db)
    else (err (validation (codes "no")), v ∷ db)

abbrev first_code : Text → Option ℕ
first_code [] = none
first_code (c ∷ s) = some c

-- The embedding of entry `7` fails.
abbrev services : Services sample (List (Value ℕ))
services = record {
  dispatch_in_tx = keep;
  parse_ulid = first_code;
  delete_entries_signals = λ ids db. (ok tt, db);
  embed_entry_chunks =
      λ id db. if id == b'7' then (err (config (codes "down")), db) else (ok tt, db);
  key_order = λ ids. ids;
  error_to_string = λ e. [];
}

abbrev op : Option Text → Value ℕ → BatchOp sample
op id v = record { id = id; method = codes "link.create"; params = v }

-- The second operation takes the id of the first one's result.
abbrev ops : List (BatchOp sample)
ops =
    op (some (codes "a")) (number 7)
    ∷ op none (object (field (codes "$ref") (string (codes "a.id")) nil))
    ∷ []

abbrev answer : List (OpResult sample)
answer =
    done (object (field (codes "id") (number 7) nil))
    ∷ done (object (field (codes "id") (number 7) nil))
    ∷ []

embed_keeps : (id : ℕ) (db : List (Value ℕ)) → (services.embed_entry_chunks id db).1 ≡ db
embed_keeps id db = ground arith

test_call : call sample services ops [] ≡ (ok answer, number 7 ∷ number 7 ∷ [])
unfolding call transact after_commit clean_up touched embed_entries run_ops run_op prepare
    resolve_refs as_ref resolve_ref_path get_path split_once split_dots index_of get_field any
    text_eq
test_call = refl

abbrev unknown : List (BatchOp sample)
unknown = op none (number 7) ∷ op none (object (field (codes "$ref") (string (codes "a")) nil)) ∷ []

failed_call :
    (call sample services unknown []).0 ≡ err (validation (codes "$ref: unknown op_id 'a'"))
unfolding call transact after_commit clean_up touched embed_entries run_ops run_op prepare
    resolve_refs as_ref resolve_ref_path get_path split_once split_dots index_of get_field any
    text_eq
failed_call = refl

failed_test : (call sample services unknown []).1 ≡ []
unfolding call transact after_commit run_ops run_op prepare resolve_refs as_ref resolve_ref_path
    get_path split_once split_dots index_of get_field any text_eq
failed_test = refl

transact-in_order_example :
    transact sample services ops []
    ≡ close sample [] (in_order sample services 0 ops (none_yet sample services) [] [])
transact-in_order_example = transact-in_order sample services ops [] refl (omega arith)

-- An entry whose embedding fails behind the commit.
abbrev created : List (BatchOp sample)
created = record { id = none; method = codes "entry.create"; params = string (codes "7") } ∷ []

failed_embedding : (call sample services created []).0 ≡ err (config (codes "down"))
unfolding call transact after_commit clean_up touched embed_entries run_ops run_op prepare
    resolve_refs get_field any text_eq
failed_embedding = refl

call-error_example :
    ((call sample services created []).1 ≡ [])
    ⊎ ((o : Committed sample × List (Value ℕ)) × (in_order sample services 0 created
            (none_yet sample services)
            []
            []
          ≡ ok o)
        × (((embedded sample services (λ db. db) (λ ids db. refl) embed_keeps created o).0
              ≡ err (config (codes "down")))
            ⊎ ((why : CoreError sample) × ((cleaned sample services
                    (λ db. db)
                    (λ ids db. refl)
                    embed_keeps
                    o).0
                  ≡ some why)))
        × ((call sample services created []).1 ≡ o.1))
unfolding text_eq
call-error_example =
    call-error sample services (λ db. db) (λ ids db. refl) embed_keeps created []
      (config (codes "down")) failed_embedding

call_answer : (call sample services ops []).0 ≡ ok answer
call_answer = ap (λ o. o.0) test_call

resolved_id :
    resolve_refs sample answer
      ((codes "a", 0) ∷ [])
      (object (field (codes "$ref") (string (codes "a.id")) nil))
    ≡ ok (number 7)
unfolding resolve_refs as_ref resolve_ref_path get_path split_once split_dots index_of get_field
    text_eq
resolved_id = refl

answer-AreResolved : AreResolved sample answer
unfolding has_ref as_ref text_eq
answer-AreResolved = (refl, (refl, tt))

call-results_example : (length answer ≡ 2) × All (λ r. is_done sample services r ≡ true) answer
call-results_example = call-results sample services ops [] answer call_answer

resolve_refs-IsResolved_example : IsResolved sample (number 7)
resolve_refs-IsResolved_example =
    resolve_refs-IsResolved sample answer ((codes "a", 0) ∷ [])
      (object (field (codes "$ref") (string (codes "a.id")) nil)) (number 7) answer-AreResolved
      resolved_id
