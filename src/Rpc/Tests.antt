-- ===== src/Rpc/Tests.antt =====
-- Requests to a daemon with one method.
use nomai.Base.{find, ℕ, ◌≡◌, refl, none, some, [], ◌∷◌, true, map, Result, ok, err, if◌then◌else◌}
use nomai.Channel.Model.{pos, negsuc}
use nomai.Core.{conflict}
use nomai.Core.Json.{string, object, field, nil}
use nomai.Core.Sample.{sample}
use nomai.Rpc.{
  dispatch, Request, Response, Display, Handler, number_id, core_error_to_rpc_ref, serve_parsed,
  serve, run_stdio,
}
use nomai.Rpc.Codes.{is_blank, awaited, run_stdio-awaited, IsResponseTo, serve-response}
use nomai.Text.{Text, codes, text_eq, trim}

abbrev display : Display sample
display = record {
  sql_error_to_string = λ e. [];
  io_error_to_string = λ e. [];
  io_kind_to_string = λ e. [];
  parse_error_to_string = λ e. [];
  number_from = λ n. n;
}

abbrev busy : Handler sample ℕ
busy = record {
  method = codes "entry.update";
  is_mutating = true;
  call = λ params s. (err (conflict (codes "busy")), s);
}

abbrev request : Request sample
request = record {
  jsonrpc = codes "2.0";
  id = some (number_id (pos 1));
  method = codes "entry.update";
  params = none;
}

-- `1` is a request, `2` one of an unknown method, `3` a notification.
abbrev read_request : Text → Result Text (Request sample)
read_request line =
    if text_eq line (codes "1")
    then ok request
    else if text_eq line (codes "2")
    then ok (record request { method = codes "x" })
    else if text_eq line (codes "3")
    then ok (record request { id = none })
    else err (codes "bad")

abbrev unknown_response : Response sample
unknown_response = record {
  jsonrpc = codes "2.0";
  id = some (number_id (pos 1));
  result = none;
  error = some (record {
    code = negsuc 32600;
    message = codes "Method not found";
    data_ = some (object (field (codes "method") (string (codes "x")) nil));
  });
}

abbrev conflict_response : Response sample
conflict_response = record {
  jsonrpc = codes "2.0";
  id = some (number_id (pos 1));
  result = none;
  error = some (record { code = pos 1008; message = codes "busy"; data_ = none });
}

served : (serve sample display read_request (busy ∷ []) (codes " 1\n") 0).0 ≡ some conflict_response
unfolding serve serve_parsed dispatch core_error_to_rpc_ref find text_eq trim
served = refl

run_stdio-awaited_example :
    map
      (λ r. r.id)
      (run_stdio sample display read_request
        (busy ∷ [])
        (codes "1" ∷ codes " \n" ∷ codes "3" ∷ codes "x" ∷ [])
        0).0
    ≡ some (number_id (pos 1)) ∷ none ∷ []
unfolding awaited is_blank trim text_eq
run_stdio-awaited_example =
    run_stdio-awaited sample display read_request (busy ∷ [])
      (codes "1" ∷ codes " \n" ∷ codes "3" ∷ codes "x" ∷ []) 0

serve-response_example : IsResponseTo sample display (some (number_id (pos 1))) conflict_response
unfolding trim text_eq
serve-response_example =
    serve-response sample display read_request (busy ∷ []) (codes " 1\n") 0 conflict_response served
