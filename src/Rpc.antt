-- ===== src/Rpc.antt =====
-- crates/protocol/src/rpc.rs and error.rs, crates/daemon/src/rpc.rs, and the loop over the input and the
-- dispatch of crates/daemon/src/daemon.rs: requests, responses and the codes of the errors.
pub mod Codes
mod Tests
use nomai.Base.{
  ℕ, ◌≡◌, Bool, true, false, Option, none, some, List, [], ◌∷◌, ◌++◌, find, Result, ok, err,
  if◌then◌else◌, is_empty,
}
use nomai.Channel.Model.{ℤ, pos, negsuc}
use nomai.Core.{
  Deps, Json, CoreError, not_found, resource_not_found, validation, conflict, provider, storage,
  migration, io, nomai_format, config, sync_conflict, ProviderError, ProviderErrorKind, auth,
  rate_limit, network, server, unknown,
}
use nomai.Core.Json.{
  Value, Items, Fields, null, number, string, array, object, empty, item, nil, field,
}
use nomai.NomaiFormat.Model.{ParseError}
use nomai.Text.{Text, codes, text_eq, trim}

-- The names of `Id`.
pub data RequestId : Type 0 where
  number_id : ℤ → RequestId
  string_id : Text → RequestId

pub record Request (d : Deps) : Type 0 where
  pub jsonrpc : Text
  pub id : Option RequestId
  pub method : Text
  pub params : Option (Json d)

pub record RpcError (d : Deps) : Type 0 where
  pub code : ℤ
  pub message : Text
  pub data_ : Option (Json d)

pub record Response (d : Deps) : Type 0 where
  pub jsonrpc : Text
  pub id : Option RequestId
  pub result : Option (Json d)
  pub error : Option (RpcError d)

abbrev pub jsonrpc_version : Text
jsonrpc_version = codes "2.0"

abbrev pub parse_error : ℤ
parse_error = negsuc 32699

abbrev pub method_not_found : ℤ
method_not_found = negsuc 32600

abbrev pub internal_error : ℤ
internal_error = negsuc 32602

abbrev pub entry_not_found : ℤ
entry_not_found = pos 1001

abbrev pub provider_error : ℤ
provider_error = pos 1002

abbrev pub validation_error : ℤ
validation_error = pos 1003

abbrev pub config_error : ℤ
config_error = pos 1004

abbrev pub fs_error : ℤ
fs_error = pos 1005

abbrev pub nomai_format_error : ℤ
nomai_format_error = pos 1006

abbrev pub sync_error : ℤ
sync_error = pos 1007

abbrev pub conflict_error : ℤ
conflict_error = pos 1008

abbrev pub kind_to_text : ProviderErrorKind → Text
kind_to_text auth = codes "auth"
kind_to_text rate_limit = codes "rate_limit"
kind_to_text network = codes "network"
kind_to_text server = codes "server"
kind_to_text unknown = codes "unknown"

-- What the errors of other libraries say of themselves, and numbers in JSON.
pub record Display (d : Deps) : Type 0 where
  pub sql_error_to_string : d.SqlError → Text
  pub io_error_to_string : d.IoError → Text
  pub io_kind_to_string : d.IoError → Text
  pub parse_error_to_string : ParseError → Text
  pub number_from : ℕ → d.Number

module _ (d : Deps) where
  abbrev pub respond_ok : Option RequestId → Json d → Response d
  respond_ok id result = record {
    jsonrpc = jsonrpc_version;
    id = id;
    result = some result;
    error = none;
  }

  abbrev pub respond_err : Option RequestId → RpcError d → Response d
  respond_err id error = record {
    jsonrpc = jsonrpc_version;
    id = id;
    result = none;
    error = some error;
  }

  abbrev pub text_items : List Text → Items d.Number
  text_items [] = empty
  text_items (t ∷ ts) = item (string t) (text_items ts)

  abbrev pub one_field : Text → Json d → Json d
  one_field k v = object (field k v nil)

  abbrev pub two_fields : Text → Json d → Text → Json d → Json d
  two_fields k v l w = object (field k v (field l w nil))

  pub data DispatchError : Type 0 where
    core : CoreError d → DispatchError
    method_not_found_ : Text → DispatchError

  -- `RpcHandler`: what the daemon knows of a method. A call that mutates is made under `sync_lock`.
  pub record Handler (S : Type 0) : Type 0 where
    pub method : Text
    pub is_mutating : Bool
    pub call : Json d → S → Result (CoreError d) (Json d) × S

  module _ (display : Display d) where
    abbrev pub status_to_value : Option ℕ → Json d
    status_to_value none = null
    status_to_value (some n) = number (display.number_from n)

    unfoldable pub core_error_to_rpc_ref : CoreError d → RpcError d
    core_error_to_rpc_ref (not_found id) = record {
      code = entry_not_found;
      message = codes "entry not found";
      data_ = some (one_field (codes "id") (string (d.ulid_to_string id)));
    }
    core_error_to_rpc_ref (resource_not_found resource id) = record {
      code = entry_not_found;
      message = resource ++ codes " not found";
      data_ = some (
          two_fields (codes "resource") (string resource) (codes "id")
            (string (d.ulid_to_string id)));
    }
    core_error_to_rpc_ref (validation msg) = record {
      code = validation_error;
      message = msg;
      data_ = none;
    }
    core_error_to_rpc_ref (conflict msg) = record {
      code = conflict_error;
      message = msg;
      data_ = none;
    }
    core_error_to_rpc_ref (provider p) = record {
      code = provider_error;
      message = p.message;
      data_ = some (
          two_fields (codes "kind") (string (kind_to_text p.kind)) (codes "status")
            (status_to_value p.status));
    }
    core_error_to_rpc_ref (config msg) = record { code = config_error; message = msg; data_ = none }
    core_error_to_rpc_ref (io e) = record {
      code = fs_error;
      message = codes "io error: " ++ display.io_error_to_string e;
      data_ = some (one_field (codes "kind") (string (display.io_kind_to_string e)));
    }
    core_error_to_rpc_ref (nomai_format pe) = record {
      code = nomai_format_error;
      message = codes "nomai format error: " ++ display.parse_error_to_string pe;
      data_ = some (one_field (codes "parse_error") (string (display.parse_error_to_string pe)));
    }
    core_error_to_rpc_ref (storage e) = record {
      code = internal_error;
      message = codes "storage error: " ++ display.sql_error_to_string e;
      data_ = none;
    }
    core_error_to_rpc_ref (migration msg) = record {
      code = internal_error;
      message = codes "migration error: " ++ msg;
      data_ = none;
    }
    core_error_to_rpc_ref (sync_conflict message files) = record {
      code = sync_error;
      message = message;
      data_ = some (one_field (codes "conflicted_files") (array (text_items files)));
    }

    abbrev pub respond : Option RequestId → Result DispatchError (Json d) → Response d
    respond id (ok value) = respond_ok id value
    respond id (err (core e)) = respond_err id (core_error_to_rpc_ref e)
    respond id (err (method_not_found_ method)) = respond_err id (record {
      code = method_not_found;
      message = codes "Method not found";
      data_ = some (one_field (codes "method") (string method));
    })

    abbrev pub params_of : Option (Json d) → Json d
    params_of none = null
    params_of (some v) = v

    abbrev pub map_core : {A : Type 0} → Result (CoreError d) A → Result DispatchError A
    map_core (ok a) = ok a
    map_core (err e) = err (core e)

    abbrev pub call_handler :
        {S : Type 0} → Option (Handler S) → Request d → S → Result DispatchError (Json d) × S
    call_handler none req s = (err (method_not_found_ req.method), s)
    call_handler (some h) req s = let o = h.call (params_of req.params) s in (map_core o.0, o.1)

    -- `Daemon::dispatch`; the handlers are found by the names of their methods.
    unfoldable pub dispatch : {S : Type 0} → List (Handler S) → Request d → S → Response d × S
    dispatch handlers req s =
        let o = call_handler (find (λ h. text_eq h.method req.method) handlers) req s in
        (respond req.id o.0, o.1)

    abbrev pub answer_of : Option RequestId → Response d → Option (Response d)
    answer_of none r = none
    answer_of (some id) r = some r

    -- What a line parses to: what does not parse is answered without an id, a notification is not answered.
    unfoldable pub serve_parsed :
        {S : Type 0} → List (Handler S) → Result Text (Request d) → S → Option (Response d) × S
    serve_parsed handlers (err e) s = (
      some (
          respond_err none (record {
            code = parse_error;
            message = codes "Parse error";
            data_ = some (string e);
          })),
      s,
    )
    serve_parsed handlers (ok req) s =
        let o = dispatch handlers req s in (answer_of req.id o.0, o.1)

    -- `from_str` is that of serde_json.
    module _ (from_str : Text → Result Text (Request d)) where
      -- One line of the input: a blank one is skipped.
      unfoldable pub serve : {S : Type 0} → List (Handler S) → Text → S → Option (Response d) × S
      serve handlers line s =
          if is_empty (trim line) then (none, s) else serve_parsed handlers (from_str (trim line)) s

      abbrev pub write_response_line : Option (Response d) → List (Response d) → List (Response d)
      write_response_line none rs = rs
      write_response_line (some r) rs = r ∷ rs

      -- The loop of `run_stdio` over the lines, up to the end of the input: what it writes.
      unfoldable pub run_stdio :
          {S : Type 0} → List (Handler S) → List Text → S → List (Response d) × S
      run_stdio handlers [] s = ([], s)
      run_stdio handlers (line ∷ lines) s =
          let o = serve handlers line s in
          let rest = run_stdio handlers lines o.1 in (write_response_line o.0 rest.0, rest.1)
