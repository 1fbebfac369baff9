-- ===== src/Rpc/Codes.antt =====
-- What a client can tell from a response.
use nomai.Base.{
  ℕ, ◌≡◌, ◌≢◌, ◌↔◌, refl, sym, ap, ◌∙◌, subst, Bool, true, false, not, Option, none, some, List, [],
  ◌∷◌, ◌++◌, map, find, any, is_empty, arith, Bool-cases, inl, inr, Result, ok, err, if◌then◌else◌,
  ◌&&◌,
}
use nomai.Channel.Model.{ℤ, pos, negsuc}
use nomai.Core.{Deps, Json}
use nomai.Rpc.{
  Request, Response, RpcError, RequestId, DispatchError, core, method_not_found_, Display, Handler,
  parse_error, method_not_found, respond, call_handler, dispatch, serve_parsed, serve, run_stdio,
  answer_of, write_response_line, number_id, jsonrpc_version,
}
use nomai.Text.{Text, text_eq, is_whitespace, trim, trim_start, trim_end}

-- A line that holds white space only.
unfoldable pub is_blank : Text → Bool
is_blank [] = true
is_blank (c ∷ s) = is_whitespace c && is_blank s

trim_end_blank : (s : Text) → is_empty (trim_end s) ≡ is_blank s
unfolding trim_end is_blank
trim_end_blank [] = refl
trim_end_blank (c ∷ s) = ground (arith, trim_end_blank s)

trim_blank : (s : Text) → is_empty (trim s) ≡ is_blank s
unfolding trim trim_start is_blank
trim_blank [] = trim_end_blank []
trim_blank (c ∷ s) = elim (Bool-cases (is_whitespace c)) [
  | inl q ↦ rw q (trim_blank s)
  | inr q ↦ rw q (trim_end_blank (c ∷ s) ∙ unfold is_blank in rw q refl)
]

abbrev magnitude : ℤ → ℕ
magnitude (pos n) = n
magnitude (negsuc n) = n

module _ (d : Deps) where
  abbrev pub is_some : {A : Type 0} → Option A → Bool
  is_some none = false
  is_some (some a) = true

  module _ (display : Display d) where
    -- The envelope: the version, the id, and either a result or an error.
    abbrev pub IsResponseTo : Option RequestId → Response d → Type 0
    IsResponseTo id r =
        (r.jsonrpc ≡ jsonrpc_version) × (r.id ≡ id) × (is_some r.result ≡ not (is_some r.error))

    respond-IsResponseTo :
        (id : Option RequestId) (o : Result (DispatchError d) (Json d))
        → IsResponseTo id (respond d display id o)
    respond-IsResponseTo id (ok v) = (refl, refl, refl)
    respond-IsResponseTo id (err (core e)) = (refl, refl, refl)
    respond-IsResponseTo id (err (method_not_found_ m)) = (refl, refl, refl)

    answered :
        (o id : Option RequestId) (r0 r : Response d)
        → IsResponseTo id r0
        → answer_of d display o r0 ≡ some r
        → IsResponseTo id r
    answered none id r0 r v h = cc
    answered (some x) id r0 r v h = let same : r0 ≡ r = cc in subst (IsResponseTo id) same v

    abbrev is_unknown_method : Result (DispatchError d) (Json d) → Bool
    is_unknown_method (err (method_not_found_ m)) = true
    is_unknown_method _ = false

    -- What the code of an error tells of the call.
    abbrev IsCode : Bool → Bool → RpcError d → Type 0
    IsCode malformed unknown e =
        ((e.code ≡ parse_error) ↔ (malformed ≡ true))
        × ((e.code ≡ method_not_found) ↔ (unknown ≡ true))

    module _ (from_str : Text → Result Text (Request d)) {S : Type 0}
        (handlers : List (Handler d S)) where
      abbrev pub id_of : Result Text (Request d) → Option RequestId
      id_of (ok req) = req.id
      id_of (err e) = none

      serve_parsed-response :
          (p : Result Text (Request d)) (s : S) (r : Response d)
          → (serve_parsed d display handlers p s).0 ≡ some r
          → IsResponseTo (id_of p) r
      unfolding serve_parsed dispatch
      serve_parsed-response (err e) s r h =
          answered (some (number_id (pos 0))) none _ r (refl, refl, refl) h
      serve_parsed-response (ok req) s r h =
          answered req.id req.id _ r
            (respond-IsResponseTo req.id
              (call_handler d display (find (λ h. text_eq h.method req.method) handlers) req s).0)
            h

      -- An answer has the version of the protocol and the id of its request, and either a result or an
      -- error, and not both.
      pub serve-response :
          (line : Text) (s : S) (r : Response d)
          → (serve d display from_str handlers line s).0 ≡ some r
          → IsResponseTo (id_of (from_str (trim line))) r
      unfolding serve
      serve-response line s r h = elim (Bool-cases (is_empty (trim line))) [
        | inl q ↦ absurd (none_ne_some (sym (rw q refl) ∙ h))
        | inr q ↦ serve_parsed-response (from_str (trim line)) s r (sym (rw q refl) ∙ h)
      ]
        where
          none_ne_some : none ≢ some r
          none_ne_some h = cc

      abbrev pub is_malformed : Result Text (Request d) → Bool
      is_malformed (err e) = true
      is_malformed (ok req) = false

      abbrev pub is_unknown : Result Text (Request d) → Bool
      is_unknown (err e) = false
      is_unknown (ok req) = not (any (λ h. text_eq h.method req.method) handlers)

      abbrev pub given : Option RequestId → List (Option RequestId)
      given none = []
      given (some id) = some id ∷ []

      -- The ids of the answers that a client waits for.
      abbrev pub awaited_by : Result Text (Request d) → List (Option RequestId)
      awaited_by (err e) = none ∷ []
      awaited_by (ok req) = given req.id

      unfoldable pub awaited : List Text → List (Option RequestId)
      awaited [] = []
      awaited (line ∷ lines) =
          (if is_blank line then [] else awaited_by (from_str (trim line))) ++ awaited lines

      parsed_ids :
          (p : Result Text (Request d)) (s : S) (rs : List (Response d))
          → map
              (λ r. r.id)
              (write_response_line d display from_str (serve_parsed d display handlers p s).0 rs)
            ≡ awaited_by p ++ map (λ r. r.id) rs
      unfolding serve_parsed dispatch
      parsed_ids (err e) s rs = refl
      parsed_ids (ok req) s rs =
          ids req.id (dispatch d display handlers req s).0
            (respond-IsResponseTo req.id
              (call_handler d display (find (λ h. text_eq h.method req.method) handlers) req s).0).1
        where
          ids :
              (id : Option RequestId) (r0 : Response d)
              → r0.id ≡ id
              → map
                  (λ r. r.id)
                  (write_response_line d display from_str (answer_of d display id r0) rs)
                ≡ given id ++ map (λ r. r.id) rs
          ids none r0 h = refl
          ids (some x) r0 h = rw h refl

      -- The loop over the input answers every line that is not blank and no notification, in the order of the
      -- lines: each answer has the id of its request, or none if the line does not parse.
      pub run_stdio-awaited :
          (lines : List Text) (s : S)
          → map (λ r. r.id) (run_stdio d display from_str handlers lines s).0 ≡ awaited lines
      unfolding run_stdio serve awaited
      run_stdio-awaited [] s = refl
      run_stdio-awaited (line ∷ lines) s = elim (Bool-cases (is_blank line)) [
        | inl q ↦ rw (trim_blank line, q) (run_stdio-awaited lines s)
        | inr q ↦
            rw (trim_blank line, q)
              (parsed_ids (from_str (trim line)) s _
                ∙ ap (λ ids. awaited_by (from_str (trim line)) ++ ids) (run_stdio-awaited lines _))
      ]
