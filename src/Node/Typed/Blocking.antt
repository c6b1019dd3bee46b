-- ===== src/Node/Typed/Blocking.antt =====
-- The `_sync` registrations of src/node.rs, whose handlers run on the blocking pool. They take the
-- closure that the program hands to `spawn_blocking`, with the panics of the user's handler.
use glycoprotein_rs.Error.{GlycoError, HandlerError}
use glycoprotein_rs.Json.{Value}
use glycoprotein_rs.Protocol.{MethodField}
use glycoprotein_rs.Schema.{JsonSchema}
use glycoprotein_rs.Prelude.Result.{◌>>=◌, ◌>>=◌, ◌>>=◌, ok, err, err, map_ok, Result}
use glycoprotein_rs.Node.{RawMethodHandler, NodeInner, RequestContext}
use glycoprotein_rs.Node.Typed.{
  register_raw_function, register_action_with, register_action, register_query, join, Blocking,
  Serialize, Deserialize, register_function, register_raw_function_sync, fill_receipt_schema,
  fill_query_schema, make_response, parse_request,
}
use glycoprotein_rs.Prelude.{ap, pair_has_eq, list_has_eq, nat_has_eq, none, Option, refl, ◌≡◌}
use mathlib.Core.Path.{fun_ext}

-- The handler runs if the request was read, and what it gives is turned into the payload.
abbrev pub run_closure :
    {A B : Type 0}
    → Result A HandlerError
    → (A → Blocking (Result B HandlerError))
    → (B → Result (Option Value) HandlerError)
    → Blocking (Result (Option Value) HandlerError)
run_closure (err e) handler respond = ok (err e)
run_closure (ok request) handler respond = map_ok (λ result. result >>= respond) (handler request)

unfoldable pub function_closure :
    {A B : Type 0}
    → Deserialize A
    → Serialize B
    → (A → RequestContext → Blocking (Result B HandlerError))
    → Option Value
    → RequestContext
    → Blocking (Result (Option Value) HandlerError)
unfolding parse_request make_response
function_closure de ser handler payload context =
    run_closure (parse_request de payload) (λ request. handler request context) (make_response ser)

unfoldable pub query_closure :
    {B : Type 0}
    → Serialize B
    → (RequestContext → Blocking (Result B HandlerError))
    → Option Value
    → RequestContext
    → Blocking (Result (Option Value) HandlerError)
unfolding make_response
query_closure ser handler payload context =
    map_ok (λ result. result >>= make_response ser) (handler context)

unfoldable pub action_closure :
    (RequestContext → Blocking (Result (Unit {0}) HandlerError))
    → Option Value
    → RequestContext
    → Blocking (Result (Option Value) HandlerError)
action_closure handler payload context =
    map_ok (λ result. result >>= λ _. ok none) (handler context)

unfoldable pub action_with_closure :
    {A : Type 0}
    → Deserialize A
    → (A → RequestContext → Blocking (Result (Unit {0}) HandlerError))
    → Option Value
    → RequestContext
    → Blocking (Result (Option Value) HandlerError)
unfolding parse_request
action_with_closure de handler payload context =
    run_closure (parse_request de payload) (λ request. handler request context) (λ _. ok none)

unfoldable pub register_function_sync :
    {A B : Type 0}
    → JsonSchema A
    → JsonSchema B
    → Deserialize A
    → Serialize B
    → MethodField
    → (A → RequestContext → Blocking (Result B HandlerError))
    → NodeInner
    → Result NodeInner GlycoError
unfolding fill_query_schema fill_receipt_schema function_closure register_raw_function_sync
register_function_sync schema_a schema_b de ser field handler inner = do
  field' ← fill_query_schema schema_a field
  field'' ← fill_receipt_schema schema_b field'
  register_raw_function_sync field'' (function_closure de ser handler) inner

unfoldable pub register_query_sync :
    {B : Type 0}
    → JsonSchema B
    → Serialize B
    → MethodField
    → (RequestContext → Blocking (Result B HandlerError))
    → NodeInner
    → Result NodeInner GlycoError
unfolding fill_receipt_schema query_closure register_raw_function_sync
register_query_sync schema ser field handler inner = do
  field' ← fill_receipt_schema schema (record field { query_schema = none })
  register_raw_function_sync field' (query_closure ser handler) inner

unfoldable pub register_action_sync :
    MethodField
    → (RequestContext → Blocking (Result (Unit {0}) HandlerError))
    → NodeInner
    → Result NodeInner GlycoError
unfolding action_closure register_raw_function_sync
register_action_sync field handler inner =
    register_raw_function_sync (record field { query_schema = none; receipt_schema = none })
      (action_closure handler) inner

unfoldable pub register_action_with_sync :
    {A : Type 0}
    → JsonSchema A
    → Deserialize A
    → MethodField
    → (A → RequestContext → Blocking (Result (Unit {0}) HandlerError))
    → NodeInner
    → Result NodeInner GlycoError
unfolding fill_query_schema action_with_closure register_raw_function_sync
register_action_with_sync schema de field handler inner = do
  field' ← fill_query_schema schema field
  register_raw_function_sync (record field' { receipt_schema = none })
      (action_with_closure de handler) inner

join-then :
    {B : Type 0} (f : B → Result (Option Value) HandlerError) (b : Blocking (Result B HandlerError))
    → join (map_ok (λ result. result >>= f) b) ≡ (join b >>= f)
join-then f (ok (ok x)) = refl
join-then f (ok (err e)) = refl
join-then f (err e) = refl

join-run_closure :
    {A B : Type 0} (request : Result A HandlerError)
    (handler : A → Blocking (Result B HandlerError))
    (respond : B → Result (Option Value) HandlerError)
    → join (run_closure request handler respond) ≡ (request >>= λ r. join (handler r) >>= respond)
join-run_closure (err e) handler respond = refl
join-run_closure (ok r) handler respond = join-then respond (handler r)

-- A registration of `h` and of `k` is the same where these agree.
module _ {h k : RawMethodHandler}
    (same : (payload : Option Value) (context : RequestContext)
      → h payload context ≡ k payload context) where
  handlers_same : h ≡ k
  handlers_same = fun_ext λ payload. fun_ext (same payload)

-- Each blocking registration is the asynchronous one of the handler whose panics are errors.
pub register_sync-join :
    {A B : Type 0} (schema_a : JsonSchema A) (schema_b : JsonSchema B) (de : Deserialize A)
    (ser : Serialize B) (field : MethodField) (inner : NodeInner)
    (function : A → RequestContext → Blocking (Result B HandlerError))
    (query : RequestContext → Blocking (Result B HandlerError))
    (action : RequestContext → Blocking (Result (Unit {0}) HandlerError))
    (action_with : A → RequestContext → Blocking (Result (Unit {0}) HandlerError))
    → (register_function_sync schema_a schema_b de ser field function inner
        ≡ register_function schema_a schema_b de ser field (λ r c. join (function r c)) inner)
      × (register_query_sync schema_b ser field query inner
          ≡ register_query schema_b ser field (λ c. join (query c)) inner)
      × (register_action_sync field action inner
          ≡ register_action field (λ c. join (action c)) inner)
      × (register_action_with_sync schema_a de field action_with inner
          ≡ register_action_with schema_a de field (λ r c. join (action_with r c)) inner)
unfolding register_function_sync register_function register_query_sync register_query
    register_action_sync register_action register_action_with_sync register_action_with
register_sync-join schema_a schema_b de ser field inner function query action action_with = (
  ap
      (λ (h : RawMethodHandler). do
        f ← fill_query_schema schema_a field
        f' ← fill_receipt_schema schema_b f
        register_raw_function f' h inner)
      (handlers_same
        λ p c. join-run_closure (parse_request de p) (λ r. function r c) (make_response ser)),
  ap
      (λ (h : RawMethodHandler). do
        f ← fill_receipt_schema schema_b (record field { query_schema = none })
        register_raw_function f h inner)
      (handlers_same λ p c. join-then (make_response ser) (query c)),
  ap
      (λ (h : RawMethodHandler).
        register_raw_function (record field { query_schema = none; receipt_schema = none }) h inner)
      (handlers_same λ p c. join-then (λ _. ok none) (action c)),
  ap
      (λ (h : RawMethodHandler). do
        f ← fill_query_schema schema_a field
        register_raw_function (record f { receipt_schema = none }) h inner)
      (handlers_same
        λ p c. join-run_closure (parse_request de p) (λ r. action_with r c) (λ _. ok none)),
)
