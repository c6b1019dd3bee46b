-- ===== src/Node/Typed.antt =====
-- The registrations of handlers over Rust types: `register_raw_function` to
-- `register_action_with_sync` of src/node.rs. What serde makes of a type is a parameter; an error
-- of serde_json is its message. A handler is the result that its future yields.
pub mod Blocking
pub mod Client
pub mod RoundTrip
mod Tests
use glycoprotein_rs.Error.{GlycoError, HandlerError}
use glycoprotein_rs.Prelude.Text.{text, Str}
use glycoprotein_rs.Node.{NodeInner, RawMethodHandler, RequestContext}
use glycoprotein_rs.Protocol.{MethodField}
use glycoprotein_rs.Node.Registry.{insert_method}
use glycoprotein_rs.Schema.{JsonSchema, generate_schema}
use glycoprotein_rs.Json.{null, Value}
use glycoprotein_rs.Prelude.Result.{err, ◌>>=◌, ◌>>◌, ◌>>=◌, ◌>>=◌, ok, ok, map_ok, map_err, Result}
use glycoprotein_rs.Prelude.{
  pair_has_eq, list_has_eq, nat_has_eq, ◌==◌, if◌then◌else◌, arith, ◌++◌, ◌∷◌, [], List, some, none,
  Option, ◌||◌, ◌&&◌, false, true, Bool, inr, inl, ◌⊎◌, ◌↔◌, ◌≢◌, ◌∙◌, refl, ◌≡◌, ◌<◌, ◌≤◌, ◌^◌,
  ◌%◌, ◌/◌, ◌*◌, ◌-◌, ◌+◌, suc, zero, ℕ,
}

pub record Serialize (A : Type 0) : Type 0 where
  pub to_value : A → Result Value Str

pub record Deserialize (A : Type 0) : Type 0 where
  pub from_value : Value → Result A Str

-- `Option::unwrap_or(Value::Null)`
abbrev pub or_null : Option Value → Value
or_null none = null
or_null (some v) = v

-- The arguments of a typed handler, from the payload of its query.
unfoldable pub parse_request : {A : Type 0} → Deserialize A → Option Value → Result A HandlerError
parse_request de payload =
    map_err (λ e. record { message = text "request JSON is invalid: " ++ e })
      (de.from_value (or_null payload))

-- The payload of the reply, from what the typed handler gave.
unfoldable pub make_response : {A : Type 0} → Serialize A → A → Result (Option Value) HandlerError
make_response ser response =
    map_ok some (
      map_err (λ e. record { message = text "response JSON failed: " ++ e })
        (ser.to_value response))

-- A field whose schema is not given gets that of the type.
unfoldable pub fill_query_schema :
    {A : Type 0} → JsonSchema A → MethodField → Result MethodField GlycoError
unfolding generate_schema
fill_query_schema schema field = elim field.query_schema [
  | some s ↦ ok field
  | none ↦ map_ok (λ s. record field { query_schema = some s }) (generate_schema schema)
]

unfoldable pub fill_receipt_schema :
    {A : Type 0} → JsonSchema A → MethodField → Result MethodField GlycoError
unfolding generate_schema
fill_receipt_schema schema field = elim field.receipt_schema [
  | some s ↦ ok field
  | none ↦ map_ok (λ s. record field { receipt_schema = some s }) (generate_schema schema)
]

unfoldable pub register_raw_function :
    MethodField → RawMethodHandler → NodeInner → Result NodeInner GlycoError
unfolding insert_method
register_raw_function field handler inner = insert_method field handler inner

-- A closure on the blocking pool ends, or panics: then `e` is the text of the `JoinError`.
abbrev pub Blocking : Type 0 → Type 0
Blocking A = Result A Str

abbrev pub join : {A : Type 0} → Blocking (Result A HandlerError) → Result A HandlerError
join (ok result) = result
join (err e) = err (record { message = e })

unfoldable pub register_raw_function_sync :
    MethodField
    → (Option Value → RequestContext → Blocking (Result (Option Value) HandlerError))
    → NodeInner
    → Result NodeInner GlycoError
unfolding register_raw_function
register_raw_function_sync field handler inner =
    register_raw_function field (λ payload context. join (handler payload context)) inner

-- What the program makes of a handler from a request to a response, and its like with no request
-- or no response.
unfoldable pub function_handler :
    {A B : Type 0}
    → Deserialize A
    → Serialize B
    → (A → RequestContext → Result B HandlerError)
    → RawMethodHandler
unfolding parse_request make_response
function_handler de ser handler payload context = do
  request ← parse_request de payload
  response ← handler request context
  make_response ser response

unfoldable pub query_handler :
    {B : Type 0} → Serialize B → (RequestContext → Result B HandlerError) → RawMethodHandler
unfolding make_response
query_handler ser handler payload context = do
  response ← handler context
  make_response ser response

unfoldable pub action_handler : (RequestContext → Result (Unit {0}) HandlerError) → RawMethodHandler
action_handler handler payload context = do handler context; ok none

unfoldable pub action_with_handler :
    {A : Type 0}
    → Deserialize A
    → (A → RequestContext → Result (Unit {0}) HandlerError)
    → RawMethodHandler
unfolding parse_request
action_with_handler de handler payload context = do
  request ← parse_request de payload
  handler request context
  ok none

unfoldable pub register_function :
    {A B : Type 0}
    → JsonSchema A
    → JsonSchema B
    → Deserialize A
    → Serialize B
    → MethodField
    → (A → RequestContext → Result B HandlerError)
    → NodeInner
    → Result NodeInner GlycoError
unfolding fill_query_schema fill_receipt_schema function_handler register_raw_function
register_function schema_a schema_b de ser field handler inner = do
  field' ← fill_query_schema schema_a field
  field'' ← fill_receipt_schema schema_b field'
  register_raw_function field'' (function_handler de ser handler) inner

unfoldable pub register_query :
    {B : Type 0}
    → JsonSchema B
    → Serialize B
    → MethodField
    → (RequestContext → Result B HandlerError)
    → NodeInner
    → Result NodeInner GlycoError
unfolding fill_receipt_schema query_handler register_raw_function
register_query schema ser field handler inner = do
  field' ← fill_receipt_schema schema (record field { query_schema = none })
  register_raw_function field' (query_handler ser handler) inner

unfoldable pub register_action :
    MethodField
    → (RequestContext → Result (Unit {0}) HandlerError)
    → NodeInner
    → Result NodeInner GlycoError
unfolding action_handler register_raw_function
register_action field handler inner =
    register_raw_function (record field { query_schema = none; receipt_schema = none })
      (action_handler handler) inner

unfoldable pub register_action_with :
    {A : Type 0}
    → JsonSchema A
    → Deserialize A
    → MethodField
    → (A → RequestContext → Result (Unit {0}) HandlerError)
    → NodeInner
    → Result NodeInner GlycoError
unfolding fill_query_schema action_with_handler register_raw_function
register_action_with schema de field handler inner = do
  field' ← fill_query_schema schema field
  register_raw_function (record field' { receipt_schema = none }) (action_with_handler de handler)
      inner
