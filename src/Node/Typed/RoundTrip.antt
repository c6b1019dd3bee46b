-- ===== src/Node/Typed/RoundTrip.antt =====
-- A typed call of a typed function, from end to end.
use glycoprotein_rs.Node.Handlers.{handle_query}
use glycoprotein_rs.Node.Calls.Pending.{Meanwhile, IsCalls}
use glycoprotein_rs.Node.Calls.{
  remove_pending, replied, finish_call, process_reply, begin_call, Call,
}
use glycoprotein_rs.Node.Handlers.Replies.{call-handle_query, outcome}
use glycoprotein_rs.Protocol.Wire.{Printer}
use glycoprotein_rs.Json.{Value}
use glycoprotein_rs.Node.Typed.Client.{in_context, parse_reply, call}
use glycoprotein_rs.Error.{remote, GlycoError, HandlerError}
use glycoprotein_rs.Prelude.Map.{lookup-insert_ordered, lookup}
use glycoprotein_rs.Prelude.Result.{err, >>=-eq-ok, Result-cases, Result, ok}
use glycoprotein_rs.Node.{RequestContext, RegisteredMethod, NodeInner, RawMethodHandler}
use glycoprotein_rs.Protocol.{MethodField}
use glycoprotein_rs.Schema.{SchemaLibrary, JsonSchema}
use glycoprotein_rs.Prelude.Text.{Str}
use glycoprotein_rs.Node.Registry.{insert_method}
use glycoprotein_rs.Node.Typed.{
  make_response, parse_request, function_handler, Serialize, Deserialize, register_raw_function,
  register_function, fill_receipt_schema, fill_query_schema,
}
use glycoprotein_rs.Prelude.{
  ap, subst, beq_refl, pair_has_eq, list_has_eq, nat_has_eq, arith, some, none, Option, inr, inl,
  ◌≢◌, ◌∙◌, refl, ◌≡◌, ℕ,
}

fill_query_schema-id :
    {A : Type 0} (schema : JsonSchema A) (f g : MethodField)
    → fill_query_schema schema f ≡ ok g
    → g.id ≡ f.id
unfolding fill_query_schema
fill_query_schema-id schema f g h = ground arith

fill_receipt_schema-id :
    {A : Type 0} (schema : JsonSchema A) (f g : MethodField)
    → fill_receipt_schema schema f ≡ ok g
    → g.id ≡ f.id
unfolding fill_receipt_schema
fill_receipt_schema-id schema f g h = ground arith

insert_method-lookup :
    (f : MethodField) (h : RawMethodHandler) (s t : NodeInner)
    → insert_method f h s ≡ ok t
    → lookup f.id t.methods ≡ some (record { field = f; handler = h })
unfolding insert_method
insert_method-lookup f h s t e = ground (
  arith,
  lookup-insert_ordered f.id f.id (record { field = f; handler = h }) s.methods,
  beq_refl f.id,
)

-- What a function is registered as, up to the schemas of its field.
abbrev pub RegisteredAs : Str → RawMethodHandler → NodeInner → Type 0
RegisteredAs id h t = (m : RegisteredMethod) × (lookup id t.methods ≡ some m) × (m.handler ≡ h)

pub register_function-RegisteredAs :
    {A B : Type 0} (schema_a : JsonSchema A) (schema_b : JsonSchema B) (de : Deserialize A)
    (ser : Serialize B) (field : MethodField) (handler : A → RequestContext → Result B HandlerError)
    (s t : NodeInner)
    → register_function schema_a schema_b de ser field handler s ≡ ok t
    → RegisteredAs field.id (function_handler de ser handler) t
unfolding register_function register_raw_function
register_function-RegisteredAs schema_a schema_b de ser field handler s t h =
    let (f, e, rest) = >>=-eq-ok (fill_query_schema schema_a field) _ h in
    let (g, k, inserted) = >>=-eq-ok (fill_receipt_schema schema_b f) _ rest in
    let as_function = function_handler de ser handler in
    let same = fill_receipt_schema-id schema_b f g k ∙ fill_query_schema-id schema_a field f e in
    (
      record { field = g; handler = as_function },
      subst (λ id. lookup id t.methods ≡ some (record { field = g; handler = as_function })) same
          (insert_method-lookup g as_function s t inserted),
      refl,
    )

-- What the caller of a function gets for what its handler gave.
abbrev pub typed_outcome : {B : Type 0} → Result B HandlerError → Result (Option B) GlycoError
typed_outcome (ok b) = ok (some b)
typed_outcome (err e) = err (remote (record { message = e.message }))

-- The reply of a typed handler, to the payload of a request, read back.
call-function_handler :
    {A B : Type 0} (ser_a : Serialize A) (de_a : Deserialize A) (ser_b : Serialize B)
    (de_b : Deserialize B) (handler : A → RequestContext → Result B HandlerError)
    (context : RequestContext) (request : A) (payload : Value)
    (call_raw : Option Value → Result (Option Value) GlycoError)
    → ser_a.to_value request ≡ ok payload
    → de_a.from_value payload ≡ ok request
    → ((b : B) → (v : Value) × (ser_b.to_value b ≡ ok v) × (de_b.from_value v ≡ ok b))
    → call_raw (some payload) ≡ outcome (function_handler de_a ser_b handler (some payload) context)
    → call ser_a de_b call_raw request ≡ typed_outcome (handler request context)
unfolding call function_handler parse_request make_response in_context parse_reply
call-function_handler ser_a de_a ser_b de_b handler context request payload call_raw sent read reply
      e =
    elim (Result-cases (handler request context)) [
      | inl (b, h) ↦
          let (v, printed, parsed) = reply b in ground (arith, e, sent, read, h, printed, parsed)
      | inr (x, h) ↦ ground (arith, e, sent, read, h)
    ]

-- A typed call that the caller's guards let through, to a function that the callee has registered,
-- while the callee has a free permit. Once the reply is in, whatever other calls do in between, the
-- raw call of the JSON of the request ends with what the function's handler gave; and over a raw call
-- that ends so for this payload, the typed one ends with the handler's response, or with its error as
-- a remote one. The JSON of the request and of each response must read back as what it was made of,
-- and the query and the reply arrive as they were sent.
pub call-register_function :
    {A B : Type 0} (ser_a : Serialize A) (de_a : Deserialize A) (ser_b : Serialize B)
    (de_b : Deserialize B) (schema_a : JsonSchema A) (schema_b : JsonSchema B) (field : MethodField)
    (handler : A → RequestContext → Result B HandlerError) (library : SchemaLibrary)
    (printer : Printer) (qid token now : ℕ) (request : A) (payload : Value)
    (server callee s s' t : NodeInner) (the_call : Call)
    (call_raw : Option Value → Result (Option Value) GlycoError)
    → ser_a.to_value request ≡ ok payload
    → de_a.from_value payload ≡ ok request
    → ((b : B) → (v : Value) × (ser_b.to_value b ≡ ok v) × (de_b.from_value v ≡ ok b))
    → register_function schema_a schema_b de_a ser_b field handler server ≡ ok callee
    → callee.permits ≢ 0
    → IsCalls s
    → lookup qid s.pending ≡ none
    → begin_call library callee.id field.id (some payload) qid s ≡ ok (the_call, s')
    → Meanwhile qid s' t
    → ((r : Result (Option Value) GlycoError) (after : NodeInner)
        → finish_call replied the_call
            (process_reply (handle_query token the_call.query callee).0 t)
          ≡ some (r, after)
        → call_raw (some payload) ≡ r)
    → let context : RequestContext = record {
      qid = qid;
      source_gid = some s.id;
      cancellation = token;
    } in
      let after = process_reply (handle_query token the_call.query callee).0 t in
      (finish_call replied the_call after
        ≡ some (
          outcome (function_handler de_a ser_b handler (some payload) context),
          remove_pending qid after,
        ))
      × (call ser_a de_b call_raw request ≡ typed_outcome (handler request context))
call-register_function ser_a de_a ser_b de_b schema_a schema_b field handler library printer qid
      token now request payload server callee s s' t the_call call_raw sent read reply registered
      free v fresh begun between same_call =
    let context : RequestContext = record {
      qid = qid;
      source_gid = some s.id;
      cancellation = token;
    } in
    let after = process_reply (handle_query token the_call.query callee).0 t in
    let (m, found, same) =
      register_function-RegisteredAs schema_a schema_b de_a ser_b field handler server callee
        registered in
    let ends =
      (call-handle_query library printer callee.id field.id (some payload) qid token now s s' t
        callee the_call m v fresh begun between refl found free).1
      ∙ ap
          (λ (h : RawMethodHandler).
            some (outcome (h (some payload) context), remove_pending qid after))
          same in
    (
      ends,
      call-function_handler ser_a de_a ser_b de_b handler context request payload call_raw sent read
          reply (same_call _ _ ends),
    )
