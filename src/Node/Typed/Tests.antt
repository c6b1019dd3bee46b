-- ===== src/Node/Typed/Tests.antt =====
-- A typed function that negates Booleans, which "beta" serves and "alpha" calls.
use glycoprotein_rs.Node.Typed.RoundTrip.{call-register_function}
use glycoprotein_rs.Node.Typed.Client.{in_context, call}
use glycoprotein_rs.Node.Handlers.{result_reply, finish_query, start_query, handle_query}
use glycoprotein_rs.Node.Calls.Pending.{nothing, IsCalls}
use glycoprotein_rs.Protocol.Wire.Compact.{compact}
use glycoprotein_rs.Error.{not_started, GlycoError, HandlerError}
use glycoprotein_rs.Node.Presenters.{find_field, find_remote_method, beacon_event, process_beacon}
use glycoprotein_rs.Node.Registry.{
  field_cmp, insert_sorted, sort_fields, build_beacon, mark_beacon_changed, insert_method,
}
use glycoprotein_rs.Prelude.Text.{Str, text}
use glycoprotein_rs.Node.Samples.{alpha, echo_field, beta}
use glycoprotein_rs.Protocol.{new_event_field, new_beacon, new_query, new_method_field}
use glycoprotein_rs.Prelude.Result.{err, Result, ok}
use glycoprotein_rs.Node.Typed.Blocking.{
  register_sync-join, register_action_with_sync, register_action_sync, register_query_sync,
  register_function_sync,
}
use glycoprotein_rs.Prelude.Map.{insert, insert_ordered, lookup}
use glycoprotein_rs.Node.Calls.{
  remove_pending, replied, finish_call, process_reply, validate_payload, check_call, insert_pending,
  begin_call, Call,
}
use glycoprotein_rs.Node.{NodeInner, RegisteredMethod, RequestContext}
use glycoprotein_rs.Schema.{SchemaLibrary, JsonSchema}
use glycoprotein_rs.Json.{bool, Value}
use glycoprotein_rs.Node.Typed.{
  make_response, parse_request, register_action_with, register_action, register_query,
  function_handler, register_function, Deserialize, Serialize,
}
use glycoprotein_rs.Prelude.{
  not, pair_has_eq, list_has_eq, nat_has_eq, arith, ◌∷◌, [], some, Option, false, true, Bool, refl,
  ◌≡◌,
}

abbrev bool_ser : Serialize Bool
bool_ser = record { to_value = λ b. ok (bool b) }

abbrev read_bool : Value → Result Bool Str
read_bool (bool b) = ok b
read_bool _ = err (text "expected a boolean")

abbrev bool_de : Deserialize Bool
bool_de = record { from_value = read_bool }

abbrev bool_schema : JsonSchema Bool
bool_schema = record { schema_value = ok (bool true) }

abbrev negate : Bool → RequestContext → Result Bool HandlerError
negate b context = ok (not b)

abbrev negate_method : RegisteredMethod
negate_method = record {
  field = record (new_method_field (text "negate")) {
    query_schema = some (bool true);
    receipt_schema = some (bool true);
  };
  handler = function_handler bool_de bool_ser negate;
}

abbrev server : NodeInner
server = record beta { methods = [] }

abbrev callee : NodeInner
callee = record server { methods = (text "negate", negate_method) ∷ []; beacon_revision = 1 }

negate_registered :
    register_function bool_schema bool_schema bool_de bool_ser
      (new_method_field (text "negate"))
      negate
      server
    ≡ ok callee
unfolding register_function insert_method insert_ordered mark_beacon_changed lookup new_method_field
negate_registered = refl

abbrev client : NodeInner
client = process_beacon compact 10 (build_beacon 9 callee) (record alpha { started = true })

abbrev any_instance : SchemaLibrary
any_instance = record { iter_errors = λ schema value. ok [] }

abbrev waits : NodeInner
waits = insert_pending 7 client

abbrev the_call : Call
the_call = record {
  query = new_query (text "beta") (text "alpha") (text "negate") (some (bool true)) 7;
  channel = 0;
}

call_begins :
    begin_call any_instance (text "beta") (text "negate") (some (bool true)) 7 client
    ≡ ok (the_call, waits)
unfolding begin_call check_call validate_payload find_remote_method find_field insert_pending
    process_beacon beacon_event insert_ordered lookup build_beacon sort_fields insert_sorted
    field_cmp new_beacon new_method_field new_event_field
call_begins = refl

client-IsCalls : IsCalls client
unfolding lookup process_beacon beacon_event
client-IsCalls = record {
  allocated = λ qid c h. ground arith;
  own = λ q r c h k. ground arith;
  unanswered = λ qid c h. ground arith;
}

-- What the raw call gives for each payload.
abbrev negated : Option Value → Result (Option Value) GlycoError
negated (some (bool true)) = ok (some (bool false))
negated (some (bool false)) = ok (some (bool true))
negated _ = err not_started

negated_so :
    (r : Result (Option Value) GlycoError) (after : NodeInner)
    → finish_call replied the_call (process_reply (handle_query 3 the_call.query callee).0 waits)
      ≡ some (r, after)
    → negated (some (bool true)) ≡ r
unfolding finish_call process_reply handle_query start_query finish_query result_reply lookup insert
    insert_pending process_beacon beacon_event function_handler parse_request make_response
    in_context new_query
negated_so r after h = ground (arith, h)

call-register_function_example :
    let after = process_reply (handle_query 3 the_call.query callee).0 waits in
    (finish_call replied the_call after ≡ some (ok (some (bool false)), remove_pending 7 after))
    × (call bool_ser bool_de negated true ≡ ok (some false))
unfolding lookup process_beacon beacon_event build_beacon new_method_field function_handler
    parse_request make_response in_context
call-register_function_example =
    call-register_function bool_ser bool_de bool_ser bool_de bool_schema bool_schema
      (new_method_field (text "negate")) negate any_instance compact 7 3 11 true (bool true) server
      callee client waits waits the_call negated refl refl (λ b. (bool b, refl, refl))
      negate_registered (omega arith) client-IsCalls refl call_begins nothing negated_so

register_sync-join_example :
    (register_function_sync bool_schema bool_schema bool_de bool_ser echo_field
        (λ r c. ok (ok r))
        beta
      ≡ register_function bool_schema bool_schema bool_de bool_ser echo_field (λ r c. ok r) beta)
    × (register_query_sync bool_schema bool_ser echo_field (λ c. ok (ok true)) beta
        ≡ register_query bool_schema bool_ser echo_field (λ c. ok true) beta)
    × (register_action_sync echo_field (λ c. err (text "panic")) beta
        ≡ register_action echo_field (λ c. err (record { message = text "panic" })) beta)
    × (register_action_with_sync bool_schema bool_de echo_field (λ r c. ok (ok tt)) beta
        ≡ register_action_with bool_schema bool_de echo_field (λ r c. ok tt) beta)
register_sync-join_example =
    register_sync-join bool_schema bool_schema bool_de bool_ser echo_field beta (λ r c. ok (ok r))
      (λ c. ok (ok true)) (λ c. err (text "panic")) (λ r c. ok (ok tt))
