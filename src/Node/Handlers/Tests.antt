-- ===== src/Node/Handlers/Tests.antt =====
-- "alpha" calls "echo" on "beta", which runs at most 64 handlers.

use glycoprotein_rs.Node.Handlers.{start_query}
use glycoprotein_rs.Node.Calls.Pending.{IsCalls}
use glycoprotein_rs.Json.{bool}
use glycoprotein_rs.Node.Registry.{field_cmp, insert_sorted, sort_fields, build_beacon}
use glycoprotein_rs.Prelude.Text.{text}
use glycoprotein_rs.Protocol.Wire.Compact.{compact}
use glycoprotein_rs.Node.Samples.{echo, alpha, beta}
use glycoprotein_rs.Protocol.{new_event_field, new_method_field, new_beacon, new_query}
use glycoprotein_rs.Prelude.Result.{ok}
use glycoprotein_rs.Node.Presenters.{find_field, find_remote_method, beacon_event, process_beacon}
use glycoprotein_rs.Prelude.Map.{insert_ordered, lookup}
use glycoprotein_rs.Node.Calls.{validate_payload, check_call, insert_pending, begin_call, Call}
use glycoprotein_rs.Schema.{SchemaLibrary}
use glycoprotein_rs.Node.{new_builder, with_max_concurrent_handlers, GlycoComplexBuilder, NodeInner}
use glycoprotein_rs.Prelude.{
  pair_has_eq, list_has_eq, nat_has_eq, arith, ◌∷◌, [], some, true, refl, ◌≡◌,
}

abbrev client : NodeInner
client = process_beacon compact 10 (build_beacon 9 beta) (record alpha { started = true })

abbrev any_instance : SchemaLibrary
any_instance = record { iter_errors = λ schema value. ok [] }

abbrev waits : NodeInner
waits = insert_pending 7 client

abbrev the_call : Call
the_call = record {
  query = new_query (text "beta") (text "alpha") (text "echo") (some (bool true)) 7;
  channel = 0;
}

call_begins :
    begin_call any_instance (text "beta") (text "echo") (some (bool true)) 7 client
    ≡ ok (the_call, waits)
unfolding begin_call check_call validate_payload find_remote_method find_field insert_pending
    process_beacon beacon_event insert_ordered lookup build_beacon sort_fields insert_sorted
    field_cmp new_beacon new_method_field new_event_field
call_begins = refl

client-IsCalls : IsCalls client
unfolding lookup process_beacon beacon_event
client-IsCalls = record {
  allocated = λ qid c h. ground arith;
  own = λ q r c h k. ground arith;
  unanswered = λ qid c h. ground arith;
}

-- With room for one handler, a second query is refused while the first one runs.
abbrev small_builder : GlycoComplexBuilder
small_builder = with_max_concurrent_handlers (new_builder (text "alpha")) 0

abbrev small : NodeInner
small = record alpha { permits = 1 }

abbrev ready : NodeInner
ready = record small { methods = (text "echo", echo) ∷ []; beacon_revision = 1 }

abbrev up : NodeInner
up = record ready { active = true; started = true }

abbrev busy : NodeInner
busy = (start_query 3 the_call.query up).1
