-- ===== src/Node/Remote/Tests.antt =====
-- "alpha" calls "echo" on "beta", each with its mesh.
use glycoprotein_rs.Node.Remote.Samples.{cell, eof, writes, peer_of, mesh, formats}
use glycoprotein_rs.Node.Lifecycle.{received, dispatch_turn}
use glycoprotein_rs.Mesh.Send.{enqueue, route, ensure_started, send_framed, send}
use glycoprotein_rs.Mesh.Delivery.Wire.{Crossing, crossed}
use glycoprotein_rs.Mesh.Delivery.{send_all}
use glycoprotein_rs.Node.Remote.{call-crossed, reply_as_read}
use glycoprotein_rs.Mesh.Send.Directed.{queue_at}
use glycoprotein_rs.Node.Presenters.{find_field, find_remote_method}
use glycoprotein_rs.Mesh.Frame.{to_le_bytes, frame_message}
use glycoprotein_rs.Json.{bool}
use glycoprotein_rs.Node.Calls.Pending.{nothing, IsCalls}
use glycoprotein_rs.Prelude.Result.{err, ok}
use glycoprotein_rs.Node.Samples.{echo, beta, knows_beta}
use glycoprotein_rs.Mesh.Loops.{writer_turn, writer_loop}
use glycoprotein_rs.Protocol.Decode.Bytes.{to_bytes, JsonLibrary}
use glycoprotein_rs.Protocol.Wire.Compact.{compact, members_codes}
use glycoprotein_rs.Protocol.Encode.{message_members}
use glycoprotein_rs.Prelude.Text.{text}
use glycoprotein_rs.Node.Handlers.{handles, result_reply, finish_query, start_query, handle_query}
use glycoprotein_rs.Protocol.{
  receiver, message, new_method_field, new_beacon, reply, query, new_query, Reply, Query,
}
use glycoprotein_rs.Prelude.Map.{insert, lookup}
use glycoprotein_rs.Node.Calls.{
  remove_pending, replied, finish_call, process_reply, validate_payload, check_call, insert_pending,
  begin_call, Call,
}
use glycoprotein_rs.Schema.{SchemaLibrary}
use glycoprotein_rs.Node.{NodeInner}
use glycoprotein_rs.Prelude.{
  length, pair_has_eq, list_has_eq, nat_has_eq, ◌==◌, if◌then◌else◌, arith, ◌++◌, ◌∷◌, [], List,
  some, none, true, refl, ◌≡◌, ℕ,
}

abbrev client : NodeInner
client = record knows_beta { started = true }

abbrev any_instance : SchemaLibrary
any_instance = record { iter_errors = λ schema value. ok [] }

abbrev waits : NodeInner
waits = insert_pending 7 client

abbrev the_call : Call
the_call = record {
  query = new_query (text "beta") (text "alpha") (text "echo") (some (bool true)) 7;
  channel = 0;
}

call_begins :
    begin_call any_instance (text "beta") (text "echo") (some (bool true)) 7 client
    ≡ ok (the_call, waits)
unfolding begin_call check_call validate_payload find_remote_method find_field insert_pending lookup
    new_beacon new_method_field
call_begins = refl

client-IsCalls : IsCalls client
unfolding lookup
client-IsCalls = record {
  allocated = λ qid c h. ground arith;
  own = λ q r c h k. ground arith;
  unanswered = λ qid c h. ground arith;
}

abbrev sent_query : Query
sent_query = record {
  gid = text "beta";
  source_gid = some (text "alpha");
  fid = text "echo";
  payload = some (bool true);
  qid = 7;
}

abbrev sent_reply : Reply
sent_reply = record {
  payload = some (bool true);
  qid = 7;
  target_gid = some (text "alpha");
  error = none;
}

replied_so : (handle_query 3 the_call.query beta).0 ≡ sent_reply
unfolding handle_query start_query finish_query result_reply lookup new_query
replied_so = refl

-- A library that knows two texts.
abbrev query_text : List ℕ
query_text = members_codes (message_members formats (query sent_query)) []

abbrev reply_text : List ℕ
reply_text = members_codes (message_members formats (reply sent_reply)) []

abbrev json : JsonLibrary
json = record {
  to_vec = λ ms. ok (members_codes ms []);
  from_slice = λ bytes.
      if bytes == query_text
      then ok (message_members formats (query sent_query))
      else if bytes == reply_text
      then ok (message_members formats (reply sent_reply))
      else err (text "another text");
  show_decode = λ e. text "no message";
}

there :
    Crossing json formats 0
      (query sent_query)
      (mesh (text "alpha") (text "beta"))
      (mesh (text "beta") (text "alpha"))
unfolding members_codes message_members frame_message to_le_bytes queue_at lookup insert send_all
    send send_framed ensure_started route enqueue receiver writer_loop writer_turn to_bytes
there = record {
  acknowledgement = 3;
  to = text "beta";
  peer = peer_of (text "beta");
  from = text "alpha";
  generation = 1;
  turns = writes (to_le_bytes (length query_text) ++ query_text) ∷ [];
  later = [];
  ending = eof;
  text_bytes = query_text;
  frame = to_le_bytes (length query_text) ++ query_text;
  printable = (tt, refl);
  rereads = (refl, refl);
  addressed = refl;
  framed = refl;
  reached = (refl, (λ e. grind arith), refl, (cell, refl, refl, refl));
  idle = refl;
  same_limit = refl;
  arrives = refl;
  smooth = ((refl, refl, refl), tt);
  empty = refl;
}

back :
    Crossing json formats 0
      (reply sent_reply)
      (mesh (text "beta") (text "alpha"))
      (mesh (text "alpha") (text "beta"))
unfolding members_codes message_members frame_message to_le_bytes queue_at lookup insert send_all
    send send_framed ensure_started route enqueue receiver writer_loop writer_turn to_bytes
back = record {
  acknowledgement = 3;
  to = text "alpha";
  peer = peer_of (text "alpha");
  from = text "beta";
  generation = 1;
  turns = writes (to_le_bytes (length reply_text) ++ reply_text) ∷ [];
  later = [];
  ending = eof;
  text_bytes = reply_text;
  frame = to_le_bytes (length reply_text) ++ reply_text;
  printable = (tt, refl);
  rereads = (refl, refl);
  addressed = refl;
  framed = refl;
  reached = (refl, (λ e. grind arith), refl, (cell, refl, refl, refl));
  idle = refl;
  same_limit = refl;
  arrives = refl;
  smooth = ((refl, refl, refl), tt);
  empty = refl;
}

call-crossed_example :
    let answered = reply_as_read sent_reply in
    let after = process_reply answered waits in
    ((crossed json formats 0 there).events ≡ message (query the_call.query) ∷ [])
    × (dispatch_turn compact 11 (received (message (query the_call.query))) beta
        ≡ (true, some (handles the_call.query), beta))
    × ((crossed json formats 0 back).events ≡ message (reply answered) ∷ [])
    × (dispatch_turn compact 12 (received (message (reply answered))) waits ≡ (true, none, after))
    × (finish_call replied the_call after ≡ some (ok (some (bool true)), remove_pending 7 after))
unfolding handle_query start_query finish_query result_reply lookup new_query
call-crossed_example =
    call-crossed json formats 0 any_instance compact (text "beta") (text "echo") (some (bool true))
      7 3 11 12 client waits waits beta the_call echo (mesh (text "alpha") (text "beta"))
      (mesh (text "beta") (text "alpha")) (mesh (text "alpha") (text "beta"))
      (mesh (text "beta") (text "alpha")) client-IsCalls refl call_begins nothing refl refl
      (omega arith) refl there back
