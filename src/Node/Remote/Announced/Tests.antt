-- ===== src/Node/Remote/Announced/Tests.antt =====
-- "beta" announces itself to "alpha", and emits a Boolean.
use glycoprotein_rs.Node.Registry.Samples.{beta-IsRegistry}
use glycoprotein_rs.Protocol.Decode.Bytes.{to_bytes}
use glycoprotein_rs.Node.Remote.Announced.{emit-heard, find_remote_method-heard}
use glycoprotein_rs.Mesh.Loops.{writer_turn, writer_loop}
use glycoprotein_rs.Node.Handlers.{runs}
use glycoprotein_rs.Node.Presenters.{find_remote_method}
use glycoprotein_rs.Mesh.Delivery.Everyone.{Broadcast, heard}
use glycoprotein_rs.Node.Lifecycle.{dispatch_turn, received}
use glycoprotein_rs.Mesh.Send.{enqueue_all, enqueue, route, ensure_started, send_framed, send}
use glycoprotein_rs.Mesh.Send.Directed.{queue_at}
use glycoprotein_rs.Prelude.Text.{Str, text}
use glycoprotein_rs.Node.Remote.Samples.{cell, eof, writes, peer_of, mesh, json_of, formats}
use glycoprotein_rs.Node.Events.{remove_event_handler, emit, event_handler, on_event}
use glycoprotein_rs.Node.Events.Delivery.{emitted}
use glycoprotein_rs.Node.Samples.{echo_field, alpha, beta, tick}
use glycoprotein_rs.Prelude.Result.{err, Result, ok}
use glycoprotein_rs.Mesh.Frame.{frame_message, to_le_bytes}
use glycoprotein_rs.Protocol.Encode.{message_members}
use glycoprotein_rs.Prelude.Map.{insert, lookup}
use glycoprotein_rs.Node.{NodeInner, RegisteredEvent}
use glycoprotein_rs.Json.{bool, Value}
use glycoprotein_rs.Node.Typed.{Deserialize, Serialize}
use glycoprotein_rs.Protocol.Wire.Compact.{compact, members_codes}
use glycoprotein_rs.Node.Registry.{field_cmp, insert_sorted, sort_fields, build_beacon}
use glycoprotein_rs.Protocol.{
  receiver, message, new_event_field, Field, new_beacon, new_method_field, method, beacon, Glycosyl,
}
use glycoprotein_rs.Prelude.{
  length, arith, ◌++◌, ◌∷◌, [], List, some, none, true, Bool, refl, ◌≡◌, ℕ, pair_has_eq,
  list_has_eq, nat_has_eq,
}

abbrev text_of : Glycosyl → List ℕ
text_of m = members_codes (message_members formats m) []

abbrev frame_of : Glycosyl → List ℕ
frame_of m = to_le_bytes (length (text_of m)) ++ text_of m

abbrev sent_beacon : Glycosyl
sent_beacon = beacon (record {
  id = text "beta";
  vendor = none;
  protocol_version = some 1;
  fields =
      method (new_method_field (text "echo")) ∷ Field.event (new_event_field (text "tick")) ∷ [];
  timestamp = 9;
})

built : beacon (build_beacon 9 beta) ≡ sent_beacon
unfolding build_beacon sort_fields insert_sorted field_cmp new_beacon new_method_field
    new_event_field
built = refl

beacon_sent :
    Broadcast
      (json_of sent_beacon)
      formats
      0
      sent_beacon
      (mesh (text "beta") (text "alpha"))
      (mesh (text "alpha") (text "beta"))
unfolding members_codes message_members frame_message to_le_bytes queue_at lookup insert send
    send_framed ensure_started route enqueue enqueue_all receiver writer_loop writer_turn to_bytes
    new_method_field new_event_field
beacon_sent = record {
  acknowledgement = 3;
  peer = peer_of (text "alpha");
  from = text "beta";
  generation = 1;
  turns = writes (frame_of sent_beacon) ∷ [];
  later = [];
  ending = eof;
  text_bytes = text_of sent_beacon;
  frame = frame_of sent_beacon;
  printable = (omega arith, ((tt, tt), (tt, tt)), refl);
  rereads = (refl, refl);
  addressed = refl;
  framed = refl;
  started = refl;
  open_peers = ((cell, refl, refl, refl), tt);
  distinct = (refl, tt);
  connected = refl;
  idle = refl;
  same_limit = refl;
  arrives = refl;
  smooth = ((refl, refl, refl), tt);
  empty = refl;
}

find_remote_method-heard_example :
    let (on, task, after) = dispatch_turn compact 10 (received (message sent_beacon)) alpha in
    ((heard (json_of sent_beacon) formats 0 beacon_sent).events ≡ message sent_beacon ∷ [])
    × (on ≡ true)
    × (task ≡ none)
    × (find_remote_method (text "beta") (text "echo") after ≡ ok echo_field)
unfolding build_beacon sort_fields insert_sorted field_cmp new_beacon lookup new_method_field
    new_event_field
find_remote_method-heard_example =
    find_remote_method-heard (json_of sent_beacon) formats 0 compact 9 10 beta alpha (text "echo")
      (mesh (text "beta") (text "alpha")) (mesh (text "alpha") (text "beta")) beta-IsRegistry
      beacon_sent

abbrev bool_ser : Serialize Bool
bool_ser = record { to_value = λ b. ok (bool b) }

abbrev read_bool : Value → Result Bool Str
read_bool (bool b) = ok b
read_bool _ = err (text "expected a boolean")

abbrev bool_de : Deserialize Bool
bool_de = record { from_value = read_bool }

abbrev typed_tick : RegisteredEvent
typed_tick = record tick { argument_type = some 5 }

abbrev emitter : NodeInner
emitter = record beta { emitted_events = (text "tick", typed_tick) ∷ [] }

abbrev ticked : Glycosyl
ticked = emitted (text "beta") (text "tick") (bool true)

event_sent :
    Broadcast
      (json_of ticked)
      formats
      0
      ticked
      (mesh (text "beta") (text "alpha"))
      (mesh (text "alpha") (text "beta"))
unfolding members_codes message_members frame_message to_le_bytes queue_at lookup insert send
    send_framed ensure_started route enqueue enqueue_all receiver writer_loop writer_turn to_bytes
event_sent = record {
  acknowledgement = 3;
  peer = peer_of (text "alpha");
  from = text "beta";
  generation = 1;
  turns = writes (frame_of ticked) ∷ [];
  later = [];
  ending = eof;
  text_bytes = text_of ticked;
  frame = frame_of ticked;
  printable = tt;
  rereads = (refl, refl);
  addressed = refl;
  framed = refl;
  started = refl;
  open_peers = ((cell, refl, refl, refl), tt);
  distinct = (refl, tt);
  connected = refl;
  idle = refl;
  same_limit = refl;
  arrives = refl;
  smooth = ((refl, refl, refl), tt);
  empty = refl;
}

emit-heard_example :
    let listening = on_event bool_de (text "beta") (text "tick") (λ b. ok tt) alpha in
    let raw = event_handler bool_de (λ b. ok tt) in
    let told = received (message ticked) in
    (emit bool_ser 5 (text "tick") true emitter ≡ ok ticked)
    × ((heard (json_of ticked) formats 0 event_sent).events ≡ message ticked ∷ [])
    × (dispatch_turn compact 3 told listening
        ≡ (true, some (runs raw (some (bool true))), listening))
    × (raw (some (bool true)) ≡ ok tt)
    × ((dispatch_turn compact 3 told
          (remove_event_handler (text "beta") (text "tick") listening).0).1
        ≡ none)
unfolding lookup
emit-heard_example =
    emit-heard (json_of ticked) formats 0 bool_ser bool_de compact 3 5 (text "tick") true
      (bool true) typed_tick (λ b. ok tt) emitter alpha (mesh (text "beta") (text "alpha"))
      (mesh (text "alpha") (text "beta")) refl refl refl refl refl refl event_sent
