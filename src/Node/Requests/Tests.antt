-- ===== src/Node/Requests/Tests.antt =====
-- "alpha" knows "beta", whose mesh is not connected to its own any more.
use glycoprotein_rs.Mesh.Frame.{to_le_bytes, frame_message}
use glycoprotein_rs.Protocol.Wire.Compact.{members_codes}
use glycoprotein_rs.Protocol.Encode.{message_members}
use glycoprotein_rs.Protocol.Decode.Bytes.{to_bytes}
use glycoprotein_rs.Mesh.Send.{route, ensure_started, send_framed, send}
use glycoprotein_rs.Prelude.Map.{lookup}
use glycoprotein_rs.Mesh.Delivery.Wire.{wire_codec}
use glycoprotein_rs.Node.Presenters.{find_field, find_remote_method}
use glycoprotein_rs.Mesh.Send.Await.{send_message}
use glycoprotein_rs.Error.{peer_not_connected, GlycoError}
use glycoprotein_rs.Json.{bool}
use glycoprotein_rs.Prelude.Text.{text}
use glycoprotein_rs.Node.Remote.Samples.{formats, json_of, mesh}
use glycoprotein_rs.Node.Samples.{knows_beta}
use glycoprotein_rs.Prelude.Result.{err, Result, ok}
use glycoprotein_rs.Node.Calls.{
  Call, insert_pending, remove_pending, validate_payload, check_call, begin_call,
}
use glycoprotein_rs.Node.Requests.{request_refused, request}
use glycoprotein_rs.Protocol.{
  receiver, new_method_field, new_beacon, query, new_query, Glycosyl, Query,
}
use glycoprotein_rs.Mesh.Peers.{Inner}
use glycoprotein_rs.Node.{NodeInner}
use glycoprotein_rs.Schema.{SchemaLibrary}
use glycoprotein_rs.Prelude.{
  ◌==◌, if◌then◌else◌, [], some, none, true, ◌⊎◌, refl, ◌≡◌, ℕ, pair_has_eq, list_has_eq,
  nat_has_eq,
}

abbrev any_instance : SchemaLibrary
any_instance = record { iter_errors = λ schema value. ok [] }

abbrev client : NodeInner
client = record knows_beta { started = true }

abbrev lonely : Inner
lonely = record (mesh (text "alpha") (text "beta")) { peers = [] }

abbrev the_query : Query
the_query = new_query (text "beta") (text "alpha") (text "echo") (some (bool true)) 7

abbrev over_mesh : Glycosyl → Inner → Result (Unit {0}) GlycoError × Inner
over_mesh = send_message (wire_codec (json_of (query the_query)) formats 0) (λ a. none) 3

refused :
    request over_mesh
      (λ node. node)
      any_instance
      (text "beta")
      (text "echo")
      (some (bool true))
      7
      client
      lonely
    ≡ (err (peer_not_connected (text "beta")), remove_pending 7 (insert_pending 7 client), lonely)
unfolding request begin_call check_call validate_payload find_remote_method find_field lookup
    new_beacon new_method_field new_query send_message send send_framed ensure_started route
    to_bytes message_members members_codes frame_message to_le_bytes receiver
refused = refl

request_refused_example :
    ((begin_call any_instance (text "beta") (text "echo") (some (bool true)) 7 client
        ≡ err (peer_not_connected (text "beta")))
      × (remove_pending 7 (insert_pending 7 client) ≡ client)
      × (lonely ≡ lonely))
    ⊎ ((call : Call) × (waits : NodeInner) × (begin_call any_instance
            (text "beta")
            (text "echo")
            (some (bool true))
            7
            client
          ≡ ok (call, waits))
        × (over_mesh (query call.query) lonely ≡ (err (peer_not_connected (text "beta")), lonely))
        × ((j : ℕ)
            → lookup j (remove_pending 7 (insert_pending 7 client)).pending
              ≡ (if 7 == j then none else lookup j waits.pending)))
request_refused_example =
    request_refused over_mesh (λ node. node) any_instance (text "beta") (text "echo")
      (some (bool true)) 7 client (remove_pending 7 (insert_pending 7 client)) lonely lonely
      (peer_not_connected (text "beta")) refused
