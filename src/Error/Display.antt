-- ===== src/Error/Display.antt =====
-- What `to_string` gives for the errors of src/error.rs. How the uuid crate prints an id and
-- serde_json a value is a parameter.
use glycoprotein_rs.Error.{
  not_started, unexpected_payload, protocol, typed_json, task, handler, remote, cancelled, timeout,
  validation, schema_generation, duplicate_field, not_a_method, field_not_found,
  node_already_running, peer_not_connected, frame_too_large, invalid_node_id, json, io, GlycoError,
}
use glycoprotein_rs.Json.{Value}
use glycoprotein_rs.Prelude.Decimal.{decimal}
use glycoprotein_rs.Prelude.Text.{text, Str}
use glycoprotein_rs.Prelude.{pair_has_eq, list_has_eq, nat_has_eq, ◌++◌, ℕ}

pub record Show : Type 0 where
  pub show_uuid : ℕ → Str
  pub show_value : Value → Str

unfoldable pub show_error : Show → GlycoError → Str
unfolding decimal
show_error s (io e) = text "I/O failure: " ++ e.message
show_error s (json e) = text "JSON failure: " ++ e
show_error s (invalid_node_id id) = text "invalid node id '" ++ id ++ text "'"
show_error s (frame_too_large size limit) =
    text "message is too large: "
    ++ decimal size
    ++ text " bytes (limit: "
    ++ decimal limit
    ++ text ")"
show_error s not_started = text "the connexon is not started"
show_error s (peer_not_connected peer) = text "peer '" ++ peer ++ text "' is not connected"
show_error s (node_already_running node) = text "node '" ++ node ++ text "' is already running"
show_error s (field_not_found node field) =
    text "field '" ++ field ++ text "' on '" ++ node ++ text "' does not exist"
show_error s (not_a_method node field) =
    text "field '" ++ field ++ text "' on '" ++ node ++ text "' is not a method"
show_error s (duplicate_field field) = text "field '" ++ field ++ text "' is already registered"
show_error s (schema_generation e) = text "JSON schema generation failed: " ++ e
show_error s (validation e) = text "JSON schema validation failed: " ++ e
show_error s (timeout qid node field) =
    text "query "
    ++ s.show_uuid qid
    ++ text " to '"
    ++ node
    ++ text "/"
    ++ field
    ++ text "' timed out"
show_error s (cancelled qid) = text "query " ++ s.show_uuid qid ++ text " was cancelled"
show_error s (remote e) = text "remote handler failed: " ++ e.message
show_error s (handler e) = text "handler failed: " ++ e.message
show_error s (task e) = text "background task failed: " ++ e
show_error s (typed_json context source) =
    text "typed JSON conversion failed for " ++ context ++ text ": " ++ source
show_error s (protocol e) = text "invalid protocol payload: " ++ e
show_error s (unexpected_payload v) = text "unexpected reply payload: " ++ s.show_value v
