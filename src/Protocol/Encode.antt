-- ===== src/Protocol/Encode.antt =====
-- The JSON text of a message, as the serde attributes of src/protocol.rs give it. A JSON text is
-- given by its tree (see Protocol/Content); how ids and instants are printed is a parameter.
use glycoprotein_rs.Protocol.Wire.{integer, itself, optional}
use glycoprotein_rs.Json.{array, string, cons, object, member, nil, end, Members, Values, Value}
use glycoprotein_rs.Protocol.{heartbeat, reply, query, event, beacon, method, Glycosyl, Field}
use glycoprotein_rs.Prelude.Text.{text, Str}
use glycoprotein_rs.Prelude.{pair_has_eq, list_has_eq, nat_has_eq, ◌∷◌, [], List, Option, ℕ}

-- How the uuid crate and chrono print and parse.
pub record Formats : Type 0 where
  pub show_uuid : ℕ → Str
  pub parse_uuid : Str → Option ℕ
  pub show_timestamp : ℕ → Str
  pub parse_timestamp : Str → Option ℕ

abbrev pub members_of : List (Str × Value) → Members
members_of [] = end
members_of ((k, v) ∷ rest) = member k v (members_of rest)

-- Printing: the members stand in the order of the struct, the tag first.
unfoldable pub field_content : Field → Value
field_content (method f) = object (
    members_of (
      (text "Type", string (text "Method"))
      ∷ (text "Id", string f.id)
      ∷ (text "FriendlyName", optional string f.friendly_name)
      ∷ (text "Description", optional string f.description)
      ∷ (text "QuerySchema", optional itself f.query_schema)
      ∷ (text "ReceiptSchema", optional itself f.receipt_schema)
      ∷ []))
field_content (event f) = object (
    members_of (
      (text "Type", string (text "Event"))
      ∷ (text "Id", string f.id)
      ∷ (text "FriendlyName", optional string f.friendly_name)
      ∷ (text "Description", optional string f.description)
      ∷ (text "CallArgSchema", optional itself f.call_arg_schema)
      ∷ []))

unfoldable pub field_contents : List Field → Values
unfolding field_content
field_contents [] = nil
field_contents (f ∷ fs) = cons (field_content f) (field_contents fs)

unfoldable pub message_members : Formats → Glycosyl → Members
unfolding field_contents
message_members formats (beacon b) = members_of (
    (text "Type", string (text "Beacon"))
    ∷ (text "Id", string b.id)
    ∷ (text "Vendor", optional string b.vendor)
    ∷ (text "ProtocolVersion", optional integer b.protocol_version)
    ∷ (text "Fields", array (field_contents b.fields))
    ∷ (text "Timestamp", string (formats.show_timestamp b.timestamp))
    ∷ [])
message_members formats (query q) = members_of (
    (text "Type", string (text "Query"))
    ∷ (text "Gid", string q.gid)
    ∷ (text "SourceGid", optional string q.source_gid)
    ∷ (text "Fid", string q.fid)
    ∷ (text "Payload", optional itself q.payload)
    ∷ (text "Qid", string (formats.show_uuid q.qid))
    ∷ [])
message_members formats (reply r) = members_of (
    (text "Type", string (text "Reply"))
    ∷ (text "Payload", optional itself r.payload)
    ∷ (text "Qid", string (formats.show_uuid r.qid))
    ∷ (text "TargetGid", optional string r.target_gid)
    ∷ (text "Error", optional string r.error)
    ∷ [])
message_members formats (event e) = members_of (
    (text "Type", string (text "Event"))
    ∷ (text "Gid", string e.gid)
    ∷ (text "Fid", string e.fid)
    ∷ (text "Arg", optional itself e.arg)
    ∷ [])
message_members formats (heartbeat h) =
    members_of ((text "Type", string (text "Heartbeat")) ∷ (text "Id", string h.id) ∷ [])
