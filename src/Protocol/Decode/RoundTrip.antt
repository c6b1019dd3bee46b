-- ===== src/Protocol/Decode/RoundTrip.antt =====
-- What becomes of a message on the wire.
use glycoprotein_rs.Prelude.Result.{ok}
use glycoprotein_rs.Protocol.Wire.{integer, itself, optional}
use glycoprotein_rs.Protocol.Encode.{message_members, field_contents, Formats, field_content}
use glycoprotein_rs.Protocol.Content.{from_content-IsNormal, from_content, IsNormal}
use glycoprotein_rs.Protocol.{
  heartbeat, heartbeat, reply, reply, query, beacon, beacon, Glycosyl, event, event, method, method,
  Field,
}
use glycoprotein_rs.Protocol.Decode.{
  from_members, read_fields, read_event, read_reply, read_query, read_beacon, read_field_list,
  read_i32, read_string, read_optional, read_field, read_value,
}
use glycoprotein_rs.Prelude.Text.{text, Str}
use glycoprotein_rs.Json.{null, object, array, number, bool, string, Value}
use glycoprotein_rs.Prelude.{
  All, ◌∷◌, [], List, ap, pair_has_eq, list_has_eq, nat_has_eq, arith, some, none, Option, refl,
  ◌≡◌, ◌<◌, ◌^◌, ℕ,
}

-- A value that is there and is `null` is read as an absent one.
abbrev pub without_null : Option Value → Option Value
without_null (some null) = none
without_null o = o

abbrev pub IsOrdered : Option Value → Type 0
IsOrdered none = Unit
IsOrdered (some v) = IsNormal v

abbrev pub IsI32 : Option ℕ → Type 0
IsI32 none = Unit
IsI32 (some n) = n < 2 ^ 32

read_optional_string :
    (k : Str) (o : Option Str) → read_optional read_string k (optional string o) ≡ ok o
read_optional_string k none = refl
read_optional_string k (some s) = refl

read_optional_value :
    (k : Str) (o : Option Value)
    → IsOrdered o
    → read_optional read_value k (optional itself o) ≡ ok (without_null o)
unfolding read_value
read_optional_value k none v = refl
read_optional_value k (some null) v = refl
read_optional_value k (some (bool b)) v = unfold from_content in refl
read_optional_value k (some (number n)) v = unfold from_content in refl
read_optional_value k (some (string s)) v = unfold from_content in refl
read_optional_value k (some (array vs)) v =
    ap (λ w. ok (some w)) (from_content-IsNormal (array vs) v)
read_optional_value k (some (object ms)) v =
    ap (λ w. ok (some w)) (from_content-IsNormal (object ms) v)

read_optional_i32 :
    (k : Str) (o : Option ℕ) → IsI32 o → read_optional read_i32 k (optional integer o) ≡ ok o
read_optional_i32 k none h = refl
read_optional_i32 k (some n) h = ground arith

-- The schemas of a field as they are read
abbrev pub field_as_read : Field → Field
field_as_read (method f) = method (record f {
  query_schema = without_null f.query_schema;
  receipt_schema = without_null f.receipt_schema;
})
field_as_read (event f) =
    Field.event (record f { call_arg_schema = without_null f.call_arg_schema })

abbrev pub HasOrdered : Field → Type 0
HasOrdered (method f) = IsOrdered f.query_schema × IsOrdered f.receipt_schema
HasOrdered (event f) = IsOrdered f.call_arg_schema

read_field-field_content :
    (k : Str) (f : Field) → HasOrdered f → read_field k (field_content f) ≡ ok (field_as_read f)
unfolding read_field field_content
read_field-field_content k (method f) (a, b) =
    rw
      (
        read_optional_string (text "FriendlyName") f.friendly_name,
        read_optional_string (text "Description") f.description,
        read_optional_value (text "QuerySchema") f.query_schema a,
        read_optional_value (text "ReceiptSchema") f.receipt_schema b,
      )
      refl
read_field-field_content k (event f) a =
    rw
      (
        read_optional_string (text "FriendlyName") f.friendly_name,
        read_optional_string (text "Description") f.description,
        read_optional_value (text "CallArgSchema") f.call_arg_schema a,
      )
      refl

abbrev pub fields_as_read : List Field → List Field
fields_as_read [] = []
fields_as_read (f ∷ fs) = field_as_read f ∷ fields_as_read fs

read_fields-field_contents :
    (k : Str) (fs : List Field)
    → All HasOrdered fs
    → read_field_list k (field_contents fs) ≡ ok (fields_as_read fs)
unfolding read_field_list field_contents
read_fields-field_contents k [] a = refl
read_fields-field_contents k (f ∷ fs) (a, as') =
    rw (read_field-field_content k f a, read_fields-field_contents k fs as') refl

-- The message as the other node gets it
abbrev pub as_read : Glycosyl → Glycosyl
as_read (beacon b) = beacon (record b { fields = fields_as_read b.fields })
as_read (query q) = query (record q { payload = without_null q.payload })
as_read (reply r) = reply (record r { payload = without_null r.payload })
as_read (event e) = Glycosyl.event (record e { arg = without_null e.arg })
as_read (heartbeat h) = heartbeat h

-- What the Rust types give: a `Value` has ordered members, a version is an `i32`; and the id or the
-- instant of the message is parsed as what it was printed from.
abbrev pub IsPrintable : Formats → Glycosyl → Type 0
IsPrintable formats (beacon b) =
    IsI32 b.protocol_version
    × All HasOrdered b.fields
    × (formats.parse_timestamp (formats.show_timestamp b.timestamp) ≡ some b.timestamp)
IsPrintable formats (query q) =
    IsOrdered q.payload × (formats.parse_uuid (formats.show_uuid q.qid) ≡ some q.qid)
IsPrintable formats (reply r) =
    IsOrdered r.payload × (formats.parse_uuid (formats.show_uuid r.qid) ≡ some r.qid)
IsPrintable formats (event e) = IsOrdered e.arg
IsPrintable formats (heartbeat h) = Unit

-- Every message that is printed is read as itself, but for payloads and schemas that are there and
-- `null`: these are read as absent ones. The fresh id is not used.
pub from_members-message_members :
    (formats : Formats) (fresh : ℕ) (m : Glycosyl)
    → IsPrintable formats m
    → from_members formats fresh (message_members formats m) ≡ ok (as_read m)
unfolding from_members message_members read_beacon read_query read_reply read_event read_fields
from_members-message_members formats fresh (beacon b) (version, schemas, instant) =
    rw
      (
        read_optional_string (text "Vendor") b.vendor,
        read_optional_i32 (text "ProtocolVersion") b.protocol_version version,
        read_fields-field_contents (text "Fields") b.fields schemas,
        instant,
      )
      refl
from_members-message_members formats fresh (query q) (ordered, id) =
    rw
      (
        read_optional_string (text "SourceGid") q.source_gid,
        read_optional_value (text "Payload") q.payload ordered,
        id,
      )
      refl
from_members-message_members formats fresh (reply r) (ordered, id) =
    rw
      (
        read_optional_value (text "Payload") r.payload ordered,
        id,
        read_optional_string (text "TargetGid") r.target_gid,
        read_optional_string (text "Error") r.error,
      )
      refl
from_members-message_members formats fresh (event e) ordered =
    rw (read_optional_value (text "Arg") e.arg ordered) refl
from_members-message_members formats fresh (heartbeat h) v = refl
