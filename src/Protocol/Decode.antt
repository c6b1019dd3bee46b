-- ===== src/Protocol/Decode.antt =====
-- Reading a message of src/protocol.rs from the tree of its JSON text, as serde's derivations do.
-- Left out: that serde also takes an array for a struct, and which of several errors it reports.
pub mod RoundTrip
pub mod Bytes
mod Tests
use glycoprotein_rs.Protocol.Encode.{Formats}
use glycoprotein_rs.Protocol.{
  heartbeat, reply, query, beacon, method, Glycosyl, Event, Reply, Query, Beacon, EventField,
  MethodField, Field,
}
use glycoprotein_rs.Json.{
  nil, end, neg_int, null, cons, member, array, object, string, pos_int, string, Values, Value,
  number, Members,
}
use glycoprotein_rs.Protocol.Content.{from_content}
use glycoprotein_rs.Prelude.Result.{◌>>=◌, ◌>>=◌, ◌>>=◌, ◌>>=◌, ok_or, err, map_ok, Result, ok}
use glycoprotein_rs.Prelude.Text.{text, Str}
use glycoprotein_rs.Prelude.{
  leb, ltb, pair_has_eq, list_has_eq, nat_has_eq, ◌==◌, if◌then◌else◌, arith, ◌++◌, ◌∷◌, [], List,
  some, none, Option, ◌||◌, ◌&&◌, false, true, Bool, inr, inl, ◌⊎◌, ◌↔◌, ◌≢◌, ◌∙◌, refl, ◌≡◌, ◌<◌,
  ◌≤◌, ◌^◌, ◌%◌, ◌/◌, ◌*◌, ◌-◌, ◌+◌, suc, zero, ℕ,
}

pub data DecodeError : Type 0 where
  missing_field repeated_field invalid_value : Str → DecodeError
  unknown_variant : Str → DecodeError

-- A key may stand once, and keys that are not known are skipped.
unfoldable pub find_member : Str → Members → Result (Option Value) DecodeError
find_member k end = ok none
find_member k (member j v ms) = do
  rest ← find_member k ms
  (if j == k then elim rest [ none ↦ ok (some v) | some w ↦ err (repeated_field k) ] else ok rest)

abbrev pub Read : Type 0 → Type 0
Read A = Str → Value → Result A DecodeError

unfoldable pub required : {A : Type 0} → Read A → Str → Members → Result A DecodeError
unfolding find_member
required read k ms = do
  found ← find_member k ms
  elim found [ none ↦ err (missing_field k) | some v ↦ read k v ]

abbrev pub read_optional : {A : Type 0} → Read A → Read (Option A)
read_optional read k null = ok none
read_optional read k v = map_ok some (read k v)

-- `#[serde(default)]` on an `Option`
unfoldable pub optional_field :
    {A : Type 0} → Read A → Str → Members → Result (Option A) DecodeError
unfolding find_member
optional_field read k ms = do
  found ← find_member k ms
  elim found [ none ↦ ok none | some v ↦ read_optional read k v ]

abbrev pub read_string : Read Str
read_string k (string s) = ok s
read_string k _ = err (invalid_value k)

unfoldable pub read_value : Read Value
unfolding from_content
read_value k v = ok (from_content v)

-- An `i32`, as its bit pattern
abbrev pub read_i32 : Read ℕ
read_i32 k (number (pos_int n)) = if ltb n (2 ^ 31) then ok n else err (invalid_value k)
read_i32 k (number (neg_int n)) = if leb n (2 ^ 31) then ok (2 ^ 32 - n) else err (invalid_value k)
read_i32 k _ = err (invalid_value k)

abbrev pub read_parsed : (Str → Option ℕ) → Read ℕ
read_parsed parse k (string s) = ok_or (parse s) (invalid_value k)
read_parsed parse k _ = err (invalid_value k)

unfoldable pub read_method : Members → Result MethodField DecodeError
unfolding required optional_field read_value
read_method ms = do
  id ← required read_string (text "Id") ms
  friendly_name ← optional_field read_string (text "FriendlyName") ms
  description ← optional_field read_string (text "Description") ms
  query_schema ← optional_field read_value (text "QuerySchema") ms
  receipt_schema ← optional_field read_value (text "ReceiptSchema") ms
  ok (record {
    id = id;
    friendly_name = friendly_name;
    description = description;
    query_schema = query_schema;
    receipt_schema = receipt_schema;
  })

unfoldable pub read_event_field : Members → Result EventField DecodeError
unfolding required optional_field read_value
read_event_field ms = do
  id ← required read_string (text "Id") ms
  friendly_name ← optional_field read_string (text "FriendlyName") ms
  description ← optional_field read_string (text "Description") ms
  call_arg_schema ← optional_field read_value (text "CallArgSchema") ms
  ok (record {
    id = id;
    friendly_name = friendly_name;
    description = description;
    call_arg_schema = call_arg_schema;
  })

unfoldable pub read_field : Read Field
unfolding required read_method read_event_field
read_field k (object ms) = do
  tag ← required read_string (text "Type") ms
  (if tag == text "Method"
      then map_ok method (read_method ms)
      else if tag == text "Event"
      then map_ok Field.event (read_event_field ms)
      else err (unknown_variant tag))
read_field k _ = err (invalid_value k)

unfoldable pub read_field_list : Str → Values → Result (List Field) DecodeError
unfolding read_field
read_field_list k nil = ok []
read_field_list k (cons v vs) = do f ← read_field k v; fs ← read_field_list k vs; ok (f ∷ fs)

unfoldable pub read_fields : Read (List Field)
unfolding read_field_list
read_fields k (array vs) = read_field_list k vs
read_fields k _ = err (invalid_value k)

unfoldable pub read_beacon : Formats → Members → Result Beacon DecodeError
unfolding required optional_field read_fields
read_beacon formats ms = do
  id ← required read_string (text "Id") ms
  vendor ← optional_field read_string (text "Vendor") ms
  protocol_version ← optional_field read_i32 (text "ProtocolVersion") ms
  fields ← required read_fields (text "Fields") ms
  timestamp ← required (read_parsed formats.parse_timestamp) (text "Timestamp") ms
  ok (record {
    id = id;
    vendor = vendor;
    protocol_version = protocol_version;
    fields = fields;
    timestamp = timestamp;
  })

-- `#[serde(default = "Uuid::new_v4")]`: the id `fresh` is new.
unfoldable pub read_qid : Formats → ℕ → Members → Result ℕ DecodeError
unfolding find_member
read_qid formats fresh ms = do
  found ← find_member (text "Qid") ms
  elim found [ none ↦ ok fresh | some v ↦ read_parsed formats.parse_uuid (text "Qid") v ]

unfoldable pub read_query : Formats → ℕ → Members → Result Query DecodeError
unfolding required optional_field read_value read_qid
read_query formats fresh ms = do
  gid ← required read_string (text "Gid") ms
  source_gid ← optional_field read_string (text "SourceGid") ms
  fid ← required read_string (text "Fid") ms
  payload ← optional_field read_value (text "Payload") ms
  qid ← read_qid formats fresh ms
  ok (record { gid = gid; source_gid = source_gid; fid = fid; payload = payload; qid = qid })

unfoldable pub read_reply : Formats → Members → Result Reply DecodeError
unfolding required optional_field read_value
read_reply formats ms = do
  payload ← optional_field read_value (text "Payload") ms
  qid ← required (read_parsed formats.parse_uuid) (text "Qid") ms
  target_gid ← optional_field read_string (text "TargetGid") ms
  error ← optional_field read_string (text "Error") ms
  ok (record { payload = payload; qid = qid; target_gid = target_gid; error = error })

unfoldable pub read_event : Members → Result Event DecodeError
unfolding required optional_field read_value
read_event ms = do
  gid ← required read_string (text "Gid") ms
  fid ← required read_string (text "Fid") ms
  arg ← optional_field read_value (text "Arg") ms
  ok (record { gid = gid; fid = fid; arg = arg })

unfoldable pub from_members : Formats → ℕ → Members → Result Glycosyl DecodeError
unfolding required read_beacon read_query read_reply read_event
from_members formats fresh ms = do
  tag ← required read_string (text "Type") ms
  (if tag == text "Beacon"
      then map_ok beacon (read_beacon formats ms)
      else if tag == text "Query"
      then map_ok query (read_query formats fresh ms)
      else if tag == text "Reply"
      then map_ok reply (read_reply formats ms)
      else if tag == text "Event"
      then map_ok Glycosyl.event (read_event ms)
      else if tag == text "Heartbeat"
      then map_ok (λ id. heartbeat (record { id = id })) (required read_string (text "Id") ms)
      else err (unknown_variant tag))
