-- ===== src/Protocol.antt =====
-- src/protocol.rs: the messages of the mesh. A `DateTime<Utc>` is a number of nanoseconds, a
-- `Uuid` the number of its 128 bits; the clock and `Uuid::new_v4` are arguments.
pub mod Wire
pub mod Content
pub mod Encode
pub mod Decode
use glycoprotein_rs.Prelude.Map.{is_none}
use glycoprotein_rs.Json.{Value}
use glycoprotein_rs.Prelude.{
  ◌==◌, if◌then◌else◌, arith, ◌++◌, ◌∷◌, [], ◌||◌, false, true, inr, inl, ◌⊎◌, ◌↔◌, ◌≢◌, ◌∙◌, refl,
  ◌≡◌, ◌<◌, ◌≤◌, ◌^◌, ◌%◌, ◌/◌, ◌*◌, ◌-◌, ◌+◌, suc, zero, pair_has_eq, list_has_eq, nat_has_eq,
  List, some, none, Option, ◌&&◌, Bool, ℕ,
}
use glycoprotein_rs.Prelude.Text.{Str}

abbrev pub protocol_version : ℕ
protocol_version = 1

pub record MethodField : Type 0 where
  pub id : Str
  pub friendly_name : Option Str
  pub description : Option Str
  pub query_schema : Option Value
  pub receipt_schema : Option Value

pub record EventField : Type 0 where
  pub id : Str
  pub friendly_name : Option Str
  pub description : Option Str
  pub call_arg_schema : Option Value

pub data Field : Type 0 where
  method : MethodField → Field
  event : EventField → Field

-- `Field::id`
abbrev pub field_id : Field → Str
field_id (method f) = f.id
field_id (event f) = f.id

-- `MethodField::new` and its builders
unfoldable pub new_method_field : Str → MethodField
new_method_field id = record {
  id = id;
  friendly_name = none;
  description = none;
  query_schema = none;
  receipt_schema = none;
}

unfoldable pub with_friendly_name : MethodField → Str → MethodField
with_friendly_name f friendly_name = record f { friendly_name = some friendly_name }

unfoldable pub with_description : MethodField → Str → MethodField
with_description f description = record f { description = some description }

unfoldable pub with_query_schema : MethodField → Value → MethodField
with_query_schema f schema = record f { query_schema = some schema }

unfoldable pub with_receipt_schema : MethodField → Value → MethodField
with_receipt_schema f schema = record f { receipt_schema = some schema }

unfoldable pub is_action : MethodField → Bool
is_action f = is_none f.query_schema && is_none f.receipt_schema

unfoldable pub is_actable : MethodField → Bool
is_actable f = is_none f.query_schema

-- `EventField::new`
unfoldable pub new_event_field : Str → EventField
new_event_field id = record {
  id = id;
  friendly_name = none;
  description = none;
  call_arg_schema = none;
}

-- `EventField::friendly_name`, `EventField::description`, `EventField::call_arg_schema`
unfoldable pub name_event : EventField → Str → EventField
name_event f friendly_name = record f { friendly_name = some friendly_name }

unfoldable pub describe_event : EventField → Str → EventField
describe_event f description = record f { description = some description }

unfoldable pub with_call_arg_schema : EventField → Value → EventField
with_call_arg_schema f schema = record f { call_arg_schema = some schema }

-- `protocol_version` is an `i32`, held as its bit pattern.
pub record Beacon : Type 0 where
  pub id : Str
  pub vendor : Option Str
  pub protocol_version : Option ℕ
  pub fields : List Field
  pub timestamp : ℕ

pub record Query : Type 0 where
  pub gid : Str
  pub source_gid : Option Str
  pub fid : Str
  pub payload : Option Value
  pub qid : ℕ

pub record Reply : Type 0 where
  pub payload : Option Value
  pub qid : ℕ
  pub target_gid : Option Str
  pub error : Option Str

pub record Event : Type 0 where
  pub gid : Str
  pub fid : Str
  pub arg : Option Value

pub record Heartbeat : Type 0 where
  pub id : Str

pub data Glycosyl : Type 0 where
  beacon : Beacon → Glycosyl
  query : Query → Glycosyl
  reply : Reply → Glycosyl
  event : Event → Glycosyl
  heartbeat : Heartbeat → Glycosyl

-- `Beacon::new`, at the time `now`
unfoldable pub new_beacon : Str → List Field → ℕ → Beacon
new_beacon id fields now = record {
  id = id;
  vendor = none;
  protocol_version = some protocol_version;
  fields = fields;
  timestamp = now;
}

-- `Query::new`, with the id that `Uuid::new_v4` gave
unfoldable pub new_query : Str → Str → Str → Option Value → ℕ → Query
new_query gid source_gid fid payload qid = record {
  gid = gid;
  source_gid = some source_gid;
  fid = fid;
  payload = payload;
  qid = qid;
}

-- `Glycosyl::receiver`: `none` is a broadcast.
unfoldable pub receiver : Glycosyl → Option Str
receiver (Glycosyl.query q) = some q.gid
receiver (Glycosyl.reply r) = r.target_gid
receiver _ = none

-- `ConnexonEvent` of src/transport/mod.rs
pub data ConnexonEvent : Type 0 where
  message : Glycosyl → ConnexonEvent
  peer_connected : Str → ConnexonEvent
  peer_disconnected : Str → ConnexonEvent
  fault : (peer : Option Str) (text : Str) → ConnexonEvent
