-- ===== src/Error.antt =====
-- src/error.rs. An `std::io::Error` is its kind and its message, a `serde_json::Error` its message.
pub mod Display
use glycoprotein_rs.Prelude.{ℕ}
use glycoprotein_rs.Prelude.Text.{Str}
use glycoprotein_rs.Json.{Value}

-- The kinds that the program names, and one for all others.
pub data ErrorKind : Type 0 where
  not_found would_block invalid_data unexpected_eof broken_pipe other : ErrorKind

pub record IoError : Type 0 where
  pub kind : ErrorKind
  pub message : Str

pub record RemoteError : Type 0 where
  pub message : Str

pub record HandlerError : Type 0 where
  pub message : Str

pub data GlycoError : Type 0 where
  io : IoError → GlycoError
  json : Str → GlycoError
  invalid_node_id : Str → GlycoError
  frame_too_large : (size limit : ℕ) → GlycoError
  not_started : GlycoError
  peer_not_connected : Str → GlycoError
  node_already_running : Str → GlycoError
  field_not_found : (node field : Str) → GlycoError
  not_a_method : (node field : Str) → GlycoError
  duplicate_field : Str → GlycoError
  schema_generation : Str → GlycoError
  validation : Str → GlycoError
  timeout : (qid : ℕ) (node field : Str) → GlycoError
  cancelled : (qid : ℕ) → GlycoError
  remote : RemoteError → GlycoError
  handler : HandlerError → GlycoError
  task : Str → GlycoError
  typed_json : (context source : Str) → GlycoError
  protocol : Str → GlycoError
  unexpected_payload : Value → GlycoError
