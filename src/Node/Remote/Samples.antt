-- ===== src/Node/Remote/Samples.antt =====
-- Two nodes whose meshes are connected, and how they print.
use glycoprotein_rs.Protocol.Wire.Compact.{members_codes}
use glycoprotein_rs.Protocol.Decode.Bytes.{JsonLibrary}
use glycoprotein_rs.Prelude.Result.{err, ok}
use glycoprotein_rs.Protocol.{Glycosyl}
use glycoprotein_rs.Error.{unexpected_eof, IoError}
use glycoprotein_rs.Mesh.Loops.{WriterTurn}
use glycoprotein_rs.Mesh.Peers.{reading, writing, Inner, Peer, Cell}
use glycoprotein_rs.Protocol.Encode.{message_members, Formats}
use glycoprotein_rs.Prelude.Text.{text, Str}
use glycoprotein_rs.Prelude.{
  ◌==◌, if◌then◌else◌, ◌∷◌, [], List, some, none, Option, false, true, ℕ, pair_has_eq, list_has_eq,
  nat_has_eq,
}

-- Ids and instants are printed as one char.
abbrev pub one_char : Str → Option ℕ
one_char (n ∷ []) = some n
one_char _ = none

abbrev pub formats : Formats
formats = record {
  show_uuid = λ n. n ∷ [];
  parse_uuid = one_char;
  show_timestamp = λ n. n ∷ [];
  parse_timestamp = one_char;
}

abbrev pub cell : Cell
cell = record { writer = true; receiving = true; queue = []; control_open = true; closed = false }

abbrev pub peer_of : Str → Peer
peer_of id = record { id = id; generation = 1; handle = 0 }

-- The mesh of `id`, whose only peer is `other`
abbrev pub mesh : Str → Str → Inner
mesh id other = record {
  node_id = id;
  max_frame_length = 1_000;
  events = [];
  peers = (other, peer_of other) ∷ [];
  cells = (0, cell) ∷ [];
  next_handle = 1;
  started = true;
  threads = writing ∷ reading ∷ [];
  next_generation = 2;
}

abbrev pub writes : List ℕ → WriterTurn
writes bytes = record {
  cancelled = false;
  arriving = record { bytes = bytes; acknowledgement = 3 } ∷ [];
  connected = true;
  write = ok tt;
}

abbrev pub eof : IoError
eof = record { kind = unexpected_eof; message = text "failed to fill whole buffer" }

-- A library that knows one text
abbrev pub json_of : Glycosyl → JsonLibrary
json_of m = record {
  to_vec = λ ms. ok (members_codes ms []);
  from_slice = λ bytes.
      if bytes == members_codes (message_members formats m) []
      then ok (message_members formats m)
      else err (text "another text");
  show_decode = λ e. text "no message";
}
