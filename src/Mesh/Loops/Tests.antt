-- ===== src/Mesh/Loops/Tests.antt =====
-- A heartbeat on its way from "alpha" to "beta".
use glycoprotein_rs.Mesh.Loops.Ends.{reader_loop-ends}
use glycoprotein_rs.Mesh.Peers.Disconnect.{is_connected}
use glycoprotein_rs.Prelude.Text.{Str, text}
use glycoprotein_rs.Prelude.Result.{err, ok, Result}
use glycoprotein_rs.Mesh.Loops.Replies.{HasEnded, writer_loop-expected, channels_of, expected}
use glycoprotein_rs.Error.{unexpected_eof, IoError}
use glycoprotein_rs.Mesh.Loops.{reader_loop, writer_loop, WriterTurn}
use glycoprotein_rs.Mesh.Peers.{Inner, WriteRequest}
use glycoprotein_rs.Mesh.Loops.Link.{arrivals, running_turns, new_writer}
use glycoprotein_rs.Mesh.Send.{broken_pipe_error, Codec}
use glycoprotein_rs.Protocol.{heartbeat, Glycosyl}
use glycoprotein_rs.Prelude.{
  take, pair_has_eq, list_has_eq, nat_has_eq, arith, ◌++◌, ◌∷◌, [], List, false, true, ◌⊎◌, refl,
  ◌≡◌, ℕ,
}

abbrev beat : Glycosyl
beat = heartbeat (record { id = text "alpha" })

-- A codec of heartbeats only.
abbrev heartbeat_bytes : Glycosyl → Result (List ℕ) Str
heartbeat_bytes (heartbeat h) = ok h.id
heartbeat_bytes _ = err (text "not a heartbeat")

abbrev heartbeats : Codec
heartbeats = record {
  to_bytes = heartbeat_bytes;
  from_bytes = λ bytes. ok (heartbeat (record { id = bytes }));
}

abbrev request : WriteRequest
request = record { bytes = 5 ∷ 0 ∷ 0 ∷ 0 ∷ text "alpha"; acknowledgement = 1 }

abbrev sends : WriterTurn
sends = record { cancelled = false; arriving = request ∷ []; connected = true; write = ok tt }

abbrev idles : WriterTurn
idles = record { cancelled = false; arriving = []; connected = true; write = ok tt }

abbrev fails : WriterTurn
fails = record {
  cancelled = false;
  arriving = request ∷ request ∷ [];
  connected = true;
  write = err (broken_pipe_error (text "Broken pipe"), 3);
}

abbrev node : Inner
node = record {
  node_id = text "beta";
  max_frame_length = 100;
  events = [];
  peers = [];
  cells = [];
  next_handle = 0;
  started = true;
  threads = [];
  next_generation = 1;
}

abbrev eof : IoError
eof = record { kind = unexpected_eof; message = text "failed to fill whole buffer" }

writer_loop-expected_example :
    (n : ℕ) × (expected (writer_loop (fails ∷ sends ∷ []) new_writer)
      ≡ expected new_writer ++ channels_of (arrivals (take n (fails ∷ sends ∷ []))))
    × ((n ≡ 2) ⊎ HasEnded (fails ∷ sends ∷ []) new_writer n)
writer_loop-expected_example = writer_loop-expected (fails ∷ sends ∷ []) new_writer

reader_loop-ends_example :
    ((reader_loop heartbeats
        (text "alpha")
        1
        (running_turns (beat ∷ beat ∷ beat ∷ []))
        (record { incoming = request.bytes; ending = eof })
        node).0
      ≡ true)
    × (is_connected
          (text "alpha")
          1
          (reader_loop heartbeats
            (text "alpha")
            1
            (running_turns (beat ∷ beat ∷ beat ∷ []))
            (record { incoming = request.bytes; ending = eof })
            node).1
        ≡ false)
reader_loop-ends_example =
    reader_loop-ends heartbeats (text "alpha") 1 (running_turns (beat ∷ beat ∷ beat ∷ []))
      (record { incoming = request.bytes; ending = eof }) node (refl, (refl, (refl, tt)))
      (omega arith)
