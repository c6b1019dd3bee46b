-- ===== src/Mesh/Delivery/Wire.antt =====
-- A message between two nodes as the mesh carries it: printed as JSON by `to_bytes` of
-- src/protocol.rs, framed, queued, written, read, and parsed by `from_bytes`.
use glycoprotein_rs.Mesh.Send.Directed.{queue_at}
use glycoprotein_rs.Prelude.Result.{ok}
use glycoprotein_rs.Mesh.Frame.{frame_message}
use glycoprotein_rs.Mesh.Delivery.{send_all, Reaches, reader_loop-send}
use glycoprotein_rs.Error.{IoError}
use glycoprotein_rs.Protocol.Decode.RoundTrip.{IsPrintable, as_read}
use glycoprotein_rs.Mesh.Loops.Link.{IsSmooth, arrivals, new_writer, running_turns}
use glycoprotein_rs.Mesh.Loops.{writer_loop, WriterTurn, reader_loop}
use glycoprotein_rs.Prelude.Text.{Str}
use glycoprotein_rs.Mesh.Peers.{Peer, Inner}
use glycoprotein_rs.Protocol.{receiver, message, Glycosyl}
use glycoprotein_rs.Mesh.Send.{Codec}
use glycoprotein_rs.Protocol.Encode.{Formats}
use glycoprotein_rs.Protocol.Decode.Bytes.{
  Rereads, from_bytes-to_bytes, from_bytes, to_bytes, JsonLibrary,
}
use glycoprotein_rs.Prelude.{
  All, ap, pair_has_eq, list_has_eq, nat_has_eq, ◌++◌, ◌∷◌, [], List, some, Bool, ◌≡◌, ℕ,
}

abbrev pub wire_codec : JsonLibrary → Formats → ℕ → Codec
wire_codec json formats fresh = record {
  to_bytes = to_bytes json formats;
  from_bytes = from_bytes json formats fresh;
}

module _ (json : JsonLibrary) (formats : Formats) (fresh : ℕ) where
  -- The node `sender` sends `m` to the peer `to`, over a connection on which nothing waits; its
  -- writer thread, whose turns are `turns`, writes the frame, and the reader thread of the node
  -- `other` reads it, with `later` behind it.
  pub record Crossing (m : Glycosyl) (sender other : Inner) : Type 0 where
    pub acknowledgement : ℕ
    pub to : Str
    pub peer : Peer
    pub from : Str
    pub generation : ℕ
    pub turns : List WriterTurn
    pub later : List ℕ
    pub ending : IoError
    pub text_bytes : List ℕ
    pub frame : List ℕ
    pub printable : IsPrintable formats m
    pub rereads : Rereads json formats m text_bytes
    pub addressed : receiver m ≡ some to
    pub framed : frame_message text_bytes sender.max_frame_length ≡ ok frame
    pub reached : Reaches sender to peer
    pub idle : queue_at peer.handle sender ≡ []
    pub same_limit : other.max_frame_length ≡ sender.max_frame_length
    pub arrives :
        arrivals turns
        ≡ queue_at peer.handle
            (send_all (wire_codec json formats fresh) acknowledgement (m ∷ []) sender)
    pub smooth : All IsSmooth turns
    pub empty : (writer_loop turns new_writer).queue ≡ []

  -- The other node, when its reader has read the frame.
  unfoldable pub crossed : {m : Glycosyl} {sender other : Inner} → Crossing m sender other → Inner
  crossed {m} {sender} {other} x =
      (reader_loop (wire_codec json formats fresh) x.from x.generation (running_turns (m ∷ []))
        (record {
          incoming = (writer_loop x.turns new_writer).written ++ x.later;
          ending = x.ending;
        })
        other).1

  pub crossed-events :
      {m : Glycosyl} {sender other : Inner} (x : Crossing m sender other)
      → crossed x ≡ record other { events = other.events ++ message (as_read m) ∷ [] }
  unfolding crossed
  crossed-events {m} {sender} {other} x =
      let (prints, reads) =
        from_bytes-to_bytes json formats fresh m x.text_bytes x.printable x.rereads in
      ap (λ (r : Bool × Inner). r.1)
        (reader_loop-send (wire_codec json formats fresh) as_read x.acknowledgement (m ∷ []) sender
          other x.to x.peer x.from x.generation x.turns x.later x.ending
          ((x.text_bytes, prints, reads), tt) x.reached x.idle
          ((x.addressed, (x.frame, (x.text_bytes, prints, x.framed))), tt) x.same_limit x.arrives
          x.smooth x.empty)
