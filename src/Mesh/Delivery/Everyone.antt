-- ===== src/Mesh/Delivery/Everyone.antt =====
-- A message to everybody, as one of the peers gets it over the mesh.
use glycoprotein_rs.Mesh.Send.Broadcast.{
  frames_at, has_handle, HaveDistinctHandles, send_framed_broadcast,
}
use glycoprotein_rs.Mesh.Send.Directed.{IsOpen, queue_at}
use glycoprotein_rs.Mesh.Delivery.Wire.{wire_codec}
use glycoprotein_rs.Prelude.Map.{values}
use glycoprotein_rs.Prelude.Result.{ok}
use glycoprotein_rs.Mesh.Frame.{frame_message}
use glycoprotein_rs.Error.{IoError}
use glycoprotein_rs.Protocol.Decode.RoundTrip.{IsPrintable, as_read}
use glycoprotein_rs.Mesh.Loops.Link.{
  reader_loop-writer_loop, Carries, IsSmooth, arrivals, new_writer, running_turns,
}
use glycoprotein_rs.Mesh.Loops.{writer_loop, WriterTurn, reader_loop}
use glycoprotein_rs.Prelude.Text.{Str}
use glycoprotein_rs.Mesh.Peers.{WriteRequest, Peer, Inner}
use glycoprotein_rs.Protocol.{receiver, message, Glycosyl}
use glycoprotein_rs.Mesh.Send.{send_framed, send, Codec}
use glycoprotein_rs.Protocol.Encode.{Formats}
use glycoprotein_rs.Protocol.Decode.Bytes.{Rereads, from_bytes-to_bytes, to_bytes, JsonLibrary}
use glycoprotein_rs.Prelude.{
  subst, sym, map, ap, All, arith, ◌++◌, ◌∷◌, [], List, none, true, Bool, ◌∙◌, refl, ◌≡◌, ℕ,
  pair_has_eq, list_has_eq, nat_has_eq,
}

one_frame :
    (codec : Codec) (limit : ℕ) (m : Glycosyl) (payload frame : List ℕ) (q : List WriteRequest)
    → codec.to_bytes m ≡ ok payload
    → frame_message payload limit ≡ ok frame
    → map (λ (r : WriteRequest). r.bytes) q ≡ frame ∷ []
    → Carries codec limit q (m ∷ [])
one_frame codec limit m payload frame [] printed framed e = ground (arith, e)
one_frame codec limit m payload frame (r ∷ []) printed framed e =
    ((payload, printed, framed ∙ ap ok (sym (first e))), tt)
  where
    first : r.bytes ∷ [] ≡ frame ∷ [] → r.bytes ≡ frame
    first e = ground (arith, e)
one_frame codec limit m payload frame (r ∷ r' ∷ q) printed framed e = ground (arith, e)

module _ (json : JsonLibrary) (formats : Formats) (fresh : ℕ) where
  -- The node `sender` sends `m` to everybody; on the connection to its peer `peer` nothing waits; the
  -- writer thread of that peer, whose turns are `turns`, writes the frame, and the reader thread of
  -- the node `other` reads it, with `later` behind it.
  pub record Broadcast (m : Glycosyl) (sender other : Inner) : Type 0 where
    pub acknowledgement : ℕ
    pub peer : Peer
    pub from : Str
    pub generation : ℕ
    pub turns : List WriterTurn
    pub later : List ℕ
    pub ending : IoError
    pub text_bytes : List ℕ
    pub frame : List ℕ
    pub printable : IsPrintable formats m
    pub rereads : Rereads json formats m text_bytes
    pub addressed : receiver m ≡ none
    pub framed : frame_message text_bytes sender.max_frame_length ≡ ok frame
    pub started : sender.started ≡ true
    pub open_peers : All (IsOpen sender) (values sender.peers)
    pub distinct : HaveDistinctHandles (values sender.peers)
    pub connected : has_handle peer.handle (values sender.peers) ≡ true
    pub idle : queue_at peer.handle sender ≡ []
    pub same_limit : other.max_frame_length ≡ sender.max_frame_length
    pub arrives :
        arrivals turns
        ≡ queue_at peer.handle (send (wire_codec json formats fresh) acknowledgement m sender).1
    pub smooth : All IsSmooth turns
    pub empty : (writer_loop turns new_writer).queue ≡ []

  -- The other node, when its reader has read the frame.
  unfoldable pub heard : {m : Glycosyl} {sender other : Inner} → Broadcast m sender other → Inner
  heard {m} {sender} {other} x =
      (reader_loop (wire_codec json formats fresh) x.from x.generation (running_turns (m ∷ []))
        (record {
          incoming = (writer_loop x.turns new_writer).written ++ x.later;
          ending = x.ending;
        })
        other).1

  arrivals-Carries :
      {m : Glycosyl} {sender other : Inner} (x : Broadcast m sender other)
      → Carries (wire_codec json formats fresh) other.max_frame_length (arrivals x.turns) (m ∷ [])
  unfolding send to_bytes frames_at
  arrivals-Carries {m} {sender} {other} x =
      let codec = wire_codec json formats fresh in
      let prints =
        (from_bytes-to_bytes json formats fresh m x.text_bytes x.printable x.rereads).0 in
      let sent : send codec x.acknowledgement m sender
          ≡ send_framed x.acknowledgement x.text_bytes none m sender =
        rw (send, prints, x.addressed) refl in
      let (_, _, _, frames) =
        send_framed_broadcast x.acknowledgement x.text_bytes x.frame m sender x.started x.framed
          x.open_peers x.distinct in
      let bytes : frames_at x.peer.handle (send codec x.acknowledgement m sender).1 ≡ x.frame ∷ [] =
        rw (sent, frames x.peer.handle, x.connected, x.idle) refl in
      subst (λ l. Carries codec l (arrivals x.turns) (m ∷ [])) (sym x.same_limit)
        (one_frame codec sender.max_frame_length m x.text_bytes x.frame (arrivals x.turns) prints
          x.framed (rw x.arrives bytes))

  pub heard-events :
      {m : Glycosyl} {sender other : Inner} (x : Broadcast m sender other)
      → heard x ≡ record other { events = other.events ++ message (as_read m) ∷ [] }
  unfolding heard
  heard-events {m} {sender} {other} x =
      let (prints, reads) =
        from_bytes-to_bytes json formats fresh m x.text_bytes x.printable x.rereads in
      ap (λ (r : Bool × Inner). r.1)
        (reader_loop-writer_loop (wire_codec json formats fresh) as_read x.from x.generation x.turns
          (m ∷ []) x.later x.ending other ((x.text_bytes, prints, reads), tt) x.smooth x.empty
          (arrivals-Carries x))
