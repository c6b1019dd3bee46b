-- ===== src/Mesh/Loops/Ends.antt =====
-- The reader's thread ends.
use glycoprotein_rs.Mesh.Peers.Disconnect.{disconnect_peer-is_connected, is_connected}
use glycoprotein_rs.Mesh.Send.{Codec}
use glycoprotein_rs.Mesh.Loops.{reader_failed, receive_bytes, ReaderTurn, reader_loop}
use glycoprotein_rs.Prelude.Result.{Result-cases, ok}
use glycoprotein_rs.Mesh.Peers.{Inner}
use glycoprotein_rs.Prelude.Text.{Str}
use glycoprotein_rs.Mesh.Frame.{from_le_bytes, Stream, read_exact, read_message}
use glycoprotein_rs.Prelude.{
  All, ◌∷◌, [], true, inr, inl, refl, ◌<◌, ◌*◌, drop, take, length-drop, length, pair_has_eq,
  list_has_eq, nat_has_eq, arith, List, false, ◌≡◌, ◌≤◌, ◌+◌, ℕ,
}

read_message_shorter :
    (m : ℕ) (s t : Stream) (bytes : List ℕ)
    → read_message m s ≡ ok (bytes, t)
    → length t.incoming + 4 ≤ length s.incoming
unfolding read_message read_exact
read_message_shorter m s t bytes h = ground (
  arith,
  length-drop 4 s.incoming,
  length-drop (from_le_bytes (take 4 s.incoming)) (drop 4 s.incoming),
)

-- If its token is not cancelled, the reader's loop ends after at most one turn more than there are
-- whole groups of four bytes on the stream, and then its peer of that generation is not connected.
pub reader_loop-ends :
    (codec : Codec) (peer_id : Str) (generation : ℕ) (turns : List ReaderTurn) (stream : Stream)
    (inner : Inner)
    → All (λ (turn : ReaderTurn). turn.cancelled ≡ false) turns
    → length stream.incoming < 4 * length turns
    → ((reader_loop codec peer_id generation turns stream inner).0 ≡ true)
      × (is_connected peer_id generation (reader_loop codec peer_id generation turns stream inner).1
          ≡ false)
unfolding reader_loop
reader_loop-ends codec peer_id generation [] stream inner running enough = absurd (omega arith)
reader_loop-ends codec peer_id generation (turn ∷ turns) stream inner (going, running) enough =
    elim (Result-cases (read_message inner.max_frame_length stream)) [
      | inl ((bytes, stream'), e) ↦
          rw (reader_loop, going, e)
            (reader_loop-ends codec peer_id generation turns stream'
              (receive_bytes codec peer_id bytes inner) running
              (omega (arith, read_message_shorter inner.max_frame_length stream stream' bytes e)))
      | inr (x, e) ↦
          rw (reader_loop, going, e)
            (refl, unfold reader_failed in disconnect_peer-is_connected peer_id generation _)
    ]
