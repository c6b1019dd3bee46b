-- ===== src/Mesh/Loops.antt =====
-- The threads of a connection: `writer_loop` and `reader_loop` of src/transport/unix_mesh.rs. A loop
-- runs over its turns: what the token, the channel and the socket gave it at each. The other
-- threads' steps between two turns are left out.
pub mod Link
pub mod Replies
pub mod Ends
mod Tests
use glycoprotein_rs.Protocol.{message}
use glycoprotein_rs.Prelude.Text.{text, Str}
use glycoprotein_rs.Error.{IoError}
use glycoprotein_rs.Mesh.Send.{broken_pipe_error, Codec}
use glycoprotein_rs.Prelude.Result.{err, err, Result, ok}
use glycoprotein_rs.Mesh.Frame.{Stream, read_message}
use glycoprotein_rs.Mesh.Peers.{send_event, Inner, disconnect_peer, report_fault, WriteRequest}
use glycoprotein_rs.Prelude.{
  take, map, pair_has_eq, list_has_eq, nat_has_eq, ◌==◌, if◌then◌else◌, arith, ◌++◌, ◌∷◌, [], List,
  some, none, Option, ◌||◌, ◌&&◌, false, true, Bool, inr, inl, ◌⊎◌, ◌↔◌, ◌≢◌, ◌∙◌, refl, ◌≡◌, ◌<◌,
  ◌≤◌, ◌^◌, ◌%◌, ◌/◌, ◌*◌, ◌-◌, ◌+◌, suc, zero, ℕ,
}

-- A turn of the writer: whether the token is cancelled, the requests that came since the last turn,
-- whether a sender is left, and what `write_all` does: it writes all, or fails after some bytes.
pub record WriterTurn : Type 0 where
  pub cancelled : Bool
  pub arriving : List WriteRequest
  pub connected : Bool
  pub write : Result (Unit {0}) (IoError × ℕ)

pub record Writer : Type 0 where
  pub queue : List WriteRequest
  -- the bytes that went to the socket
  pub written : List ℕ
  -- what was sent on which acknowledgement channel, oldest first
  pub answers : List (ℕ × Result (Unit {0}) IoError)
  -- why the loop has ended, if a write failed
  pub failure : Option IoError

-- One turn of the loop: `false` is a `break` or the end of the `while`.
unfoldable pub writer_turn : WriterTurn → Writer → Bool × Writer
writer_turn turn w =
    if turn.cancelled
    then (false, record w { queue = w.queue ++ turn.arriving })
    else elim (w.queue ++ turn.arriving) [
      | [] ↦ (turn.connected, record w { queue = [] })
      | request ∷ rest ↦ elim turn.write [
        | ok _ ↦ (
          true,
          record w {
            queue = rest;
            written = w.written ++ request.bytes;
            answers = w.answers ++ (request.acknowledgement, ok tt) ∷ [];
          },
        )
        | err (e, n) ↦ (
          false,
          record w {
            queue = rest;
            written = w.written ++ take n request.bytes;
            answers = w.answers ++ (request.acknowledgement, err e) ∷ [];
            failure = some e;
          },
        )
      ]
    ]

-- The requests that are left when the loop ends are answered, not written.
unfoldable pub drain : Writer → Writer
drain w = record w {
  queue = [];
  answers =
      w.answers
      ++ map (λ r. (r.acknowledgement, err (broken_pipe_error (text "peer writer stopped"))))
          w.queue;
}

unfoldable pub writer_loop : List WriterTurn → Writer → Writer
unfolding writer_turn drain
writer_loop [] w = w
writer_loop (turn ∷ turns) w =
    let (goes_on, w') = writer_turn turn w in
    let rest = writer_loop turns w' in if goes_on then rest else drain w'

-- What the thread does to the mesh when a write has failed
unfoldable pub writer_failed : Str → ℕ → IoError → Inner → Inner
unfolding report_fault disconnect_peer
writer_failed peer_id generation e inner =
    disconnect_peer peer_id generation
      (report_fault (some peer_id) (text "write failed: " ++ e.message) inner)

-- The token at the head of a turn of the reader, and after a read that failed
pub record ReaderTurn : Type 0 where
  pub cancelled : Bool
  pub cancelled_later : Bool

unfoldable pub receive_bytes : Codec → Str → List ℕ → Inner → Inner
unfolding report_fault
receive_bytes codec peer_id bytes inner = elim (codec.from_bytes bytes) [
  | ok m ↦ send_event (message m) inner
  | err e ↦ report_fault (some peer_id) (text "invalid JSON message ignored: " ++ e) inner
]

unfoldable pub reader_failed : ReaderTurn → Str → ℕ → IoError → Inner → Inner
unfolding report_fault disconnect_peer
reader_failed turn peer_id generation e inner = disconnect_peer peer_id generation (
    if turn.cancelled_later
    then inner
    else report_fault (some peer_id) (text "read failed: " ++ e.message) inner)

-- Whether the loop has ended, and the mesh
unfoldable pub reader_loop : Codec → Str → ℕ → List ReaderTurn → Stream → Inner → Bool × Inner
reader_loop codec peer_id generation [] stream inner = (false, inner)
reader_loop codec peer_id generation (turn ∷ turns) stream inner = elim turn.cancelled [
  | true ↦ (true, inner)
  | false ↦ elim (read_message inner.max_frame_length stream) [
    | ok (bytes, stream') ↦
        reader_loop codec peer_id generation turns stream' (receive_bytes codec peer_id bytes inner)
    | err e ↦ (true, reader_failed turn peer_id generation e inner)
  ]
]
