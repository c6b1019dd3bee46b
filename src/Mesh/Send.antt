-- ===== src/Mesh/Send.antt =====
-- Sending through the mesh: `send_framed`, `write_to_peer`, `enqueue`, `send` and `send_bytes` of
-- src/transport/unix_mesh.rs. An operation that awaits acknowledgements is cut there: what the
-- writer threads answer is an argument of its second half. A channel of an acknowledgement is a
-- number, and the channels of one broadcast are numbered from a given one on.
pub mod Await
pub mod Directed
pub mod Broadcast
pub mod Settled
mod Tests
use glycoprotein_rs.Prelude.Map.{values, lookup}
use glycoprotein_rs.Error.{
  peer_not_connected, io, not_started, json, broken_pipe, IoError, GlycoError,
}
use glycoprotein_rs.Mesh.Frame.{frame_message}
use glycoprotein_rs.Prelude.Result.{ok, ok, ok, ok, ok, err, err, err, Result}
use glycoprotein_rs.Prelude.Text.{text, Str}
use glycoprotein_rs.Mesh.Peers.{set_cell, send_event, report_fault, disconnect_peer, Peer, Inner}
use glycoprotein_rs.Protocol.{message, receiver, Glycosyl}
use glycoprotein_rs.Prelude.{
  not, pair_has_eq, list_has_eq, nat_has_eq, ◌==◌, if◌then◌else◌, arith, ◌++◌, ◌∷◌, [], List, some,
  none, Option, ◌||◌, ◌&&◌, false, true, Bool, inr, inl, ◌⊎◌, ◌↔◌, ◌≢◌, ◌∙◌, refl, ◌≡◌, ◌<◌, ◌≤◌,
  ◌^◌, ◌%◌, ◌/◌, ◌*◌, ◌-◌, ◌+◌, suc, zero, ℕ,
}

-- What serde_json makes of messages; an error is its message.
pub record Codec : Type 0 where
  pub to_bytes : Glycosyl → Result (List ℕ) Str
  pub from_bytes : List ℕ → Result Glycosyl Str

unfoldable pub ensure_started : Inner → Result (Unit {0}) GlycoError
ensure_started inner = if inner.started then ok tt else err not_started

abbrev pub broken_pipe_error : Str → IoError
broken_pipe_error report = record { kind = broken_pipe; message = report }

-- `Peer::enqueue`: the frame goes to the queue of the peer's writer thread.
unfoldable pub enqueue : ℕ → List ℕ → Peer → Inner → Result Inner IoError
enqueue acknowledgement frame peer inner = elim (lookup peer.handle inner.cells) [
  | none ↦ err (broken_pipe_error (text "peer is closed"))
  | some cell ↦
      if not cell.writer
      then err (broken_pipe_error (text "peer is closed"))
      else if not cell.receiving
      then err (broken_pipe_error (text "peer writer stopped"))
      else ok (
          set_cell peer.handle
            (record cell {
              queue =
                  cell.queue ++ record { bytes = frame; acknowledgement = acknowledgement } ∷ [];
            })
            inner)
]

-- What the receiver of an acknowledgement finds: an answer, or that the sender was dropped.
abbrev pub Answer : Type 0
Answer = Option (Result (Unit {0}) IoError)

-- `write_to_peer` behind its await
unfoldable pub acknowledged : Answer → Peer → Inner → Result (Unit {0}) GlycoError × Inner
unfolding disconnect_peer
acknowledged (some (ok _)) peer inner = (ok tt, inner)
acknowledged (some (err e)) peer inner = (err (io e), disconnect_peer peer.id peer.generation inner)
acknowledged none peer inner = (
  err (io (broken_pipe_error (text "peer writer stopped"))),
  disconnect_peer peer.id peer.generation inner,
)

-- The first loop of a broadcast: a peer comes with its acknowledgement channel, or an error.
unfoldable pub enqueue_all : ℕ → List ℕ → List Peer → Inner → List (Peer × Result ℕ IoError) × Inner
unfolding enqueue
enqueue_all acknowledgement frame [] inner = ([], inner)
enqueue_all acknowledgement frame (p ∷ ps) inner = elim (enqueue acknowledgement frame p inner) [
  | err e ↦
      let (pending, inner') = enqueue_all (acknowledgement + 1) frame ps inner in
      ((p, err e) ∷ pending, inner')
  | ok next ↦
      let (pending, inner') = enqueue_all (acknowledgement + 1) frame ps next in
      ((p, ok acknowledgement) ∷ pending, inner')
]

-- What one peer's answer comes to; `none` is the error of `receiver.await`, which `?` returns.
unfoldable pub broadcast_result :
    (ℕ → Answer) → Result ℕ IoError → Option (Result (Unit {0}) IoError)
broadcast_result answers (ok acknowledgement) = answers acknowledgement
broadcast_result answers (err e) = some (err e)

-- A peer whose write has failed
unfoldable pub fail_peer : Peer → IoError → Inner → Inner
fail_peer peer e inner =
    disconnect_peer peer.id peer.generation
      (report_fault (some peer.id) (text "broadcast write failed: " ++ e.message) inner)

-- The second loop of a broadcast, if no other thread comes between its turns
unfoldable pub finish_broadcast :
    (ℕ → Answer) → List (Peer × Result ℕ IoError) → Inner → Result (Unit {0}) GlycoError × Inner
finish_broadcast answers [] inner = (ok tt, inner)
finish_broadcast answers ((peer, r) ∷ pending) inner = elim (broadcast_result answers r) [
  | none ↦ (err (io (broken_pipe_error (text "peer writer stopped"))), inner)
  | some (ok _) ↦ finish_broadcast answers pending inner
  | some (err e) ↦ finish_broadcast answers pending (fail_peer peer e inner)
]

-- Where `send_framed` ends at once, or what it waits for.
pub data Sending : Type 0 where
  finished : Result (Unit {0}) GlycoError → Sending
  awaits_peer : Peer → Sending
  awaits_all : List (Peer × Result ℕ IoError) → Sending

-- The three cases of the receiver, once the frame is made
unfoldable pub route : ℕ → List ℕ → Option Str → Glycosyl → Inner → Sending × Inner
unfolding enqueue enqueue_all
route acknowledgement frame none loopback inner =
    let heard = send_event (message loopback) inner in
    let (pending, inner') = enqueue_all acknowledgement frame (values inner.peers) heard in
    (awaits_all pending, inner')
route acknowledgement frame (some receiver) loopback inner =
    if receiver == inner.node_id
    then (finished (ok tt), send_event (message loopback) inner)
    else elim (lookup receiver inner.peers) [
      | none ↦ (finished (err (peer_not_connected receiver)), inner)
      | some peer ↦ elim (enqueue acknowledgement frame peer inner) [
        | err e ↦ (finished (err (io e)), inner)
        | ok inner' ↦ (awaits_peer peer, inner')
      ]
    ]

unfoldable pub send_framed : ℕ → List ℕ → Option Str → Glycosyl → Inner → Sending × Inner
unfolding ensure_started frame_message route
send_framed acknowledgement payload receiver loopback inner = elim (ensure_started inner) [
  | err e ↦ (finished (err e), inner)
  | ok _ ↦ elim (frame_message payload inner.max_frame_length) [
    | err e ↦ (finished (err e), inner)
    | ok frame ↦ route acknowledgement frame receiver loopback inner
  ]
]

unfoldable pub send : Codec → ℕ → Glycosyl → Inner → Sending × Inner
unfolding send_framed receiver
send codec acknowledgement m inner = elim (codec.to_bytes m) [
  | err e ↦ (finished (err (json e)), inner)
  | ok bytes ↦ send_framed acknowledgement bytes (receiver m) m inner
]

unfoldable pub send_bytes : Codec → ℕ → List ℕ → Option Str → Inner → Sending × Inner
unfolding send_framed
send_bytes codec acknowledgement bytes to inner = elim (codec.from_bytes bytes) [
  | err e ↦ (finished (err (json e)), inner)
  | ok m ↦ send_framed acknowledgement bytes to m inner
]
