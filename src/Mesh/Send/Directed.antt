-- ===== src/Mesh/Send/Directed.antt =====
-- Messages to one peer.
use glycoprotein_rs.Mesh.Frame.{frame_message}
use glycoprotein_rs.Error.{GlycoError}
use glycoprotein_rs.Protocol.{Glycosyl}
use glycoprotein_rs.Prelude.Text.{Str}
use glycoprotein_rs.Prelude.Result.{err, ok}
use glycoprotein_rs.Prelude.Map.{lookup-insert, lookup}
use glycoprotein_rs.Mesh.Send.{awaits_peer, ensure_started, finished, route, send_framed, enqueue}
use glycoprotein_rs.Mesh.Peers.{set_cell, Cell, Peer, WriteRequest, Inner}
use glycoprotein_rs.Prelude.{
  Bool-cases, list_beq_iff, inr, inl, ◌≢◌, pair_has_eq, list_has_eq, nat_has_eq, ◌==◌,
  if◌then◌else◌, arith, ◌++◌, ◌∷◌, [], List, some, none, Option, true, refl, ◌≡◌, ℕ,
}

-- The requests that wait behind a handle.
unfoldable pub queue_at : ℕ → Inner → List WriteRequest
queue_at handle inner = elim (lookup handle inner.cells) [ none ↦ [] | some cell ↦ cell.queue ]

-- The cell of a peer whose connection stands and whose writer runs.
abbrev pub IsOpen : Inner → Peer → Type 0
IsOpen inner peer =
    (cell : Cell) × (lookup peer.handle inner.cells ≡ some cell)
    × (cell.writer ≡ true)
    × (cell.receiving ≡ true)

-- A frame to an open peer goes to the end of its queue, and nothing else changes; open peers stay so.
pub enqueue-queue_at :
    (acknowledgement : ℕ) (frame : List ℕ) (peer : Peer) (inner : Inner)
    → IsOpen inner peer
    → (after : Inner) × (enqueue acknowledgement frame peer inner ≡ ok after)
      × ((handle : ℕ)
          → queue_at handle after ≡ (
              if peer.handle == handle
              then queue_at handle inner
                ++ record { bytes = frame; acknowledgement = acknowledgement } ∷ []
              else queue_at handle inner))
      × (after.peers ≡ inner.peers)
      × (after.events ≡ inner.events)
      × ((q : Peer) → IsOpen inner q → IsOpen after q)
unfolding enqueue queue_at
enqueue-queue_at acknowledgement frame peer inner (cell, found, writing, receiving) =
    let cell' : Cell = record cell {
      queue = cell.queue ++ record { bytes = frame; acknowledgement = acknowledgement } ∷ [];
    } in
    (
      set_cell peer.handle cell' inner,
      ground (arith, found, writing, receiving),
      λ handle. ground (arith, found, lookup-insert peer.handle handle cell' inner.cells),
      refl,
      refl,
      λ q o. elim (Bool-cases (peer.handle == q.handle)) [
        | inl t ↦ (
          cell',
          rw (lookup-insert peer.handle q.handle cell' inner.cells, t) refl,
          writing,
          receiving,
        )
        | inr f ↦ (o.0, rw (lookup-insert peer.handle q.handle cell' inner.cells, f) o.1, o.2, o.3)
      ],
    )

-- A send that ends at once with an error has queued nothing and told nobody anything.
pub send_framed_refused :
    (acknowledgement : ℕ) (payload : List ℕ) (to : Option Str) (loopback : Glycosyl) (inner : Inner)
    (e : GlycoError)
    → (send_framed acknowledgement payload to loopback inner).0 ≡ finished (err e)
    → (send_framed acknowledgement payload to loopback inner).1 ≡ inner
unfolding send_framed route
send_framed_refused acknowledgement payload none loopback inner e h = ground (arith)
send_framed_refused acknowledgement payload (some receiver) loopback inner e h = ground (arith)

pub send_framed-enqueue :
    (acknowledgement : ℕ) (payload frame : List ℕ) (to : Str) (loopback : Glycosyl)
    (inner after : Inner) (peer : Peer)
    → inner.started ≡ true
    → frame_message payload inner.max_frame_length ≡ ok frame
    → to ≢ inner.node_id
    → lookup to inner.peers ≡ some peer
    → enqueue acknowledgement frame peer inner ≡ ok after
    → send_framed acknowledgement payload (some to) loopback inner ≡ (awaits_peer peer, after)
unfolding send_framed route ensure_started
send_framed-enqueue acknowledgement payload frame to loopback inner after peer started framed
      foreign found queued =
    ground (arith, started, framed, list_beq_iff to inner.node_id, found, queued)

-- A message to a peer in the map whose writer is there and whose writer thread still receives, while
-- the mesh runs and the message fits a frame, waits at the end of that peer's queue; every other
-- queue, the map and the events are as they were.
pub send_framed_queued :
    (acknowledgement : ℕ) (payload frame : List ℕ) (to : Str) (loopback : Glycosyl) (inner : Inner)
    (peer : Peer)
    → inner.started ≡ true
    → frame_message payload inner.max_frame_length ≡ ok frame
    → to ≢ inner.node_id
    → lookup to inner.peers ≡ some peer
    → IsOpen inner peer
    → let (sending, after) = send_framed acknowledgement payload (some to) loopback inner in
      (sending ≡ awaits_peer peer)
      × ((handle : ℕ)
          → queue_at handle after ≡ (
              if peer.handle == handle
              then queue_at handle inner
                ++ record { bytes = frame; acknowledgement = acknowledgement } ∷ []
              else queue_at handle inner))
      × (after.peers ≡ inner.peers)
      × (after.events ≡ inner.events)
send_framed_queued acknowledgement payload frame to loopback inner peer started framed foreign found
      open_peer =
    let (after, queued, queues, peers, events, _) =
      enqueue-queue_at acknowledgement frame peer inner open_peer in
    rw
      (send_framed-enqueue acknowledgement payload frame to loopback inner after peer started framed
        foreign found queued)
      (refl, queues, peers, events)
