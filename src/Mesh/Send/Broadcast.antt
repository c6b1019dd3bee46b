-- ===== src/Mesh/Send/Broadcast.antt =====
-- Messages to everybody.
use glycoprotein_rs.Prelude.Map.{values}
use glycoprotein_rs.Mesh.Frame.{frame_message}
use glycoprotein_rs.Protocol.{message, Glycosyl}
use glycoprotein_rs.Error.{IoError}
use glycoprotein_rs.Prelude.Result.{ok, Result}
use glycoprotein_rs.Mesh.Send.{awaits_all, ensure_started, route, send_framed, enqueue_all, enqueue}
use glycoprotein_rs.Mesh.Send.Directed.{enqueue-queue_at, IsOpen, queue_at}
use glycoprotein_rs.Mesh.Peers.{send_event, WriteRequest, Inner, Peer}
use glycoprotein_rs.Prelude.{
  All-map, nat_eq_iff, All, map-append, Bool-cases, map, pair_has_eq, list_has_eq, nat_has_eq, ◌==◌,
  if◌then◌else◌, arith, ◌++◌, ◌∷◌, [], List, none, ◌||◌, false, true, Bool, inr, inl, ◌∙◌, refl,
  ◌≡◌, ◌+◌, ℕ,
}

abbrev pub has_handle : ℕ → List Peer → Bool
has_handle handle [] = false
has_handle handle (p ∷ ps) = p.handle == handle || has_handle handle ps

abbrev pub HaveDistinctHandles : List Peer → Type 0
HaveDistinctHandles [] = Unit
HaveDistinctHandles (p ∷ ps) = (has_handle p.handle ps ≡ false) × HaveDistinctHandles ps

-- The frames that wait behind a handle.
unfoldable pub frames_at : ℕ → Inner → List (List ℕ)
unfolding queue_at
frames_at handle inner = map (λ (r : WriteRequest). r.bytes) (queue_at handle inner)

-- The acknowledgement channels of a broadcast to `ps`.
abbrev pub numbered : ℕ → List Peer → List (Peer × Result ℕ IoError)
numbered acknowledgement [] = []
numbered acknowledgement (p ∷ ps) = (p, ok acknowledgement) ∷ numbered (acknowledgement + 1) ps

enqueue-frames_at :
    (acknowledgement : ℕ) (frame : List ℕ) (peer : Peer) (inner : Inner)
    → IsOpen inner peer
    → (after : Inner) × (enqueue acknowledgement frame peer inner ≡ ok after)
      × ((handle : ℕ)
          → frames_at handle after ≡ (
              if peer.handle == handle
              then frames_at handle inner ++ frame ∷ []
              else frames_at handle inner))
      × (after.peers ≡ inner.peers)
      × (after.events ≡ inner.events)
      × ((q : Peer) → IsOpen inner q → IsOpen after q)
unfolding frames_at
enqueue-frames_at acknowledgement frame peer inner o =
    let (after, queued, queues, peers, events, opens) =
      enqueue-queue_at acknowledgement frame peer inner o in
    (
      after,
      queued,
      λ handle. elim (Bool-cases (peer.handle == handle)) [
        | inl t ↦ rw (queues handle, t) (map-append _ (queue_at handle inner) _)
        | inr f ↦ rw (queues handle, f) refl
      ],
      peers,
      events,
      opens,
    )

-- Every open peer of the list gets the frame once.
enqueue_all-frames_at :
    (acknowledgement : ℕ) (frame : List ℕ) (ps : List Peer) (inner : Inner)
    → All (IsOpen inner) ps
    → HaveDistinctHandles ps
    → (after : Inner) × (enqueue_all acknowledgement frame ps inner
        ≡ (numbered acknowledgement ps, after))
      × ((handle : ℕ)
          → frames_at handle after ≡ (
              if has_handle handle ps
              then frames_at handle inner ++ frame ∷ []
              else frames_at handle inner))
      × (after.peers ≡ inner.peers)
      × (after.events ≡ inner.events)
unfolding enqueue_all
enqueue_all-frames_at acknowledgement frame [] inner o d = (inner, refl, λ handle. refl, refl, refl)
enqueue_all-frames_at acknowledgement frame (p ∷ ps) inner (o, os) (fresh, d) =
    let (next, queued, frames, peers, events, opens) =
      enqueue-frames_at acknowledgement frame p inner o in
    let (after, rest, frames', peers', events') =
      enqueue_all-frames_at (acknowledgement + 1) frame ps next (All-map opens ps os) d in
    (
      after,
      rw (enqueue_all, queued, rest) refl,
      λ handle. ground (arith, frames handle, frames' handle, fresh, nat_eq_iff p.handle handle),
      peers' ∙ peers,
      events' ∙ events,
    )

send_framed-enqueue_all :
    (acknowledgement : ℕ) (payload frame : List ℕ) (loopback : Glycosyl) (inner after : Inner)
    → inner.started ≡ true
    → frame_message payload inner.max_frame_length ≡ ok frame
    → enqueue_all acknowledgement frame (values inner.peers) (send_event (message loopback) inner)
      ≡ (numbered acknowledgement (values inner.peers), after)
    → send_framed acknowledgement payload none loopback inner
      ≡ (awaits_all (numbered acknowledgement (values inner.peers)), after)
unfolding send_framed route ensure_started
send_framed-enqueue_all acknowledgement payload frame loopback inner after started framed
      all_queued =
    ground (arith, started, framed, all_queued)

-- A message for everybody, while the mesh runs and the message fits a frame: the node hears it
-- itself, and if its peers are open and have cells of their own, the frame waits once at the end of
-- the queue of each of them, and no other queue has changed.
pub send_framed_broadcast :
    (acknowledgement : ℕ) (payload frame : List ℕ) (loopback : Glycosyl) (inner : Inner)
    → inner.started ≡ true
    → frame_message payload inner.max_frame_length ≡ ok frame
    → All (IsOpen inner) (values inner.peers)
    → HaveDistinctHandles (values inner.peers)
    → let (sending, after) = send_framed acknowledgement payload none loopback inner in
      (sending ≡ awaits_all (numbered acknowledgement (values inner.peers)))
      × (after.events ≡ inner.events ++ message loopback ∷ [])
      × (after.peers ≡ inner.peers)
      × ((handle : ℕ)
          → frames_at handle after ≡ (
              if has_handle handle (values inner.peers)
              then frames_at handle inner ++ frame ∷ []
              else frames_at handle inner))
send_framed_broadcast acknowledgement payload frame loopback inner started framed o d =
    let heard = send_event (message loopback) inner in
    let (after, all_queued, frames, peers, events) =
      enqueue_all-frames_at acknowledgement frame (values inner.peers) heard o d in
    rw
      (send_framed-enqueue_all acknowledgement payload frame loopback inner after started framed
        all_queued)
      (refl, events, peers, unfold frames_at in frames)
