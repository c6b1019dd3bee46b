-- ===== src/Mesh/Peers/Invariant.antt =====
-- The invariant of the peer map, and that every operation of `Mesh.Peers` keeps it.
use glycoprotein_rs.Mesh.NodeId.{validate_node_id}
use glycoprotein_rs.Prelude.Result.{Result-cases, ok}
use glycoprotein_rs.Mesh.NodeId.Laws.{IsNodeId}
use glycoprotein_rs.Prelude.Map.{lookup-insert_ne, lookup}
use glycoprotein_rs.Prelude.Text.{Str}
use glycoprotein_rs.Protocol.{ConnexonEvent}
use glycoprotein_rs.Mesh.Peers.{
  Thread, track_thread, Cell, shutdown, send_event, Peer, with_socket_directory, Inner,
}
use glycoprotein_rs.Prelude.{
  Option-cases, true, refl, ◌≤◌, pair_has_eq, list_has_eq, nat_has_eq, arith, some, false, inr, inl,
  ◌≢◌, ◌≡◌, ◌<◌, ℕ,
}

-- What holds of the peer that is found under `id`.
pub record IsEntry (inner : Inner) (id : Str) (peer : Peer) : Type 0 where
  pub named : peer.id ≡ id
  pub older : peer.generation < inner.next_generation
  pub allocated : peer.handle < inner.next_handle
  pub foreign : id ≢ inner.node_id

pub record IsMesh (inner : Inner) : Type 0 where
  pub entry : (id : Str) (p : Peer) → lookup id inner.peers ≡ some p → IsEntry inner id p
  pub valid : (id : Str) (p : Peer) → lookup id inner.peers ≡ some p → IsNodeId id
  pub generations :
      (i j : Str) (p q : Peer)
      → lookup i inner.peers ≡ some p
      → lookup j inner.peers ≡ some q
      → p.generation ≡ q.generation
      → i ≡ j
  pub handles :
      (i j : Str) (p q : Peer)
      → lookup i inner.peers ≡ some p
      → lookup j inner.peers ≡ some q
      → p.handle ≡ q.handle
      → i ≡ j
  -- A peer in the map is not shut down.
  pub live :
      (id : Str) (p : Peer)
      → lookup id inner.peers ≡ some p
      → (c : Cell) × (lookup p.handle inner.cells ≡ some c) × (c.closed ≡ false)

pub with_socket_directory-IsMesh :
    (node_id : Str) (inner : Inner) → with_socket_directory node_id ≡ ok inner → IsMesh inner
unfolding with_socket_directory lookup
with_socket_directory-IsMesh node_id inner h = elim (Result-cases (validate_node_id node_id)) [
  | inl (_, e) ↦ record {
    entry = λ id p k. ground arith;
    valid = λ id p k. ground arith;
    generations = λ i j p q k l m. ground arith;
    handles = λ i j p q k l m. ground arith;
    live = λ id p k. ground arith;
  }
  | inr (x, e) ↦ ground arith
]

abbrev pub IsLive : Inner → Peer → Type 0
IsLive inner p = (c : Cell) × (lookup p.handle inner.cells ≡ some c) × (c.closed ≡ false)

-- A state whose peers were there before, and are live, is as good.
pub fewer-IsMesh :
    {inner : Inner} (inner' : Inner)
    → IsMesh inner
    → inner'.node_id ≡ inner.node_id
    → inner.next_generation ≤ inner'.next_generation
    → inner.next_handle ≤ inner'.next_handle
    → ((id : Str) (p : Peer) → lookup id inner'.peers ≡ some p → lookup id inner.peers ≡ some p)
    → ((id : Str) (p : Peer) → lookup id inner'.peers ≡ some p → IsLive inner' p)
    → IsMesh inner'
fewer-IsMesh {inner} inner' v same gen handle old live = record {
  entry = λ id p h.
      let x = v.entry id p (old id p h) in ground (arith, x.named, x.older, x.allocated, x.foreign);
  valid = λ id p h. v.valid id p (old id p h);
  generations = λ i j p q h k. v.generations i j p q (old i p h) (old j q k);
  handles = λ i j p q h k. v.handles i j p q (old i p h) (old j q k);
  live = live;
}

-- Events are no part of the invariant.
pub send_event-IsMesh :
    (e : ConnexonEvent) {inner : Inner} → IsMesh inner → IsMesh (send_event e inner)
send_event-IsMesh e {inner} v =
    fewer-IsMesh (send_event e inner) v refl (omega arith) (omega arith) (λ id p h. h) v.live

pub track_thread-IsMesh :
    (thread : Thread) {inner : Inner} → IsMesh inner → IsMesh (track_thread thread inner)
track_thread-IsMesh thread {inner} v =
    fewer-IsMesh (track_thread thread inner) v refl (omega arith) (omega arith) (λ id p h. h) v.live

-- `shutdown` changes nothing but the cell of its peer.
pub shutdown_frame :
    (p : Peer) (inner : Inner)
    → ((shutdown p inner).peers ≡ inner.peers)
      × ((shutdown p inner).node_id ≡ inner.node_id)
      × ((shutdown p inner).events ≡ inner.events)
      × ((shutdown p inner).next_generation ≡ inner.next_generation)
      × ((shutdown p inner).next_handle ≡ inner.next_handle)
      × ((shutdown p inner).started ≡ inner.started)
unfolding shutdown
shutdown_frame p inner = ground arith

pub shutdown_other :
    (p : Peer) (inner : Inner) (k : ℕ)
    → k ≢ p.handle
    → lookup k (shutdown p inner).cells ≡ lookup k inner.cells
unfolding shutdown
shutdown_other p inner k ne = elim (Option-cases (lookup p.handle inner.cells)) [
  | inl e ↦ rw (shutdown, e) refl
  | inr (c, e) ↦ ground (
    arith,
    lookup-insert_ne p.handle k (record c { closed = true; writer = false; control_open = false })
        inner.cells,
  )
]
