-- ===== src/Mesh/Peers/Install.antt =====
-- `install_peer` keeps the invariant of the peer map, however the system calls end.
use glycoprotein_rs.Protocol.{peer_connected}
use glycoprotein_rs.Prelude.Map.{
  is_some, lookup-insert_again, lookup-insert_self, lookup-insert-some, insert, lookup-insert_ne,
  lookup,
}
use glycoprotein_rs.Mesh.NodeId.{validate_node_id}
use glycoprotein_rs.Mesh.NodeId.Laws.{validate_node_id_iff, IsNodeId}
use glycoprotein_rs.Mesh.Peers.Invariant.{
  send_event-IsMesh, track_thread-IsMesh, IsEntry, fewer-IsMesh, IsLive, IsMesh,
}
use glycoprotein_rs.Prelude.Result.{Result-cases, ok}
use glycoprotein_rs.Prelude.Text.{Str}
use glycoprotein_rs.Mesh.Peers.{
  register_connection, reading, writing, install_peer, register_peer, spawn_loops, fresh_cell,
  set_cell, Peer, Cell, allocate_peer, Inner, Setup, prepare_socket,
}
use glycoprotein_rs.Prelude.{
  Bool-cases, subst, sym, list_beq_iff, pair_has_eq, list_has_eq, nat_has_eq, arith, some, false,
  inr, inl, ◌⊎◌, ◌≢◌, ◌∙◌, refl, ◌≡◌, ◌<◌, ◌^◌, ◌+◌,
}

prepare_socket_cases :
    (setup : Setup) (node_id peer_id : Str)
    → prepare_socket setup node_id peer_id ≡ ok tt
    → IsNodeId peer_id × (peer_id ≢ node_id)
unfolding prepare_socket
prepare_socket_cases setup node_id peer_id h = elim (Result-cases (validate_node_id peer_id)) [
  | inl (tt, e) ↦
      ((validate_node_id_iff peer_id).0 e, ground (arith, e, list_beq_iff peer_id node_id))
  | inr (x, e) ↦ ground (arith, e)
]

module _ (peer_id : Str) {inner : Inner} (v : IsMesh inner)
    (room : inner.next_generation + 1 < 2 ^ 64) where
  peer : Peer
  unfolding allocate_peer
  peer = (allocate_peer peer_id inner).0

  allocated : Inner
  unfolding allocate_peer
  allocated = (allocate_peer peer_id inner).1

  -- A cell under the new handle, whatever it holds, leaves the older peers as they were.
  old-IsLive :
      (c : Cell) (id : Str) (q : Peer)
      → lookup id inner.peers ≡ some q
      → IsLive (set_cell peer.handle c allocated) q
  unfolding allocated peer
  old-IsLive c id q h =
      let (d, e, f) = v.live id q h in
      let x = v.entry id q h in
      (
        d,
        ground (
          arith,
          x.allocated,
          lookup-insert_ne inner.next_handle q.handle c
              (insert inner.next_handle fresh_cell inner.cells),
          lookup-insert_ne inner.next_handle q.handle fresh_cell inner.cells,
        ),
        f,
      )

  -- The second connection to a peer.
  spare-IsMesh : (c : Cell) → IsMesh (set_cell peer.handle c allocated)
  unfolding allocated peer
  spare-IsMesh c =
      fewer-IsMesh (set_cell peer.handle c allocated) v refl (omega arith) (omega arith)
        (λ id p h. h) (old-IsLive c)

  module _ (c : Cell) (unclosed : c.closed ≡ false) (id : IsNodeId peer_id)
      (foreign : peer_id ≢ inner.node_id) where
    added : Inner
    added =
        set_cell peer.handle c (record allocated { peers = insert peer_id peer allocated.peers })

    added_cases :
        (j : Str) (q : Peer)
        → lookup j added.peers ≡ some q
        → ((peer_id ≡ j) × (peer ≡ q)) ⊎ ((peer_id ≢ j) × (lookup j inner.peers ≡ some q))
    unfolding added allocated
    added_cases j q h = lookup-insert-some peer_id j peer q inner.peers h

    added-IsEntry : (j : Str) (q : Peer) → lookup j added.peers ≡ some q → IsEntry added j q
    unfolding added allocated peer
    added-IsEntry j q h = elim (added_cases j q h) [
      | inl (e, f) ↦ ground (arith, e, f, room, foreign)
      | inr (ne, old) ↦
          let x = v.entry j q old in ground (arith, x.named, x.older, x.allocated, x.foreign, room)
    ]

    added_distinct :
        (i j : Str) (p q : Peer)
        → lookup i added.peers ≡ some p
        → lookup j added.peers ≡ some q
        → (p.generation ≡ q.generation) ⊎ (p.handle ≡ q.handle)
        → i ≡ j
    unfolding peer
    added_distinct i j p q h k same = elim (added_cases i p h) [
      | inl (e, f) ↦ elim (added_cases j q k) [
        | inl (e', f') ↦ sym e ∙ e'
        | inr (ne, old) ↦ let x = v.entry j q old in ground (arith, f, x.older, x.allocated, same)
      ]
      | inr (ne, old) ↦ elim (added_cases j q k) [
        | inl (e', f') ↦ let x = v.entry i p old in ground (arith, f', x.older, x.allocated, same)
        | inr (ne', old') ↦ elim same [
          | inl g ↦ v.generations i j p q old old' g
          | inr g ↦ v.handles i j p q old old' g
        ]
      ]
    ]

    added-IsLive : (j : Str) (q : Peer) → lookup j added.peers ≡ some q → IsLive added q
    unfolding added
    added-IsLive j q h = elim (added_cases j q h) [
      | inl (e, f) ↦ (c, rw (← f) (lookup-insert_self peer.handle c allocated.cells), unclosed)
      | inr (ne, old) ↦ old-IsLive c j q old
    ]

    added-IsMesh : IsMesh added
    added-IsMesh = record {
      entry = added-IsEntry;
      valid = λ j q h. elim (added_cases j q h) [
        | inl (e, f) ↦ subst IsNodeId e id
        | inr (ne, old) ↦ v.valid j q old
      ];
      generations = λ i j p q h k e. added_distinct i j p q h k (inl e);
      handles = λ i j p q h k e. added_distinct i j p q h k (inr e);
      live = added-IsLive;
    }

  -- The same state with the fresh cell that `allocate_peer` made.
  registered : Inner
  registered = record allocated { peers = insert peer_id peer allocated.peers }

  registered-IsMesh : IsNodeId peer_id → peer_id ≢ inner.node_id → IsMesh registered
  unfolding registered added allocated peer
  registered-IsMesh id foreign =
      fewer-IsMesh registered (added-IsMesh fresh_cell refl id foreign) refl (omega arith)
        (omega arith) (λ j q h. h) live
    where
      live : (j : Str) (q : Peer) → lookup j registered.peers ≡ some q → IsLive registered q
      live j q h =
          let (d, e, f) = added-IsLive fresh_cell refl id foreign j q h in
          (
            d,
            sym (lookup-insert_again peer.handle q.handle fresh_cell fresh_cell inner.cells) ∙ e,
            f,
          )

  spawn_loops-IsMesh :
      (setup : Setup)
      → IsNodeId peer_id
      → peer_id ≢ inner.node_id
      → IsMesh (spawn_loops setup peer registered).1
  unfolding spawn_loops peer allocate_peer
  spawn_loops-IsMesh setup id foreign = elim (Result-cases setup.spawn_writer) [
    | inr (x, e) ↦
        rw (spawn_loops, e)
          (unfold registered added in
            added-IsMesh (record fresh_cell { receiving = false }) refl id foreign)
    | inl (_, e) ↦ elim (Result-cases setup.spawn_reader) [
      | inr (y, k) ↦
          rw (spawn_loops, e, k) (track_thread-IsMesh writing (registered-IsMesh id foreign))
      | inl (_, k) ↦
          rw (spawn_loops, e, k)
            (send_event-IsMesh (peer_connected peer_id) (
              track_thread-IsMesh reading
                (track_thread-IsMesh writing (registered-IsMesh id foreign))))
    ]
  ]

  register_peer-IsMesh :
      (setup : Setup)
      → IsNodeId peer_id
      → peer_id ≢ inner.node_id
      → IsMesh (register_peer setup peer allocated).1
  unfolding register_peer
  register_peer-IsMesh setup id foreign =
      elim (Bool-cases (is_some (lookup peer.id allocated.peers))) [
        | inl t ↦ rw (register_peer, t) (spare-IsMesh (record fresh_cell { control_open = false }))
        | inr f ↦
            rw (register_peer, f)
              (unfold registered peer allocate_peer in spawn_loops-IsMesh setup id foreign)
      ]

-- Its first part keeps it too.
pub register_connection-IsMesh :
    (setup : Setup) (peer_id : Str) {inner : Inner}
    → IsMesh inner
    → inner.next_generation + 1 < 2 ^ 64
    → IsMesh (register_connection setup peer_id inner)
unfolding register_connection allocate_peer
register_connection-IsMesh setup peer_id {inner} v room =
    elim (Result-cases (prepare_socket setup inner.node_id peer_id)) [
      | inr (x, e) ↦ rw (register_connection, e) v
      | inl (tt, e) ↦
          let (id, foreign) = prepare_socket_cases setup inner.node_id peer_id e in
          elim (Bool-cases (is_some (lookup peer_id inner.peers))) [
            | inl t ↦
                rw (register_connection, e, t)
                  (unfold allocated peer in
                    spare-IsMesh peer_id v room (record fresh_cell { control_open = false }))
            | inr f ↦
                rw (register_connection, e, f)
                  (unfold registered allocated peer in registered-IsMesh peer_id v room id foreign)
          ]
    ]

-- Until the 64-bit generation counter runs out, `install_peer` keeps the invariant, whether the
-- peer is new or known, and whichever of the system's calls fails.
pub install_peer-IsMesh :
    (setup : Setup) (peer_id : Str) {inner : Inner}
    → IsMesh inner
    → inner.next_generation + 1 < 2 ^ 64
    → IsMesh (install_peer setup peer_id inner).1
unfolding install_peer
install_peer-IsMesh setup peer_id {inner} v room =
    elim (Result-cases (prepare_socket setup inner.node_id peer_id)) [
      | inr (x, e) ↦ rw (install_peer, e) v
      | inl (tt, e) ↦
          let (id, foreign) = prepare_socket_cases setup inner.node_id peer_id e in
          rw (install_peer, e)
            (unfold peer allocated in register_peer-IsMesh peer_id v room setup id foreign)
    ]
