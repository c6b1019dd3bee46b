-- ===== src/Mesh/Peers/Disconnect.antt =====
-- What `disconnect_peer` does for the generation that is connected, and which generations are then
-- connected.
use glycoprotein_rs.Protocol.{peer_disconnected}
use glycoprotein_rs.Mesh.Peers.Invariant.{shutdown_frame, IsMesh}
use glycoprotein_rs.Prelude.Map.{
  lookup-remove, remove, lookup-insert_self, lookup-remove_self, lookup,
}
use glycoprotein_rs.Prelude.Text.{Str}
use glycoprotein_rs.Mesh.Peers.{Cell, Peer, Inner, shutdown, disconnect_peer}
use glycoprotein_rs.Prelude.{
  Bool-cases, Option-cases, ◌==◌, Bool, inr, inl, beq_refl, pair_has_eq, list_has_eq, nat_has_eq,
  arith, ◌++◌, ◌∷◌, [], some, none, false, true, refl, ◌≡◌, ℕ,
}

-- The thread that knows the current generation takes the peer out, shuts it down and reports that.
pub disconnect_peer_current :
    (peer_id : Str) {inner : Inner} (p : Peer)
    → IsMesh inner
    → lookup peer_id inner.peers ≡ some p
    → let after = disconnect_peer peer_id p.generation inner in
      (lookup peer_id after.peers ≡ none)
      × (after.events ≡ inner.events ++ peer_disconnected peer_id ∷ [])
      × ((c : Cell) × (lookup p.handle after.cells ≡ some c)
          × (c.closed ≡ true)
          × (c.writer ≡ false)
          × (c.control_open ≡ false))
unfolding disconnect_peer shutdown
disconnect_peer_current peer_id {inner} p v found =
    let (c, e, f) = v.live peer_id p found in
    rw (disconnect_peer, found, beq_refl p.generation, shutdown, e, f)
      (
        lookup-remove_self peer_id inner.peers,
        refl,
        (
          record c { closed = true; writer = false; control_open = false },
          lookup-insert_self p.handle _ inner.cells,
          refl,
          refl,
          refl,
        ),
      )

-- Whether the peer of this generation is connected.
unfoldable pub is_connected : Str → ℕ → Inner → Bool
is_connected peer_id generation inner = elim (lookup peer_id inner.peers) [
  | none ↦ false
  | some peer ↦ peer.generation == generation
]

pub disconnect_peer-is_connected :
    (peer_id : Str) (generation : ℕ) (inner : Inner)
    → is_connected peer_id generation (disconnect_peer peer_id generation inner) ≡ false
unfolding is_connected disconnect_peer
disconnect_peer-is_connected peer_id generation inner =
    elim (Option-cases (lookup peer_id inner.peers)) [
      | inl e ↦ rw (disconnect_peer, e) (rw (is_connected, e) refl)
      | inr (p, e) ↦
          let smaller : Inner = record inner { peers = remove peer_id inner.peers } in
          elim (Bool-cases (p.generation == generation)) [
            | inl t ↦
                rw (disconnect_peer, e, t)
                  (rw
                    (
                      is_connected,
                      (shutdown_frame p smaller).0,
                      lookup-remove_self peer_id inner.peers,
                    )
                    refl)
            | inr f ↦ rw (disconnect_peer, e, f) (rw (is_connected, e) f)
          ]
    ]

-- Nobody gets connected by a disconnection.
pub is_connected-disconnect_peer :
    (id : Str) (g : ℕ) (peer_id : Str) (generation : ℕ) (inner : Inner)
    → is_connected id g inner ≡ false
    → is_connected id g (disconnect_peer peer_id generation inner) ≡ false
unfolding is_connected disconnect_peer
is_connected-disconnect_peer id g peer_id generation inner h =
    elim (Option-cases (lookup peer_id inner.peers)) [
      | inl e ↦ rw (disconnect_peer, e) h
      | inr (p, e) ↦
          let smaller : Inner = record inner { peers = remove peer_id inner.peers } in
          elim (Bool-cases (p.generation == generation)) [
            | inl t ↦
                rw (disconnect_peer, e, t)
                  (rw (is_connected, (shutdown_frame p smaller).0)
                    (ground (arith, lookup-remove peer_id id inner.peers, h)))
            | inr f ↦ rw (disconnect_peer, e, f) h
          ]
    ]
