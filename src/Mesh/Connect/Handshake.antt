-- ===== src/Mesh/Connect/Handshake.antt =====
-- Two nodes become peers.
use glycoprotein_rs.Mesh.Send.Directed.{IsOpen, queue_at}
use glycoprotein_rs.Mesh.Frame.Laws.{read_message-frame_message}
use glycoprotein_rs.Mesh.Ordinal.{IsScalar}
use glycoprotein_rs.Error.{IoError}
use glycoprotein_rs.Mesh.Utf8.{from_utf8-as_bytes, as_bytes}
use glycoprotein_rs.Protocol.{peer_connected}
use glycoprotein_rs.Mesh.Frame.{max_handshake_length, frame_message}
use glycoprotein_rs.Error.Display.{Show}
use glycoprotein_rs.Prelude.Map.{lookup-insert_self, lookup, is_some}
use glycoprotein_rs.Mesh.NodeId.Laws.{validate_node_id_iff, IsNodeId}
use glycoprotein_rs.Prelude.Result.{ok}
use glycoprotein_rs.Mesh.Connect.{
  handle_incoming, Opening, shake_hands, connect_to_peer, install_or_report,
}
use glycoprotein_rs.Prelude.Text.{Str}
use glycoprotein_rs.Mesh.Peers.{
  fresh_cell, Peer, spawn_loops, register_peer, allocate_peer, install_peer, Inner, prepare_socket,
  Setup,
}
use glycoprotein_rs.Prelude.{
  some, sym, All, refl, list_beq_iff, pair_has_eq, list_has_eq, nat_has_eq, arith, ◌++◌, ◌∷◌, [],
  List, false, Bool, ◌≢◌, ◌≡◌, ℕ,
}

abbrev pub IsFine : Setup → Type 0
IsFine setup =
    (setup.set_nonblocking ≡ ok tt)
    × (setup.set_read_timeout ≡ ok tt)
    × (setup.set_write_timeout ≡ ok tt)
    × (setup.clone_reader ≡ ok tt)
    × (setup.clone_control ≡ ok tt)
    × (setup.spawn_writer ≡ ok tt)
    × (setup.spawn_reader ≡ ok tt)

abbrev pub has_peer : Str → Inner → Bool
has_peer id inner = is_some (lookup id inner.peers)

-- The node `id` is a peer whose connection stands, and nothing waits to be written to it.
abbrev pub IsReady : Str → Inner → Type 0
IsReady id inner =
    (peer : Peer) × (lookup id inner.peers ≡ some peer)
    × IsOpen inner peer
    × (queue_at peer.handle inner ≡ [])

prepare_socket_fine :
    (setup : Setup) (node_id peer_id : Str)
    → IsFine setup
    → IsNodeId peer_id
    → peer_id ≢ node_id
    → prepare_socket setup node_id peer_id ≡ ok tt
unfolding prepare_socket
prepare_socket_fine setup node_id peer_id fine v ne =
    ground (arith, fine, (validate_node_id_iff peer_id).1 v, list_beq_iff peer_id node_id)

install_or_report_fine :
    (show : Show) (setup : Setup) (peer_id : Str) (inner : Inner)
    → IsFine setup
    → IsNodeId peer_id
    → peer_id ≢ inner.node_id
    → has_peer peer_id inner ≡ false
    → let after = install_or_report show setup peer_id inner in
      IsReady peer_id after × (after.events ≡ inner.events ++ peer_connected peer_id ∷ [])
unfolding install_or_report install_peer allocate_peer register_peer spawn_loops queue_at
install_or_report_fine show setup peer_id inner fine v ne fresh =
    let ready = prepare_socket_fine setup inner.node_id peer_id fine v ne in
    let (peer, inner') = allocate_peer peer_id inner in
    let cell = lookup-insert_self inner.next_handle fresh_cell inner.cells in
    (
      (
        peer,
        ground (arith, ready, fine, fresh, lookup-insert_self peer_id peer inner.peers),
        (fresh_cell, ground (arith, ready, fine, fresh, cell), refl, refl),
        ground (arith, ready, fine, fresh, cell),
      ),
      ground (arith, ready, fine, fresh),
    )

shake_hands_fine :
    (show : Show) (opening : Opening) (peer_id : Str) (inner : Inner)
    → opening.cancelled ≡ false
    → opening.new_socket ≡ ok tt
    → opening.address ≡ ok tt
    → opening.connect ≡ ok tt
    → opening.write_handshake ≡ ok tt
    → has_peer peer_id inner ≡ false
    → (handshake : List ℕ)
    → frame_message (as_bytes inner.node_id) max_handshake_length ≡ ok handshake
    → connect_to_peer show opening peer_id inner
      ≡ (handshake, install_or_report show opening.setup peer_id inner)
unfolding connect_to_peer shake_hands
shake_hands_fine show opening peer_id inner going socket address connected wrote fresh handshake
      framed =
    ground (arith, going, socket, address, connected, wrote, fresh, framed)

-- The socket of a connection opens without an error.
pub record IsOpened (opening : Opening) : Type 0 where
  pub going : opening.cancelled ≡ false
  pub created : opening.new_socket ≡ ok tt
  pub addressed : opening.address ≡ ok tt
  pub connected : opening.connect ≡ ok tt
  pub written : opening.write_handshake ≡ ok tt
  pub prepared : IsFine opening.setup

handle_incoming_fine :
    (show : Show) (utf8_error : List ℕ → Str) (setup : Setup) (inner : Inner)
    → (peer_id : Str) (handshake rest : List ℕ) (ending : IoError) → All IsScalar peer_id
    → frame_message (as_bytes peer_id) max_handshake_length ≡ ok handshake
    → handle_incoming show utf8_error setup
        (record { incoming = handshake ++ rest; ending = ending })
        inner
      ≡ install_or_report show setup peer_id inner
unfolding handle_incoming
handle_incoming_fine show utf8_error setup inner peer_id handshake rest ending scalar framed =
    rw
      (
        handle_incoming,
        read_message-frame_message (as_bytes peer_id) handshake rest max_handshake_length ending
            framed,
        from_utf8-as_bytes peer_id scalar,
      )
      refl

-- Two nodes with valid and different ids, neither of which knows the other, and the id of the first
-- is a text whose frame is no longer than a handshake may be. No socket call fails, and no thread
-- fails to start. Then what the first writes when it connects, read by the second, makes each a
-- peer of the other, over a connection that stands and on which nothing waits, and each tells its
-- subscribers so, once; whatever bytes follow.
pub handle_incoming-connect_to_peer :
    (show : Show) (utf8_error : List ℕ → Str) (opening : Opening) (setup : Setup)
    → (caller callee : Inner) (handshake rest : List ℕ) (ending : IoError) → IsOpened opening
    → IsFine setup
    → IsNodeId caller.node_id
    → IsNodeId callee.node_id
    → caller.node_id ≢ callee.node_id
    → has_peer callee.node_id caller ≡ false
    → has_peer caller.node_id callee ≡ false
    → All IsScalar caller.node_id
    → frame_message (as_bytes caller.node_id) max_handshake_length ≡ ok handshake
    → let (sent, caller') = connect_to_peer show opening callee.node_id caller in
      let callee' =
        handle_incoming show utf8_error setup
          (record { incoming = sent ++ rest; ending = ending })
          callee in
      IsReady callee.node_id caller'
      × IsReady caller.node_id callee'
      × (caller'.events ≡ caller.events ++ peer_connected callee.node_id ∷ [])
      × (callee'.events ≡ callee.events ++ peer_connected caller.node_id ∷ [])
handle_incoming-connect_to_peer show utf8_error opening setup caller callee handshake rest ending o
      fine v w ne unknown unknown' scalar framed =
    let (known, told) =
      install_or_report_fine show opening.setup callee.node_id caller o.prepared w (λ e. ne (sym e))
        unknown in
    let (known', told') =
      install_or_report_fine show setup caller.node_id callee fine v ne unknown' in
    rw
      (
        shake_hands_fine show opening callee.node_id caller o.going o.created o.addressed
            o.connected o.written unknown handshake framed,
        handle_incoming_fine show utf8_error setup callee caller.node_id handshake rest ending
            scalar framed,
      )
      (known, known', told, told')
