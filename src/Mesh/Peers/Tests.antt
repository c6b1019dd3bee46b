-- ===== src/Mesh/Peers/Tests.antt =====
-- A mesh node "alpha" that meets "beta".
use glycoprotein_rs.Mesh.Peers.Histories.{
  tells, removes, registers, made, begins_start, IsMesh-histories, runs, IsWorld, Life,
}
use glycoprotein_rs.Mesh.Peers.Traces.{disconnects, installs, done, after, IsTraced-Turns, Turns}
use glycoprotein_rs.Mesh.Peers.Connected.{
  connected_peers-AreSorted, is_listed, insert_id, sort_ids, AreSorted, connected_peers,
}
use glycoprotein_rs.Protocol.{peer_connected, peer_disconnected}
use glycoprotein_rs.Mesh.Peers.Disconnect.{disconnect_peer_current}
use glycoprotein_rs.Mesh.Frame.{default_max_frame_length}
use glycoprotein_rs.Mesh.Peers.Links.{IsTraced}
use glycoprotein_rs.Mesh.Peers.Install.{install_peer-IsMesh}
use glycoprotein_rs.Mesh.NodeId.{forbidden, any, file_name, validate_node_id}
use glycoprotein_rs.Prelude.Result.{ok}
use glycoprotein_rs.Prelude.Text.{Str, text}
use glycoprotein_rs.Prelude.Map.{remove, is_some, insert, lookup}
use glycoprotein_rs.Mesh.Peers.Invariant.{with_socket_directory-IsMesh, IsMesh}
use glycoprotein_rs.Mesh.Peers.{
  send_event, register_connection, spawn_loops, register_peer, allocate_peer, Cell, shutdown,
  prepare_socket, disconnect_peer, install_peer, with_socket_directory, Peer, Setup, Inner,
}
use glycoprotein_rs.Prelude.{
  pair_has_eq, list_has_eq, nat_has_eq, arith, ◌++◌, ◌∷◌, [], some, none, false, true, refl, ◌≡◌,
}

abbrev alpha : Inner
alpha = record {
  node_id = text "alpha";
  max_frame_length = default_max_frame_length;
  events = [];
  peers = [];
  cells = [];
  next_handle = 0;
  started = false;
  threads = [];
  next_generation = 1;
}

abbrev all_ok : Setup
all_ok = record {
  set_nonblocking = ok tt;
  set_read_timeout = ok tt;
  set_write_timeout = ok tt;
  clone_reader = ok tt;
  clone_control = ok tt;
  spawn_writer = ok tt;
  spawn_reader = ok tt;
}

abbrev beta_peer : Peer
beta_peer = record { id = text "beta"; generation = 1; handle = 0 }

alpha_made : with_socket_directory (text "alpha") ≡ ok alpha
unfolding with_socket_directory validate_node_id file_name any forbidden
alpha_made = refl

abbrev met : Inner
met = (install_peer all_ok (text "beta") alpha).1

abbrev lost : Inner
lost = disconnect_peer (text "beta") 1 met

beta_found : lookup (text "beta") met.peers ≡ some beta_peer
unfolding install_peer prepare_socket validate_node_id file_name any forbidden allocate_peer
    register_peer spawn_loops lookup insert
beta_found = refl

met_then_lost : lost.events ≡ peer_connected (text "beta") ∷ peer_disconnected (text "beta") ∷ []
unfolding disconnect_peer shutdown install_peer prepare_socket validate_node_id file_name any
    forbidden allocate_peer register_peer spawn_loops lookup insert
met_then_lost = refl

calls : Turns alpha lost
calls = after (after done (installs all_ok (text "beta") refl refl)) (disconnects (text "beta") 1)

abbrev seen : Inner
seen = register_connection all_ok (text "beta") (record alpha { started = true })

seen_found : lookup (text "beta") seen.peers ≡ some beta_peer
unfolding register_connection prepare_socket validate_node_id file_name any forbidden allocate_peer
    lookup insert
seen_found = refl

-- "beta" is taken out of the map before its connection is announced.
abbrev torn : Inner
torn =
    send_event (peer_connected (text "beta"))
      (record seen { peers = remove (text "beta") seen.peers })

history : Life alpha torn (beta_peer ∷ [])
history =
    runs
      (runs (runs (begins_start made) (registers all_ok (text "beta") (omega arith)))
        (removes (text "beta") beta_peer seen_found))
      (tells (peer_connected (text "beta")))

met-IsMesh : IsMesh met
met-IsMesh =
    install_peer-IsMesh all_ok (text "beta")
      (with_socket_directory-IsMesh (text "alpha") alpha alpha_made) (omega arith)

IsMesh-histories_example : IsWorld torn (beta_peer ∷ [])
IsMesh-histories_example =
    IsMesh-histories (text "alpha") alpha torn (beta_peer ∷ []) alpha_made history

IsTraced-Turns_example : IsTraced lost
IsTraced-Turns_example = IsTraced-Turns (text "alpha") alpha lost alpha_made calls

disconnect_peer_current_example :
    (lookup (text "beta") lost.peers ≡ none)
    × (lost.events ≡ met.events ++ peer_disconnected (text "beta") ∷ [])
    × ((c : Cell) × (lookup 0 lost.cells ≡ some c)
        × (c.closed ≡ true)
        × (c.writer ≡ false)
        × (c.control_open ≡ false))
disconnect_peer_current_example =
    disconnect_peer_current (text "beta") {inner = met} beta_peer met-IsMesh beta_found

lists : connected_peers met ≡ text "beta" ∷ []
unfolding connected_peers sort_ids insert_id install_peer allocate_peer register_peer spawn_loops
    prepare_socket validate_node_id file_name any forbidden lookup insert
lists = refl

connected_peers-AreSorted_example :
    AreSorted (connected_peers met)
    × ((id : Str) → is_listed id (connected_peers met) ≡ is_some (lookup id met.peers))
connected_peers-AreSorted_example = connected_peers-AreSorted met
