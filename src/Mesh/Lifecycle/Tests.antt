-- ===== src/Mesh/Lifecycle/Tests.antt =====
-- "alpha" starts, meets "beta", and stops.
use glycoprotein_rs.Mesh.Peers.Histories.{closes, spawns, here, IsWorld, next}
use glycoprotein_rs.Mesh.Lifecycle.Joining.{Rounds-bound}
use glycoprotein_rs.Mesh.NodeId.{forbidden, any, file_name, validate_node_id}
use glycoprotein_rs.Mesh.Lifecycle.Stop.{Stops-IsStopping, WasShut}
use glycoprotein_rs.Mesh.Frame.{default_max_frame_length}
use glycoprotein_rs.Mesh.Peers.Install.{install_peer-IsMesh}
use glycoprotein_rs.Mesh.Lifecycle.Start.{start_blocking-Outcome, Outcome}
use glycoprotein_rs.Prelude.Result.{err, ok}
use glycoprotein_rs.Prelude.Text.{Str, text}
use glycoprotein_rs.Mesh.Peers.Invariant.{IsMesh}
use glycoprotein_rs.Prelude.Map.{insert, lookup}
use glycoprotein_rs.Mesh.Lifecycle.{
  drain_map, begun, joined, Rounds, stopped, spawn_workers, socket_removed, remove_stale_socket,
  open_listener, Stops, start_blocking, Starting,
}
use glycoprotein_rs.Error.{io, would_block, not_found, IoError}
use glycoprotein_rs.Mesh.Peers.{
  handshaking, Peer, accepting, reading, writing, track_thread, prepare_socket, spawn_loops,
  shutdown, register_peer, allocate_peer, install_peer, Setup, Inner,
}
use glycoprotein_rs.Prelude.{
  ◌++◌, ◌∷◌, inl, ◌≤◌, pair_has_eq, list_has_eq, nat_has_eq, arith, [], false, true, refl, ◌≡◌,
}

abbrev alpha : Inner
alpha = record {
  node_id = text "alpha";
  max_frame_length = default_max_frame_length;
  events = [];
  peers = [];
  cells = [];
  next_handle = 0;
  started = false;
  threads = [];
  next_generation = 1;
}

abbrev gone : IoError
gone = record { kind = not_found; message = text "No such file or directory" }

abbrev tired : IoError
tired = record { kind = would_block; message = text "Resource temporarily unavailable" }

-- The discovery thread does not start.
abbrev half_starts : Starting
half_starts = record {
  create_dir = ok tt;
  socket_exists = true;
  new_probe = ok tt;
  probe_address = ok tt;
  probe_connect = err gone;
  remove_file = ok tt;
  new_listener = ok tt;
  listener_address = ok tt;
  bind = ok tt;
  listen = ok tt;
  set_nonblocking = ok tt;
  spawn_accept = ok tt;
  spawn_discovery = err tired;
}

starts : Starting
starts = record half_starts { spawn_discovery = ok tt }

half_started :
    start_blocking half_starts alpha
    ≡ (err (io tired), track_thread accepting (record alpha { started = true }))
unfolding start_blocking open_listener remove_stale_socket spawn_workers
half_started = refl

start_blocking-Outcome_example :
    let (result, after) = start_blocking half_starts alpha in Outcome alpha result after
start_blocking-Outcome_example = start_blocking-Outcome half_starts alpha refl

abbrev all_ok : Setup
all_ok = record {
  set_nonblocking = ok tt;
  set_read_timeout = ok tt;
  set_write_timeout = ok tt;
  clone_reader = ok tt;
  clone_control = ok tt;
  spawn_writer = ok tt;
  spawn_reader = ok tt;
}

abbrev met : Inner
met = (install_peer all_ok (text "beta") (record alpha { started = true })).1

alpha-IsMesh : IsMesh (record alpha { started = true })
unfolding lookup
alpha-IsMesh = record {
  entry = λ id p h. ground arith;
  valid = λ id p h. ground arith;
  generations = λ i j p q h k e. ground arith;
  handles = λ i j p q h k e. ground arith;
  live = λ id p h. ground arith;
}

met-IsMesh : IsMesh met
met-IsMesh = install_peer-IsMesh all_ok (text "beta") alpha-IsMesh (omega arith)

met_started : met.started ≡ true
unfolding install_peer allocate_peer register_peer spawn_loops prepare_socket validate_node_id
    file_name any forbidden lookup insert
met_started = refl

abbrev beta_peer : Peer
beta_peer = record { id = text "beta"; generation = 1; handle = 0 }

abbrev stopping : Inner
stopping = shutdown beta_peer (drain_map (record met { started = false })).1

met_threads : stopping.threads ≡ writing ∷ reading ∷ []
unfolding drain_map shutdown install_peer allocate_peer register_peer spawn_loops prepare_socket
    validate_node_id file_name any forbidden lookup insert
met_threads = refl

-- The accepting thread spawns one for a handshake just before it ends.
two-Rounds :
    Rounds (record stopping { threads = accepting ∷ [] }) [] 2 (record stopping { threads = [] }) []
two-Rounds =
    joined (joined begun (λ e. cc) (next here (spawns accepting handshaking refl)) (tt, inl refl))
      (λ e. cc) here tt

Rounds-bound_example : 2 ≤ 3
Rounds-bound_example = Rounds-bound two-Rounds

met-IsWorld : IsWorld met []
unfolding install_peer allocate_peer register_peer spawn_loops prepare_socket validate_node_id
    file_name any forbidden lookup insert
met-IsWorld = (met-IsMesh, (refl, tt), tt)

drained : (drain_map (record met { started = false })).0 ++ [] ≡ beta_peer ∷ []
unfolding drain_map install_peer allocate_peer register_peer spawn_loops prepare_socket
    validate_node_id file_name any forbidden lookup insert
drained = refl

run : Stops (err gone) met [] (socket_removed (err gone)) (record stopping { threads = [] })
run =
    stopped met_started here (next here (closes [] beta_peer [] drained))
      (joined begun (λ e. ground (arith, e, met_threads)) here tt) refl

Stops-IsStopping_example :
    IsMesh (record stopping { threads = [] })
    × (stopping.started ≡ false)
    × ((record stopping { threads = [] }).threads ≡ [])
    × ((id : Str) → WasShut (lookup id met.peers) (record stopping { threads = [] }))
    × (socket_removed (err gone) ≡ socket_removed (err gone))
Stops-IsStopping_example = Stops-IsStopping (err gone) met-IsWorld met_started run
