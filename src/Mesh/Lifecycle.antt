-- ===== src/Mesh/Lifecycle.antt =====
-- Starting and stopping the mesh: `start_blocking`, `remove_stale_socket`, `stop_blocking` and
-- `cancel_without_joining` of src/transport/unix_mesh.rs. The answers of the operating system are
-- arguments. That a token is there is the field `started`; that it is cancelled is seen by the
-- loops, in their own arguments.
pub mod Start
pub mod Stop
pub mod Joining
mod Tests
use glycoprotein_rs.Mesh.Connect.{is_not_found}
use glycoprotein_rs.Mesh.Peers.Histories.{
  serves, tells, closes, removes, spawns, registers, here, next, Step, Reach,
}
use glycoprotein_rs.Prelude.Map.{values}
use glycoprotein_rs.Error.{node_already_running, io, GlycoError, IoError}
use glycoprotein_rs.Mesh.Peers.{discovering, Thread, accepting, track_thread, Peer, shutdown, Inner}
use glycoprotein_rs.Prelude.Text.{Str}
use glycoprotein_rs.Prelude.Result.{map_err, ◌>>◌, ok, err, ok, Result}
use glycoprotein_rs.Prelude.{
  not, pair_has_eq, list_has_eq, nat_has_eq, ◌==◌, if◌then◌else◌, arith, ◌++◌, ◌∷◌, [], List, some,
  none, Option, ◌||◌, ◌&&◌, false, true, Bool, inr, inl, ◌⊎◌, ◌↔◌, ◌≢◌, ◌∙◌, refl, ◌≡◌, ◌<◌, ◌≤◌,
  ◌^◌, ◌%◌, ◌/◌, ◌*◌, ◌-◌, ◌+◌, suc, zero, ℕ,
}

-- What the system answers while the mesh starts.
pub record Starting : Type 0 where
  pub create_dir : Result (Unit {0}) IoError
  pub socket_exists : Bool
  pub new_probe : Result (Unit {0}) IoError
  pub probe_address : Result (Unit {0}) IoError
  pub probe_connect : Result (Unit {0}) IoError
  pub remove_file : Result (Unit {0}) IoError
  pub new_listener : Result (Unit {0}) IoError
  pub listener_address : Result (Unit {0}) IoError
  pub bind : Result (Unit {0}) IoError
  pub listen : Result (Unit {0}) IoError
  pub set_nonblocking : Result (Unit {0}) IoError
  pub spawn_accept : Result (Unit {0}) IoError
  pub spawn_discovery : Result (Unit {0}) IoError

unfoldable pub remove_stale_socket : Starting → Str → Result (Unit {0}) GlycoError
remove_stale_socket system node_id = if not system.socket_exists then ok tt else do
  map_err io system.new_probe
  map_err io system.probe_address
  elim system.probe_connect [
    | ok _ ↦ err (node_already_running node_id)
    | err e ↦ map_err io system.remove_file
  ]

-- The part of `start_blocking` before there is a token.
unfoldable pub open_listener : Starting → Str → Result (Unit {0}) GlycoError
open_listener system node_id = do
  map_err io system.create_dir
  remove_stale_socket system node_id
  map_err io system.new_listener
  map_err io system.listener_address
  map_err io system.bind
  map_err io system.listen
  map_err io system.set_nonblocking

-- The part behind it
unfoldable pub spawn_workers : Starting → Inner → Result (Unit {0}) GlycoError × Inner
spawn_workers system inner = elim system.spawn_accept [
  | err e ↦ (err (io e), inner)
  | ok _ ↦ elim system.spawn_discovery [
    | err e ↦ (err (io e), track_thread accepting inner)
    | ok _ ↦ (ok tt, track_thread discovering (track_thread accepting inner))
  ]
]

unfoldable pub start_blocking : Starting → Inner → Result (Unit {0}) GlycoError × Inner
start_blocking system inner =
    if inner.started then (ok tt, inner) else elim (open_listener system inner.node_id) [
      | err e ↦ (err e, inner)
      | ok _ ↦ spawn_workers system (record inner { started = true })
    ]

unfoldable pub shutdown_all : List Peer → Inner → Inner
unfolding shutdown
shutdown_all [] inner = inner
shutdown_all (peer ∷ peers) inner = shutdown_all peers (shutdown peer inner)

-- `drain` of the map, under its lock: the peers that are to be shut down.
unfoldable pub drain_map : Inner → List Peer × Inner
drain_map inner = (values inner.peers, record inner { peers = [] })

-- The map is drained, and its peers are shut down.
unfoldable pub drain_peers : Inner → Inner
unfolding drain_map shutdown_all
drain_peers inner = let (peers, inner') = drain_map inner in shutdown_all peers inner'

-- Which thread spawns another in a section
abbrev pub spawner : {s t : Inner} {held held' : List Peer} → Step s held t held' → Option Thread
spawner (registers setup peer_id room) = none
spawner (spawns by thread may) = some by
spawner (removes id p found) = none
spawner (closes before p rest e) = none
spawner (tells e) = none
spawner (serves handle c queue receiving found) = none

abbrev pub Among : Option Thread → List Thread → Type 0
Among none threads = Unit
Among (some thread) [] = ⊥
Among (some thread) (x ∷ threads) = (x ≡ thread) ⊎ Among (some thread) threads

-- A thread that spawns another one runs: it is one of `batch`, or was itself spawned in the run.
abbrev pub Runs :
    (batch : List Thread) {s : Inner} {held : List Peer} {t : Inner} {held' : List Peer}
    → Reach s held t held'
    → Type 0
Runs batch here = Unit
Runs batch (next {t} r st) = Runs batch r × Among (spawner st) (batch ++ t.threads)

-- Rounds of the loop that joins: each empties `handles`, and joins those threads while they and
-- what they spawn run on.
pub data Rounds (s : Inner) (held : List Peer) : ℕ → Inner → List Peer → Type 0 where
  begun : Rounds s held 0 s held
  joined :
      {n : ℕ} {t u : Inner} {held' held'' : List Peer}
      → Rounds s held n t held'
      → t.threads ≢ []
      → (r : Reach (record t { threads = [] }) held' u held'') → Runs t.threads r
      → Rounds s held (suc n) u held''

-- A socket file that is not there is as good as removed.
unfoldable pub socket_removed : Result (Unit {0}) IoError → Result (Unit {0}) GlycoError
socket_removed (ok _) = ok tt
socket_removed (err e) = if is_not_found e.kind then ok tt else err (io e)

-- A run of `stop_blocking`, given the answer to `remove_file`: its result and the mesh behind it.
-- Other threads run after the token is taken, after the map is drained, while this thread shuts the
-- peers down, and while it joins; none of them starts the mesh. When all are joined, none is left that
-- has a peer yet to shut down.
pub data Stops (removal : Result (Unit {0}) IoError) (s : Inner) (held : List Peer)
    : Result (Unit {0}) GlycoError → Inner → Type 0 where
  not_running : s.started ≡ false → Stops removal s held (ok tt) s
  stopped :
      {t u v : Inner} {n : ℕ} {held' held'' : List Peer}
      → s.started ≡ true
      → Reach (record s { started = false }) held t held'
      → Reach (drain_map t).1 ((drain_map t).0 ++ held') u held''
      → Rounds u held'' n v []
      → v.threads ≡ []
      → Stops removal s held (socket_removed removal) v

-- `Drop` of the handle: whether the mesh was started or not.
unfoldable pub cancel_without_joining : Inner → Inner
unfolding drain_peers
cancel_without_joining inner = drain_peers (record inner { started = false })
