-- ===== src/Mesh/Peers.antt =====
-- The shared state of a mesh node (`Inner` and `Peer` of src/transport/unix_mesh.rs) and the
-- operations on its peer map: `report_fault`, `Peer::shutdown`, `disconnect_peer`, `install_peer`.
-- An `Arc<Peer>` is its immutable fields with a handle; what its mutexes and its atomic hold, and
-- the channel to its writer thread, stand in `cells` under that handle.
pub mod Connected
pub mod Invariant
pub mod Install
pub mod Links
pub mod Disconnect
pub mod Shut
pub mod Histories
pub mod Traces
pub mod Sections
mod Tests
use glycoprotein_rs.Mesh.Frame.{default_max_frame_length}
use glycoprotein_rs.Mesh.NodeId.{validate_node_id}
use glycoprotein_rs.Error.{protocol, io, IoError, GlycoError}
use glycoprotein_rs.Prelude.Result.{map_err, ◌>>◌, ◌>>◌, ok, ok, err, err, Result}
use glycoprotein_rs.Prelude.Map.{is_some, remove, Map, lookup, insert}
use glycoprotein_rs.Protocol.{peer_connected, peer_disconnected, fault, ConnexonEvent}
use glycoprotein_rs.Prelude.Text.{text, Str}
use glycoprotein_rs.Prelude.{
  pair_has_eq, list_has_eq, nat_has_eq, ◌==◌, if◌then◌else◌, arith, ◌++◌, ◌∷◌, [], List, some, none,
  Option, ◌||◌, ◌&&◌, false, true, Bool, inr, inl, ◌⊎◌, ◌↔◌, ◌≢◌, ◌∙◌, refl, ◌≡◌, ◌<◌, ◌≤◌, ◌^◌,
  ◌%◌, ◌/◌, ◌*◌, ◌-◌, ◌+◌, suc, zero, ℕ,
}

pub record WriteRequest : Type 0 where
  pub bytes : List ℕ
  -- which acknowledgement channel the request answers on
  pub acknowledgement : ℕ

pub record Peer : Type 0 where
  pub id : Str
  pub generation : ℕ
  pub handle : ℕ

pub record Cell : Type 0 where
  -- the sender in the mutex; the receiver in the writer thread; what is sent and not received
  pub writer : Bool
  pub receiving : Bool
  pub queue : List WriteRequest
  pub control_open : Bool
  pub closed : Bool

-- What a thread runs: `accept_loop`, `discovery_loop`, `handle_incoming`, `writer_loop` or
-- `reader_loop`.
pub data Thread : Type 0 where
  accepting discovering handshaking writing reading : Thread

pub record Inner : Type 0 where
  pub node_id : Str
  pub max_frame_length : ℕ
  -- every event that was sent to the subscribers, oldest first
  pub events : List ConnexonEvent
  pub peers : Map Str Peer
  pub cells : Map ℕ Cell
  pub next_handle : ℕ
  -- whether `runtime.cancellation` is set
  pub started : Bool
  -- the handles of `threads`, oldest first
  pub threads : List Thread
  pub next_generation : ℕ

-- `UnixDomainMeshConnexon::with_socket_directory`, once the id and the address are accepted
unfoldable pub with_socket_directory : Str → Result Inner GlycoError
with_socket_directory node_id = do
  validate_node_id node_id
  ok (record {
    node_id = node_id;
    max_frame_length = default_max_frame_length;
    events = [];
    peers = [];
    cells = [];
    next_handle = 0;
    started = false;
    threads = [];
    next_generation = 1;
  })

abbrev pub send_event : ConnexonEvent → Inner → Inner
send_event e inner = record inner { events = inner.events ++ e ∷ [] }

unfoldable pub report_fault : Option Str → Str → Inner → Inner
report_fault peer message = send_event (fault peer message)

abbrev pub set_cell : ℕ → Cell → Inner → Inner
set_cell handle cell inner = record inner { cells = insert handle cell inner.cells }

-- `Peer::shutdown`: only the first call does anything.
unfoldable pub shutdown : Peer → Inner → Inner
shutdown peer inner = elim (lookup peer.handle inner.cells) [
  | none ↦ inner
  | some cell ↦
      if cell.closed
      then inner
      else set_cell peer.handle
          (record cell { closed = true; writer = false; control_open = false }) inner
]

-- A peer is disconnected only if it is still the one of that generation.
unfoldable pub disconnect_peer : Str → ℕ → Inner → Inner
disconnect_peer peer_id generation inner = elim (lookup peer_id inner.peers) [
  | none ↦ inner
  | some peer ↦
      if peer.generation == generation
      then send_event (peer_disconnected peer_id)
          (shutdown peer (record inner { peers = remove peer_id inner.peers }))
      else inner
]

-- What the operating system answers while a connection is installed.
pub record Setup : Type 0 where
  pub set_nonblocking : Result (Unit {0}) IoError
  pub set_read_timeout : Result (Unit {0}) IoError
  pub set_write_timeout : Result (Unit {0}) IoError
  pub clone_reader : Result (Unit {0}) IoError
  pub clone_control : Result (Unit {0}) IoError
  pub spawn_writer : Result (Unit {0}) IoError
  pub spawn_reader : Result (Unit {0}) IoError

-- The part of `install_peer` before the generation is drawn.
unfoldable pub prepare_socket : Setup → Str → Str → Result (Unit {0}) GlycoError
prepare_socket setup node_id peer_id = do
  validate_node_id peer_id
  (if peer_id == node_id then err (protocol (text "peer claimed the local node id")) else ok tt)
  map_err io setup.set_nonblocking
  map_err io setup.set_read_timeout
  map_err io setup.set_write_timeout
  map_err io setup.clone_reader
  map_err io setup.clone_control

abbrev pub fresh_cell : Cell
fresh_cell = record {
  writer = true;
  receiving = true;
  queue = [];
  control_open = true;
  closed = false;
}

-- `next_generation.fetch_add(1)` on an `AtomicU64`, and the allocation of the peer.
unfoldable pub allocate_peer : Str → Inner → Peer × Inner
allocate_peer peer_id inner = (
  record { id = peer_id; generation = inner.next_generation; handle = inner.next_handle },
  set_cell inner.next_handle fresh_cell (record inner {
    next_generation = (inner.next_generation + 1) % 2 ^ 64;
    next_handle = inner.next_handle + 1;
  }),
)

abbrev pub track_thread : Thread → Inner → Inner
track_thread thread inner = record inner { threads = inner.threads ++ thread ∷ [] }

-- The two threads of a new peer. A writer thread that is not spawned drops its receiver.
unfoldable pub spawn_loops : Setup → Peer → Inner → Result (Unit {0}) GlycoError × Inner
spawn_loops setup peer inner = elim setup.spawn_writer [
  | err e ↦ (err (io e), set_cell peer.handle (record fresh_cell { receiving = false }) inner)
  | ok _ ↦ elim setup.spawn_reader [
    | err e ↦ (err (io e), track_thread writing inner)
    | ok _ ↦ (
      ok tt,
      send_event (peer_connected peer.id) (track_thread reading (track_thread writing inner)),
    )
  ]
]

-- A second connection to the same peer is shut down, and the first one stays.
unfoldable pub register_peer : Setup → Peer → Inner → Result (Unit {0}) GlycoError × Inner
register_peer setup peer inner =
    if is_some (lookup peer.id inner.peers)
    then (ok tt, set_cell peer.handle (record fresh_cell { control_open = false }) inner)
    else spawn_loops setup peer (record inner { peers = insert peer.id peer inner.peers })

unfoldable pub install_peer : Setup → Str → Inner → Result (Unit {0}) GlycoError × Inner
install_peer setup peer_id inner = elim (prepare_socket setup inner.node_id peer_id) [
  | err e ↦ (err e, inner)
  | ok _ ↦ let (peer, inner') = allocate_peer peer_id inner in register_peer setup peer inner'
]

-- `install_peer` up to where it gives up the lock on the map.
unfoldable pub register_connection : Setup → Str → Inner → Inner
unfolding prepare_socket allocate_peer
register_connection setup peer_id inner = elim (prepare_socket setup inner.node_id peer_id) [
  | err e ↦ inner
  | ok _ ↦
      let (peer, inner') = allocate_peer peer_id inner in
      if is_some (lookup peer.id inner'.peers)
      then set_cell peer.handle (record fresh_cell { control_open = false }) inner'
      else record inner' { peers = insert peer.id peer inner'.peers }
]
