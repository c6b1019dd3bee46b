-- ===== src/Lib.antt =====
-- A model of glycoprotein-rs, a small RPC mesh: nodes on one machine find each other through Unix
-- sockets in a shared directory, publish their fields (methods and events) in beacons, and call each
-- other's methods.
--
-- The parts, and the files that model them (paths are from the repository's root):
-- Mesh: the transport of src/transport/unix_mesh.rs. Mesh/Frame is `frame_message` and
--   `read_message` on a list of bytes; Mesh/NodeId is `validate_node_id`; Mesh/Ordinal is
--   `dotnet_ordinal_cmp`; Mesh/Discovery holds the tests that `scan_and_connect` makes of a directory
--   entry; Mesh/Connect is both sides of the handshake, `accept_loop` and `discovery_loop`, with the
--   UTF-8 of Mesh/Utf8; Mesh/Peers is the peer map with `install_peer` and `disconnect_peer`;
--   Mesh/Send is `send_framed` and `enqueue`; Mesh/Loops is `writer_loop` and `reader_loop`;
--   Mesh/Delivery puts these two together, Mesh/Delivery/Wire with the messages' JSON, and
--   Mesh/Delivery/Everyone for a broadcast; Mesh/Lifecycle is `start_blocking` and `stop_blocking`,
--   and Mesh/Sleep `sleep_interruptibly`. The cell of a peer (its queue and its control socket) is
--   shared by threads and lives in a store of its own.
-- Protocol: the messages of src/protocol.rs. Protocol/Encode and Protocol/Decode print and read them
--   as their serde attributes say, from and to the tree of a JSON text; Protocol/Content is how serde
--   makes a JSON value (Json) of such a tree; Protocol/Decode/Bytes is `to_bytes` and `from_bytes`.
--   Protocol/Wire prints beacons as JSON values and is `beacon_signature` of src/node.rs.
-- Error and Schema: src/error.rs, its texts in Error/Display, and src/schema.rs.
-- Node: `NodeInner` of src/node.rs. Node/Presenters is `process_beacon`, `process_heartbeat`,
--   `cleanup_loop` and `find_remote_method`; Node/Registry is `insert_method`, `insert_event`,
--   `remove_field` and `build_beacon`; Node/Calls is `call_raw_with_options` and `process_reply`;
--   Node/Handlers is `dispatch_message` and `handle_query`; Node/Beacons is `beacon_loop`;
--   Node/Typed is the registrations and calls over serde types, Node/Events the emission and the
--   handlers of events, Node/Lifecycle `start`, `stop` and `dispatch_loop`, and Node/Options the
--   plain setters. Node/Requests is a call up to its wait, with a send that may fail; Node/Remote is
--   a call whose messages cross the mesh, and Node/Remote/Announced a beacon and an event that do.
-- Prelude: what they share: Booleans and lists over native numbers, texts as lists of code points,
--   decimal numbers, maps as association lists (insertion in order is a `BTreeMap`), results.
--
-- How they meet: the transport gives a node its messages, and `dispatch_message` hands a beacon or a
-- heartbeat to the presenters, a reply to the pending calls, and a query to a task of its own; a
-- call looks its method up among the presenters, which hold what the callee's registry published.
-- Below, a message that is sent is framed and queued for the writer thread of the receiver, whose
-- bytes the reader thread at the other end turns into the messages that it passes on. A node takes
-- its transport as the record `Connexon` of operations.
--
-- An operation is a function from the state before to the state after, with its result. Instants,
-- fresh ids, the outcome of each system call, the jsonschema and schemars crates, the conversions
-- of a caller's own types to JSON and back, and the printers and parsers of JSON texts, ids and
-- timestamps are arguments. A subscriber is the list of the events sent so far. Interleavings are
-- step relations. Those of the mesh's threads are `Reach` of Mesh/Peers/Histories, whose steps are
-- critical sections, which `Rounds` and `Stops` of Mesh/Lifecycle and `Life` go through, while
-- `install_peer`, `disconnect_peer` and the `Turns` of Mesh/Peers/Traces are whole calls
-- (Mesh/Peers/Sections relates the two). In a node, they are `Meanwhile` of Node/Calls/Pending,
-- `Steps` of Node/Handlers/Permits, and the list of happenings of Node/Presenters/History;
-- `insert_method`, `insert_event` and `start_query` are whole calls between which nothing comes,
-- and `add_method`, `add_event`, `acquire` and `release` their sections. A loop is a recursion on
-- the list of its turns, in which a turn holds what the thread met in it; no function runs on other
-- fuel. The generation of a peer is a `u64`, the beacon revision a `u64`, the tick counter a `u32`
-- and a frame's length an `i32`, each with its wrap-around.
--
-- Not modelled: how serde_json prints and parses texts, and the uuid and chrono crates print and
-- parse ids and instants (they are arguments); that serde takes an array for a struct, and which of
-- several errors it reports; the poll interval of the accept loop and the time-outs of sockets, the
-- shutdown of the process while threads run, the re-exports of src/lib.rs, the accessors that only
-- read a field, the example, and the capacity of the broadcast channels. A thread pool that fails to
-- run a start or a stop (`spawn_blocking`) is left out as well.
pub mod Prelude
pub mod Json
pub mod Error
pub mod Protocol
pub mod Mesh
pub mod Schema
pub mod Node
