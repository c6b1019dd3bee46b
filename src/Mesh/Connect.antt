-- ===== src/Mesh/Connect.antt =====
-- How connections come about: `connect_to_peer`, `handle_incoming`, `spawn_incoming_handler`,
-- `scan_and_connect`, `accept_loop` and `discovery_loop` of src/transport/unix_mesh.rs. The answers
-- of the operating system are arguments, and the node is not dropped while the threads run. A
-- socket that is connected but not installed is closed.
pub mod Handshake
pub mod Scan
mod Tests
use glycoprotein_rs.Mesh.Discovery.{peer_to_connect}
use glycoprotein_rs.Prelude.Map.{lookup, is_some}
use glycoprotein_rs.Mesh.Utf8.{from_utf8, as_bytes}
use glycoprotein_rs.Prelude.Text.{text, Str}
use glycoprotein_rs.Error.{not_found, would_block, IoError, ErrorKind}
use glycoprotein_rs.Error.Display.{show_error, Show}
use glycoprotein_rs.Mesh.Frame.{read_message, Stream, max_handshake_length, frame_message}
use glycoprotein_rs.Mesh.Peers.{handshaking, track_thread, Setup, Inner, report_fault, install_peer}
use glycoprotein_rs.Prelude.Result.{err, err, err, err, ok, ok, ok, Result}
use glycoprotein_rs.Prelude.{
  pair_has_eq, list_has_eq, nat_has_eq, ◌==◌, if◌then◌else◌, arith, ◌++◌, ◌∷◌, [], List, some, none,
  Option, ◌||◌, ◌&&◌, false, true, Bool, inr, inl, ◌⊎◌, ◌↔◌, ◌≢◌, ◌∙◌, refl, ◌≡◌, ◌<◌, ◌≤◌, ◌^◌,
  ◌%◌, ◌/◌, ◌*◌, ◌-◌, ◌+◌, suc, zero, ℕ,
}

-- What the system answers while a connection is opened.
pub record Opening : Type 0 where
  pub cancelled : Bool
  pub new_socket : Result (Unit {0}) IoError
  pub address : Result (Unit {0}) IoError
  pub connect : Result (Unit {0}) IoError
  pub write_handshake : Result (Unit {0}) IoError
  pub setup : Setup

-- `install_peer` by a thread that reports its error
unfoldable pub install_or_report : Show → Setup → Str → Inner → Inner
unfolding install_peer report_fault show_error
install_or_report show setup peer_id inner =
    let (result, inner') = install_peer setup peer_id inner in
    elim result [ ok _ ↦ inner' | err e ↦ report_fault (some peer_id) (show_error show e) inner' ]

-- The bytes that went to the socket, and the mesh.
unfoldable pub shake_hands : Show → Opening → Str → Inner → List ℕ × Inner
unfolding frame_message as_bytes
shake_hands show opening peer_id inner =
    elim (frame_message (as_bytes inner.node_id) max_handshake_length) [
      | err e ↦ ([], report_fault (some peer_id) (show_error show e) inner)
      | ok handshake ↦ elim opening.write_handshake [
        | err e ↦ ([], report_fault (some peer_id) (text "handshake failed: " ++ e.message) inner)
        | ok _ ↦ (handshake, install_or_report show opening.setup peer_id inner)
      ]
    ]

unfoldable pub connect_to_peer : Show → Opening → Str → Inner → List ℕ × Inner
connect_to_peer show opening peer_id inner =
    if opening.cancelled || is_some (lookup peer_id inner.peers)
    then ([], inner)
    else elim opening.new_socket [
      | err e ↦ ([], report_fault (some peer_id) e.message inner)
      | ok _ ↦ elim opening.address [
        | err e ↦ ([], report_fault (some peer_id) e.message inner)
        | ok _ ↦ elim opening.connect [
          | err e ↦ ([], inner)
          | ok _ ↦ shake_hands show opening peer_id inner
        ]
      ]
    ]

-- How the standard library reports bytes that are not UTF-8 is the argument `utf8_error`.
unfoldable pub handle_incoming : Show → (List ℕ → Str) → Setup → Stream → Inner → Inner
handle_incoming show utf8_error setup stream inner =
    elim (read_message max_handshake_length stream) [
      | err e ↦ report_fault none (text "invalid peer handshake: " ++ e.message) inner
      | ok (handshake, rest) ↦ elim (from_utf8 handshake) [
        | none ↦ report_fault none (text "peer id is not UTF-8: " ++ utf8_error handshake) inner
        | some peer_id ↦ install_or_report show setup peer_id inner
      ]
    ]

unfoldable pub spawn_incoming_handler : Result (Unit {0}) IoError → Inner → Inner
unfolding report_fault
spawn_incoming_handler (ok _) inner = track_thread handshaking inner
spawn_incoming_handler (err e) inner =
    report_fault none (text "could not spawn handshake worker: " ++ e.message) inner

-- A turn of `accept_loop`: a connection with the outcome of its spawn, or an error, with the token
-- as it is read behind it.
pub data Accepted : Type 0 where
  incoming : (spawn : Result (Unit {0}) IoError) → Accepted
  accept_failed : (e : IoError) (cancelled_later : Bool) → Accepted

abbrev pub is_would_block : ErrorKind → Bool
is_would_block would_block = true
is_would_block _ = false

unfoldable pub accept_turn : Accepted → Inner → Inner
unfolding spawn_incoming_handler report_fault
accept_turn (incoming spawn) inner = spawn_incoming_handler spawn inner
accept_turn (accept_failed e cancelled_later) inner =
    if is_would_block e.kind || cancelled_later
    then inner
    else report_fault none (text "accept failed: " ++ e.message) inner

-- The turns before the token is cancelled
unfoldable pub accept_loop : List Accepted → Inner → Inner
unfolding accept_turn
accept_loop [] inner = inner
accept_loop (a ∷ rest) inner = accept_loop rest (accept_turn a inner)

-- An entry of the socket directory, if its name is UTF-8, with the token before it and the answers
-- to its connection.
pub record Entry : Type 0 where
  pub cancelled : Bool
  pub name : Option Str
  pub opening : Opening

unfoldable pub scan_entry : Show → Entry → Inner → Inner
scan_entry show entry inner = elim entry.name [
  | none ↦ inner
  | some name ↦ elim (peer_to_connect inner.node_id name) [
    | none ↦ inner
    | some peer_id ↦ (connect_to_peer show entry.opening peer_id inner).1
  ]
]

unfoldable pub scan_entries : Show → List Entry → Inner → Inner
scan_entries show [] inner = inner
scan_entries show (entry ∷ entries) inner =
    let rest = scan_entries show entries (scan_entry show entry inner) in
    if entry.cancelled then inner else rest

abbrev pub is_not_found : ErrorKind → Bool
is_not_found not_found = true
is_not_found _ = false

unfoldable pub scan_and_connect : Show → Result (List Entry) IoError → Inner → Inner
unfolding report_fault
scan_and_connect show (ok entries) inner = scan_entries show entries inner
scan_and_connect show (err e) inner =
    if is_not_found e.kind
    then inner
    else report_fault none (text "socket discovery failed: " ++ e.message) inner

-- The scans before the token is cancelled
unfoldable pub discovery_loop : Show → List (Result (List Entry) IoError) → Inner → Inner
discovery_loop show [] inner = inner
discovery_loop show (scan ∷ scans) inner =
    discovery_loop show scans (scan_and_connect show scan inner)
