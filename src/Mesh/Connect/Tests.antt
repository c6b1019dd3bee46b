-- ===== src/Mesh/Connect/Tests.antt =====
-- "alpha" scans a directory with the socket of "beta", and connects to it.
use glycoprotein_rs.Mesh.Ordinal.{dotnet_ordinal_cmp}
use glycoprotein_rs.Mesh.Discovery.{
  rsplit_dot, rsplit_file_at_dot, file_stem, extension, entry_peer_id, wants_peer, peer_to_connect,
}
use glycoprotein_rs.Mesh.NodeId.Laws.{validate_node_id_iff, IsNodeId}
use glycoprotein_rs.Protocol.{peer_connected}
use glycoprotein_rs.Prelude.Result.{ok}
use glycoprotein_rs.Mesh.Utf8.{encode_char, as_bytes}
use glycoprotein_rs.Mesh.Connect.Scan.{discovery_loop_peers}
use glycoprotein_rs.Mesh.NodeId.{forbidden, any, file_name, validate_node_id}
use glycoprotein_rs.Prelude.Map.{insert, lookup}
use glycoprotein_rs.Mesh.Frame.{max_handshake_length, to_le_bytes, frame_message}
use glycoprotein_rs.Error.{unexpected_eof, IoError}
use glycoprotein_rs.Mesh.Connect.Handshake.{
  IsReady, handle_incoming-connect_to_peer, has_peer, IsOpened,
}
use glycoprotein_rs.Mesh.Connect.{
  install_or_report, shake_hands, scan_entry, scan_entries, scan_and_connect, handle_incoming,
  discovery_loop, connect_to_peer, Entry, Opening,
}
use glycoprotein_rs.Mesh.Peers.{
  spawn_loops, register_peer, allocate_peer, prepare_socket, install_peer, Inner, Setup,
}
use glycoprotein_rs.Error.Display.{Show}
use glycoprotein_rs.Prelude.Text.{text, Str}
use glycoprotein_rs.Prelude.{
  Ordering, ◌≢◌, pair_has_eq, list_has_eq, nat_has_eq, arith, ◌++◌, ◌∷◌, [], List, some, false,
  true, refl, ◌≡◌, ℕ,
}

abbrev new_node : Str → Inner
new_node id = record {
  node_id = id;
  max_frame_length = 100;
  events = [];
  peers = [];
  cells = [];
  next_handle = 0;
  started = true;
  threads = [];
  next_generation = 1;
}

abbrev shows : Show
shows = record { show_uuid = λ u. text "uuid"; show_value = λ v. text "value" }

abbrev utf8_error : List ℕ → Str
utf8_error bytes = text "invalid utf-8"

abbrev all_ok : Setup
all_ok = record {
  set_nonblocking = ok tt;
  set_read_timeout = ok tt;
  set_write_timeout = ok tt;
  clone_reader = ok tt;
  clone_control = ok tt;
  spawn_writer = ok tt;
  spawn_reader = ok tt;
}

abbrev opens : Opening
opens = record {
  cancelled = false;
  new_socket = ok tt;
  address = ok tt;
  connect = ok tt;
  write_handshake = ok tt;
  setup = all_ok;
}

opens-IsOpened : IsOpened opens
opens-IsOpened = record {
  going = refl;
  created = refl;
  addressed = refl;
  connected = refl;
  written = refl;
  prepared = (refl, refl, refl, refl, refl, refl, refl);
}

abbrev entries : List Entry
entries =
    record { cancelled = false; name = some (text "alpha.sock"); opening = opens }
    ∷ record { cancelled = false; name = some (text "beta.sock"); opening = opens }
    ∷ []

abbrev eof : IoError
eof = record { kind = unexpected_eof; message = text "failed to fill whole buffer" }

abbrev handshake : List ℕ
handshake = 5 ∷ 0 ∷ 0 ∷ 0 ∷ text "alpha"

framed : frame_message (as_bytes (text "alpha")) max_handshake_length ≡ ok handshake
unfolding frame_message to_le_bytes as_bytes encode_char
framed = refl

alpha_unknown : has_peer (text "alpha") (new_node (text "beta")) ≡ false
unfolding lookup
alpha_unknown = refl

beta_unknown : has_peer (text "beta") (new_node (text "alpha")) ≡ false
unfolding lookup
beta_unknown = refl

alpha-IsNodeId : IsNodeId (text "alpha")
unfolding validate_node_id file_name any forbidden
alpha-IsNodeId = (validate_node_id_iff (text "alpha")).0 refl

beta-IsNodeId : IsNodeId (text "beta")
unfolding validate_node_id file_name any forbidden
beta-IsNodeId = (validate_node_id_iff (text "beta")).0 refl

handle_incoming-connect_to_peer_example :
    let (sent, alpha) = connect_to_peer shows opens (text "beta") (new_node (text "alpha")) in
    let beta =
      handle_incoming shows utf8_error all_ok
        (record { incoming = sent ++ []; ending = eof })
        (new_node (text "beta")) in
    IsReady (text "beta") alpha
    × IsReady (text "alpha") beta
    × (alpha.events ≡ peer_connected (text "beta") ∷ [])
    × (beta.events ≡ peer_connected (text "alpha") ∷ [])
handle_incoming-connect_to_peer_example =
    handle_incoming-connect_to_peer shows utf8_error opens all_ok (new_node (text "alpha"))
      (new_node (text "beta")) handshake [] eof opens-IsOpened
      (refl, refl, refl, refl, refl, refl, refl) alpha-IsNodeId beta-IsNodeId (λ e. grind arith)
      beta_unknown alpha_unknown (omega arith) framed

scanned :
    has_peer (text "beta") (discovery_loop shows (ok entries ∷ []) (new_node (text "alpha"))) ≡ true
unfolding discovery_loop scan_and_connect scan_entries scan_entry peer_to_connect wants_peer
    entry_peer_id extension file_stem rsplit_file_at_dot rsplit_dot validate_node_id file_name any
    forbidden connect_to_peer shake_hands frame_message to_le_bytes as_bytes encode_char
    install_or_report install_peer prepare_socket allocate_peer register_peer spawn_loops lookup
    insert dotnet_ordinal_cmp
scanned = refl

discovery_loop_peers_example :
    IsNodeId (text "beta")
    × (text "beta" ≢ text "alpha")
    × (dotnet_ordinal_cmp (text "alpha") (text "beta") ≢ Ordering.gt)
discovery_loop_peers_example =
    discovery_loop_peers shows (ok entries ∷ []) (new_node (text "alpha")) (text "beta")
      beta_unknown scanned
