-- ===== src/Mesh/Connect/Scan.antt =====
-- Whom the scans of the socket directory connect to.
use glycoprotein_rs.Mesh.Discovery.Laws.{peer_to_connect_valid}
use glycoprotein_rs.Mesh.Discovery.{peer_to_connect}
use glycoprotein_rs.Mesh.Ordinal.{dotnet_ordinal_cmp}
use glycoprotein_rs.Error.{IoError}
use glycoprotein_rs.Prelude.Map.{lookup-insert_ne, lookup}
use glycoprotein_rs.Mesh.NodeId.Laws.{IsNodeId}
use glycoprotein_rs.Prelude.Result.{err, ok, Result}
use glycoprotein_rs.Mesh.Connect.Handshake.{has_peer}
use glycoprotein_rs.Error.Display.{Show}
use glycoprotein_rs.Prelude.Text.{Str}
use glycoprotein_rs.Mesh.Connect.{
  is_not_found, Entry, Opening, shake_hands, discovery_loop, scan_and_connect, scan_entries,
  scan_entry, connect_to_peer, install_or_report,
}
use glycoprotein_rs.Mesh.Peers.{
  Setup, spawn_loops, register_peer, allocate_peer, report_fault, install_peer, Inner,
}
use glycoprotein_rs.Prelude.{
  list_beq_iff, sym, Ordering, Option-cases, Bool-cases, pair_has_eq, list_has_eq, nat_has_eq, ◌==◌,
  arith, ◌∷◌, [], List, false, true, inr, inl, ◌≢◌, ◌∙◌, refl, ◌≡◌,
}

-- The peers of the node that are new have valid ids that come after the node's own in the ordinal
-- order, or are equal in it.
abbrev pub ConnectsUp : Inner → Inner → Type 0
ConnectsUp before after =
    (after.node_id ≡ before.node_id)
    × ((id : Str)
        → has_peer id before ≡ false
        → has_peer id after ≡ true
        → IsNodeId id
          × (id ≢ before.node_id)
          × (dotnet_ordinal_cmp before.node_id id ≢ Ordering.gt))

ConnectsUp-refl : (inner : Inner) → ConnectsUp inner inner
ConnectsUp-refl inner = (refl, λ id h k. ground arith)

ConnectsUp-trans : (a b c : Inner) → ConnectsUp a b → ConnectsUp b c → ConnectsUp a c
ConnectsUp-trans a b c (s, f) (t, g) = (
  t ∙ s,
  λ id h k. elim (Bool-cases (has_peer id b)) [
    | inl e ↦ f id h e
    | inr e ↦ ground (arith, g id e k, s)
  ],
)

-- A connection changes no other peer.
install_or_report_other :
    (show : Show) (setup : Setup) (peer_id : Str) (inner : Inner)
    → ((install_or_report show setup peer_id inner).node_id ≡ inner.node_id)
      × ((id : Str)
          → peer_id ≢ id
          → lookup id (install_or_report show setup peer_id inner).peers ≡ lookup id inner.peers)
unfolding install_or_report install_peer allocate_peer register_peer spawn_loops report_fault
install_or_report_other show setup peer_id inner =
    let (peer, inner') = allocate_peer peer_id inner in
    (ground arith, λ id ne. ground (arith, lookup-insert_ne peer_id id peer inner.peers))

connect_to_peer_other :
    (show : Show) (opening : Opening) (peer_id : Str) (inner : Inner)
    → ((connect_to_peer show opening peer_id inner).1.node_id ≡ inner.node_id)
      × ((id : Str)
          → peer_id ≢ id
          → lookup id (connect_to_peer show opening peer_id inner).1.peers ≡ lookup id inner.peers)
unfolding connect_to_peer shake_hands report_fault
connect_to_peer_other show opening peer_id inner =
    let (same, old) = install_or_report_other show opening.setup peer_id inner in
    (ground (arith, same), λ id ne. ground (arith, old id ne))

scan_entry-ConnectsUp :
    (show : Show) (entry : Entry) (inner : Inner) → ConnectsUp inner (scan_entry show entry inner)
unfolding scan_entry
scan_entry-ConnectsUp show entry inner = elim (Option-cases entry.name) [
  | inl e ↦ rw (scan_entry, e) (ConnectsUp-refl inner)
  | inr (name, e) ↦ elim (Option-cases (peer_to_connect inner.node_id name)) [
    | inl f ↦ rw (scan_entry, e, f) (ConnectsUp-refl inner)
    | inr (peer_id, f) ↦
        let (same, old) = connect_to_peer_other show entry.opening peer_id inner in
        let (v, ne, up, _) = peer_to_connect_valid inner.node_id name peer_id f in
        rw (scan_entry, e, f)
          (
            same,
            λ id h k. elim (Bool-cases (peer_id == id)) [
              | inl g ↦ rw (sym ((list_beq_iff peer_id id).0 g)) (v, ne, up)
              | inr g ↦ ground (arith, list_beq_iff peer_id id, old id)
            ],
          )
  ]
]

scan_entries-ConnectsUp :
    (show : Show) (entries : List Entry) (inner : Inner)
    → ConnectsUp inner (scan_entries show entries inner)
unfolding scan_entries scan_entry
scan_entries-ConnectsUp show [] inner = ConnectsUp-refl inner
scan_entries-ConnectsUp show (entry ∷ entries) inner = elim (Bool-cases entry.cancelled) [
  | inl e ↦ rw e (ConnectsUp-refl inner)
  | inr e ↦
      let next = scan_entry show entry inner in
      rw e (
        ConnectsUp-trans inner next (scan_entries show entries next)
          (scan_entry-ConnectsUp show entry inner) (scan_entries-ConnectsUp show entries next))
]

scan_and_connect-ConnectsUp :
    (show : Show) (scan : Result (List Entry) IoError) (inner : Inner)
    → ConnectsUp inner (scan_and_connect show scan inner)
unfolding scan_and_connect report_fault
scan_and_connect-ConnectsUp show (ok entries) inner = scan_entries-ConnectsUp show entries inner
scan_and_connect-ConnectsUp show (err e) inner = elim (Bool-cases (is_not_found e.kind)) [
  | inl h ↦ rw h (ConnectsUp-refl inner)
  | inr h ↦ rw h (refl, λ id j k. ground arith)
]

discovery_loop-ConnectsUp :
    (show : Show) (scans : List (Result (List Entry) IoError)) (inner : Inner)
    → ConnectsUp inner (discovery_loop show scans inner)
unfolding discovery_loop
discovery_loop-ConnectsUp show [] inner = ConnectsUp-refl inner
discovery_loop-ConnectsUp show (scan ∷ scans) inner =
    let next = scan_and_connect show scan inner in
    ConnectsUp-trans inner next (discovery_loop show scans next)
      (scan_and_connect-ConnectsUp show scan inner) (discovery_loop-ConnectsUp show scans next)

-- Whatever the scans of a discovery loop find in the directory, and however the system calls end: a
-- peer that the node has after them and had not before has a valid id that is not the node's own
-- and does not come before it in the ordinal order.
pub discovery_loop_peers :
    (show : Show) (scans : List (Result (List Entry) IoError)) (inner : Inner) (id : Str)
    → has_peer id inner ≡ false
    → has_peer id (discovery_loop show scans inner) ≡ true
    → IsNodeId id × (id ≢ inner.node_id) × (dotnet_ordinal_cmp inner.node_id id ≢ Ordering.gt)
discovery_loop_peers show scans inner id old new =
    (discovery_loop-ConnectsUp show scans inner).1 id old new
