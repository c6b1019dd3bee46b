-- ===== src/Mesh/Peers/Sections.antt =====
-- The whole calls `install_peer` and `disconnect_peer` are runs of their critical sections.
use glycoprotein_rs.Mesh.Peers.Histories.{here, here}
use glycoprotein_rs.Prelude.{pair_has_eq, list_has_eq, nat_has_eq}
