-- ===== src/Mesh/Discovery/Tests.antt =====
-- Two nodes that look at one socket directory.
use glycoprotein_rs.Mesh.Ordinal.{dotnet_ordinal_cmp}
use glycoprotein_rs.Mesh.Discovery.Laws.{one_side_connects}
use glycoprotein_rs.Prelude.Text.{text}
use glycoprotein_rs.Mesh.NodeId.Laws.{validate_node_id_iff, IsNodeId}
use glycoprotein_rs.Mesh.NodeId.{any, file_name, validate_node_id, forbidden}
use glycoprotein_rs.Mesh.Discovery.{
  rsplit_dot, rsplit_file_at_dot, file_stem, extension, wants_peer, entry_peer_id, peer_to_connect,
}
use glycoprotein_rs.Prelude.{
  pair_has_eq, list_has_eq, nat_has_eq, arith, some, none, ◌⊎◌, refl, ◌≡◌,
}

entries :
    (peer_to_connect (text "alpha") (text "beta.sock") ≡ some (text "beta"))
    × (peer_to_connect (text "beta") (text "alpha.sock") ≡ none)
    × (peer_to_connect (text "alpha") (text "alpha.sock") ≡ none)
    × (peer_to_connect (text "alpha") (text "beta.txt") ≡ none)
    × (peer_to_connect (text "alpha") (text ".sock") ≡ none)
unfolding peer_to_connect entry_peer_id wants_peer extension file_stem rsplit_file_at_dot rsplit_dot
    dotnet_ordinal_cmp validate_node_id file_name any forbidden
entries = (refl, refl, refl, refl, refl)

alpha-IsNodeId : IsNodeId (text "alpha")
unfolding validate_node_id file_name any forbidden
alpha-IsNodeId = (validate_node_id_iff (text "alpha")).0 refl

beta-IsNodeId : IsNodeId (text "beta")
unfolding validate_node_id file_name any forbidden
beta-IsNodeId = (validate_node_id_iff (text "beta")).0 refl

one_side_connects_example :
    ((peer_to_connect (text "alpha") (text "beta.sock") ≡ some (text "beta"))
      × (peer_to_connect (text "beta") (text "alpha.sock") ≡ none))
    ⊎ ((peer_to_connect (text "alpha") (text "beta.sock") ≡ none)
        × (peer_to_connect (text "beta") (text "alpha.sock") ≡ some (text "alpha")))
one_side_connects_example =
    one_side_connects (text "alpha") (text "beta") alpha-IsNodeId beta-IsNodeId (omega arith)
      (omega arith) (λ e. grind arith)
