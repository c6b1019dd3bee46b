-- ===== src/Mesh/Discovery/Laws.antt =====
-- Who connects to whom.
use glycoprotein_rs.Mesh.Ordinal.Laws.{dotnet_ordinal_cmp_eq, dotnet_ordinal_cmp-flip}
use glycoprotein_rs.Mesh.NodeId.{validate_node_id}
use glycoprotein_rs.Prelude.Result.{Result-cases}
use glycoprotein_rs.Mesh.Ordinal.{IsScalar, dotnet_ordinal_cmp}
use glycoprotein_rs.Mesh.NodeId.Laws.{validate_node_id_iff, IsNodeId}
use glycoprotein_rs.Prelude.Text.{text, Str}
use glycoprotein_rs.Mesh.Discovery.{
  file_stem, wants_peer, extension, socket_file, peer_to_connect, entry_peer_id, rsplit_file_at_dot,
  rsplit_dot,
}
use glycoprotein_rs.Prelude.{
  list_beq_iff, All, Ordering, pair_has_eq, list_has_eq, nat_has_eq, ◌==◌, arith, ◌++◌, ◌∷◌, [],
  some, none, false, true, inr, inl, ◌⊎◌, ◌≢◌, refl, ◌≡◌,
}

rsplit_dot_last :
    (xs ys : Str) → rsplit_dot ys ≡ none → rsplit_dot (xs ++ b'.' ∷ ys) ≡ some (xs, ys)
unfolding rsplit_dot
rsplit_dot_last [] ys h = rw h
rsplit_dot_last (x ∷ xs) ys h = rw (rsplit_dot_last xs ys h)

socket_file_split : (id : Str) → rsplit_dot (socket_file id) ≡ some (id, text "sock")
socket_file_split id = rsplit_dot_last id (text "sock") (unfold rsplit_dot in refl)

socket_file-ne-dots : (id : Str) → (socket_file id == text "..") ≡ false
socket_file-ne-dots [] = refl
socket_file-ne-dots (a ∷ []) = ground arith
socket_file-ne-dots (a ∷ b ∷ []) = ground arith
socket_file-ne-dots (a ∷ b ∷ c ∷ id) = ground arith

split_socket_file :
    (id : Str) → id ≢ [] → rsplit_file_at_dot (socket_file id) ≡ (some id, some (text "sock"))
unfolding rsplit_file_at_dot
split_socket_file [] h = absurd (h refl)
split_socket_file (c ∷ id) h =
    rw (socket_file-ne-dots (c ∷ id), rsplit_file_at_dot, socket_file_split (c ∷ id))

-- The name of a node's socket file stands for the node's id.
pub entry_peer_id-socket_file : (id : Str) → id ≢ [] → entry_peer_id (socket_file id) ≡ some id
unfolding entry_peer_id extension file_stem
entry_peer_id-socket_file id h = rw (extension, file_stem, split_socket_file id h)

wants_peer_cases :
    (node_id peer_id : Str)
    → wants_peer node_id peer_id ≡ true
    → IsNodeId peer_id × (peer_id ≢ node_id) × (dotnet_ordinal_cmp node_id peer_id ≢ Ordering.gt)
unfolding wants_peer
wants_peer_cases node_id peer_id h = elim (Result-cases (validate_node_id peer_id)) [
  | inl (tt, e) ↦ (
    (validate_node_id_iff peer_id).0 e,
    ground (arith, list_beq_iff peer_id node_id),
    ground arith,
  )
  | inr (x, e) ↦ ground arith
]

-- Whom a node connects to because of a directory entry has a valid id, is not the node itself, and
-- does not come before it in the ordinal order; the entry is its socket file.
pub peer_to_connect_valid :
    (node_id entry peer_id : Str)
    → peer_to_connect node_id entry ≡ some peer_id
    → IsNodeId peer_id
      × (peer_id ≢ node_id)
      × (dotnet_ordinal_cmp node_id peer_id ≢ Ordering.gt)
      × (entry_peer_id entry ≡ some peer_id)
unfolding peer_to_connect
peer_to_connect_valid node_id entry peer_id h = ground (arith, wants_peer_cases node_id peer_id)

wants_peer-lt :
    (a b : Str)
    → IsNodeId b
    → a ≢ b
    → dotnet_ordinal_cmp a b ≡ Ordering.lt
    → (wants_peer a b ≡ true) × (wants_peer b a ≡ false)
unfolding wants_peer
wants_peer-lt a b v ne h = (
  ground (arith, (validate_node_id_iff b).1 v, list_beq_iff b a),
  ground (arith, dotnet_ordinal_cmp-flip a b),
)

-- Of two nodes with different valid ids that see each other's socket files, exactly one connects.
pub one_side_connects :
    (a b : Str)
    → IsNodeId a
    → IsNodeId b
    → All IsScalar a
    → All IsScalar b
    → a ≢ b
    → ((peer_to_connect a (socket_file b) ≡ some b) × (peer_to_connect b (socket_file a) ≡ none))
      ⊎ ((peer_to_connect a (socket_file b) ≡ none) × (peer_to_connect b (socket_file a) ≡ some a))
unfolding peer_to_connect
one_side_connects a b va vb sa sb ne = ground (
  arith,
  entry_peer_id-socket_file a va.nonempty,
  entry_peer_id-socket_file b vb.nonempty,
  wants_peer-lt a b vb,
  wants_peer-lt b a va,
  dotnet_ordinal_cmp_eq a b sa sb,
  dotnet_ordinal_cmp-flip a b,
)
