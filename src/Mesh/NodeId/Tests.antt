-- ===== src/Mesh/NodeId/Tests.antt =====
-- The ids of the source's own test.
use glycoprotein_rs.Mesh.NodeId.Laws.{validate_node_id_iff, IsNodeId}
use glycoprotein_rs.Error.{invalid_node_id}
use glycoprotein_rs.Prelude.Result.{ok, err}
use glycoprotein_rs.Mesh.NodeId.{forbidden, any, file_name, validate_node_id}
use glycoprotein_rs.Prelude.Text.{text, Str}
use glycoprotein_rs.Prelude.{refl, pair_has_eq, list_has_eq, nat_has_eq, ◌∷◌, [], ◌↔◌, ◌≡◌}

abbrev Rejects : (s : Str) → Type 0
Rejects s = validate_node_id s ≡ err (invalid_node_id s)

Rejects-unsafe :
    Rejects (text "")
    × Rejects (text ".")
    × Rejects (text "..")
    × Rejects (text "a/b")
    × Rejects (text "a:b")
    × Rejects (97 ∷ 92 ∷ 98 ∷ [])
    × Rejects (97 ∷ 10 ∷ 98 ∷ [])
unfolding validate_node_id file_name any forbidden
Rejects-unsafe = (refl, refl, refl, refl, refl, refl, refl)

accepts_safe : validate_node_id (text "节点-alpha_1.2") ≡ ok tt
unfolding validate_node_id file_name any forbidden
accepts_safe = refl

validate_node_id_iff_example : (validate_node_id (text "a/b") ≡ ok tt) ↔ IsNodeId (text "a/b")
validate_node_id_iff_example = validate_node_id_iff (text "a/b")
