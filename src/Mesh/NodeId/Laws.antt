-- ===== src/Mesh/NodeId/Laws.antt =====
-- Which node ids are valid.
use glycoprotein_rs.Prelude.Result.{ok}
use glycoprotein_rs.Mesh.NodeId.{validate_node_id, file_name, split_on, forbidden, any}
use glycoprotein_rs.Prelude.Text.{text, Str}
use glycoprotein_rs.Prelude.{
  beq_refl, pair_has_eq, list_has_eq, nat_has_eq, list_beq_iff, arith, All, [], ◌==◌, ◌∷◌, some,
  false, Bool, ◌↔◌, ◌≢◌, refl, ◌≡◌, ℕ,
}

-- What `validate_node_id` is to accept: a name that Unix and Windows both take for a file.
pub record IsNodeId (s : Str) : Type 0 where
  pub nonempty : s ≢ []
  pub not_dot : s ≢ text "."
  pub not_dots : s ≢ text ".."
  pub allowed : All (λ c. forbidden c ≡ false) s

pub any-false : (p : ℕ → Bool) (s : Str) → (any p s ≡ false) ↔ All (λ c. p c ≡ false) s
unfolding any
any-false p [] = ((λ _. tt), (λ _. refl))
any-false p (c ∷ cs) = ground (arith, any-false p cs)

slash_forbidden : (c : ℕ) → forbidden c ≡ false → (c == b'/') ≡ false
unfolding forbidden
slash_forbidden c h = ground arith

-- A string with no slash is one component.
split_on_allowed : (s : Str) → All (λ c. forbidden c ≡ false) s → split_on b'/' s ≡ s ∷ []
unfolding split_on
split_on_allowed [] h = refl
split_on_allowed (c ∷ cs) h = rw (slash_forbidden c h.0, split_on_allowed cs h.1)

file_name-IsNodeId : {s : Str} → IsNodeId s → file_name s ≡ some s
unfolding file_name
file_name-IsNodeId {s} v =
    rw (file_name, split_on_allowed s v.allowed)
      (ground (
        arith,
        v.nonempty,
        v.not_dot,
        v.not_dots,
        list_beq_iff s [],
        list_beq_iff s (text "."),
        list_beq_iff s (text ".."),
      ))

accepted-IsNodeId : (s : Str) → validate_node_id s ≡ ok tt → IsNodeId s
unfolding validate_node_id
accepted-IsNodeId s h = ground (
  arith,
  list_beq_iff s [],
  list_beq_iff s (text "."),
  list_beq_iff s (text ".."),
  any-false forbidden s,
)

IsNodeId-accepted : (s : Str) → IsNodeId s → validate_node_id s ≡ ok tt
unfolding validate_node_id
IsNodeId-accepted s v =
    rw (validate_node_id, file_name-IsNodeId v)
      (ground (
        arith,
        list_beq_iff s [],
        list_beq_iff s (text "."),
        list_beq_iff s (text ".."),
        any-false forbidden s,
        beq_refl s,
        v.nonempty,
        v.not_dot,
        v.not_dots,
      ))

-- `validate_node_id` accepts exactly the strings that are neither empty nor `.` nor `..` and hold
-- no forbidden character: its last test, that of the file name, refuses no more of them.
pub validate_node_id_iff : (s : Str) → (validate_node_id s ≡ ok tt) ↔ IsNodeId s
validate_node_id_iff s = (accepted-IsNodeId s, IsNodeId-accepted s)
