-- ===== src/Mesh/Discovery.antt =====
-- Which sockets of the shared directory a node connects to: the tests of `scan_and_connect` in
-- src/transport/unix_mesh.rs, with `Path::extension` and `Path::file_stem` of the standard library.
pub mod Laws
mod Tests
use glycoprotein_rs.Mesh.Ordinal.{dotnet_ordinal_cmp}
use glycoprotein_rs.Mesh.NodeId.{validate_node_id, name_is}
use glycoprotein_rs.Prelude.Result.{err, ok, Result}
use glycoprotein_rs.Prelude.Text.{text, Str}
use glycoprotein_rs.Prelude.{
  Ordering, pair_has_eq, list_has_eq, nat_has_eq, ◌==◌, if◌then◌else◌, arith, ◌++◌, ◌∷◌, [], List,
  some, none, Option, ◌||◌, ◌&&◌, false, true, Bool, inr, inl, ◌⊎◌, ◌↔◌, ◌≢◌, ◌∙◌, refl, ◌≡◌, ◌<◌,
  ◌≤◌, ◌^◌, ◌%◌, ◌/◌, ◌*◌, ◌-◌, ◌+◌, suc, zero, ℕ,
}

-- The parts before and behind the last dot.
unfoldable pub rsplit_dot : Str → Option (Str × Str)
rsplit_dot [] = none
rsplit_dot (c ∷ cs) = elim (rsplit_dot cs) [
  | some (before, after) ↦ some (c ∷ before, after)
  | none ↦ if c == b'.' then some ([], cs) else none
]

-- `rsplit_file_at_dot`: a name with no dot, or with none but a leading one, has no extension.
unfoldable pub rsplit_file_at_dot : Str → Option Str × Option Str
rsplit_file_at_dot name = if name == text ".." then (some name, none) else elim (rsplit_dot name) [
  | none ↦ (none, some name)
  | some ([], after) ↦ (some name, none)
  | some (c ∷ before, after) ↦ (some (c ∷ before), some after)
]

-- `Path::file_stem`: before.or(after)
abbrev pub or_else {ℓ} : {A : Type ℓ} → Option A → Option A → Option A
or_else none o = o
or_else (some a) o = some a

-- before.and(after)
abbrev pub and_then {ℓ} : {A : Type ℓ} → Option A → Option A → Option A
and_then none o = none
and_then (some a) o = o

unfoldable pub file_stem : Str → Option Str
file_stem name = let (before, after) = rsplit_file_at_dot name in or_else before after

unfoldable pub extension : Str → Option Str
extension name = let (before, after) = rsplit_file_at_dot name in and_then before after

-- `format!("{node_id}.sock")`
abbrev pub socket_file : Str → Str
socket_file node_id = node_id ++ text ".sock"

-- The id that the name of a directory entry stands for.
unfoldable pub entry_peer_id : Str → Option Str
entry_peer_id entry = if name_is (extension entry) (text "sock") then file_stem entry else none

abbrev pub is_greater : Ordering → Bool
is_greater Ordering.gt = true
is_greater _ = false

abbrev pub is_ok {ℓ} : {A E : Type ℓ} → Result A E → Bool
is_ok (ok a) = true
is_ok (err e) = false

-- The two `continue`s of the loop that judge a peer id.
unfoldable pub wants_peer : Str → Str → Bool
wants_peer node_id peer_id =
    if peer_id == node_id || is_greater (dotnet_ordinal_cmp node_id peer_id)
    then false
    else is_ok (validate_node_id peer_id)

-- The body of the loop up to the call of `connect_to_peer`: whom it calls that for, if anybody.
unfoldable pub peer_to_connect : Str → Str → Option Str
peer_to_connect node_id entry = elim (entry_peer_id entry) [
  | none ↦ none
  | some peer_id ↦ if wants_peer node_id peer_id then some peer_id else none
]
