-- ===== src/Mesh/NodeId.antt =====
-- `validate_node_id` of src/transport/unix_mesh.rs, with `Path::file_name` and `char::is_control`
-- of the standard library as they work on Unix.
pub mod Laws
mod Tests
use glycoprotein_rs.Error.{invalid_node_id, GlycoError}
use glycoprotein_rs.Prelude.Result.{ok, err, Result}
use glycoprotein_rs.Prelude.Text.{text, Str}
use glycoprotein_rs.Prelude.{
  pair_has_eq, list_has_eq, nat_has_eq, not, leb, ltb, ◌==◌, if◌then◌else◌, arith, ◌++◌, ◌∷◌, [],
  List, some, none, Option, ◌||◌, ◌&&◌, false, true, Bool, inr, inl, ◌⊎◌, ◌↔◌, ◌≢◌, ◌∙◌, refl, ◌≡◌,
  ◌<◌, ◌≤◌, ◌^◌, ◌%◌, ◌/◌, ◌*◌, ◌-◌, ◌+◌, suc, zero, ℕ,
}

abbrev pub prepend : ℕ → List Str → List Str
prepend x [] = (x ∷ []) ∷ []
prepend x (s ∷ ss) = (x ∷ s) ∷ ss

-- `str::split` at one char
unfoldable pub split_on : ℕ → Str → List Str
split_on c [] = [] ∷ []
split_on c (x ∷ xs) = if x == c then [] ∷ split_on c xs else prepend x (split_on c xs)

unfoldable pub last_normal : Option Str → List Str → Option Str
last_normal found [] = found
last_normal found (s ∷ ss) = last_normal (if s == [] || s == text "." then found else some s) ss

-- `Path::file_name`: the last component that is not empty or `.`, unless it is `..`
unfoldable pub file_name : Str → Option Str
unfolding split_on last_normal
file_name path = elim (last_normal none (split_on b'/' path)) [
  | none ↦ none
  | some s ↦ if s == text ".." then none else some s
]

-- `char::is_control`: the general category Cc
unfoldable pub is_control : ℕ → Bool
is_control c = ltb c 0x20 || leb 0x7f c && leb c 0x9f

unfoldable pub invalid_windows_character : ℕ → Bool
invalid_windows_character c =
    c == b'<'
    || c == b'>'
    || c == b':'
    || c == 34
    || c == b'/'
    || c == 92
    || c == b'|'
    || c == b'?'
    || c == b'*'

unfoldable pub forbidden : ℕ → Bool
unfolding is_control invalid_windows_character
forbidden c = c == 0 || is_control c || invalid_windows_character c

-- `Iterator::any`
unfoldable pub any : (ℕ → Bool) → Str → Bool
any p [] = false
any p (c ∷ cs) = p c || any p cs

abbrev pub name_is : Option Str → Str → Bool
name_is none s = false
name_is (some t) s = t == s

unfoldable pub validate_node_id : Str → Result (Unit {0}) GlycoError
validate_node_id node_id =
    if node_id == []
      || (node_id == text "." || node_id == text "..")
      || any forbidden node_id
      || not (name_is (file_name node_id) node_id)
    then err (invalid_node_id node_id)
    else ok tt
