-- ===== src/Schema.antt =====
-- `generate_schema` and `validate_json` of src/schema.rs. The schema that schemars makes of a type
-- and what serde_json makes of it is a parameter, a JSON value or an error. What the jsonschema crate finds is a parameter: a schema that
-- it cannot compile, or the list of the errors of an instance, each as its message.
use glycoprotein_rs.Error.{schema_generation, validation, GlycoError}
use glycoprotein_rs.Prelude.Result.{map_err, ok, err, Result}
use glycoprotein_rs.Prelude.Text.{Str}
use glycoprotein_rs.Json.{Value}
use glycoprotein_rs.Prelude.{pair_has_eq, list_has_eq, nat_has_eq, ◌++◌, ◌∷◌, [], List}

pub record SchemaLibrary : Type 0 where
  pub iter_errors : (schema value : Value) → Result (List Str) Str

-- `[String]::join("\n")`
unfoldable pub join_lines : List Str → Str
join_lines [] = []
join_lines (s ∷ []) = s
join_lines (s ∷ t ∷ ss) = s ++ 10 ∷ join_lines (t ∷ ss)

unfoldable pub validate_json : SchemaLibrary → Value → Value → Result (Unit {0}) GlycoError
unfolding join_lines
validate_json library schema value = elim (library.iter_errors schema value) [
  | err message ↦ err (validation message)
  | ok [] ↦ ok tt
  | ok (e ∷ es) ↦ err (validation (join_lines (e ∷ es)))
]

-- What `schemars` and `serde_json` give for a type.
pub record JsonSchema (A : Type 0) : Type 0 where
  pub schema_value : Result Value Str

unfoldable pub generate_schema : {A : Type 0} → JsonSchema A → Result Value GlycoError
generate_schema s = map_err schema_generation s.schema_value
