-- ===== src/Node/Typed/Client.antt =====
-- The typed calls of src/node.rs: `call`, `call_query`, `do_action` and `do_action_with`. The
-- `call_raw` that they await is an argument, from the payload to what it gives.
use glycoprotein_rs.Error.{typed_json, GlycoError}
use glycoprotein_rs.Prelude.Result.{◌>>=◌, ◌>>=◌, ◌>>=◌, map_ok, map_err, ok, Result}
use glycoprotein_rs.Json.{Value}
use glycoprotein_rs.Node.Typed.{Serialize, Deserialize}
use glycoprotein_rs.Prelude.Text.{text, Str}
use glycoprotein_rs.Prelude.{pair_has_eq, list_has_eq, nat_has_eq, some, none, Option}

unfoldable pub in_context : {A : Type 0} → Str → Result A Str → Result A GlycoError
in_context context r = map_err (typed_json context) r

-- `Option::map` and `transpose`
unfoldable pub parse_reply : {B : Type 0} → Deserialize B → Option Value → Result (Option B) Str
parse_reply de none = ok none
parse_reply de (some v) = map_ok some (de.from_value v)

unfoldable pub call :
    {A B : Type 0}
    → Serialize A
    → Deserialize B
    → (Option Value → Result (Option Value) GlycoError)
    → A
    → Result (Option B) GlycoError
unfolding in_context parse_reply
call ser de call_raw request = do
  payload ← in_context (text "request") (ser.to_value request)
  reply ← call_raw (some payload)
  in_context (text "response") (parse_reply de reply)

unfoldable pub call_query :
    {B : Type 0}
    → Deserialize B
    → (Option Value → Result (Option Value) GlycoError)
    → Result (Option B) GlycoError
unfolding in_context parse_reply
call_query de call_raw = do
  reply ← call_raw none
  in_context (text "response") (parse_reply de reply)

unfoldable pub do_action :
    (Option Value → Result (Option Value) GlycoError) → Result (Unit {0}) GlycoError
do_action call_raw = map_ok (λ _. tt) (call_raw none)

unfoldable pub do_action_with :
    {A : Type 0}
    → Serialize A
    → (Option Value → Result (Option Value) GlycoError)
    → A
    → Result (Unit {0}) GlycoError
unfolding in_context
do_action_with ser call_raw argument = do
  payload ← in_context (text "action argument") (ser.to_value argument)
  map_ok (λ _. tt) (call_raw (some payload))
