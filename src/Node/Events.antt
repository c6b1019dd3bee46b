-- ===== src/Node/Events.antt =====
-- The events of src/node.rs: `emit_raw`, `emit_signal` and `emit` up to their send, and the handlers
-- that `on_event_raw`, `on_event` and `on_event_sync` register and `remove_event_handler` removes.
pub mod Delivery
use glycoprotein_rs.Error.{protocol, not_started, field_not_found, GlycoError, HandlerError}
use glycoprotein_rs.Prelude.Map.{lookup, is_some, remove, insert}
use glycoprotein_rs.Protocol.{event, Glycosyl}
use glycoprotein_rs.Prelude.Result.{◌>>◌, ◌>>◌, err, map_err, ok_or, ok, ◌>>=◌, Result}
use glycoprotein_rs.Node.{RawEventHandler, NodeInner}
use glycoprotein_rs.Json.{Value}
use glycoprotein_rs.Node.Typed.{or_null, join, Blocking, Serialize, Deserialize}
use glycoprotein_rs.Node.Typed.Client.{in_context}
use glycoprotein_rs.Prelude.Text.{text, Str}
use glycoprotein_rs.Prelude.{
  pair_has_eq, list_has_eq, nat_has_eq, ◌==◌, if◌then◌else◌, arith, ◌++◌, ◌∷◌, [], List, some, none,
  Option, ◌||◌, ◌&&◌, false, true, Bool, inr, inl, ◌⊎◌, ◌↔◌, ◌≢◌, ◌∙◌, refl, ◌≡◌, ◌<◌, ◌≤◌, ◌^◌,
  ◌%◌, ◌/◌, ◌*◌, ◌-◌, ◌+◌, suc, zero, ℕ,
}

-- The event that goes to the connexon.
unfoldable pub emit_raw : Str → Option Value → NodeInner → Result Glycosyl GlycoError
emit_raw fid argument inner =
    if inner.started
    then ok (event (record { gid = inner.id; fid = fid; arg = argument }))
    else err not_started

unfoldable pub emit_signal : Str → NodeInner → Result Glycosyl GlycoError
unfolding emit_raw
emit_signal fid inner = do
  e ← ok_or (lookup fid inner.emitted_events) (field_not_found inner.id fid)
  (if is_some e.argument_type
      then err (protocol (text "event '" ++ fid ++ text "' expects an argument"))
      else ok tt)
  emit_raw fid none inner

-- `Option::eq` with the id of a type
abbrev pub is_type : ℕ → Option ℕ → Bool
is_type type_id none = false
is_type type_id (some i) = i == type_id

-- `emit::<T>`, given the id of `T`
unfoldable pub emit :
    {A : Type 0} → Serialize A → ℕ → Str → A → NodeInner → Result Glycosyl GlycoError
unfolding emit_raw in_context
emit ser type_id fid argument inner = do
  e ← ok_or (lookup fid inner.emitted_events) (field_not_found inner.id fid)
  (if is_type type_id e.argument_type
      then ok tt
      else err (
          protocol
            (text "event '" ++ fid ++ text "' argument type does not match its registration")))
  value ← in_context (text "event argument") (ser.to_value argument)
  emit_raw fid (some value) inner

unfoldable pub on_event_raw : Str → Str → RawEventHandler → NodeInner → NodeInner
on_event_raw gid fid handler inner = record inner {
  event_handlers = insert (gid, fid) handler inner.event_handlers;
}

unfoldable pub event_handler :
    {A : Type 0} → Deserialize A → (A → Result (Unit {0}) HandlerError) → RawEventHandler
event_handler de handler argument = do
  a ←
      map_err (λ e. record { message = text "event JSON is invalid: " ++ e })
        (de.from_value (or_null argument))
  handler a

unfoldable pub on_event :
    {A : Type 0}
    → Deserialize A
    → Str
    → Str
    → (A → Result (Unit {0}) HandlerError)
    → NodeInner
    → NodeInner
unfolding on_event_raw event_handler
on_event de gid fid handler inner = on_event_raw gid fid (event_handler de handler) inner

unfoldable pub on_event_sync :
    {A : Type 0}
    → Deserialize A
    → Str
    → Str
    → (A → Blocking (Result (Unit {0}) HandlerError))
    → NodeInner
    → NodeInner
unfolding on_event
on_event_sync de gid fid handler inner = on_event de gid fid (λ a. join (handler a)) inner

unfoldable pub remove_event_handler : Str → Str → NodeInner → NodeInner × Bool
remove_event_handler gid fid inner = (
  record inner { event_handlers = remove (gid, fid) inner.event_handlers },
  is_some (lookup (gid, fid) inner.event_handlers),
)
