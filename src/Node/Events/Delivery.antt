-- ===== src/Node/Events/Delivery.antt =====
-- An event, from its emitter to a handler on another node.
use glycoprotein_rs.Protocol.{Glycosyl}
use glycoprotein_rs.Prelude.Map.{insert, lookup-remove_self, lookup-insert_self, lookup}
use glycoprotein_rs.Error.{HandlerError}
use glycoprotein_rs.Prelude.Result.{ok, Result}
use glycoprotein_rs.Node.{NodeInner, RegisteredEvent}
use glycoprotein_rs.Json.{Value}
use glycoprotein_rs.Prelude.Text.{Str}
use glycoprotein_rs.Protocol.Wire.{Printer}
use glycoprotein_rs.Node.Typed.{Deserialize, Serialize}
use glycoprotein_rs.Node.Handlers.{runs, dispatch_message}
use glycoprotein_rs.Node.Events.{remove_event_handler, event_handler, on_event, emit}
use glycoprotein_rs.Prelude.{
  nat_eq_iff, pair_has_eq, list_has_eq, nat_has_eq, arith, some, none, true, refl, ◌≡◌, ℕ,
}

abbrev pub emitted : Str → Str → Value → Glycosyl
emitted gid fid value = Glycosyl.event (record { gid = gid; fid = fid; arg = some value })

pub emit-emitted :
    {A : Type 0} (ser : Serialize A) (type_id : ℕ) (fid : Str) (argument : A) (value : Value)
    (registered : RegisteredEvent) (s : NodeInner)
    → s.started ≡ true
    → lookup fid s.emitted_events ≡ some registered
    → registered.argument_type ≡ some type_id
    → ser.to_value argument ≡ ok value
    → emit ser type_id fid argument s ≡ ok (emitted s.id fid value)
unfolding emit
emit-emitted ser type_id fid argument value registered s started found typed sent =
    ground (arith, started, found, typed, sent, nat_eq_iff type_id type_id)

-- The handler of an event that is read back gets its argument, and a handler that is removed none.
pub on_event-emitted :
    {A : Type 0} (de : Deserialize A) (printer : Printer) (now : ℕ) (gid fid : Str) (argument : A)
    (value : Value) (handler : A → Result (Unit {0}) HandlerError) (t : NodeInner)
    → de.from_value value ≡ ok argument
    → let listening = on_event de gid fid handler t in
      let raw = event_handler de handler in
      let m = emitted gid fid value in
      (dispatch_message printer now m listening ≡ (some (runs raw (some value)), listening))
      × (raw (some value) ≡ handler argument)
      × ((dispatch_message printer now m (remove_event_handler gid fid listening).0).0 ≡ none)
unfolding on_event event_handler dispatch_message remove_event_handler
on_event-emitted de printer now gid fid argument value handler t read =
    let raw = event_handler de handler in
    (
      rw (dispatch_message, lookup-insert_self (gid, fid) raw t.event_handlers) refl,
      rw read refl,
      rw (dispatch_message, lookup-remove_self (gid, fid) (insert (gid, fid) raw t.event_handlers))
          refl,
    )
