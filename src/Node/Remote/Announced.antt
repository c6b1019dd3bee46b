-- ===== src/Node/Remote/Announced.antt =====
-- What a node tells everybody, as another node gets it over the mesh: its fields, and its events.
use glycoprotein_rs.Node.Events.{remove_event_handler, emit, event_handler, on_event}
use glycoprotein_rs.Node.Events.Delivery.{emit-emitted, on_event-emitted, emitted}
use glycoprotein_rs.Json.{Value}
use glycoprotein_rs.Node.Typed.{Deserialize, Serialize}
mod Tests
use mathlib.Core.Option
use glycoprotein_rs.Prelude.Map.{lookup}
use glycoprotein_rs.Node.Registry.Published.{
  find_remote_method-process_beacon, id-build_beacon, callable,
}
use glycoprotein_rs.Node.Presenters.Lookup.{lookup-process_beacon, find_remote_method_known}
use glycoprotein_rs.Node.Registry.{build_beacon}
use glycoprotein_rs.Mesh.Delivery.Everyone.{heard-events, heard, Broadcast}
use glycoprotein_rs.Error.{HandlerError, field_not_found}
use glycoprotein_rs.Node.Registry.Fields.{IsRegistry}
use glycoprotein_rs.Mesh.Peers.{Inner}
use glycoprotein_rs.Protocol.Encode.{Formats}
use glycoprotein_rs.Protocol.Decode.Bytes.{JsonLibrary}
use glycoprotein_rs.Node.{RegisteredEvent, NodeInner}
use glycoprotein_rs.Prelude.Result.{ok, Result, ◌>>=◌, map_ok, ok_or}
use glycoprotein_rs.Node.Handlers.{Task, runs, dispatch_message}
use glycoprotein_rs.Protocol.Decode.RoundTrip.{field_as_read, as_read, fields_as_read, without_null}
use glycoprotein_rs.Node.Lifecycle.{received, dispatch_turn}
use glycoprotein_rs.Protocol.Wire.{beacon_signature, Printer}
use glycoprotein_rs.Prelude.Text.{Str}
use glycoprotein_rs.Protocol.{
  event, event, method, method, message, Glycosyl, beacon, Beacon, Field, MethodField,
}
use glycoprotein_rs.Node.Presenters.{as_method, process_beacon, find_remote_method, find_field}
use glycoprotein_rs.Prelude.{
  ◌==◌, if◌then◌else◌, ◌||◌, ◌&&◌, false, Bool, inr, inl, ◌⊎◌, ◌↔◌, ◌≢◌, ◌<◌, ◌≤◌, ◌^◌, ◌%◌, ◌/◌,
  ◌*◌, ◌-◌, ◌+◌, suc, zero, subst, sym, ap, arith, ◌++◌, ◌∷◌, [], List, some, none, Option, true,
  ◌∙◌, refl, ◌≡◌, ℕ, pair_has_eq, list_has_eq, nat_has_eq,
}

find_field-fields_as_read :
    (fid : Str) (fs : List Field)
    → find_field fid (fields_as_read fs) ≡ Option.map field_as_read (find_field fid fs)
unfolding find_field
find_field-fields_as_read fid [] = refl
find_field-fields_as_read fid (method f ∷ fs) = ground (arith, find_field-fields_as_read fid fs)
find_field-fields_as_read fid (event f ∷ fs) = ground (arith, find_field-fields_as_read fid fs)

-- A method as another node reads it
abbrev pub method_as_read : MethodField → MethodField
method_as_read f = record f {
  query_schema = without_null f.query_schema;
  receipt_schema = without_null f.receipt_schema;
}

as_method-field_as_read :
    (gid fid : Str) (found : Option Field)
    → (ok_or (Option.map field_as_read found) (field_not_found gid fid) >>= as_method gid fid)
      ≡ map_ok method_as_read (ok_or found (field_not_found gid fid) >>= as_method gid fid)
as_method-field_as_read gid fid none = refl
as_method-field_as_read gid fid (some (method f)) = refl
as_method-field_as_read gid fid (some (event f)) = refl

-- Reading a beacon over the wire changes a lookup only in the schemas of what it finds.
find_remote_method-fields_as_read :
    (printer : Printer) (came : ℕ) (b : Beacon) (client : NodeInner) (fid : Str)
    → find_remote_method b.id fid
        (process_beacon printer came (record b { fields = fields_as_read b.fields }) client)
      ≡ map_ok method_as_read (find_remote_method b.id fid (process_beacon printer came b client))
find_remote_method-fields_as_read printer came b client fid =
    let read : Beacon = record b { fields = fields_as_read b.fields } in
    known read
    ∙ ap (λ o. ok_or o (field_not_found b.id fid) >>= as_method b.id fid)
        (find_field-fields_as_read fid b.fields)
    ∙ as_method-field_as_read b.id fid (find_field fid b.fields)
    ∙ ap (map_ok method_as_read) (sym (known b))
  where
    known :
        (a : Beacon)
        → find_remote_method a.id fid (process_beacon printer came a client)
          ≡ (ok_or (find_field fid a.fields) (field_not_found a.id fid) >>= as_method a.id fid)
    known a =
        find_remote_method_known a.id fid (process_beacon printer came a client)
          (record { beacon = a; signature = beacon_signature printer a; last_seen = came })
          (lookup-process_beacon printer came a client)

-- A server whose registry is in order sends its beacon to everybody, and it crosses the mesh to a
-- client's: the client's mesh tells it of the beacon, once, and when that is dispatched, a lookup of
-- any field of the server succeeds exactly for the methods that the server had registered, and tells
-- an event from a missing field. A schema that is `null` is read as none.
pub find_remote_method-heard :
    (json : JsonLibrary) (formats : Formats) (fresh : ℕ) (printer : Printer) (built came : ℕ)
    (server client : NodeInner) (fid : Str) (near far : Inner)
    → IsRegistry server
    → (there : Broadcast json formats fresh (beacon (build_beacon built server)) near far)
    → let told : Glycosyl = as_read (beacon (build_beacon built server)) in
      let (on, task, after) = dispatch_turn printer came (received (message told)) client in
      ((heard json formats fresh there).events ≡ far.events ++ message told ∷ [])
      × (on ≡ true)
      × (task ≡ none)
      × (find_remote_method server.id fid after
          ≡ map_ok method_as_read (
              callable server.id fid
                (lookup fid server.methods)
                (lookup fid server.emitted_events)))
unfolding dispatch_turn dispatch_message
find_remote_method-heard json formats fresh printer built came server client fid near far v there =
    let b = build_beacon built server in
    let read : Beacon = record b { fields = fields_as_read b.fields } in
    (
      ap (λ (x : Inner). x.events) (heard-events json formats fresh there),
      refl,
      refl,
      subst
            (λ i.
              find_remote_method i fid (process_beacon printer came read client)
              ≡ map_ok method_as_read
                  (find_remote_method i fid (process_beacon printer came b client)))
            (id-build_beacon built server)
            (find_remote_method-fields_as_read printer came b client fid)
          ∙ ap (map_ok method_as_read)
              (find_remote_method-process_beacon printer built came server client fid v),
    )

-- An event that is emitted with an argument of its registered type, by a node that runs, goes to
-- everybody and crosses the mesh to another node's: its mesh tells that node of the event, once, and
-- when it is dispatched, the handler that the node has set for it gets the argument; a handler that
-- is removed gets none. The JSON of the argument must read back as the argument, and not be `null`.
pub emit-heard :
    {A : Type 0} (json : JsonLibrary) (formats : Formats) (fresh : ℕ) (ser : Serialize A)
    (de : Deserialize A) (printer : Printer) (now type_id : ℕ) (fid : Str) (argument : A)
    (value : Value) (registered : RegisteredEvent) (handler : A → Result (Unit {0}) HandlerError)
    (s t : NodeInner) (near far : Inner)
    → s.started ≡ true
    → lookup fid s.emitted_events ≡ some registered
    → registered.argument_type ≡ some type_id
    → ser.to_value argument ≡ ok value
    → de.from_value value ≡ ok argument
    → without_null (some value) ≡ some value
    → (there : Broadcast json formats fresh (emitted s.id fid value) near far)
    → let listening = on_event de s.id fid handler t in
      let raw = event_handler de handler in
      let told = received (message (emitted s.id fid value)) in
      (emit ser type_id fid argument s ≡ ok (emitted s.id fid value))
      × ((heard json formats fresh there).events
          ≡ far.events ++ message (emitted s.id fid value) ∷ [])
      × (dispatch_turn printer now told listening ≡ (true, some (runs raw (some value)), listening))
      × (raw (some value) ≡ handler argument)
      × ((dispatch_turn printer now told (remove_event_handler s.id fid listening).0).1 ≡ none)
unfolding dispatch_turn
emit-heard json formats fresh ser de printer now type_id fid argument value registered handler s t
      near far started found typed sent read proper there =
    let (runs_it, handled, removed) =
      on_event-emitted de printer now s.id fid argument value handler t read in
    (
      emit-emitted ser type_id fid argument value registered s started found typed sent,
      ap (λ (x : Inner). x.events) (heard-events json formats fresh there)
          ∙ ap
              (λ p.
                far.events
                ++ message (Glycosyl.event (record { gid = s.id; fid = fid; arg = p })) ∷ [])
              proper,
      ap (λ (o : Option Task × NodeInner). (true, o.0, o.1)) runs_it,
      handled,
      removed,
    )
