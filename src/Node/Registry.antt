-- ===== src/Node/Registry.antt =====
-- The fields that a node publishes: `insert_method`, `insert_event`, `remove_field`, `set_vendor`,
-- `build_beacon` of src/node.rs, and `register_event`, `register_signal`.
pub mod Fields
pub mod Published
pub mod Samples
mod Tests
use glycoprotein_rs.Schema.{JsonSchema, generate_schema}
use glycoprotein_rs.Mesh.Discovery.{is_greater}
use glycoprotein_rs.Json.{Value}
use glycoprotein_rs.Error.{duplicate_field, GlycoError}
use glycoprotein_rs.Prelude.Map.{insert_ordered, remove, lookup, is_some, Map}
use glycoprotein_rs.Prelude.Result.{ok, err, ◌>>=◌, Result}
use glycoprotein_rs.Protocol.{
  field_id, method, event, method, Beacon, new_beacon, Field, EventField, MethodField,
}
use glycoprotein_rs.Prelude.Text.{list_cmp, then_with, Str}
use glycoprotein_rs.Node.{RegisteredEvent, RegisteredMethod, RawMethodHandler, NodeInner}
use glycoprotein_rs.Prelude.{
  Ordering, pair_has_eq, list_has_eq, nat_has_eq, ◌==◌, if◌then◌else◌, arith, ◌++◌, ◌∷◌, [], List,
  some, none, Option, ◌||◌, ◌&&◌, false, true, Bool, inr, inl, ◌⊎◌, ◌↔◌, ◌≢◌, ◌∙◌, refl, ◌≡◌, ◌<◌,
  ◌≤◌, ◌^◌, ◌%◌, ◌/◌, ◌*◌, ◌-◌, ◌+◌, suc, zero, ℕ,
}

-- `revision.wrapping_add(1)` on the `u64` of the watch channel
unfoldable pub mark_beacon_changed : NodeInner → NodeInner
mark_beacon_changed inner = record inner { beacon_revision = (inner.beacon_revision + 1) % 2 ^ 64 }

-- A name is taken if a method or an event has it.
abbrev pub is_taken : Str → NodeInner → Bool
is_taken id inner = is_some (lookup id inner.emitted_events) || is_some (lookup id inner.methods)

-- The part of `insert_method` behind its check, under the write lock.
unfoldable pub add_method : MethodField → RawMethodHandler → NodeInner → NodeInner
unfolding mark_beacon_changed
add_method field handler inner = mark_beacon_changed (record inner {
  methods = insert_ordered field.id (record { field = field; handler = handler }) inner.methods;
})

-- The check holds its read locks only while it looks: this is a whole call, if no other registration
-- comes between the check and the insertion.
unfoldable pub insert_method :
    MethodField → RawMethodHandler → NodeInner → Result NodeInner GlycoError
unfolding add_method
insert_method field handler inner =
    if is_some (lookup field.id inner.emitted_events) || is_some (lookup field.id inner.methods)
    then err (duplicate_field field.id)
    else ok (add_method field handler inner)

-- The part of `insert_event` behind its check, under the write lock.
unfoldable pub add_event : EventField → Option ℕ → NodeInner → NodeInner
unfolding mark_beacon_changed
add_event field argument_type inner = mark_beacon_changed (record inner {
  emitted_events =
      insert_ordered field.id (record { field = field; argument_type = argument_type })
        inner.emitted_events;
})

-- As `insert_method`, a whole call.
unfoldable pub insert_event : EventField → Option ℕ → NodeInner → Result NodeInner GlycoError
unfolding add_event
insert_event field argument_type inner =
    if is_some (lookup field.id inner.methods) || is_some (lookup field.id inner.emitted_events)
    then err (duplicate_field field.id)
    else ok (add_event field argument_type inner)

-- `register_event::<T>`, given the id of `T`
unfoldable pub register_event :
    {A : Type 0} → JsonSchema A → ℕ → EventField → NodeInner → Result NodeInner GlycoError
unfolding insert_event generate_schema
register_event schema type_id field inner = elim field.call_arg_schema [
  | some s ↦ insert_event field (some type_id) inner
  | none ↦ do
    s ← generate_schema schema
    insert_event (record field { call_arg_schema = some s }) (some type_id) inner
]

unfoldable pub register_signal : EventField → NodeInner → Result NodeInner GlycoError
unfolding insert_event
register_signal field inner = insert_event (record field { call_arg_schema = none }) none inner

unfoldable pub remove_field : Str → NodeInner → NodeInner × Bool
unfolding mark_beacon_changed
remove_field fid inner =
    let method_removed = is_some (lookup fid inner.methods) in
    let event_removed = is_some (lookup fid inner.emitted_events) in
    let removed : NodeInner = record inner {
      methods = remove fid inner.methods;
      emitted_events = remove fid inner.emitted_events;
    } in
    if method_removed || event_removed
    then (mark_beacon_changed removed, true)
    else (removed, false)

unfoldable pub set_vendor : Option Str → NodeInner → NodeInner
unfolding mark_beacon_changed
set_vendor vendor inner = mark_beacon_changed (record inner { vendor = vendor })

-- The comparison of `build_beacon`: by id, and a method before an event.
abbrev pub kind_cmp : Field → Field → Ordering
kind_cmp (method f) (event g) = Ordering.lt
kind_cmp (event f) (method g) = Ordering.gt
kind_cmp _ _ = Ordering.eq

unfoldable pub field_cmp : Field → Field → Ordering
field_cmp left right = then_with (list_cmp (field_id left) (field_id right)) (kind_cmp left right)

-- `sort_by`, a stable sort: an element goes in front of the first one that is greater.
unfoldable pub insert_sorted : Field → List Field → List Field
unfolding field_cmp
insert_sorted f [] = f ∷ []
insert_sorted f (g ∷ gs) = if is_greater (field_cmp f g) then g ∷ insert_sorted f gs else f ∷ g ∷ gs

unfoldable pub sort_fields : List Field → List Field
unfolding insert_sorted
sort_fields [] = []
sort_fields (f ∷ fs) = insert_sorted f (sort_fields fs)

abbrev pub method_fields : Map Str RegisteredMethod → List Field
method_fields [] = []
method_fields ((k, m) ∷ ms) = method m.field ∷ method_fields ms

abbrev pub event_fields : Map Str RegisteredEvent → List Field
event_fields [] = []
event_fields ((k, e) ∷ es) = event e.field ∷ event_fields es

unfoldable pub build_beacon : ℕ → NodeInner → Beacon
unfolding sort_fields new_beacon
build_beacon now inner =
    record (new_beacon inner.id
      (sort_fields (method_fields inner.methods ++ event_fields inner.emitted_events)) now) {
        vendor = inner.vendor;
      }
