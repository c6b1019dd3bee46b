-- ===== src/Node/Registry/Fields.antt =====
-- The invariant of the published fields, and that registering and removing keep it.
use glycoprotein_rs.Error.{duplicate_field}
use glycoprotein_rs.Prelude.Result.{ok, err}
use glycoprotein_rs.Protocol.{EventField, MethodField}
use glycoprotein_rs.Prelude.Map.Ordered.{remove-IsOrdered, insert_ordered-IsOrdered, IsOrdered}
use glycoprotein_rs.Prelude.Text.{list_cmp_eq, Str}
use glycoprotein_rs.Node.Registry.{
  mark_beacon_changed, is_taken, remove_field, insert_event, insert_method,
}
use glycoprotein_rs.Node.{RawMethodHandler, RegisteredEvent, RegisteredMethod, NodeInner}
use glycoprotein_rs.Prelude.Map.{
  lookup-remove, lookup-insert_ordered, lookup, remove, insert_ordered, Map,
}
use glycoprotein_rs.Prelude.{
  beq_refl, list_beq_iff, Bool-cases, pair_has_eq, list_has_eq, nat_has_eq, ◌==◌, if◌then◌else◌,
  arith, ◌∷◌, [], some, none, Option, false, true, inr, inl, ◌⊎◌, refl, ◌≡◌, ℕ,
}

abbrev pub AreMethods : Map Str RegisteredMethod → Type 0
AreMethods [] = Unit
AreMethods ((k, m) ∷ ms) = (m.field.id ≡ k) × AreMethods ms

abbrev pub AreEvents : Map Str RegisteredEvent → Type 0
AreEvents [] = Unit
AreEvents ((k, e) ∷ es) = (e.field.id ≡ k) × AreEvents es

-- Each field stands under its own id, in order, and no id is both a method's and an event's.
pub record IsRegistry (inner : NodeInner) : Type 0 where
  pub methods_keyed : AreMethods inner.methods
  pub events_keyed : AreEvents inner.emitted_events
  pub methods_ordered : IsOrdered inner.methods
  pub events_ordered : IsOrdered inner.emitted_events
  pub disjoint :
      (id : Str) → (lookup id inner.methods ≡ none) ⊎ (lookup id inner.emitted_events ≡ none)

insert_ordered-AreMethods :
    (m : RegisteredMethod) (ms : Map Str RegisteredMethod)
    → AreMethods ms
    → AreMethods (insert_ordered m.field.id m ms)
unfolding insert_ordered
insert_ordered-AreMethods m [] a = (refl, tt)
insert_ordered-AreMethods m ((k, w) ∷ ms) a =
    ground (arith, insert_ordered-AreMethods m ms a.1, list_cmp_eq m.field.id k)

insert_ordered-AreEvents :
    (e : RegisteredEvent) (es : Map Str RegisteredEvent)
    → AreEvents es
    → AreEvents (insert_ordered e.field.id e es)
unfolding insert_ordered
insert_ordered-AreEvents e [] a = (refl, tt)
insert_ordered-AreEvents e ((k, w) ∷ es) a =
    ground (arith, insert_ordered-AreEvents e es a.1, list_cmp_eq e.field.id k)

remove-AreMethods :
    (k : Str) (ms : Map Str RegisteredMethod) → AreMethods ms → AreMethods (remove k ms)
unfolding remove
remove-AreMethods k [] a = tt
remove-AreMethods k ((j, w) ∷ ms) a = ground (arith, remove-AreMethods k ms a.1)

remove-AreEvents : (k : Str) (es : Map Str RegisteredEvent) → AreEvents es → AreEvents (remove k es)
unfolding remove
remove-AreEvents k [] a = tt
remove-AreEvents k ((j, w) ∷ es) a = ground (arith, remove-AreEvents k es a.1)

-- A whole call of `insert_method`, if no other registration comes between its check and its
-- insertion, given the invariant of the registry: a method is registered exactly if no field has its
-- id, and then the invariant holds on; else the call fails with `duplicate_field`, and nothing has
-- changed.
pub insert_method-IsRegistry :
    (field : MethodField) (handler : RawMethodHandler) (inner : NodeInner)
    → IsRegistry inner
    → ((is_taken field.id inner ≡ true)
        × (insert_method field handler inner ≡ err (duplicate_field field.id)))
      ⊎ ((after : NodeInner) × (is_taken field.id inner ≡ false)
          × (insert_method field handler inner ≡ ok after)
          × IsRegistry after
          × (lookup field.id after.methods ≡ some (record { field = field; handler = handler })))
unfolding insert_method
insert_method-IsRegistry field handler inner v = elim (Bool-cases (is_taken field.id inner)) [
  | inl t ↦ inl (t, rw (insert_method, t))
  | inr f ↦
      let m : RegisteredMethod = record { field = field; handler = handler } in
      let added = λ (id : Str). lookup-insert_ordered field.id id m inner.methods in
      inr (
        mark_beacon_changed (record inner { methods = insert_ordered field.id m inner.methods }),
        f,
        rw (insert_method, f),
        record {
          methods_keyed = insert_ordered-AreMethods m inner.methods v.methods_keyed;
          events_keyed = v.events_keyed;
          methods_ordered = insert_ordered-IsOrdered field.id m inner.methods v.methods_ordered;
          events_ordered = v.events_ordered;
          disjoint = λ id. ground (arith, added id, v.disjoint id, list_beq_iff field.id id);
        },
        rw (added field.id, beq_refl field.id),
      )
]

-- An event is registered exactly if no field has its id, and then the invariant holds on; else
-- the call fails with `duplicate_field`, and nothing has changed.
pub insert_event-IsRegistry :
    (field : EventField) (argument_type : Option ℕ) (inner : NodeInner)
    → IsRegistry inner
    → ((is_taken field.id inner ≡ true)
        × (insert_event field argument_type inner ≡ err (duplicate_field field.id)))
      ⊎ ((after : NodeInner) × (is_taken field.id inner ≡ false)
          × (insert_event field argument_type inner ≡ ok after)
          × IsRegistry after
          × (lookup field.id after.emitted_events
              ≡ some (record { field = field; argument_type = argument_type })))
unfolding insert_event
insert_event-IsRegistry field argument_type inner v = elim (Bool-cases (is_taken field.id inner)) [
  | inl t ↦ inl (t, ground arith)
  | inr f ↦
      let e : RegisteredEvent = record { field = field; argument_type = argument_type } in
      let added = λ (id : Str). lookup-insert_ordered field.id id e inner.emitted_events in
      inr (
        mark_beacon_changed
            (record inner { emitted_events = insert_ordered field.id e inner.emitted_events }),
        f,
        ground arith,
        record {
          methods_keyed = v.methods_keyed;
          events_keyed = insert_ordered-AreEvents e inner.emitted_events v.events_keyed;
          methods_ordered = v.methods_ordered;
          events_ordered =
              insert_ordered-IsOrdered field.id e inner.emitted_events v.events_ordered;
          disjoint = λ id. ground (arith, added id, v.disjoint id, list_beq_iff field.id id);
        },
        rw (added field.id, beq_refl field.id),
      )
]

module _ (fid : Str) (inner : NodeInner) where
  without : NodeInner
  without = record inner {
    methods = remove fid inner.methods;
    emitted_events = remove fid inner.emitted_events;
  }

  without-IsRegistry : IsRegistry inner → IsRegistry without
  unfolding without
  without-IsRegistry v = record {
    methods_keyed = remove-AreMethods fid inner.methods v.methods_keyed;
    events_keyed = remove-AreEvents fid inner.emitted_events v.events_keyed;
    methods_ordered = remove-IsOrdered fid inner.methods v.methods_ordered;
    events_ordered = remove-IsOrdered fid inner.emitted_events v.events_ordered;
    disjoint = λ id. ground (
      arith,
      lookup-remove fid id inner.methods,
      lookup-remove fid id inner.emitted_events,
      v.disjoint id,
    );
  }

  is_taken-without :
      (id : Str) → is_taken id without ≡ (if fid == id then false else is_taken id inner)
  unfolding without
  is_taken-without id =
      ground (arith, lookup-remove fid id inner.methods, lookup-remove fid id inner.emitted_events)

  -- What `remove_field` gives, up to the revision of the beacon.
  remove_field_cases :
      ((is_taken fid inner ≡ true) × (remove_field fid inner ≡ (mark_beacon_changed without, true)))
      ⊎ ((is_taken fid inner ≡ false) × (remove_field fid inner ≡ (without, false)))
  unfolding remove_field without
  remove_field_cases = ground arith

-- `remove_field` says whether the field was there, and keeps the invariant; the id is free after
-- it, and every other id is as it was.
pub remove_field-IsRegistry :
    (fid : Str) (inner : NodeInner)
    → IsRegistry inner
    → IsRegistry (remove_field fid inner).0
      × ((remove_field fid inner).1 ≡ is_taken fid inner)
      × ((id : Str)
          → is_taken id (remove_field fid inner).0
            ≡ (if fid == id then false else is_taken id inner))
unfolding mark_beacon_changed
remove_field-IsRegistry fid inner v =
    let r = without-IsRegistry fid inner v in
    elim (remove_field_cases fid inner) [
      | inl (t, e) ↦
          rw (e, t)
            (
              record {
                methods_keyed = r.methods_keyed;
                events_keyed = r.events_keyed;
                methods_ordered = r.methods_ordered;
                events_ordered = r.events_ordered;
                disjoint = r.disjoint;
              },
              refl,
              is_taken-without fid inner,
            )
      | inr (f, e) ↦ rw (e, f) (r, refl, is_taken-without fid inner)
    ]
