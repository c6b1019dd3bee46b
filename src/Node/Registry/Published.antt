-- ===== src/Node/Registry/Published.antt =====
-- What a beacon publishes, and what a node that receives it can call.
use glycoprotein_rs.Node.Presenters.Lookup.{lookup-process_beacon, find_remote_method_known}
use glycoprotein_rs.Error.{field_not_found, not_a_method, GlycoError}
use glycoprotein_rs.Protocol.Wire.{beacon_signature, Printer}
use glycoprotein_rs.Prelude.Result.{◌>>=◌, ok_or, err, ok, Result}
use glycoprotein_rs.Prelude.Map.Ordered.{lookup-Above, IsOrdered}
use glycoprotein_rs.Node.Registry.Fields.{IsRegistry, AreEvents, AreMethods}
use glycoprotein_rs.Prelude.Map.{Map, lookup}
use glycoprotein_rs.Node.{PresenterRecord, NodeInner, RegisteredEvent, RegisteredMethod}
use glycoprotein_rs.Node.Registry.{
  event_fields, method_fields, build_beacon, sort_fields, insert_sorted,
}
use glycoprotein_rs.Node.Presenters.{as_method, process_beacon, find_remote_method, find_field}
use glycoprotein_rs.Prelude.Text.{list_cmp-flip, list_cmp_eq, list_cmp_trans, list_cmp, Str}
use glycoprotein_rs.Protocol.{MethodField, event, method, field_id, Field}
use mathlib.Core.Path.{ap₂}
use glycoprotein_rs.Prelude.{
  subst, beq_refl, list_beq_iff, Ordering, pair_has_eq, list_has_eq, nat_has_eq, ◌==◌,
  if◌then◌else◌, arith, ◌++◌, ◌∷◌, [], List, some, none, Option, ◌⊎◌, ◌∙◌, refl, ◌≡◌, ℕ,
}

-- No two of the fields have one id.
abbrev pub AreDistinct : List Field → Type 0
AreDistinct [] = Unit
AreDistinct (f ∷ fs) = (find_field (field_id f) fs ≡ none) × AreDistinct fs

-- Each id comes behind those in front of it.
abbrev pub AllBehind : Str → List Field → Type 0
AllBehind id [] = Unit
AllBehind id (f ∷ fs) = (list_cmp id (field_id f) ≡ Ordering.lt) × AllBehind id fs

abbrev pub IsAscending : List Field → Type 0
IsAscending [] = Unit
IsAscending (f ∷ fs) = AllBehind (field_id f) fs × IsAscending fs

find_field-insert_sorted :
    (id : Str) (f : Field) (fs : List Field)
    → find_field (field_id f) fs ≡ none
    → find_field id (insert_sorted f fs) ≡ (if field_id f == id then some f else find_field id fs)
unfolding find_field insert_sorted
find_field-insert_sorted id f [] h = refl
find_field-insert_sorted id f (g ∷ gs) h = ground (
  arith,
  find_field-insert_sorted id f gs,
  list_beq_iff (field_id f) id,
  list_beq_iff (field_id g) id,
  list_beq_iff (field_id g) (field_id f),
)

find_field-sort_fields :
    (id : Str) (fs : List Field)
    → AreDistinct fs
    → find_field id (sort_fields fs) ≡ find_field id fs
unfolding find_field sort_fields
find_field-sort_fields id [] d = refl
find_field-sort_fields id (f ∷ fs) d = ground (
  arith,
  find_field-sort_fields id fs d.1,
  find_field-sort_fields (field_id f) fs d.1,
  find_field-insert_sorted id f (sort_fields fs),
)

AllBehind-insert_sorted :
    (id : Str) (f : Field) (fs : List Field)
    → list_cmp id (field_id f) ≡ Ordering.lt
    → AllBehind id fs
    → AllBehind id (insert_sorted f fs)
unfolding insert_sorted
AllBehind-insert_sorted id f [] h a = (h, tt)
AllBehind-insert_sorted id f (g ∷ gs) h a = ground (arith, AllBehind-insert_sorted id f gs h a.1)

AllBehind-trans :
    (i j : Str) (fs : List Field) → list_cmp i j ≡ Ordering.lt → AllBehind j fs → AllBehind i fs
AllBehind-trans i j [] h a = tt
AllBehind-trans i j (f ∷ fs) h a =
    (list_cmp_trans i j (field_id f) h a.0, AllBehind-trans i j fs h a.1)

insert_sorted-IsAscending :
    (f : Field) (fs : List Field)
    → find_field (field_id f) fs ≡ none
    → IsAscending fs
    → IsAscending (insert_sorted f fs)
unfolding insert_sorted find_field
insert_sorted-IsAscending f [] h a = (tt, tt)
insert_sorted-IsAscending f (g ∷ gs) h a = ground (
  arith,
  list_cmp_eq (field_id f) (field_id g),
  list_cmp-flip (field_id f) (field_id g),
  list_beq_iff (field_id g) (field_id f),
  AllBehind-trans (field_id f) (field_id g) gs,
  AllBehind-insert_sorted (field_id g) f gs,
  insert_sorted-IsAscending f gs,
)

sort_fields-IsAscending : (fs : List Field) → AreDistinct fs → IsAscending (sort_fields fs)
unfolding sort_fields
sort_fields-IsAscending [] d = tt
sort_fields-IsAscending (f ∷ fs) d =
    insert_sorted-IsAscending f (sort_fields fs) (find_field-sort_fields (field_id f) fs d.1 ∙ d.0)
      (sort_fields-IsAscending fs d.1)

abbrev pub or_field : Option Field → Option Field → Option Field
or_field none g = g
or_field (some f) g = some f

find_field-append :
    (id : Str) (fs gs : List Field)
    → find_field id (fs ++ gs) ≡ or_field (find_field id fs) (find_field id gs)
unfolding find_field
find_field-append id [] gs = refl
find_field-append id (f ∷ fs) gs = ground (arith, find_field-append id fs gs)

abbrev pub as_method_field : Option RegisteredMethod → Option Field
as_method_field none = none
as_method_field (some m) = some (method m.field)

abbrev pub as_event_field : Option RegisteredEvent → Option Field
as_event_field none = none
as_event_field (some e) = some (event e.field)

find_field-method_fields :
    (id : Str) (ms : Map Str RegisteredMethod)
    → AreMethods ms
    → find_field id (method_fields ms) ≡ as_method_field (lookup id ms)
unfolding find_field lookup
find_field-method_fields id [] a = refl
find_field-method_fields id ((k, m) ∷ ms) a = ground (arith, find_field-method_fields id ms a.1)

find_field-event_fields :
    (id : Str) (es : Map Str RegisteredEvent)
    → AreEvents es
    → find_field id (event_fields es) ≡ as_event_field (lookup id es)
unfolding find_field lookup
find_field-event_fields id [] a = refl
find_field-event_fields id ((k, e) ∷ es) a = ground (arith, find_field-event_fields id es a.1)

event_fields-AreDistinct :
    (es : Map Str RegisteredEvent) → AreEvents es → IsOrdered es → AreDistinct (event_fields es)
event_fields-AreDistinct [] a o = tt
event_fields-AreDistinct ((k, e) ∷ es) a o = (
  find_field-event_fields e.field.id es a.1 ∙ rw (a.0, lookup-Above k es o.0),
  event_fields-AreDistinct es a.1 o.1,
)

fields-AreDistinct :
    (ms : Map Str RegisteredMethod) (es : Map Str RegisteredEvent)
    → AreMethods ms
    → IsOrdered ms
    → AreEvents es
    → IsOrdered es
    → ((id : Str) → (lookup id ms ≡ none) ⊎ (lookup id es ≡ none))
    → AreDistinct (method_fields ms ++ event_fields es)
unfolding lookup
fields-AreDistinct [] es a o b p d = event_fields-AreDistinct es b p
fields-AreDistinct ((k, m) ∷ ms) es a o b p d =
    let free : lookup k es ≡ none = ground (arith, d k, beq_refl k) in
    (
      find_field-append m.field.id (method_fields ms) (event_fields es)
          ∙ rw (
            find_field-method_fields m.field.id ms a.1,
            find_field-event_fields m.field.id es b,
            a.0,
            lookup-Above k ms o.0,
            free,
          ),
      fields-AreDistinct ms es a.1 o.1 b p (λ id. ground (arith, d id)),
    )

-- Given the invariant of the registry, the beacon's fields are in strictly ascending order of their ids, and hold under an id exactly
-- what is registered under it.
pub build_beacon-fields :
    (now : ℕ) (inner : NodeInner)
    → IsRegistry inner
    → IsAscending (build_beacon now inner).fields
      × ((id : Str)
          → find_field id (build_beacon now inner).fields
            ≡ or_field
                (as_method_field (lookup id inner.methods))
                (as_event_field (lookup id inner.emitted_events)))
unfolding build_beacon
build_beacon-fields now inner v =
    let fs = method_fields inner.methods ++ event_fields inner.emitted_events in
    let d : AreDistinct fs =
      fields-AreDistinct inner.methods inner.emitted_events v.methods_keyed v.methods_ordered
        v.events_keyed v.events_ordered v.disjoint in
    (
      sort_fields-IsAscending fs d,
      λ id.
          find_field-sort_fields id fs d
          ∙ find_field-append id (method_fields inner.methods) (event_fields inner.emitted_events)
          ∙ ap₂ or_field (find_field-method_fields id inner.methods v.methods_keyed)
              (find_field-event_fields id inner.emitted_events v.events_keyed),
    )

-- What a call of `fid` on a node finds, by what the node has registered.
abbrev pub callable :
    Str → Str → Option RegisteredMethod → Option RegisteredEvent → Result MethodField GlycoError
callable gid fid (some m) e = ok m.field
callable gid fid none (some e) = err (not_a_method gid fid)
callable gid fid none none = err (field_not_found gid fid)

pub id-build_beacon : (now : ℕ) (inner : NodeInner) → (build_beacon now inner).id ≡ inner.id
unfolding build_beacon
id-build_beacon now inner = refl

-- Once a client has processed a server's beacon, its lookup of any field of the server succeeds
-- exactly for the methods that the server had registered, and tells an event from a missing field.
pub find_remote_method-process_beacon :
    (printer : Printer) (built came : ℕ) (server client : NodeInner) (fid : Str)
    → IsRegistry server
    → find_remote_method server.id fid
        (process_beacon printer came (build_beacon built server) client)
      ≡ callable server.id fid (lookup fid server.methods) (lookup fid server.emitted_events)
find_remote_method-process_beacon printer built came server client fid v =
    let b = build_beacon built server in
    let r : PresenterRecord = record {
      beacon = b;
      signature = beacon_signature printer b;
      last_seen = came;
    } in
    let after = process_beacon printer came b client in
    find_remote_method_known server.id fid after r (
      subst (λ i. lookup i after.presenters ≡ some r) (id-build_beacon built server)
        (lookup-process_beacon printer came b client))
    ∙ rw ((build_beacon-fields built server v).1 fid)
        (called (lookup fid server.methods) (lookup fid server.emitted_events))
  where
    called :
        (m : Option RegisteredMethod) (e : Option RegisteredEvent)
        → (ok_or (or_field (as_method_field m) (as_event_field e)) (field_not_found server.id fid)
            >>= as_method server.id fid)
          ≡ callable server.id fid m e
    called (some m) e = refl
    called none (some e) = refl
    called none none = refl
