-- ===== src/Node/Presenters.antt =====
-- The presenters of src/node.rs: `process_beacon`, `process_heartbeat`, a tick of `cleanup_loop`,
-- `find_remote_method` and `presenters`.
pub mod Expiry
pub mod Observers
pub mod History
pub mod Lookup
mod Tests
use glycoprotein_rs.Error.{not_a_method, field_not_found, GlycoError}
use glycoprotein_rs.Prelude.Result.{err, ok_or, ok, ◌>>=◌, Result}
use glycoprotein_rs.Prelude.Text.{Str}
use glycoprotein_rs.Prelude.Map.{values, remove, insert_ordered, lookup, Map}
use glycoprotein_rs.Protocol.{event, method, MethodField, field_id, Field, Beacon, Heartbeat}
use glycoprotein_rs.Protocol.Wire.{beacon_signature, Printer}
use glycoprotein_rs.Node.{changed, discovered, expired, PresenterRecord, NodeInner, PresenterEvent}
use glycoprotein_rs.Prelude.{
  map, not, leb, pair_has_eq, list_has_eq, nat_has_eq, ◌==◌, if◌then◌else◌, arith, ◌++◌, ◌∷◌, [],
  List, some, none, Option, ◌||◌, ◌&&◌, false, true, Bool, inr, inl, ◌⊎◌, ◌↔◌, ◌≢◌, ◌∙◌, refl, ◌≡◌,
  ◌<◌, ◌≤◌, ◌^◌, ◌%◌, ◌/◌, ◌*◌, ◌-◌, ◌+◌, suc, zero, ℕ,
}

-- `presenter_events.send`
abbrev pub send_presenter_event : PresenterEvent → NodeInner → NodeInner
send_presenter_event e inner = record inner { presenter_events = inner.presenter_events ++ e ∷ [] }

-- The event that a beacon with this signature gives rise to, where `previous` was recorded.
unfoldable pub beacon_event :
    NodeInner → Beacon → Str → Option PresenterRecord → Option PresenterEvent
beacon_event inner beacon signature none =
    if beacon.id == inner.id && not inner.loopback_presenter then none else some (discovered beacon)
beacon_event inner beacon signature (some previous) =
    if not (previous.signature == signature) then some (changed previous.beacon beacon) else none

abbrev pub send_optional : Option PresenterEvent → NodeInner → NodeInner
send_optional none inner = inner
send_optional (some e) inner = send_presenter_event e inner

unfoldable pub process_beacon : Printer → ℕ → Beacon → NodeInner → NodeInner
process_beacon printer now beacon inner =
    let signature = beacon_signature printer beacon in
    let previous = lookup beacon.id inner.presenters in
    send_optional (beacon_event inner beacon signature previous) (record inner {
      presenters =
          insert_ordered beacon.id
            (record { beacon = beacon; signature = signature; last_seen = now }) inner.presenters;
    })

unfoldable pub process_heartbeat : ℕ → Heartbeat → NodeInner → NodeInner
process_heartbeat now heartbeat inner = elim (lookup heartbeat.id inner.presenters) [
  | none ↦ inner
  | some presenter ↦ record inner {
    presenters =
        insert_ordered heartbeat.id (record presenter { last_seen = now }) inner.presenters;
  }
]

-- `now.duration_since(record.last_seen) >= presenter_expiry`; the difference stops at zero.
unfoldable pub is_expired : ℕ → ℕ → PresenterRecord → Bool
is_expired expiry now r = leb expiry (now - r.last_seen)

unfoldable pub expired_ids : ℕ → ℕ → Map Str PresenterRecord → List Str
unfolding is_expired
expired_ids expiry now [] = []
expired_ids expiry now ((id, r) ∷ m) =
    if is_expired expiry now r then id ∷ expired_ids expiry now m else expired_ids expiry now m

-- The ids are removed one after the other, and the beacons of those that were there come back.
unfoldable pub take_all : List Str → Map Str PresenterRecord → List Beacon × Map Str PresenterRecord
take_all [] m = ([], m)
take_all (id ∷ ids) m = elim (lookup id m) [
  | none ↦ take_all ids m
  | some r ↦ let (beacons, m') = take_all ids (remove id m) in (r.beacon ∷ beacons, m')
]

-- The part of a tick of `cleanup_loop` that holds the lock.
unfoldable pub take_expired : ℕ → NodeInner → List Beacon × NodeInner
unfolding expired_ids take_all
take_expired now inner =
    let (beacons, m) =
      take_all (expired_ids inner.presenter_expiry now inner.presenters) inner.presenters in
    (beacons, record inner { presenters = m })

-- The part behind it.
unfoldable pub send_expired : List Beacon → NodeInner → NodeInner
send_expired [] inner = inner
send_expired (b ∷ bs) inner = send_expired bs (send_presenter_event (expired b) inner)

-- One tick of `cleanup_loop`, if nothing comes between its two parts.
unfoldable pub cleanup_tick : ℕ → NodeInner → NodeInner
unfolding take_expired send_expired
cleanup_tick now inner =
    let (beacons, inner') = take_expired now inner in send_expired beacons inner'

-- `GlycoComplex::presenters`
unfoldable pub presenters : NodeInner → List Beacon
presenters inner = map (λ r. r.beacon) (values inner.presenters)

-- `Iterator::find` by field id
unfoldable pub find_field : Str → List Field → Option Field
find_field fid [] = none
find_field fid (f ∷ fs) = if field_id f == fid then some f else find_field fid fs

abbrev pub as_method : Str → Str → Field → Result MethodField GlycoError
as_method gid fid (method f) = ok f
as_method gid fid (event f) = err (not_a_method gid fid)

unfoldable pub find_remote_method : Str → Str → NodeInner → Result MethodField GlycoError
unfolding find_field
find_remote_method gid fid inner = do
  presenter ← ok_or (lookup gid inner.presenters) (field_not_found gid fid)
  field ← ok_or (find_field fid presenter.beacon.fields) (field_not_found gid fid)
  as_method gid fid field
