-- ===== src/Node/Presenters/History.antt =====
-- Heartbeats, cleanup ticks and any sequence of what changes the presenters.
use glycoprotein_rs.Prelude.Result.{ok}
use glycoprotein_rs.Node.Presenters.Expiry.{
  take_all-IsOrdered, presenters-send_expired, lookup-take_all,
}
use glycoprotein_rs.Prelude.Map.Ordered.{insert_ordered-IsOrdered}
use glycoprotein_rs.Node.{
  PresenterEvent, GlycoComplexBuilder, build, expired, NodeInner, PresenterRecord,
}
use glycoprotein_rs.Protocol.{Beacon, Heartbeat}
use glycoprotein_rs.Prelude.Map.{
  lookup-remove, lookup-remove-some, remove, lookup-insert_ordered, lookup, Map,
}
use glycoprotein_rs.Node.Presenters.Observers.{
  process_beacon-IsObserved, events-IsObserved, signature_of, IsObserved, IsKept, seen_after,
}
use glycoprotein_rs.Prelude.Text.{Str}
use glycoprotein_rs.Node.Presenters.{
  expired_ids, send_presenter_event, process_beacon, cleanup_tick, send_expired, take_all,
  process_heartbeat,
}
use glycoprotein_rs.Protocol.Wire.{Printer}
use glycoprotein_rs.Prelude.{
  Bool-cases, ap, list_beq_iff, sym, Option-cases, pair_has_eq, list_has_eq, nat_has_eq, ◌==◌,
  if◌then◌else◌, arith, ◌++◌, ◌∷◌, [], List, none, inr, inl, ◌∙◌, refl, ◌≡◌, ℕ,
}
use mathlib.Core.List.{append_assoc, append-nil}

abbrev expired_events : List Beacon → List PresenterEvent
expired_events [] = []
expired_events (b ∷ bs) = expired b ∷ expired_events bs

pub presenter_events-send_expired :
    (bs : List Beacon) (inner : NodeInner)
    → (send_expired bs inner).presenter_events ≡ inner.presenter_events ++ expired_events bs
unfolding send_expired
presenter_events-send_expired [] inner = sym (append-nil _)
presenter_events-send_expired (b ∷ bs) inner =
    presenter_events-send_expired bs (send_presenter_event (expired b) inner)
    ∙ append_assoc inner.presenter_events (expired b ∷ []) (expired_events bs)

pub id-send_expired : (bs : List Beacon) (inner : NodeInner) → (send_expired bs inner).id ≡ inner.id
unfolding send_expired
id-send_expired [] inner = refl
id-send_expired (b ∷ bs) inner = id-send_expired bs (send_presenter_event (expired b) inner)

module _ (printer : Printer) where
  process_heartbeat-IsObserved :
      (now : ℕ) (h : Heartbeat) (inner : NodeInner)
      → IsObserved printer inner
      → IsObserved printer (process_heartbeat now h inner)
  unfolding process_heartbeat seen_after
  process_heartbeat-IsObserved now h inner v = elim (Option-cases (lookup h.id inner.presenters)) [
    | inl e ↦ rw (process_heartbeat, e) v
    | inr (r, e) ↦
        let r' : PresenterRecord = record r { last_seen = now } in
        let found = λ (id : Str). lookup-insert_ordered h.id id r' inner.presenters in
        rw (process_heartbeat, e)
          (events-IsObserved printer [] _ v refl (sym (append-nil _))
            (λ id q k. ground (arith, found id, list_beq_iff h.id id, v.kept h.id r e, v.kept id q))
            (insert_ordered-IsOrdered h.id r' inner.presenters v.ordered)
            (λ id other. ground (arith, found id, list_beq_iff h.id id)))
  ]

  take_all-IsKept :
      (ids : List Str) (m : Map Str PresenterRecord)
      → IsKept printer m
      → IsKept printer (take_all ids m).1
  take_all-IsKept ids m kept id r h = ground (arith, lookup-take_all id ids m, kept id r)

  -- The expired beacons tell what was taken.
  take_all_tells :
      (id : Str) (ids : List Str) (m : Map Str PresenterRecord)
      → IsKept printer m
      → seen_after printer id
          (signature_of printer (lookup id m))
          (expired_events (take_all ids m).0)
        ≡ signature_of printer (lookup id (take_all ids m).1)
  unfolding take_all seen_after
  take_all_tells id [] m kept = refl
  take_all_tells id (k ∷ ids) m kept = elim (Option-cases (lookup k m)) [
    | inl e ↦ rw (take_all, e) (take_all_tells id ids m kept)
    | inr (r, e) ↦
        let rest : IsKept printer (remove k m) =
          λ j q h. kept j q (lookup-remove-some k j q m h).0 in
        let step : (if r.beacon.id == id then none else signature_of printer (lookup id m))
            ≡ signature_of printer (lookup id (remove k m)) =
          ground (arith, (kept k r e).0, lookup-remove k id m) in
        rw (take_all, e)
          (ap (λ s. seen_after printer id s (expired_events (take_all ids (remove k m)).0)) step
            ∙ take_all_tells id ids (remove k m) rest)
  ]

  cleanup_tick-IsObserved :
      (now : ℕ) (inner : NodeInner)
      → IsObserved printer inner
      → IsObserved printer (cleanup_tick now inner)
  unfolding cleanup_tick
  cleanup_tick-IsObserved now inner v =
      let ids = expired_ids inner.presenter_expiry now inner.presenters in
      let bs = (take_all ids inner.presenters).0 in
      let m = (take_all ids inner.presenters).1 in
      let taken : NodeInner = record inner { presenters = m } in
      let same = presenters-send_expired bs taken in
      events-IsObserved printer (expired_events bs) (send_expired bs taken) v
        (id-send_expired bs taken) (presenter_events-send_expired bs taken)
        (rw same (take_all-IsKept ids inner.presenters v.kept))
        (rw same (take_all-IsOrdered ids inner.presenters v.ordered))
        (λ id other. rw same (take_all_tells id ids inner.presenters v.kept))

-- What happens to the presenters of a running node, with the instant at which it happens.
pub data Happening : Type 0 where
  beacon_came : ℕ → Beacon → Happening
  heartbeat_came : ℕ → Heartbeat → Happening
  cleanup_ticked : ℕ → Happening

unfoldable pub happen : Printer → Happening → NodeInner → NodeInner
happen printer (beacon_came now b) inner = process_beacon printer now b inner
happen printer (heartbeat_came now h) inner = process_heartbeat now h inner
happen printer (cleanup_ticked now) inner = cleanup_tick now inner

unfoldable pub happen_all : Printer → List Happening → NodeInner → NodeInner
unfolding happen
happen_all printer [] inner = inner
happen_all printer (h ∷ hs) inner = happen_all printer hs (happen printer h inner)

happen_all-keeps :
    (printer : Printer) (hs : List Happening) (inner : NodeInner)
    → IsObserved printer inner
    → IsObserved printer (happen_all printer hs inner)
unfolding happen_all
happen_all-keeps printer [] inner v = v
happen_all-keeps printer (beacon_came now b ∷ hs) inner v =
    happen_all-keeps printer hs _ (process_beacon-IsObserved printer now b inner v)
happen_all-keeps printer (heartbeat_came now h ∷ hs) inner v =
    happen_all-keeps printer hs _ (process_heartbeat-IsObserved printer now h inner v)
happen_all-keeps printer (cleanup_ticked now ∷ hs) inner v =
    happen_all-keeps printer hs _ (cleanup_tick-IsObserved printer now inner v)

build-IsObserved :
    (printer : Printer) (b : GlycoComplexBuilder) (connexon_id : Str) (inner : NodeInner)
    → build b connexon_id ≡ ok inner
    → IsObserved printer inner
unfolding build lookup seen_after
build-IsObserved printer b connexon_id inner h = elim (Bool-cases (connexon_id == b.id)) [
  | inl t ↦ record {
    kept = λ id r k. ground arith;
    ordered = ground arith;
    seen = λ id other. ground arith;
  }
  | inr f ↦ ground arith
]

-- After any sequence of beacons, heartbeats and cleanup ticks on a node that was built, a
-- subscriber to the presenter events knows of every other node whether it is among the presenters,
-- and with which signature; each record stands under its beacon's id, with its beacon's signature.
pub happen_all-IsObserved :
    (printer : Printer) (b : GlycoComplexBuilder) (connexon_id : Str) (inner : NodeInner)
    (hs : List Happening)
    → build b connexon_id ≡ ok inner
    → IsObserved printer (happen_all printer hs inner)
happen_all-IsObserved printer b connexon_id inner hs h =
    happen_all-keeps printer hs inner (build-IsObserved printer b connexon_id inner h)
