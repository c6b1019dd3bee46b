-- ===== src/Node/Presenters/Observers.antt =====
-- The presenters as the subscribers of the presenter events see them.
use glycoprotein_rs.Protocol.{Beacon}
use glycoprotein_rs.Prelude.Map.Ordered.{insert_ordered-IsOrdered, IsOrdered}
use glycoprotein_rs.Node.Presenters.{send_optional, beacon_event, process_beacon}
use glycoprotein_rs.Prelude.Map.{lookup-insert_ordered, insert_ordered, lookup, Map}
use glycoprotein_rs.Node.{expired, changed, discovered, PresenterEvent, NodeInner, PresenterRecord}
use glycoprotein_rs.Prelude.Text.{Str}
use glycoprotein_rs.Protocol.Wire.{beacon_signature, Printer}
use glycoprotein_rs.Prelude.{
  ap, not, Bool-cases, list_beq_iff, sym, pair_has_eq, list_has_eq, nat_has_eq, ◌==◌, if◌then◌else◌,
  arith, ◌++◌, ◌∷◌, [], List, some, none, Option, ◌&&◌, inr, inl, ◌≢◌, ◌∙◌, refl, ◌≡◌, ℕ,
}
use mathlib.Core.List.{append-nil}

module _ (printer : Printer) where
  -- The signature of the beacon that a subscriber last heard of `id`, after one event and after many.
  unfoldable pub seen_step : Str → Option Str → PresenterEvent → Option Str
  seen_step id s (discovered b) = if b.id == id then some (beacon_signature printer b) else s
  seen_step id s (changed p b) = if b.id == id then some (beacon_signature printer b) else s
  seen_step id s (expired b) = if b.id == id then none else s

  unfoldable pub seen_after : Str → Option Str → List PresenterEvent → Option Str
  unfolding seen_step
  seen_after id s [] = s
  seen_after id s (e ∷ es) = seen_after id (seen_step id s e) es

  abbrev pub signature_of : Option PresenterRecord → Option Str
  signature_of none = none
  signature_of (some r) = some r.signature

  -- A record stands under its beacon's id, with its beacon's signature.
  abbrev pub IsKept : Map Str PresenterRecord → Type 0
  IsKept m =
      (id : Str) (r : PresenterRecord)
      → lookup id m ≡ some r
      → (r.beacon.id ≡ id) × (r.signature ≡ beacon_signature printer r.beacon)

  -- The node's own presenter may be hidden, by `loopback_presenter`.
  pub record IsObserved (inner : NodeInner) : Type 0 where
    pub kept : IsKept inner.presenters
    pub ordered : IsOrdered inner.presenters
    pub seen :
        (id : Str)
        → id ≢ inner.id
        → seen_after id none inner.presenter_events ≡ signature_of (lookup id inner.presenters)

  seen_after-append :
      (id : Str) (s : Option Str) (es fs : List PresenterEvent)
      → seen_after id s (es ++ fs) ≡ seen_after id (seen_after id s es) fs
  unfolding seen_after
  seen_after-append id s [] fs = refl
  seen_after-append id s (x ∷ es) fs = seen_after-append id (seen_step id s x) es fs

  -- Some events more, with the change of the map that they tell.
  pub events-IsObserved :
      (es : List PresenterEvent) {inner : NodeInner} (inner' : NodeInner)
      → IsObserved inner
      → inner'.id ≡ inner.id
      → inner'.presenter_events ≡ inner.presenter_events ++ es
      → IsKept inner'.presenters
      → IsOrdered inner'.presenters
      → ((id : Str)
          → id ≢ inner.id
          → seen_after id (signature_of (lookup id inner.presenters)) es
            ≡ signature_of (lookup id inner'.presenters))
      → IsObserved inner'
  events-IsObserved es {inner} inner' v same sent kept ordered change = record {
    kept = kept;
    ordered = ordered;
    seen = λ id other.
        let other' : id ≢ inner.id = λ e. other (e ∙ sym same) in
        rw (sent, seen_after-append id none inner.presenter_events es, v.seen id other')
          (change id other');
  }

  module _ (now : ℕ) (b : Beacon) (inner : NodeInner) (v : IsObserved inner) where
    fresh : PresenterRecord
    fresh = record { beacon = b; signature = beacon_signature printer b; last_seen = now }

    recorded : Map Str PresenterRecord
    recorded = insert_ordered b.id fresh inner.presenters

    recorded-IsKept : IsKept recorded
    unfolding recorded fresh
    recorded-IsKept id r h = ground (
      arith,
      lookup-insert_ordered b.id id fresh inner.presenters,
      list_beq_iff b.id id,
      v.kept id r,
    )

    -- The events that a beacon gives rise to tell the new record.
    beacon_events_tell :
        (es : List PresenterEvent) (id : Str)
        → ((b.id ≡ id)
            → seen_after id (signature_of (lookup id inner.presenters)) es
              ≡ some (beacon_signature printer b))
        → ((b.id ≢ id)
            → seen_after id (signature_of (lookup id inner.presenters)) es
              ≡ signature_of (lookup id inner.presenters))
        → seen_after id (signature_of (lookup id inner.presenters)) es
          ≡ signature_of (lookup id recorded)
    unfolding recorded fresh
    beacon_events_tell es id hit miss = ground (
      arith,
      lookup-insert_ordered b.id id fresh inner.presenters,
      list_beq_iff b.id id,
      hit,
      miss,
    )

    recorded-IsObserved :
        (es : List PresenterEvent)
        → ((id : Str)
            → id ≢ inner.id
            → seen_after id (signature_of (lookup id inner.presenters)) es
              ≡ signature_of (lookup id recorded))
        → IsObserved (record inner {
          presenters = recorded;
          presenter_events = inner.presenter_events ++ es;
        })
    unfolding recorded
    recorded-IsObserved es change =
        events-IsObserved es _ v refl refl recorded-IsKept
          (insert_ordered-IsOrdered b.id fresh inner.presenters v.ordered) change

    quiet-IsObserved :
        ((id : Str)
          → id ≢ inner.id
          → signature_of (lookup id inner.presenters) ≡ signature_of (lookup id recorded))
        → IsObserved (record inner { presenters = recorded })
    unfolding recorded seen_after
    quiet-IsObserved change =
        events-IsObserved [] _ v refl (sym (append-nil _)) recorded-IsKept
          (insert_ordered-IsOrdered b.id fresh inner.presenters v.ordered) change

    beacon_event_tells :
        (p : Option PresenterRecord)
        → lookup b.id inner.presenters ≡ p
        → IsObserved (
            send_optional
              (beacon_event inner b (beacon_signature printer b) p)
              (record inner { presenters = recorded }))
    unfolding beacon_event seen_after
    beacon_event_tells none e =
        elim (Bool-cases (b.id == inner.id && not inner.loopback_presenter)) [
          | inl t ↦ rw t (
              quiet-IsObserved λ id other.
                beacon_events_tell [] id (λ same. ground (arith, list_beq_iff b.id inner.id))
                  (λ _. refl))
          | inr f ↦ rw f (
              recorded-IsObserved (discovered b ∷ []) λ id other.
                beacon_events_tell (discovered b ∷ []) id
                  (λ same. ground (arith, list_beq_iff b.id id))
                  (λ ne. ground (arith, list_beq_iff b.id id)))
        ]
    beacon_event_tells (some r) e = elim (Bool-cases (r.signature == beacon_signature printer b)) [
      | inl t ↦ rw t (
          quiet-IsObserved λ id other.
            beacon_events_tell [] id (λ same. rw (← same, e) (ap some ((list_beq_iff _ _).0 t)))
              (λ _. refl))
      | inr f ↦ rw f (
          recorded-IsObserved (changed r.beacon b ∷ []) λ id other.
            beacon_events_tell (changed r.beacon b ∷ []) id
              (λ same. ground (arith, list_beq_iff b.id id))
              (λ ne. ground (arith, list_beq_iff b.id id)))
    ]

  -- A beacon is recorded, and the subscribers hear of it exactly if its signature is news to them.
  pub process_beacon-IsObserved :
      (now : ℕ) (b : Beacon) (inner : NodeInner)
      → IsObserved inner
      → IsObserved (process_beacon printer now b inner)
  unfolding process_beacon recorded fresh
  process_beacon-IsObserved now b inner v =
      beacon_event_tells now b inner v (lookup b.id inner.presenters) refl
