-- ===== src/Node/Presenters/Expiry.antt =====
-- Which presenters a cleanup tick removes.

use glycoprotein_rs.Prelude.Map.Ordered.{
  remove-IsOrdered, insert_ordered-IsOrdered, lookup-Above, IsOrdered,
}
use glycoprotein_rs.Protocol.{Heartbeat, Beacon}
use glycoprotein_rs.Prelude.Map.{
  lookup-insert_ordered, insert_ordered, lookup-remove, remove, lookup, Map,
}
use glycoprotein_rs.Node.{expired, NodeInner, PresenterRecord}
use glycoprotein_rs.Node.Presenters.{
  take_expired, process_heartbeat, send_presenter_event, is_expired, cleanup_tick, send_expired,
  expired_ids, take_all,
}
use glycoprotein_rs.Prelude.Text.{Str}
use glycoprotein_rs.Prelude.{
  sym, subst, ap, All, ◌∙◌, beq_refl, Option-cases, list_beq_iff, leb, pair_has_eq, list_has_eq,
  nat_has_eq, ◌==◌, if◌then◌else◌, arith, ◌∷◌, [], List, some, none, Option, false, true, Bool, inr,
  inl, refl, ◌≡◌, ◌<◌, ◌-◌, ◌+◌, ℕ,
}

unfoldable pub contains : Str → List Str → Bool
contains j [] = false
contains j (id ∷ ids) = if id == j then true else contains j ids

pub lookup-take_all :
    (j : Str) (ids : List Str) (m : Map Str PresenterRecord)
    → lookup j (take_all ids m).1 ≡ (if contains j ids then none else lookup j m)
unfolding take_all contains
lookup-take_all j [] m = refl
lookup-take_all j (id ∷ ids) m = ground (
  arith,
  lookup-take_all j ids m,
  lookup-take_all j ids (remove id m),
  lookup-remove id j m,
  list_beq_iff id j,
)

abbrev pub expired_record : ℕ → ℕ → Option PresenterRecord → Bool
expired_record expiry now none = false
expired_record expiry now (some r) = is_expired expiry now r

contains-expired_ids :
    (expiry now : ℕ) (j : Str) (m : Map Str PresenterRecord)
    → IsOrdered m
    → contains j (expired_ids expiry now m) ≡ expired_record expiry now (lookup j m)
unfolding contains expired_ids lookup
contains-expired_ids expiry now j [] o = refl
contains-expired_ids expiry now j ((k, r) ∷ m) o =
    ground (arith, contains-expired_ids expiry now j m o.1, lookup-Above k m o.0, list_beq_iff k j)

-- What a tick at `now` leaves of a record.
abbrev pub unexpired : ℕ → ℕ → Option PresenterRecord → Option PresenterRecord
unexpired expiry now none = none
unexpired expiry now (some r) = if leb expiry (now - r.last_seen) then none else some r

pub presenters-send_expired :
    (bs : List Beacon) (inner : NodeInner) → (send_expired bs inner).presenters ≡ inner.presenters
unfolding send_expired
presenters-send_expired [] inner = refl
presenters-send_expired (b ∷ bs) inner =
    presenters-send_expired bs (send_presenter_event (expired b) inner)

-- With the presenters in order, a cleanup tick removes exactly those that were last seen
-- `presenter_expiry` ago or earlier, and keeps the records of all others as they are.
pub lookup-cleanup_tick :
    (now : ℕ) (inner : NodeInner) (id : Str)
    → IsOrdered inner.presenters
    → lookup id (cleanup_tick now inner).presenters
      ≡ unexpired inner.presenter_expiry now (lookup id inner.presenters)
unfolding cleanup_tick
lookup-cleanup_tick now inner id o =
    let m = inner.presenters in
    let ids = expired_ids inner.presenter_expiry now m in
    rw (cleanup_tick, presenters-send_expired, lookup-take_all id ids m)
      (ground (arith, contains-expired_ids inner.presenter_expiry now id m o))

-- What a heartbeat at `now` makes of a record.
abbrev pub seen_at : ℕ → Option PresenterRecord → Option PresenterRecord
seen_at now none = none
seen_at now (some r) = some (record r { last_seen = now })

pub take_all-IsOrdered :
    (ids : List Str) (m : Map Str PresenterRecord) → IsOrdered m → IsOrdered (take_all ids m).1
unfolding take_all
take_all-IsOrdered [] m o = o
take_all-IsOrdered (id ∷ ids) m o = elim (Option-cases (lookup id m)) [
  | inl e ↦ rw (take_all, e) (take_all-IsOrdered ids m o)
  | inr (r, e) ↦ rw (take_all, e) (take_all-IsOrdered ids (remove id m) (remove-IsOrdered id m o))
]

cleanup_tick-IsOrdered :
    (now : ℕ) (inner : NodeInner)
    → IsOrdered inner.presenters
    → IsOrdered (cleanup_tick now inner).presenters
unfolding cleanup_tick
cleanup_tick-IsOrdered now inner o =
    rw (cleanup_tick, presenters-send_expired)
      (take_all-IsOrdered (expired_ids inner.presenter_expiry now inner.presenters) inner.presenters
        o)

expiry-send_expired :
    (bs : List Beacon) (inner : NodeInner)
    → (send_expired bs inner).presenter_expiry ≡ inner.presenter_expiry
unfolding send_expired
expiry-send_expired [] inner = refl
expiry-send_expired (b ∷ bs) inner = expiry-send_expired bs (send_presenter_event (expired b) inner)

expiry-cleanup_tick :
    (now : ℕ) (inner : NodeInner)
    → (cleanup_tick now inner).presenter_expiry ≡ inner.presenter_expiry
unfolding cleanup_tick
expiry-cleanup_tick now inner =
    expiry-send_expired (take_expired now inner).0 (take_expired now inner).1

-- The ticks of `cleanup_loop`, at the given times.
unfoldable pub cleanup_ticks : List ℕ → NodeInner → NodeInner
unfolding cleanup_tick
cleanup_ticks [] inner = inner
cleanup_ticks (now ∷ nows) inner = cleanup_ticks nows (cleanup_tick now inner)

abbrev pub AreBefore : ℕ → List ℕ → Type 0
AreBefore end nows = All (λ (now : ℕ). now < end) nows

-- Whom every tick finds unexpired, the loop keeps.
lookup-cleanup_ticks :
    (nows : List ℕ) (inner : NodeInner) (id : Str) (o : Option PresenterRecord)
    → IsOrdered inner.presenters
    → lookup id inner.presenters ≡ o
    → All (λ (now : ℕ). unexpired inner.presenter_expiry now o ≡ o) nows
    → lookup id (cleanup_ticks nows inner).presenters ≡ o
unfolding cleanup_ticks
lookup-cleanup_ticks [] inner id o ordered e h = e
lookup-cleanup_ticks (now ∷ nows) inner id o ordered e (h, hs) =
    lookup-cleanup_ticks nows (cleanup_tick now inner) id o
      (cleanup_tick-IsOrdered now inner ordered)
      (lookup-cleanup_tick now inner id ordered ∙ ap (unexpired inner.presenter_expiry now) e ∙ h)
      (subst (λ x. All (λ (t : ℕ). unexpired x t o ≡ o) nows) (sym (expiry-cleanup_tick now inner))
        hs)

unexpired-before :
    (expiry : ℕ) (r : PresenterRecord) (nows : List ℕ)
    → 0 < expiry
    → AreBefore (r.last_seen + expiry) nows
    → All (λ (now : ℕ). unexpired expiry now (some r) ≡ some r) nows
unexpired-before expiry r [] some_time h = tt
unexpired-before expiry r (now ∷ nows) some_time (h, hs) =
    (ground (arith, some_time, h), unexpired-before expiry r nows some_time hs)

unexpired-none :
    (expiry : ℕ) (nows : List ℕ) → All (λ (now : ℕ). unexpired expiry now none ≡ none) nows
unexpired-none expiry [] = tt
unexpired-none expiry (now ∷ nows) = (refl, unexpired-none expiry nows)

-- With the presenters in order, if the expiry is not zero: whatever cleanup ticks come after a
-- heartbeat, all of them earlier than `presenter_expiry` after it, a presenter that was known then
-- stays, with its beacon and the time of the heartbeat; a heartbeat of an unknown node makes no
-- presenter.
pub cleanup_ticks-process_heartbeat :
    (seen : ℕ) (nows : List ℕ) (h : Heartbeat) (inner : NodeInner)
    → IsOrdered inner.presenters
    → 0 < inner.presenter_expiry
    → AreBefore (seen + inner.presenter_expiry) nows
    → lookup h.id (cleanup_ticks nows (process_heartbeat seen h inner)).presenters
      ≡ seen_at seen (lookup h.id inner.presenters)
unfolding process_heartbeat
cleanup_ticks-process_heartbeat seen nows h inner o some_time soon =
    elim (Option-cases (lookup h.id inner.presenters)) [
      | inl e ↦
          rw (process_heartbeat, e)
            (lookup-cleanup_ticks nows inner h.id none o e
              (unexpired-none inner.presenter_expiry nows))
      | inr (r, e) ↦
          let r' : PresenterRecord = record r { last_seen = seen } in
          let m = insert_ordered h.id r' inner.presenters in
          rw (process_heartbeat, e)
            (lookup-cleanup_ticks nows (record inner { presenters = m }) h.id (some r')
              (insert_ordered-IsOrdered h.id r' inner.presenters o)
              (rw (lookup-insert_ordered h.id h.id r' inner.presenters, beq_refl h.id) refl)
              (unexpired-before inner.presenter_expiry r' nows some_time soon))
    ]
