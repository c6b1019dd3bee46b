-- ===== src/Node/Beacons/Cadence.antt =====
-- How often the beacon loop sends a full beacon.
use glycoprotein_rs.Node.{NodeInner}
use glycoprotein_rs.Protocol.{beacon, Glycosyl}
use glycoprotein_rs.Node.Beacons.{beacon_run, timer_ticked, fields_changed, Trigger, beacon_step}
use glycoprotein_rs.Prelude.{
  leb, drop, Bool-cases, length, inr, inl, refl, ◌≤◌, ◌^◌, ◌%◌, ◌+◌, pair_has_eq, list_has_eq,
  nat_has_eq, arith, ◌∷◌, [], List, ◌||◌, false, true, Bool, ◌≡◌, ◌<◌, suc, zero, ℕ,
}

-- The counter of ticks never reaches the number of ticks of a full beacon.
beacon_step-bounded :
    (now : ℕ) (s : NodeInner) (trigger : Trigger) (ticks : ℕ)
    → 0 < s.full_beacon_ticks
    → (beacon_step now s trigger ticks).0 < s.full_beacon_ticks
unfolding beacon_step
beacon_step-bounded now s fields_changed ticks p = p
beacon_step-bounded now s timer_ticked ticks p = ground arith

-- Whether a message is a full beacon.
abbrev pub is_beacon : Glycosyl → Bool
is_beacon (beacon b) = true
is_beacon _ = false

-- Every turn finds the configured number of ticks, which no operation changes.
abbrev pub HasTicks : ℕ → List (ℕ × NodeInner × Trigger) → Type 0
HasTicks n [] = Unit
HasTicks n ((now, s, trigger) ∷ turns) = (s.full_beacon_ticks ≡ n) × HasTicks n turns

-- The first `k` messages.
unfoldable pub has_beacon : ℕ → List Glycosyl → Bool
has_beacon zero ms = false
has_beacon (suc k) [] = false
has_beacon (suc k) (x ∷ ms) = is_beacon x || has_beacon k ms

-- From a counter of `ticks`, one of the next `n - ticks` turns sends a full beacon.
pub beacon_run-has_beacon :
    (n ticks k : ℕ) (turns : List (ℕ × NodeInner × Trigger))
    → HasTicks n turns
    → n < 2 ^ 32
    → n ≤ ticks + k
    → ticks < n
    → k ≤ length turns
    → has_beacon k (beacon_run ticks turns) ≡ true
unfolding beacon_run beacon_step has_beacon
beacon_run-has_beacon n ticks zero turns v small enough below long = ground arith
beacon_run-has_beacon n ticks (suc k) [] v small enough below long = ground arith
beacon_run-has_beacon n ticks (suc k) ((now, s, fields_changed) ∷ turns) v small enough below long =
    refl
beacon_run-has_beacon n ticks (suc k) ((now, s, timer_ticked) ∷ turns) (e, v) small enough below
      long =
    let next : (ticks + 1) % 2 ^ 32 ≡ suc ticks = ground arith in
    elim (Bool-cases (leb n (suc ticks))) [
      | inl h ↦ rw (next, e, h) refl
      | inr h ↦
          rw (next, e, h)
            (beacon_run-has_beacon n (suc ticks) k turns v small (omega arith) (ground arith)
              (omega arith))
    ]

-- A loop whose nodes send a full beacon at every `n`-th tick, `n` positive and below 2 ^ 32, sends a
-- full beacon in every `n` consecutive turns, whatever wakes it: `ticks` is the counter at the start.
pub beacon_run-cadence :
    (n ticks i : ℕ) (turns : List (ℕ × NodeInner × Trigger))
    → HasTicks n turns
    → n < 2 ^ 32
    → ticks < n
    → i + n ≤ length turns
    → has_beacon n (drop i (beacon_run ticks turns)) ≡ true
unfolding beacon_run
beacon_run-cadence n ticks zero turns v small below long =
    beacon_run-has_beacon n ticks n turns v small (omega arith) below (omega arith)
beacon_run-cadence n ticks (suc i) [] v small below long = ground arith
beacon_run-cadence n ticks (suc i) ((now, s, trigger) ∷ turns) (e, v) small below long =
    beacon_run-cadence n (beacon_step now s trigger ticks).0 i turns v small
      (rw⁻¹ e (beacon_step-bounded now s trigger ticks (ground (arith, e)))) (omega arith)
