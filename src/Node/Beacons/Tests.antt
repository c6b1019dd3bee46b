-- ===== src/Node/Beacons/Tests.antt =====
-- A node that sends a full beacon at every second tick.

use glycoprotein_rs.Node.Beacons.{fields_changed, beacon_run, timer_ticked, Trigger}
use glycoprotein_rs.Node.Samples.{alpha}
use glycoprotein_rs.Node.Beacons.Cadence.{beacon_run-cadence, has_beacon}
use glycoprotein_rs.Node.{NodeInner}
use glycoprotein_rs.Prelude.{
  drop, pair_has_eq, list_has_eq, nat_has_eq, arith, ◌∷◌, [], List, true, refl, ◌≡◌, ℕ,
}

abbrev often : NodeInner
often = record alpha { full_beacon_ticks = 2 }

abbrev turns : List (ℕ × NodeInner × Trigger)
turns =
    (1, often, timer_ticked)
    ∷ (2, often, fields_changed)
    ∷ (3, often, timer_ticked)
    ∷ (4, often, timer_ticked)
    ∷ []

beacon_run-cadence_example : has_beacon 2 (drop 1 (beacon_run 0 turns)) ≡ true
beacon_run-cadence_example =
    beacon_run-cadence 2 0 1 turns (refl, (refl, (refl, (refl, tt)))) (omega arith) (omega arith)
      (omega arith)
