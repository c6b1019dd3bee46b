-- ===== src/Node/Beacons.antt =====
-- `beacon_loop` of src/node.rs: what a running node tells the mesh about itself.
pub mod Cadence
mod Tests
use glycoprotein_rs.Node.Registry.{build_beacon}
use glycoprotein_rs.Protocol.{heartbeat, beacon, Glycosyl}
use glycoprotein_rs.Node.{NodeInner}
use glycoprotein_rs.Prelude.{
  leb, pair_has_eq, list_has_eq, nat_has_eq, ◌==◌, if◌then◌else◌, arith, ◌++◌, ◌∷◌, [], List, some,
  none, Option, ◌||◌, ◌&&◌, false, true, Bool, inr, inl, ◌⊎◌, ◌↔◌, ◌≢◌, ◌∙◌, refl, ◌≡◌, ◌<◌, ◌≤◌,
  ◌^◌, ◌%◌, ◌/◌, ◌*◌, ◌-◌, ◌+◌, suc, zero, ℕ,
}

-- What wakes the loop: the fields have changed, or the heartbeat timer ticks.
pub data Trigger : Type 0 where
  fields_changed timer_ticked : Trigger

-- One turn of the loop, at the time `now`: the new `ticks_since_full`, a `u32`, and the message.
unfoldable pub beacon_step : ℕ → NodeInner → Trigger → ℕ → ℕ × Glycosyl
beacon_step now inner fields_changed ticks = (0, beacon (build_beacon now inner))
beacon_step now inner timer_ticked ticks =
    let ticks' = (ticks + 1) % 2 ^ 32 in
    if leb inner.full_beacon_ticks ticks'
    then (0, beacon (build_beacon now inner))
    else (ticks', heartbeat (record { id = inner.id }))

-- The messages of a run of the loop; each turn has its time and the state that it finds.
unfoldable pub beacon_run : ℕ → List (ℕ × NodeInner × Trigger) → List Glycosyl
unfolding beacon_step
beacon_run ticks [] = []
beacon_run ticks ((now, inner, trigger) ∷ turns) =
    let (ticks', message) = beacon_step now inner trigger ticks in message ∷ beacon_run ticks' turns
