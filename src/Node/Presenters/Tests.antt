-- ===== src/Node/Presenters/Tests.antt =====
-- A node "alpha" that hears of "beta".

use glycoprotein_rs.Node.Samples.{knows_beta, beta_beacon, alpha}
use glycoprotein_rs.Node.Presenters.Expiry.{
  cleanup_ticks-process_heartbeat, cleanup_ticks, cleanup_ticks-process_heartbeat, seen_at,
  lookup-cleanup_tick, unexpired,
}
use glycoprotein_rs.Node.Presenters.{
  process_heartbeat, is_expired, take_all, expired_ids, send_expired, take_expired, beacon_event,
  cleanup_tick, process_beacon,
}
use glycoprotein_rs.Prelude.Result.{ok}
use glycoprotein_rs.Protocol.Wire.Compact.{compact}
use glycoprotein_rs.Prelude.Text.{text}
use glycoprotein_rs.Prelude.Map.{remove, insert_ordered, lookup}
use glycoprotein_rs.Node.Presenters.Observers.{IsObserved}
use glycoprotein_rs.Node.Presenters.History.{
  happen_all-IsObserved, cleanup_ticked, heartbeat_came, beacon_came, happen, happen_all,
}
use glycoprotein_rs.Node.{expired, discovered, default_presenter_expiry, new_builder, build}
use glycoprotein_rs.Protocol.{new_beacon}
use glycoprotein_rs.Prelude.{pair_has_eq, list_has_eq, nat_has_eq, arith, ◌∷◌, [], refl, ◌≡◌}

alpha_built : build (new_builder (text "alpha")) (text "alpha") ≡ ok alpha
unfolding build new_builder
alpha_built = refl

-- "beta" is found, and is gone at the first tick after its expiry.
events_of_beta :
    (happen_all compact
      (beacon_came 5 beta_beacon ∷ cleanup_ticked 4_000_000_000 ∷ [])
      alpha).presenter_events
    ≡ discovered beta_beacon ∷ expired beta_beacon ∷ []
unfolding happen_all happen process_beacon beacon_event new_beacon cleanup_tick take_expired
    send_expired expired_ids take_all is_expired insert_ordered lookup remove
events_of_beta = refl

happen_all-IsObserved_example : IsObserved compact (
    happen_all compact
      (beacon_came 5 beta_beacon
        ∷ heartbeat_came 7 (record { id = text "beta" })
        ∷ cleanup_ticked 4_000_000_000
        ∷ [])
      alpha)
happen_all-IsObserved_example =
    happen_all-IsObserved compact (new_builder (text "alpha")) (text "alpha") alpha _ alpha_built

lookup-cleanup_tick_example :
    lookup (text "beta") (cleanup_tick 4_000_000_000 knows_beta).presenters
    ≡ unexpired default_presenter_expiry 4_000_000_000 (lookup (text "beta") knows_beta.presenters)
lookup-cleanup_tick_example = lookup-cleanup_tick 4_000_000_000 knows_beta (text "beta") (tt, tt)

cleanup_ticks-process_heartbeat_example :
    lookup
      (text "beta")
      (cleanup_ticks
        (1_000_000_000 ∷ 2_000_000_000 ∷ 3_000_000_006 ∷ [])
        (process_heartbeat 7 (record { id = text "beta" }) knows_beta)).presenters
    ≡ seen_at 7 (lookup (text "beta") knows_beta.presenters)
cleanup_ticks-process_heartbeat_example =
    cleanup_ticks-process_heartbeat 7 (1_000_000_000 ∷ 2_000_000_000 ∷ 3_000_000_006 ∷ [])
      (record { id = text "beta" }) knows_beta (tt, tt) (omega arith)
      (omega arith, (omega arith, (omega arith, tt)))
