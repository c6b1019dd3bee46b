-- ===== src/Node/Lifecycle.antt =====
-- `start` and `stop` of a node, its three loops as tasks, and `dispatch_loop` (src/node.rs), over
-- any connexon (src/transport/mod.rs). What the other tasks do to the node while one of the two
-- awaits is their argument `meanwhile`; the lock `lifecycle` keeps other starts and stops out.
pub mod Rollback
pub mod Stopped
mod Tests
use glycoprotein_rs.Node.Registry.{build_beacon}
use glycoprotein_rs.Node.Calls.{clear_pending}
use glycoprotein_rs.Error.{GlycoError}
use glycoprotein_rs.Node.Handlers.{dispatch_message, Task}
use glycoprotein_rs.Protocol.Wire.{Printer}
use glycoprotein_rs.Protocol.{beacon, Glycosyl, message, ConnexonEvent}
use glycoprotein_rs.Node.{NodeInner}
use glycoprotein_rs.Prelude.Result.{err, err, ok, ok, Result}
use glycoprotein_rs.Prelude.{
  not, pair_has_eq, list_has_eq, nat_has_eq, ◌==◌, if◌then◌else◌, arith, ◌++◌, ◌∷◌, [], List, some,
  none, Option, ◌||◌, ◌&&◌, false, true, Bool, inr, inl, ◌⊎◌, ◌↔◌, ◌≢◌, ◌∙◌, refl, ◌≡◌, ◌<◌, ◌≤◌,
  ◌^◌, ◌%◌, ◌/◌, ◌*◌, ◌-◌, ◌+◌, suc, zero, ℕ,
}

-- What a node calls of the trait `Connexon`, whose state is an `S`.
pub record Connexon (S : Type 0) : Type 0 where
  pub start : S → Result (Unit {0}) GlycoError × S
  pub stop : S → Result (Unit {0}) GlycoError × S
  pub send : Glycosyl → S → Result (Unit {0}) GlycoError × S

-- `tasks` counts those of the lifecycle.
pub record GlycoComplex (S : Type 0) : Type 0 where
  pub inner : NodeInner
  pub connexon : S
  pub tasks : ℕ

module _ {S : Type 0} (c : Connexon S) (meanwhile : NodeInner → NodeInner) where
  unfoldable pub send_full_beacon : ℕ → NodeInner → S → Result (Unit {0}) GlycoError × S
  send_full_beacon now inner connexon = c.send (beacon (build_beacon now inner)) connexon

  -- The part of `start` behind the start of the connexon.
  unfoldable pub run_tasks : ℕ → GlycoComplex S → Result (Unit {0}) GlycoError × GlycoComplex S
  unfolding send_full_beacon
  run_tasks now node =
      let inner = record node.inner { active = true; started = true } in
      let (sent, connexon) = send_full_beacon now inner node.connexon in
      elim sent [
        | ok _ ↦ (ok tt, record node { inner = meanwhile inner; connexon = connexon; tasks = 3 })
        | err e ↦ (
          err e,
          record node {
            inner = record (meanwhile inner) { started = false; active = false };
            connexon = (c.stop connexon).1;
          },
        )
      ]

  unfoldable pub start : ℕ → GlycoComplex S → Result (Unit {0}) GlycoError × GlycoComplex S
  unfolding run_tasks
  start now node =
      if node.inner.started
      then (ok tt, node)
      else let (begun, connexon) = c.start node.connexon in
        elim begun [
          | err e ↦ (err e, record node { connexon = connexon })
          | ok _ ↦ run_tasks now (record node { connexon = connexon })
        ]

  unfoldable pub stop : GlycoComplex S → Result (Unit {0}) GlycoError × GlycoComplex S
  unfolding clear_pending
  stop node =
      let (result, connexon) = c.stop node.connexon in
      if not node.inner.started then (result, record node { connexon = connexon }) else (
        result,
        record {
          inner =
              clear_pending
                (record (meanwhile (record node.inner { started = false; active = false })) {
                  presenters = [];
                });
          connexon = connexon;
          tasks = 0;
        },
      )

-- `Drop` of `NodeInner`
unfoldable pub drop_node : NodeInner → NodeInner
drop_node inner = record inner { active = false }

-- What wakes `dispatch_loop`: its token, an event, or how the receiver fails.
pub data Received : Type 0 where
  token_cancelled closed : Received
  received : ConnexonEvent → Received
  lagged : ℕ → Received

-- One turn: whether the loop goes on, the task that it spawns, and the node.
unfoldable pub dispatch_turn : Printer → ℕ → Received → NodeInner → Bool × Option Task × NodeInner
dispatch_turn printer now token_cancelled inner = (false, none, inner)
dispatch_turn printer now closed inner = (false, none, inner)
dispatch_turn printer now (lagged count) inner = (true, none, inner)
dispatch_turn printer now (received (message m)) inner =
    let (task, inner') = dispatch_message printer now m inner in (true, task, inner')
dispatch_turn printer now (received _) inner = (true, none, inner)

abbrev pub add_task : Option Task → List Task → List Task
add_task none tasks = tasks
add_task (some task) tasks = task ∷ tasks

-- The tasks that a run spawns, and the node behind it; each turn has its time.
unfoldable pub dispatch_loop : Printer → List (ℕ × Received) → NodeInner → List Task × NodeInner
unfolding dispatch_turn
dispatch_loop printer [] inner = ([], inner)
dispatch_loop printer ((now, wake) ∷ turns) inner =
    let (on, task, inner') = dispatch_turn printer now wake inner in
    let (tasks, after) = dispatch_loop printer turns inner' in
    if on then (add_task task tasks, after) else (add_task task [], inner')
