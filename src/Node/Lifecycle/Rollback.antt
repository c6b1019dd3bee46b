-- ===== src/Node/Lifecycle/Rollback.antt =====
-- A start that fails is undone.
use glycoprotein_rs.Node.Calls.{clear_pending}
use glycoprotein_rs.Prelude.Result.{ok}
use glycoprotein_rs.Node.{NodeInner}
use glycoprotein_rs.Node.Lifecycle.{stop, start, run_tasks, Connexon, GlycoComplex}
use glycoprotein_rs.Prelude.{
  pair_has_eq, list_has_eq, nat_has_eq, if◌then◌else◌, arith, false, true, ◌↔◌, ◌≡◌, ℕ,
}

-- A node that is started has a token and its three tasks; one that is not has neither.
abbrev pub IsWhole : {S : Type 0} → GlycoComplex S → Type 0
IsWhole node =
    (node.inner.active ≡ node.inner.started) × (node.tasks ≡ (if node.inner.started then 3 else 0))

abbrev pub KeepsLifecycle : (NodeInner → NodeInner) → Type 0
KeepsLifecycle meanwhile =
    (inner : NodeInner)
    → ((meanwhile inner).started ≡ inner.started) × ((meanwhile inner).active ≡ inner.active)

module _ {S : Type 0} (c : Connexon S) (meanwhile : NodeInner → NodeInner)
    (keeps : KeepsLifecycle meanwhile) where
  run_tasks-IsWhole :
      (now : ℕ) (node : GlycoComplex S)
      → node.tasks ≡ 0
      → let (r, after) = run_tasks c meanwhile now node in
        IsWhole after × ((r ≡ ok tt) ↔ (after.inner.started ≡ true))
  unfolding run_tasks
  run_tasks-IsWhole now node none_run =
      let inner = record node.inner { active = true; started = true } in
      ground (arith, none_run, keeps inner)

  -- Starts and stops that the other tasks leave alone: a start succeeds exactly if the node is
  -- started after it. Behind either, as before it, a node that is started has its token and its
  -- three tasks, and one that is not has neither; behind a stop it is not started.
  pub start-stop-IsWhole :
      (now : ℕ) (node : GlycoComplex S)
      → IsWhole node
      → let (r, started) = start c meanwhile now node in
        let (_, stopped) = stop c meanwhile node in
        IsWhole started
        × ((r ≡ ok tt) ↔ (started.inner.started ≡ true))
        × IsWhole stopped
        × (stopped.inner.started ≡ false)
  unfolding start stop clear_pending
  start-stop-IsWhole now node (active, tasks) =
      let idle = record node { connexon = (c.start node.connexon).1 } in
      let inner = record node.inner { started = false; active = false } in
      ground (arith, active, tasks, run_tasks-IsWhole now idle, keeps inner)
