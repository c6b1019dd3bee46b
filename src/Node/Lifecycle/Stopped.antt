-- ===== src/Node/Lifecycle/Stopped.antt =====
-- What a stop leaves to those who still wait.
use glycoprotein_rs.Error.{not_started, task}
use glycoprotein_rs.Prelude.Result.{err}
use glycoprotein_rs.Protocol.{Query}
use glycoprotein_rs.Json.{Value}
use glycoprotein_rs.Prelude.Text.{text, Str}
use glycoprotein_rs.Schema.{SchemaLibrary}
use glycoprotein_rs.Node.{NodeInner, dropped, ChannelState}
use glycoprotein_rs.Prelude.Map.{remove, lookup-insert, insert, lookup, Map}
use glycoprotein_rs.Node.Lifecycle.{GlycoComplex, Connexon, stop}
use glycoprotein_rs.Node.Calls.{
  replied, check_call, begin_call, remove_pending, wake_result, finish_call, clear_pending,
  drop_senders,
}
use glycoprotein_rs.Prelude.{
  Bool-cases, pair_has_eq, list_has_eq, nat_has_eq, ◌==◌, arith, ◌∷◌, [], some, Option, false, true,
  inr, inl, ◌≡◌, ℕ,
}

drop_senders-dropped :
    (m : Map ℕ ℕ) (channels : Map ℕ ChannelState) (c : ℕ)
    → lookup c channels ≡ some dropped
    → lookup c (drop_senders m channels) ≡ some dropped
unfolding drop_senders
drop_senders-dropped [] channels c h = h
drop_senders-dropped ((q, d) ∷ m) channels c h =
    drop_senders-dropped m (insert d dropped channels) c
      (ground (arith, lookup-insert d c dropped channels, h))

drop_senders-pending :
    (m : Map ℕ ℕ) (channels : Map ℕ ChannelState) (qid c : ℕ)
    → lookup qid m ≡ some c
    → lookup c (drop_senders m channels) ≡ some dropped
unfolding drop_senders lookup
drop_senders-pending [] channels qid c h = ground arith
drop_senders-pending ((q, d) ∷ m) channels qid c h = elim (Bool-cases (q == qid)) [
  | inl e ↦
      drop_senders-dropped m (insert d dropped channels) c
        (ground (arith, e, h, lookup-insert d c dropped channels))
  | inr e ↦ drop_senders-pending m (insert d dropped channels) qid c (ground (arith, e, h))
]

-- A stop of a node that is started, and whatever the other tasks do to it meanwhile, if they do not
-- start it: a call that still waits ends with "reply channel closed". No presenter and no call is
-- left, and each new call fails with `not_started`.
pub stop-finish_call :
    {S : Type 0} (connexon : Connexon S) (meanwhile : NodeInner → NodeInner) (node : GlycoComplex S)
    → (library : SchemaLibrary) (gid fid : Str) (payload : Option Value) (q : Query) (new c : ℕ)
    → node.inner.started ≡ true
    → let before = meanwhile (record node.inner { started = false; active = false }) in
      before.started ≡ false
      → lookup q.qid before.pending ≡ some c
      → let after = (stop connexon meanwhile node).1.inner in
        (finish_call replied (record { query = q; channel = c }) after
          ≡ some (err (task (text "reply channel closed")), after))
        × (after.presenters ≡ [])
        × (after.pending ≡ [])
        × (begin_call library gid fid payload new after ≡ err not_started)
unfolding stop clear_pending finish_call wake_result remove_pending begin_call check_call remove
stop-finish_call connexon meanwhile node library gid fid payload q new c on off waits =
    let before = meanwhile (record node.inner { started = false; active = false }) in
    ground (arith, on, off, drop_senders-pending before.pending before.channels q.qid c waits)
