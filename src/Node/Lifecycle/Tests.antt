-- ===== src/Node/Lifecycle/Tests.antt =====
-- "alpha" starts, and stops while a call waits.
use glycoprotein_rs.Node.Lifecycle.Stopped.{stop-finish_call}
use glycoprotein_rs.Error.{task, not_started}
use glycoprotein_rs.Prelude.Text.{text}
use glycoprotein_rs.Node.Samples.{alpha}
use glycoprotein_rs.Prelude.Map.{insert, lookup}
use glycoprotein_rs.Prelude.Result.{err, ok}
use glycoprotein_rs.Node.Lifecycle.Rollback.{start-stop-IsWhole, IsWhole, KeepsLifecycle}
use glycoprotein_rs.Protocol.{new_query, Glycosyl, Query}
use glycoprotein_rs.Schema.{SchemaLibrary}
use glycoprotein_rs.Node.Calls.{begin_call, replied, finish_call, insert_pending}
use glycoprotein_rs.Node.{NodeInner}
use glycoprotein_rs.Node.Lifecycle.{
  send_full_beacon, stop, run_tasks, start, GlycoComplex, Connexon,
}
use glycoprotein_rs.Prelude.{
  pair_has_eq, list_has_eq, nat_has_eq, ◌∷◌, [], List, some, none, false, true, ◌↔◌, refl, ◌≡◌,
}

-- A connexon that notes what it sends.
abbrev notes : Connexon (List Glycosyl)
notes = record { start = λ s. (ok tt, s); stop = λ s. (ok tt, s); send = λ m s. (ok tt, m ∷ s) }

-- A connexon that sends nothing.
abbrev mute : Connexon (List Glycosyl)
mute = record notes { send = λ m s. (err not_started, s) }

abbrev idle : GlycoComplex (List Glycosyl)
idle = record { inner = record alpha { started = false; active = false }; connexon = []; tasks = 0 }

abbrev waits : NodeInner → NodeInner
waits inner = insert_pending 7 inner

abbrev running : GlycoComplex (List Glycosyl)
running = record idle { inner = record alpha { started = true; active = true }; tasks = 3 }

keeps : KeepsLifecycle waits
unfolding insert_pending
keeps inner = (refl, refl)

failed : (start mute waits 5 idle).0 ≡ err not_started
unfolding start run_tasks send_full_beacon
failed = refl

start-stop-IsWhole_example :
    let (r, started) = start mute waits 5 idle in
    let (_, stopped) = stop mute waits idle in
    IsWhole started
    × ((r ≡ ok tt) ↔ (started.inner.started ≡ true))
    × IsWhole stopped
    × (stopped.inner.started ≡ false)
start-stop-IsWhole_example = start-stop-IsWhole mute waits keeps 5 idle (refl, refl)

abbrev library : SchemaLibrary
library = record { iter_errors = λ schema value. ok [] }

abbrev the_query : Query
the_query = new_query (text "beta") (text "alpha") (text "echo") none 7

stop-finish_call_example :
    let after = (stop notes waits running).1.inner in
    (finish_call replied (record { query = the_query; channel = 0 }) after
      ≡ some (err (task (text "reply channel closed")), after))
    × (after.presenters ≡ [])
    × (after.pending ≡ [])
    × (begin_call library (text "beta") (text "echo") none 8 after ≡ err not_started)
unfolding insert_pending lookup insert new_query
stop-finish_call_example =
    stop-finish_call notes waits running library (text "beta") (text "echo") none the_query 8 0 refl
      refl refl
