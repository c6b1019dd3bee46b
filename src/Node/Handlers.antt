-- ===== src/Node/Handlers.antt =====
-- The callee's side of a query: `dispatch_message` and `handle_query` of src/node.rs. A query is
-- handled by a task of its own; `start_query` is the task up to the handler's await, and
-- `finish_query` what it does when the handler's future yields.
pub mod Permits
pub mod Replies
mod Tests
use glycoprotein_rs.Node.Calls.{process_reply}
use glycoprotein_rs.Node.Presenters.{process_heartbeat, process_beacon}
use glycoprotein_rs.Error.{HandlerError}
use glycoprotein_rs.Prelude.Map.{lookup}
use glycoprotein_rs.Json.{Value}
use glycoprotein_rs.Prelude.Result.{err, ok, Result}
use glycoprotein_rs.Prelude.Text.{text, Str}
use glycoprotein_rs.Protocol.Wire.{Printer}
use glycoprotein_rs.Node.{RawEventHandler, NodeInner, RequestContext, RawMethodHandler}
use glycoprotein_rs.Protocol.{event, query, reply, heartbeat, beacon, Reply, Glycosyl, Query}
use glycoprotein_rs.Prelude.{
  pair_has_eq, list_has_eq, nat_has_eq, ◌==◌, if◌then◌else◌, arith, ◌++◌, ◌∷◌, [], List, some, none,
  Option, ◌||◌, ◌&&◌, false, true, Bool, inr, inl, ◌⊎◌, ◌↔◌, ◌≢◌, ◌∙◌, refl, ◌≡◌, ◌<◌, ◌≤◌, ◌^◌,
  ◌%◌, ◌/◌, ◌*◌, ◌-◌, ◌+◌, suc, zero, ℕ,
}

-- `send_error_reply`: the reply that it sends
unfoldable pub error_reply : Query → Str → Reply
error_reply q message = record {
  payload = none;
  qid = q.qid;
  target_gid = q.source_gid;
  error = some message;
}

-- A task holds a permit and awaits its handler, or has sent a reply and ended.
pub data Started : Type 0 where
  awaits : RawMethodHandler → RequestContext → Started
  replies : Reply → Started

-- The semaphore of the handlers: a permit is taken, and dropped.
unfoldable pub acquire : NodeInner → NodeInner
acquire inner = record inner { permits = inner.permits - 1 }

unfoldable pub release : NodeInner → NodeInner
release inner = record inner { permits = inner.permits + 1 }

-- A task up to its handler, if no other comes in between: without one, its permit is dropped again.
unfoldable pub start_query : ℕ → Query → NodeInner → Started × NodeInner
unfolding error_reply acquire release
start_query token q inner =
    if inner.permits == 0
    then (replies (error_reply q (text "server is busy")), inner)
    else elim (lookup q.fid inner.methods) [
      | none ↦ (
        replies (error_reply q (text "field '" ++ q.fid ++ text "' is not registered")),
        release (acquire inner),
      )
      | some m ↦ (
        awaits m.handler (record { qid = q.qid; source_gid = q.source_gid; cancellation = token }),
        acquire inner,
      )
    ]

-- The reply for what the handler gave.
unfoldable pub result_reply : Query → Result (Option Value) HandlerError → Reply
result_reply q (ok payload) = record {
  payload = payload;
  qid = q.qid;
  target_gid = q.source_gid;
  error = none;
}
result_reply q (err e) = record {
  payload = none;
  qid = q.qid;
  target_gid = q.source_gid;
  error = some e.message;
}

unfoldable pub finish_query :
    Query → Result (Option Value) HandlerError → NodeInner → Reply × NodeInner
unfolding result_reply release
finish_query q result inner = (result_reply q result, release inner)

-- The reply that the task of a query sends, where its handler yields at once.
unfoldable pub handle_query : ℕ → Query → NodeInner → Reply × NodeInner
unfolding start_query finish_query
handle_query token q inner =
    let (started, inner') = start_query token q inner in
    elim started [
      | replies r ↦ (r, inner')
      | awaits handler context ↦ finish_query q (handler q.payload context) inner'
    ]

-- The task that `dispatch_message` spawns.
pub data Task : Type 0 where
  handles : Query → Task
  runs : RawEventHandler → Option Value → Task

unfoldable pub dispatch_message : Printer → ℕ → Glycosyl → NodeInner → Option Task × NodeInner
dispatch_message printer now (beacon b) inner = (none, process_beacon printer now b inner)
dispatch_message printer now (heartbeat h) inner = (none, process_heartbeat now h inner)
dispatch_message printer now (reply r) inner = (none, process_reply r inner)
dispatch_message printer now (query q) inner =
    (if q.gid == inner.id then some (handles q) else none, inner)
dispatch_message printer now (event e) inner = elim (lookup (e.gid, e.fid) inner.event_handlers) [
  | none ↦ (none, inner)
  | some handler ↦ (some (runs handler e.arg), inner)
]
