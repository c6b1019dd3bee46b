-- ===== src/Node/Calls.antt =====
-- The caller's side of a query: `call_raw_with_options` of src/node.rs up to its send, its end, and
-- `process_reply`. The id that `Uuid::new_v4` gives is an argument.
pub mod Pending
pub mod Answers
mod Tests
use glycoprotein_rs.Error.{cancelled, timeout, task, remote, not_started, GlycoError}
use glycoprotein_rs.Json.{Value}
use glycoprotein_rs.Prelude.Result.{◌>>=◌, ◌>>◌, ◌>>◌, ok, err, ok, Result}
use glycoprotein_rs.Prelude.Map.{lookup, remove, insert, Map}
use glycoprotein_rs.Prelude.Text.{text, Str}
use glycoprotein_rs.Protocol.{Reply, new_query, Query}
use glycoprotein_rs.Node.{dropped, sent, PendingReply, waiting, ChannelState, NodeInner}
use glycoprotein_rs.Node.Presenters.{find_remote_method}
use glycoprotein_rs.Schema.{SchemaLibrary, validate_json}
use glycoprotein_rs.Prelude.{
  pair_has_eq, list_has_eq, nat_has_eq, ◌==◌, if◌then◌else◌, arith, ◌++◌, ◌∷◌, [], List, some, none,
  Option, ◌||◌, ◌&&◌, false, true, Bool, inr, inl, ◌⊎◌, ◌↔◌, ◌≢◌, ◌∙◌, refl, ◌≡◌, ◌<◌, ◌≤◌, ◌^◌,
  ◌%◌, ◌/◌, ◌*◌, ◌-◌, ◌+◌, suc, zero, ℕ,
}

-- The check of the payload: only a payload that is there, against a schema that is there.
unfoldable pub validate_payload :
    SchemaLibrary → Option Value → Option Value → Result (Unit {0}) GlycoError
unfolding validate_json
validate_payload library (some payload) (some schema) = validate_json library schema payload
validate_payload library _ _ = ok tt

-- The guards of a call.
unfoldable pub check_call :
    SchemaLibrary → Str → Str → Option Value → NodeInner → Result (Unit {0}) GlycoError
unfolding find_remote_method validate_payload
check_call library gid fid payload inner = do
  (if inner.started then ok tt else err not_started)
  method ← find_remote_method gid fid inner
  validate_payload library payload method.query_schema

-- A new channel, whose sender stands in the map of pending calls.
unfoldable pub insert_pending : ℕ → NodeInner → NodeInner
insert_pending qid inner = record inner {
  pending = insert qid inner.next_channel inner.pending;
  channels = insert inner.next_channel waiting inner.channels;
  next_channel = inner.next_channel + 1;
}

-- A call that waits for its reply on `channel`.
pub record Call : Type 0 where
  pub query : Query
  pub channel : ℕ

unfoldable pub begin_call :
    SchemaLibrary → Str → Str → Option Value → ℕ → NodeInner → Result (Call × NodeInner) GlycoError
unfolding check_call new_query insert_pending
begin_call library gid fid payload qid inner = do
  check_call library gid fid payload inner
  ok (
    record { query = new_query gid inner.id fid payload qid; channel = inner.next_channel },
    insert_pending qid inner,
  )

unfoldable pub remove_pending : ℕ → NodeInner → NodeInner
remove_pending qid inner = record inner { pending = remove qid inner.pending }

-- Which branch of the `select!` wakes the call.
pub data Wake : Type 0 where
  replied timed_out token_cancelled : Wake

-- What a branch gives, or `none` while it is not ready: the reply branch waits for the channel.
unfoldable pub wake_result : Wake → ChannelState → Query → Option (Result (Option Value) GlycoError)
wake_result replied waiting q = none
wake_result replied (sent (ok payload)) q = some (ok payload)
wake_result replied (sent (err e)) q = some (err (remote e))
wake_result replied dropped q = some (err (task (text "reply channel closed")))
wake_result timed_out state q = some (err (timeout q.qid q.gid q.fid))
wake_result token_cancelled state q = some (err (cancelled q.qid))

-- The end of a call: its result, and the state without the pending entry.
unfoldable pub finish_call :
    Wake → Call → NodeInner → Option (Result (Option Value) GlycoError × NodeInner)
unfolding wake_result remove_pending
finish_call wake call inner = elim (lookup call.channel inner.channels) [
  | none ↦ none
  | some state ↦ elim (wake_result wake state call.query) [
    | none ↦ none
    | some result ↦ some (result, remove_pending call.query.qid inner)
  ]
]

-- The message in the `oneshot` channel.
abbrev pub reply_result : Option Str → Option Value → PendingReply
reply_result (some message) payload = err (record { message = message })
reply_result none payload = ok payload

unfoldable pub process_reply : Reply → NodeInner → NodeInner
process_reply reply inner = elim (lookup reply.qid inner.pending) [
  | none ↦ inner
  | some channel ↦ record inner {
    pending = remove reply.qid inner.pending;
    channels = insert channel (sent (reply_result reply.error reply.payload)) inner.channels;
  }
]

-- `pending.clear()` of `stop`: the senders are dropped.
unfoldable pub drop_senders : Map ℕ ℕ → Map ℕ ChannelState → Map ℕ ChannelState
drop_senders [] channels = channels
drop_senders ((qid, channel) ∷ m) channels = drop_senders m (insert channel dropped channels)

unfoldable pub clear_pending : NodeInner → NodeInner
unfolding drop_senders
clear_pending inner = record inner {
  pending = [];
  channels = drop_senders inner.pending inner.channels;
}
