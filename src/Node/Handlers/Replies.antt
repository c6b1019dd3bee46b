-- ===== src/Node/Handlers/Replies.antt =====
-- What the callee's replies say, and what the caller makes of them.
use glycoprotein_rs.Node.Handlers.{handles}
use glycoprotein_rs.Node.Calls.Pending.{insert_pending-IsCalls, Meanwhile, IsCalls}
use glycoprotein_rs.Node.Calls.Answers.{Meanwhile-Waits, answer}
use glycoprotein_rs.Error.{remote, GlycoError, HandlerError}
use glycoprotein_rs.Protocol.Wire.{Printer}
use glycoprotein_rs.Prelude.Map.{lookup-insert_self, lookup}
use glycoprotein_rs.Json.{Value}
use glycoprotein_rs.Prelude.Text.{Str}
use glycoprotein_rs.Schema.{SchemaLibrary}
use glycoprotein_rs.Prelude.Result.{err, err, ok, Result}
use glycoprotein_rs.Node.Calls.{
  reply_result, remove_pending, replied, finish_call, process_reply, insert_pending, Call,
  begin_call,
}
use glycoprotein_rs.Node.{sent, RequestContext, RegisteredMethod, NodeInner}
use glycoprotein_rs.Protocol.{Reply, query, new_query, Query}
use glycoprotein_rs.Node.Handlers.{
  dispatch_message, result_reply, finish_query, error_reply, start_query, handle_query,
}
use glycoprotein_rs.Prelude.{
  beq_refl, subst, ap, some, none, Option, ◌≢◌, ◌∙◌, refl, pair_has_eq, list_has_eq, nat_has_eq,
  arith, ◌≡◌, ℕ,
}

-- Whatever becomes of a query, its task sends one reply, for the id of the query and to the node
-- that sent it, and leaves the state of the node as it was: the permit is back.
pub handle_query_addressed :
    (token : ℕ) (q : Query) (s : NodeInner)
    → let (r, t) = handle_query token q s in
      (r.qid ≡ q.qid) × (r.target_gid ≡ q.source_gid) × (t ≡ s)
unfolding handle_query start_query error_reply finish_query result_reply
handle_query_addressed token q s = ground arith

-- A call that the guards let through is a query from this node, under a new pending entry.
pub begin_call-query :
    (library : SchemaLibrary) (gid fid : Str) (payload : Option Value) (qid : ℕ) (s t : NodeInner)
    (call : Call)
    → begin_call library gid fid payload qid s ≡ ok (call, t)
    → (call.query ≡ new_query gid s.id fid payload qid)
      × (call.channel ≡ s.next_channel)
      × (t ≡ insert_pending qid s)
unfolding begin_call
begin_call-query library gid fid payload qid s t call h = ground arith

-- What the caller gets for what the handler gives.
abbrev pub outcome : Result (Option Value) HandlerError → Result (Option Value) GlycoError
outcome (ok payload) = ok payload
outcome (err e) = err (remote (record { message = e.message }))

pub answer-result_reply :
    (q : Query) (result : Result (Option Value) HandlerError)
    → answer (result_reply q result) ≡ outcome result
unfolding result_reply
answer-result_reply q (ok payload) = refl
answer-result_reply q (err e) = refl

pub handle_query-handler :
    (token : ℕ) (q : Query) (s : NodeInner) (m : RegisteredMethod)
    → lookup q.fid s.methods ≡ some m
    → s.permits ≢ 0
    → (handle_query token q s).0
      ≡ result_reply q (
          m.handler q.payload
            (record { qid = q.qid; source_gid = q.source_gid; cancellation = token }))
unfolding handle_query start_query finish_query
handle_query-handler token q s m registered free = ground (arith, registered)

pub finish_call-process_reply :
    (qid : ℕ) (s t : NodeInner) (call : Call) (reply : Reply)
    → IsCalls s
    → lookup qid s.pending ≡ none
    → Meanwhile qid (insert_pending qid s) t
    → call.query.qid ≡ qid
    → call.channel ≡ s.next_channel
    → reply.qid ≡ qid
    → finish_call replied call (process_reply reply t)
      ≡ some (answer reply, remove_pending qid (process_reply reply t))
unfolding process_reply finish_call insert_pending
finish_call-process_reply qid s t call reply v fresh between own channel same =
    let begun = insert_pending-IsCalls qid s v fresh in
    let w =
      Meanwhile-Waits s.next_channel between
        (begun, lookup-insert_self qid s.next_channel s.pending) in
    let message = sent (reply_result reply.error reply.payload) in
    let waits : lookup reply.qid t.pending ≡ some s.next_channel = rw (same) w.1 in
    let told : lookup call.channel (process_reply reply t).channels ≡ some message =
      rw (process_reply, waits, channel) (lookup-insert_self s.next_channel message t.channels) in
    rw (finish_call, told, own) (ground arith)

-- A call that the caller's guards let through, to a method that the callee has registered, while
-- the callee has a free permit, is dispatched by the callee to its handler. Once the handler's
-- reply is in, whatever replies to other calls came and whichever other calls began and ended in
-- between, the call ends with what the handler gave for the payload, an error as a remote one.
pub call-handle_query :
    (library : SchemaLibrary) (printer : Printer) (gid fid : Str) (payload : Option Value)
    (qid token now : ℕ) (s s' t callee : NodeInner) (call : Call) (m : RegisteredMethod)
    → IsCalls s
    → lookup qid s.pending ≡ none
    → begin_call library gid fid payload qid s ≡ ok (call, s')
    → Meanwhile qid s' t
    → callee.id ≡ gid
    → lookup fid callee.methods ≡ some m
    → callee.permits ≢ 0
    → let context : RequestContext = record {
      qid = qid;
      source_gid = some s.id;
      cancellation = token;
    } in
      let after = process_reply (handle_query token call.query callee).0 t in
      (dispatch_message printer now (query call.query) callee ≡ (some (handles call.query), callee))
      × (finish_call replied call after
          ≡ some (outcome (m.handler payload context), remove_pending qid after))
unfolding dispatch_message new_query
call-handle_query library printer gid fid payload qid token now s s' t callee call m v fresh begun
      between here registered free =
    let (is_query, on, is_s') = begin_call-query library gid fid payload qid s s' call begun in
    let (qid_eq, _, same) = handle_query_addressed token call.query callee in
    let own : call.query.qid ≡ qid = ap (λ q. q.qid) is_query in
    let reply = (handle_query token call.query callee).0 in
    let ends =
      finish_call-process_reply qid s t call reply v fresh
        (subst (λ x. Meanwhile qid x t) is_s' between) own on (qid_eq ∙ own) in
    let handled : answer reply ≡ outcome (m.handler payload _) =
      rw
        (
          is_query,
          handle_query-handler token (new_query gid s.id fid payload qid) callee m registered free,
        )
        (answer-result_reply _ _) in
    (
      rw (ap (λ q. q.gid) is_query, here, beq_refl gid) refl,
      ends ∙ ap (λ r. some (r, remove_pending qid (process_reply reply t))) handled,
    )
