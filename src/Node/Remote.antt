-- ===== src/Node/Remote.antt =====
-- A call from node to node, with the mesh between them (src/node.rs over
-- src/transport/unix_mesh.rs and src/protocol.rs).
pub mod Announced
pub mod Samples
mod Tests
use glycoprotein_rs.Mesh.Delivery.Wire.{crossed-events, crossed, Crossing}
use glycoprotein_rs.Prelude.Map.{lookup}
use glycoprotein_rs.Node.Calls.Pending.{Meanwhile, IsCalls}
use glycoprotein_rs.Mesh.Peers.{Inner}
use glycoprotein_rs.Node.Calls.{
  remove_pending, replied, finish_call, process_reply, begin_call, Call,
}
use glycoprotein_rs.Node.{RequestContext, RegisteredMethod, NodeInner}
use glycoprotein_rs.Prelude.Text.{Str}
use glycoprotein_rs.Protocol.Wire.{Printer}
use glycoprotein_rs.Schema.{SchemaLibrary}
use glycoprotein_rs.Node.Handlers.Replies.{
  handle_query-handler, finish_call-process_reply, handle_query_addressed, begin_call-query,
  outcome,
}
use glycoprotein_rs.Protocol.Encode.{Formats}
use glycoprotein_rs.Protocol.Decode.Bytes.{JsonLibrary}
use glycoprotein_rs.Node.Calls.Answers.{answer}
use glycoprotein_rs.Error.{GlycoError, HandlerError}
use glycoprotein_rs.Json.{Value}
use glycoprotein_rs.Protocol.Decode.RoundTrip.{without_null}
use glycoprotein_rs.Node.Lifecycle.{received, dispatch_turn}
use glycoprotein_rs.Node.Handlers.{handles, handle_query, dispatch_message, result_reply}
use glycoprotein_rs.Prelude.Result.{err, ok, map_ok, Result}
use glycoprotein_rs.Protocol.{message, reply, query, new_query, Query, Reply}
use glycoprotein_rs.Prelude.{
  beq_refl, sym, subst, ap, pair_has_eq, list_has_eq, nat_has_eq, ◌==◌, if◌then◌else◌, arith, ◌++◌,
  ◌∷◌, [], List, some, none, Option, ◌||◌, ◌&&◌, false, true, Bool, inr, inl, ◌⊎◌, ◌↔◌, ◌≢◌, ◌∙◌,
  refl, ◌≡◌, ◌<◌, ◌≤◌, ◌^◌, ◌%◌, ◌/◌, ◌*◌, ◌-◌, ◌+◌, suc, zero, ℕ,
}

abbrev pub reply_as_read : Reply → Reply
reply_as_read r = record r { payload = without_null r.payload }

-- What the caller gets for what the handler gives, over the wire.
abbrev pub remote_outcome : Result (Option Value) HandlerError → Result (Option Value) GlycoError
remote_outcome result = map_ok without_null (outcome result)

answer-reply_as_read :
    (q : Query) (result : Result (Option Value) HandlerError)
    → answer (reply_as_read (result_reply q result)) ≡ remote_outcome result
unfolding result_reply
answer-reply_as_read q (ok payload) = refl
answer-reply_as_read q (err e) = refl

-- A call that the caller's guards let through, whose payload is not `null`, to a method that the
-- callee has registered, while the callee has a free permit. Its query crosses the mesh: the
-- callee's mesh tells the callee's node, once, of that query, and it dispatches it to its handler.
-- The reply of the task crosses the mesh: the caller's mesh tells the caller's node, once, of the
-- reply, and when this is dispatched, whatever replies to other calls came and whichever other calls
-- began and ended in between, the call ends with what the handler gave for the payload, an error as
-- a remote one and a `null` as nothing.
pub call-crossed :
    (json : JsonLibrary) (formats : Formats) (fresh : ℕ) (library : SchemaLibrary)
    (printer : Printer) (gid fid : Str) (payload : Option Value) (qid token now later : ℕ)
    (s s' t callee : NodeInner) (the_call : Call) (m : RegisteredMethod)
    (near far near' far' : Inner)
    → IsCalls s
    → lookup qid s.pending ≡ none
    → begin_call library gid fid payload qid s ≡ ok (the_call, s')
    → Meanwhile qid s' t
    → callee.id ≡ gid
    → lookup fid callee.methods ≡ some m
    → callee.permits ≢ 0
    → without_null payload ≡ payload
    → (there : Crossing json formats fresh (query the_call.query) near far)
    → (back : Crossing json formats fresh
        (reply (handle_query token the_call.query callee).0)
        far'
        near')
    → let context : RequestContext = record {
      qid = qid;
      source_gid = some s.id;
      cancellation = token;
    } in
      let answered = reply_as_read (handle_query token the_call.query callee).0 in
      let after = process_reply answered t in
      ((crossed json formats fresh there).events
        ≡ far.events ++ message (query the_call.query) ∷ [])
      × (dispatch_turn printer now (received (message (query the_call.query))) callee
          ≡ (true, some (handles the_call.query), callee))
      × ((crossed json formats fresh back).events ≡ near'.events ++ message (reply answered) ∷ [])
      × (dispatch_turn printer later (received (message (reply answered))) t ≡ (true, none, after))
      × (finish_call replied the_call after
          ≡ some (remote_outcome (m.handler payload context), remove_pending qid after))
unfolding dispatch_turn dispatch_message new_query
call-crossed json formats fresh library printer gid fid payload qid token now later s s' t callee
      the_call m near far near' far' v pending_free begun between here registered free proper there
      back =
    let (is_query, on, is_s') = begin_call-query library gid fid payload qid s s' the_call begun in
    let own : the_call.query.qid ≡ qid = ap (λ (q : Query). q.qid) is_query in
    let same : without_null the_call.query.payload ≡ the_call.query.payload =
      subst (λ (q : Query). without_null q.payload ≡ q.payload) (sym is_query) proper in
    let first = (handle_query token the_call.query callee).0 in
    let (qid_eq, _, _) = handle_query_addressed token the_call.query callee in
    let ends =
      finish_call-process_reply qid s t the_call (reply_as_read first) v pending_free
        (subst (λ x. Meanwhile qid x t) is_s' between) own on (qid_eq ∙ own) in
    let handled : answer (reply_as_read first) ≡ remote_outcome (m.handler payload _) =
      rw
        (
          is_query,
          handle_query-handler token (new_query gid s.id fid payload qid) callee m registered free,
        )
        (answer-reply_as_read _ _) in
    (
      ap (λ (x : Inner). x.events) (crossed-events json formats fresh there)
          ∙ ap (λ p. far.events ++ message (query (record the_call.query { payload = p })) ∷ [])
              same,
      rw (ap (λ (q : Query). q.gid) is_query, here, beq_refl gid) refl,
      ap (λ (x : Inner). x.events) (crossed-events json formats fresh back),
      refl,
      ends ∙ ap (λ r. some (r, remove_pending qid (process_reply (reply_as_read first) t))) handled,
    )
