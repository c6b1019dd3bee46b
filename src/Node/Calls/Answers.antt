-- ===== src/Node/Calls/Answers.antt =====
-- What a call gets, and what it leaves.

use glycoprotein_rs.Prelude.Map.{lookup-remove_self, lookup-insert_self, lookup-remove, lookup}
use glycoprotein_rs.Error.{remote, GlycoError}
use glycoprotein_rs.Json.{Value}
use glycoprotein_rs.Prelude.Result.{err, err, ok, Result}
use glycoprotein_rs.Node.Calls.Pending.{
  nothing, insert_pending-IsCalls, Traffic-Waits, more, IsCalls, Waits, Meanwhile,
}
use glycoprotein_rs.Node.Calls.{
  remove_pending, replied, insert_pending, reply_result, Call, Wake, finish_call, process_reply,
}
use glycoprotein_rs.Protocol.{Query, Reply}
use glycoprotein_rs.Node.{sent, NodeInner}
use glycoprotein_rs.Prelude.{
  pair_has_eq, list_has_eq, nat_has_eq, ◌==◌, if◌then◌else◌, arith, some, none, Option, ◌≡◌, ℕ,
}

pub Meanwhile-Waits :
    {qid : ℕ} (c : ℕ) {s t : NodeInner} → Meanwhile qid s t → Waits qid c s → Waits qid c t
Meanwhile-Waits c nothing w = w
Meanwhile-Waits c (more m x) w = Traffic-Waits c x (Meanwhile-Waits c m w)

-- What the caller makes of a reply.
abbrev pub answer : Reply → Result (Option Value) GlycoError
answer reply = elim (reply_result reply.error reply.payload) [
  | ok payload ↦ ok payload
  | err e ↦ err (remote e)
]

-- A reply that no call waits for is dropped.
process_reply_unknown :
    (reply : Reply) (s : NodeInner) → lookup reply.qid s.pending ≡ none → process_reply reply s ≡ s
unfolding process_reply
process_reply_unknown reply s e = rw (process_reply, e)

-- A call with a fresh id is answered by the reply to that id, whatever replies to other calls come,
-- and whichever other calls begin and end, in between: it then ends with the payload or the remote
-- error of that reply, its entry is gone, and a second reply to it changes nothing.
pub call_answered :
    (q : Query) (s t : NodeInner) (reply late : Reply)
    → IsCalls s
    → lookup reply.qid s.pending ≡ none
    → q.qid ≡ reply.qid
    → late.qid ≡ reply.qid
    → Meanwhile reply.qid (insert_pending reply.qid s) t
    → let call : Call = record { query = q; channel = s.next_channel } in
      let after = process_reply reply t in
      (finish_call replied call after ≡ some (answer reply, remove_pending reply.qid after))
      × (lookup reply.qid after.pending ≡ none)
      × (process_reply late after ≡ after)
unfolding process_reply finish_call insert_pending
call_answered q s t reply late v fresh same later between =
    let begun = insert_pending-IsCalls reply.qid s v fresh in
    let w =
      Meanwhile-Waits s.next_channel between
        (begun, lookup-insert_self reply.qid s.next_channel s.pending) in
    let message = sent (reply_result reply.error reply.payload) in
    let gone : lookup reply.qid (process_reply reply t).pending ≡ none =
      rw (process_reply, w.1) (lookup-remove_self reply.qid t.pending) in
    (
      rw (process_reply, w.1)
          (rw (finish_call, lookup-insert_self s.next_channel message t.channels, same)
            (ground arith)),
      gone,
      process_reply_unknown late (process_reply reply t) (rw later gone),
    )

-- However a call ends, its entry is gone, and the entries of all other calls are as they were.
pub finish_call-pending :
    (wake : Wake) (call : Call) (s t : NodeInner) (r : Result (Option Value) GlycoError)
    → finish_call wake call s ≡ some (r, t)
    → (j : ℕ) → lookup j t.pending ≡ (if call.query.qid == j then none else lookup j s.pending)
unfolding finish_call
finish_call-pending wake call s t r h j = ground (arith, lookup-remove call.query.qid j s.pending)
