-- ===== src/Node/Calls/Tests.antt =====
-- "alpha" calls "echo" on "beta", under the id 7, while the call 8 begins and ends.

use glycoprotein_rs.Error.{timeout}
use glycoprotein_rs.Prelude.Result.{err, ok}
use glycoprotein_rs.Node.Calls.Answers.{call_answered}
use glycoprotein_rs.Node.Samples.{alpha}
use glycoprotein_rs.Node.Calls.Pending.{
  other_ends, other_begins, nothing, more, Meanwhile, insert_pending-IsCalls, IsCalls,
}
use glycoprotein_rs.Json.{bool}
use glycoprotein_rs.Prelude.Text.{text}
use glycoprotein_rs.Node.{NodeInner}
use glycoprotein_rs.Prelude.Map.{insert, lookup}
use glycoprotein_rs.Node.Calls.{
  timed_out, replied, wake_result, process_reply, remove_pending, insert_pending, finish_call, Call,
}
use glycoprotein_rs.Protocol.{new_query, Reply, Query}
use glycoprotein_rs.Prelude.{
  pair_has_eq, list_has_eq, nat_has_eq, arith, some, none, true, refl, ◌≡◌,
}

abbrev the_query : Query
the_query = new_query (text "beta") (text "alpha") (text "echo") none 7

abbrev the_reply : Reply
the_reply = record { payload = some (bool true); qid = 7; target_gid = none; error = none }

abbrev the_call : Call
the_call = record { query = the_query; channel = 0 }

alpha-IsCalls : IsCalls alpha
unfolding lookup
alpha-IsCalls = record {
  allocated = λ qid c h. ground arith;
  own = λ q r c h k. ground arith;
  unanswered = λ qid c h. ground arith;
}

abbrev waits : NodeInner
waits = insert_pending 7 alpha

waits-IsCalls : IsCalls waits
unfolding lookup
waits-IsCalls = insert_pending-IsCalls 7 alpha alpha-IsCalls refl

abbrev later : NodeInner
later = remove_pending 8 (insert_pending 8 waits)

waits-later : Meanwhile 7 waits later
unfolding lookup insert insert_pending
waits-later = more (more nothing (other_begins 8 (omega arith) refl)) (other_ends 8 (omega arith))

call_answered_example :
    let after = process_reply the_reply later in
    (finish_call replied the_call after ≡ some (ok (some (bool true)), remove_pending 7 after))
    × (lookup 7 after.pending ≡ none)
    × (process_reply the_reply after ≡ after)
unfolding lookup new_query
call_answered_example =
    call_answered the_query alpha later the_reply the_reply alpha-IsCalls refl refl refl waits-later

timed_out_waits :
    finish_call timed_out the_call waits
    ≡ some (err (timeout 7 (text "beta") (text "echo")), remove_pending 7 waits)
unfolding finish_call wake_result lookup insert insert_pending new_query
timed_out_waits = refl
