-- ===== src/Node/Calls/Pending.antt =====
-- The map of pending calls: whose reply goes where, and that no entry stays behind.
use glycoprotein_rs.Protocol.{Reply}
use glycoprotein_rs.Prelude.Map.{
  lookup-insert_ne, lookup-insert, lookup-remove, lookup-insert-some, lookup-remove-some, lookup,
}
use glycoprotein_rs.Node.Calls.{reply_result, process_reply, remove_pending, insert_pending}
use glycoprotein_rs.Node.{sent, waiting, NodeInner}
use glycoprotein_rs.Prelude.{
  ap, Option-cases, pair_has_eq, list_has_eq, nat_has_eq, arith, some, none, inr, inl, ◌⊎◌, ◌≢◌,
  ◌∙◌, ◌≡◌, ◌<◌, ℕ,
}

-- Each pending call has a channel of its own, on which nothing was sent.
pub record IsCalls (s : NodeInner) : Type 0 where
  pub allocated : (qid c : ℕ) → lookup qid s.pending ≡ some c → c < s.next_channel
  pub own : (q r c : ℕ) → lookup q s.pending ≡ some c → lookup r s.pending ≡ some c → q ≡ r
  pub unanswered : (qid c : ℕ) → lookup qid s.pending ≡ some c → lookup c s.channels ≡ some waiting

pub insert_pending-IsCalls :
    (qid : ℕ) (s : NodeInner)
    → IsCalls s
    → lookup qid s.pending ≡ none
    → IsCalls (insert_pending qid s)
unfolding insert_pending
insert_pending-IsCalls qid s v fresh = record {
  allocated = λ q c h.
      ground (arith, lookup-insert-some qid q s.next_channel c s.pending h, v.allocated q c);
  own = λ q r c h k. ground (
    arith,
    lookup-insert-some qid q s.next_channel c s.pending h,
    lookup-insert-some qid r s.next_channel c s.pending k,
    v.allocated q c,
    v.allocated r c,
    v.own q r c,
  );
  unanswered = λ q c h. ground (
    arith,
    lookup-insert-some qid q s.next_channel c s.pending h,
    lookup-insert s.next_channel c waiting s.channels,
    v.allocated q c,
    v.unanswered q c,
  );
}

pub remove_pending-IsCalls : (qid : ℕ) (s : NodeInner) → IsCalls s → IsCalls (remove_pending qid s)
unfolding remove_pending
remove_pending-IsCalls qid s v = record {
  allocated = λ q c h. v.allocated q c (lookup-remove-some qid q c s.pending h).0;
  own = λ q r c h k.
      v.own q r c (lookup-remove-some qid q c s.pending h).0
        (lookup-remove-some qid r c s.pending k).0;
  unanswered = λ q c h. v.unanswered q c (lookup-remove-some qid q c s.pending h).0;
}

pub process_reply-IsCalls :
    (reply : Reply) (s : NodeInner) → IsCalls s → IsCalls (process_reply reply s)
unfolding process_reply
process_reply-IsCalls reply s v = elim (Option-cases (lookup reply.qid s.pending)) [
  | inl e ↦ rw (process_reply, e) v
  | inr (c, e) ↦
      rw (process_reply, e)
        (record {
          allocated = λ q d h. v.allocated q d (lookup-remove-some reply.qid q d s.pending h).0;
          own = λ q r d h k.
              v.own q r d (lookup-remove-some reply.qid q d s.pending h).0
                (lookup-remove-some reply.qid r d s.pending k).0;
          unanswered = λ q d h.
              let (old, ne) = lookup-remove-some reply.qid q d s.pending h in
              ground (
                arith,
                lookup-insert c d (sent (reply_result reply.error reply.payload)) s.channels,
                v.unanswered q d old,
                λ (x : c ≡ d). ne (v.own reply.qid q d (e ∙ ap some x) old),
              );
        })
]

-- What other calls and replies do to the shared state while the call `qid` waits.
pub data Traffic (qid : ℕ) (s : NodeInner) : NodeInner → Type 0 where
  other_reply : (reply : Reply) → reply.qid ≢ qid → Traffic qid s (process_reply reply s)
  other_begins : (q : ℕ) → q ≢ qid → lookup q s.pending ≡ none → Traffic qid s (insert_pending q s)
  other_ends : (q : ℕ) → q ≢ qid → Traffic qid s (remove_pending q s)

pub data Meanwhile (qid : ℕ) (s : NodeInner) : NodeInner → Type 0 where
  nothing : Meanwhile qid s s
  more : {t u : NodeInner} → Meanwhile qid s t → Traffic qid t u → Meanwhile qid s u

-- The call `qid` waits on the channel `c`.
abbrev pub Waits : ℕ → ℕ → NodeInner → Type 0
Waits qid c s = IsCalls s × (lookup qid s.pending ≡ some c)

pub Traffic-Waits :
    {qid : ℕ} (c : ℕ) {s t : NodeInner} → Traffic qid s t → Waits qid c s → Waits qid c t
unfolding process_reply
Traffic-Waits {qid} c {s} (other_reply reply ne) (v, e) =
    (process_reply-IsCalls reply s v, kept (Option-cases (lookup reply.qid s.pending)))
  where
    kept :
        ((lookup reply.qid s.pending ≡ none) ⊎ ((d : ℕ) × (lookup reply.qid s.pending ≡ some d)))
        → lookup qid (process_reply reply s).pending ≡ some c
    kept (inl x) = rw (process_reply, x) e
    kept (inr (d, x)) =
        rw (process_reply, x) (ground (arith, lookup-remove reply.qid qid s.pending, e))
Traffic-Waits {qid} c {s} (other_begins q ne fresh) (v, e) = (
  insert_pending-IsCalls q s v fresh,
  unfold insert_pending in (lookup-insert_ne q qid s.next_channel s.pending ne ∙ e),
)
Traffic-Waits {qid} c {s} (other_ends q ne) (v, e) = (
  remove_pending-IsCalls q s v,
  unfold remove_pending in ground (arith, lookup-remove q qid s.pending, e),
)
