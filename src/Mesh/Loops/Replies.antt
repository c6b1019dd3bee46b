-- ===== src/Mesh/Loops/Replies.antt =====
-- Every request gets its answer.
use glycoprotein_rs.Mesh.Loops.Link.{arrivals}
use glycoprotein_rs.Error.{IoError}
use glycoprotein_rs.Mesh.Loops.{writer_loop, WriterTurn, writer_turn, drain, Writer}
use glycoprotein_rs.Prelude.Result.{Result-cases, err, Result}
use glycoprotein_rs.Mesh.Peers.{WriteRequest}
use glycoprotein_rs.Prelude.{
  false, true, ◌≢◌, sym, length, take, Bool-cases, append_assoc, map, append-nil, ap, pair_has_eq,
  list_has_eq, nat_has_eq, arith, ◌++◌, ◌∷◌, [], List, inr, inl, ◌⊎◌, ◌∙◌, refl, ◌≡◌, suc, ℕ,
}

abbrev pub channels_of : List WriteRequest → List ℕ
channels_of [] = []
channels_of (r ∷ rs) = r.acknowledgement ∷ channels_of rs

abbrev pub answered : List (ℕ × Result (Unit {0}) IoError) → List ℕ
answered [] = []
answered ((a, r) ∷ rest) = a ∷ answered rest

-- The channels that were answered, and those that wait, in order.
abbrev pub expected : Writer → List ℕ
expected w = answered w.answers ++ channels_of w.queue

channels_of-append :
    (rs qs : List WriteRequest) → channels_of (rs ++ qs) ≡ channels_of rs ++ channels_of qs
channels_of-append [] qs = refl
channels_of-append (r ∷ rs) qs = ap (λ cs. r.acknowledgement ∷ cs) (channels_of-append rs qs)

answered-append :
    (xs bs : List (ℕ × Result (Unit {0}) IoError))
    → answered (xs ++ bs) ≡ answered xs ++ answered bs
answered-append [] bs = refl
answered-append ((a, r) ∷ rest) bs = ap (λ cs. a ∷ cs) (answered-append rest bs)

answered-refusals :
    (rs : List WriteRequest) (e : IoError)
    → answered (map (λ r. (r.acknowledgement, err e)) rs) ≡ channels_of rs
answered-refusals [] e = refl
answered-refusals (r ∷ rs) e = ap (λ cs. r.acknowledgement ∷ cs) (answered-refusals rs e)

expected-drain : (w : Writer) → expected (drain w) ≡ expected w
unfolding drain
expected-drain w =
    append-nil _
    ∙ answered-append w.answers _
    ∙ ap (λ cs. answered w.answers ++ cs) (answered-refusals w.queue _)

answered_next :
    (xs : List (ℕ × Result (Unit {0}) IoError)) (a : ℕ) (r : Result (Unit {0}) IoError)
    (cs : List ℕ)
    → answered (xs ++ (a, r) ∷ []) ++ cs ≡ answered xs ++ a ∷ cs
answered_next xs a r cs =
    ap (λ ys. ys ++ cs) (answered-append xs ((a, r) ∷ [])) ∙ append_assoc (answered xs) (a ∷ []) cs

writer_turn-expected :
    (turn : WriterTurn) (w : Writer) (queue : List WriteRequest)
    → w.queue ++ turn.arriving ≡ queue
    → expected (writer_turn turn w).1 ≡ answered w.answers ++ channels_of queue
unfolding writer_turn
writer_turn-expected turn w [] e = elim (Bool-cases turn.cancelled) [
  | inl c ↦ rw (writer_turn, c, e) refl
  | inr c ↦ rw (writer_turn, c, e) refl
]
writer_turn-expected turn w (r ∷ rs) e = elim (Bool-cases turn.cancelled) [
  | inl c ↦ rw (writer_turn, c, e) refl
  | inr c ↦ elim (Result-cases turn.write) [
    | inl (_, k) ↦
        rw (writer_turn, c, e, k) (answered_next w.answers r.acknowledgement _ (channels_of rs))
    | inr ((x, n), k) ↦
        rw (writer_turn, c, e, k) (answered_next w.answers r.acknowledgement _ (channels_of rs))
  ]
]

-- What ends the loop: its token, the end of its channel while no request waits, or a failed write.
abbrev pub EndsAt : WriterTurn → Writer → Type 0
EndsAt turn w =
    (turn.cancelled ≡ true)
    ⊎ ((turn.connected ≡ false) × (w.queue ++ turn.arriving ≡ []))
    ⊎ ((w.queue ++ turn.arriving ≢ []) × ((e : IoError × ℕ) × (turn.write ≡ err e)))

writer_turn-EndsAt :
    (turn : WriterTurn) (w : Writer) (queue : List WriteRequest)
    → w.queue ++ turn.arriving ≡ queue
    → (writer_turn turn w).0 ≡ false
    → EndsAt turn w
unfolding writer_turn
writer_turn-EndsAt turn w [] e h = elim (Bool-cases turn.cancelled) [
  | inl c ↦ inl c
  | inr c ↦ inr (inl (ground (arith, c, e, h), e))
]
writer_turn-EndsAt turn w (r ∷ rs) e h = elim (Bool-cases turn.cancelled) [
  | inl c ↦ inl c
  | inr c ↦ elim (Result-cases turn.write) [
    | inl (_, k) ↦ absurd (ground (arith, c, e, k, h))
    | inr (x, k) ↦ inr (inr ((λ f. ground (arith, e, f)), (x, k)))
  ]
]

-- The loop has ended at the last of the first `n` turns, which is `last`, and no request waits.
abbrev pub HasEnded : List WriterTurn → Writer → ℕ → Type 0
HasEnded turns w n =
    (before : List WriterTurn) × (last : WriterTurn) × (rest : List WriterTurn) × (turns
      ≡ before ++ last ∷ rest)
    × (n ≡ suc (length before))
    × EndsAt last (writer_loop before w)
    × ((writer_loop turns w).queue ≡ [])

-- Whatever the token, the channel and the socket do, there is a turn up to which all requests that
-- came are answered or wait, each once and in their order. Either it is the last turn so far; or at
-- it the token was cancelled, the channel had ended while no request waited, or a write failed, and
-- no request waits any more.
pub writer_loop-expected :
    (turns : List WriterTurn) (w : Writer)
    → (n : ℕ) × (expected (writer_loop turns w)
        ≡ expected w ++ channels_of (arrivals (take n turns)))
      × ((n ≡ length turns) ⊎ HasEnded turns w n)
unfolding writer_loop
writer_loop-expected [] w = (0, sym (append-nil (expected w)), inl refl)
writer_loop-expected (turn ∷ turns) w =
    let next = (writer_turn turn w).1 in
    let step : expected next ≡ expected w ++ channels_of turn.arriving =
      writer_turn-expected turn w (w.queue ++ turn.arriving) refl
      ∙ ap (λ cs. answered w.answers ++ cs) (channels_of-append w.queue turn.arriving)
      ∙ sym (append_assoc (answered w.answers) (channels_of w.queue) (channels_of turn.arriving)) in
    elim (Bool-cases (writer_turn turn w).0) [
      | inl goes_on ↦
          let (n, e, done) = writer_loop-expected turns next in
          (
            suc n,
            rw (writer_loop, goes_on)
                (e
                  ∙ ap (λ cs. cs ++ channels_of (arrivals (take n turns))) step
                  ∙ append_assoc (expected w) (channels_of turn.arriving) _
                  ∙ ap (λ cs. expected w ++ cs)
                      (sym (channels_of-append turn.arriving (arrivals (take n turns))))),
            elim done [
              | inl all ↦ inl (ap suc all)
              | inr (before, last, rest, split, count, ends, none_wait) ↦ inr (
                turn ∷ before,
                last,
                rest,
                ap (λ ts. turn ∷ ts) split,
                ap suc count,
                rw (writer_loop, goes_on) ends,
                rw (writer_loop, goes_on) none_wait,
              )
            ],
          )
      | inr ends ↦ (
        1,
        rw (writer_loop, ends)
            (expected-drain next
              ∙ step
              ∙ ap (λ rs. expected w ++ channels_of rs) (sym (append-nil turn.arriving))),
        inr (
          [],
          turn,
          turns,
          refl,
          refl,
          writer_turn-EndsAt turn w (w.queue ++ turn.arriving) refl ends,
          rw (writer_loop, ends) (unfold drain in refl),
        ),
      )
    ]
