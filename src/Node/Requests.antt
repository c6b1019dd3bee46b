-- ===== src/Node/Requests.antt =====
-- The part of `call_raw_with_options` of src/node.rs up to the wait for the reply: the query is sent,
-- and the pending call is taken back if that fails.
mod Tests
use glycoprotein_rs.Prelude.Map.{lookup-remove, lookup}
use glycoprotein_rs.Json.{Value}
use glycoprotein_rs.Prelude.Text.{Str}
use glycoprotein_rs.Schema.{SchemaLibrary}
use glycoprotein_rs.Node.Calls.{Call, remove_pending, begin_call}
use glycoprotein_rs.Node.{NodeInner}
use glycoprotein_rs.Error.{GlycoError}
use glycoprotein_rs.Prelude.Result.{Result-cases, ok, ok, err, Result}
use glycoprotein_rs.Protocol.{query, Glycosyl}
use glycoprotein_rs.Prelude.{
  ◌==◌, if◌then◌else◌, arith, ◌++◌, ◌∷◌, [], List, some, none, Option, ◌||◌, ◌&&◌, false, true,
  Bool, inr, inl, ◌⊎◌, ◌↔◌, ◌≢◌, ◌∙◌, refl, ◌≡◌, ◌<◌, ◌≤◌, ◌^◌, ◌%◌, ◌/◌, ◌*◌, ◌-◌, ◌+◌, suc, zero,
  ℕ, pair_has_eq, list_has_eq, nat_has_eq,
}

-- `send` is that of the connexon, whose state is an `S`; `meanwhile` is what other tasks do to the
-- node while it is awaited.
module _ {S : Type 0} (send : Glycosyl → S → Result (Unit {0}) GlycoError × S)
    (meanwhile : NodeInner → NodeInner) where
  unfoldable pub request :
      SchemaLibrary
      → Str
      → Str
      → Option Value
      → ℕ
      → NodeInner
      → S
      → Result Call GlycoError × NodeInner × S
  unfolding begin_call remove_pending
  request library gid fid payload qid inner connexon =
      elim (begin_call library gid fid payload qid inner) [
        | err e ↦ (err e, inner, connexon)
        | ok (call, waits) ↦
            let (sent, connexon') = send (query call.query) connexon in
            elim sent [
              | ok _ ↦ (ok call, meanwhile waits, connexon')
              | err e ↦ (err e, remove_pending qid (meanwhile waits), connexon')
            ]
      ]

  -- A call that ends with an error before it waits for its reply: either its guards refuse it, and then
  -- nothing is sent and nothing has changed; or the connexon fails to send its query, with this error,
  -- and then no call is pending under its id, and the others are as the other tasks leave them.
  pub request_refused :
      (library : SchemaLibrary) (gid fid : Str) (payload : Option Value) (qid : ℕ)
      (s after : NodeInner) (connexon connexon' : S) (e : GlycoError)
      → request library gid fid payload qid s connexon ≡ (err e, after, connexon')
      → ((begin_call library gid fid payload qid s ≡ err e) × (after ≡ s) × (connexon' ≡ connexon))
        ⊎ ((call : Call) × (waits : NodeInner) × (begin_call library gid fid payload qid s
              ≡ ok (call, waits))
            × (send (query call.query) connexon ≡ (err e, connexon'))
            × ((j : ℕ)
                → lookup j after.pending
                  ≡ (if qid == j then none else lookup j (meanwhile waits).pending)))
  unfolding request remove_pending
  request_refused library gid fid payload qid s after connexon connexon' e h =
      elim (Result-cases (begin_call library gid fid payload qid s)) [
        | inr (e', f) ↦ inl (ground (arith, h, f))
        | inl ((call, waits), f) ↦ elim (Result-cases (send (query call.query) connexon).0) [
          | inr (e', g) ↦ inr (
            call,
            waits,
            f,
            ground (arith, h, f, g),
            λ j. ground (arith, h, f, g, lookup-remove qid j (meanwhile waits).pending),
          )
          | inl (_, g) ↦ absurd (ground (arith, h, f, g))
        ]
      ]
