-- ===== src/Mesh/Lifecycle/Start.antt =====
-- How a start of the mesh ends.
use glycoprotein_rs.Error.{io, GlycoError}
use glycoprotein_rs.Prelude.Result.{err, Result-cases, ok, Result}
use glycoprotein_rs.Mesh.Lifecycle.{open_listener, spawn_workers, Starting, start_blocking}
use glycoprotein_rs.Mesh.Peers.{Thread, discovering, accepting, track_thread, Inner}
use glycoprotein_rs.Prelude.{
  append_assoc, ◌++◌, ◌∷◌, [], List, ◌≢◌, sym, subst, pair_has_eq, list_has_eq, nat_has_eq, arith,
  false, true, inr, inl, ◌⊎◌, ◌↔◌, refl, ◌≡◌,
}

abbrev pub Outcome : Inner → Result (Unit {0}) GlycoError → Inner → Type 0
Outcome inner result after =
    ((after ≡ inner) × ((e : GlycoError) × (result ≡ err e)))
    ⊎ ((after.started ≡ true)
        × ((result ≡ ok tt) ↔ (after.threads ≡ inner.threads ++ accepting ∷ discovering ∷ []))
        × ((later : Starting) → start_blocking later after ≡ (ok tt, after)))

started_again :
    (later : Starting) (inner : Inner)
    → inner.started ≡ true
    → start_blocking later inner ≡ (ok tt, inner)
unfolding start_blocking
started_again later inner h = ground (arith, h)

Outcome-along :
    (inner after : Inner) (outcome : Result (Unit {0}) GlycoError × Inner)
    (r : Result (Unit {0}) GlycoError)
    → outcome ≡ (r, after)
    → Outcome inner r after
    → Outcome inner outcome.0 outcome.1
Outcome-along inner after outcome r e v = subst (λ o. Outcome inner o.0 o.1) (sym e) v

-- Behind the token, whatever is spawned.
spawned :
    (inner after : Inner) (r : Result (Unit {0}) GlycoError)
    → after.started ≡ true
    → ((r ≡ ok tt) ↔ (after.threads ≡ inner.threads ++ accepting ∷ discovering ∷ []))
    → Outcome inner r after
spawned inner after r h k = inr (h, k, λ later. started_again later after h)

neither_runs : (ts : List Thread) → ts ≢ ts ++ accepting ∷ discovering ∷ []
neither_runs [] e = ground (arith, e)
neither_runs (x ∷ ts) e = neither_runs ts (ground (arith, e))

one_runs : (ts : List Thread) → ts ++ accepting ∷ [] ≢ ts ++ accepting ∷ discovering ∷ []
one_runs [] e = ground (arith, e)
one_runs (x ∷ ts) e = one_runs ts (ground (arith, e))

-- A start of a mesh that is not started either fails and changes nothing; or else the mesh counts as
-- started, and every later start succeeds and changes nothing, whether this one succeeded or not:
-- it did exactly if both worker threads run.
pub start_blocking-Outcome :
    (system : Starting) (inner : Inner)
    → inner.started ≡ false
    → let (result, after) = start_blocking system inner in Outcome inner result after
unfolding start_blocking spawn_workers
start_blocking-Outcome system inner h =
    let begun = record inner { started = true } in
    elim (Result-cases (open_listener system inner.node_id)) [
      | inr (e, f) ↦
          Outcome-along inner inner (start_blocking system inner) (err e) (ground (arith, h, f))
            (inl (refl, (e, refl)))
      | inl (_, f) ↦ elim (Result-cases system.spawn_accept) [
        | inr (e, g) ↦
            Outcome-along inner begun (start_blocking system inner) (err (io e))
              (ground (arith, h, f, g))
              (spawned inner begun (err (io e)) refl (ground (arith, neither_runs inner.threads)))
        | inl (_, g) ↦ elim (Result-cases system.spawn_discovery) [
          | inr (e, k) ↦
              Outcome-along inner (track_thread accepting begun) (start_blocking system inner)
                (err (io e)) (ground (arith, h, f, g, k))
                (spawned inner (track_thread accepting begun) (err (io e)) refl
                  (ground (arith, one_runs inner.threads)))
          | inl (_, k) ↦
              Outcome-along inner (track_thread discovering (track_thread accepting begun))
                (start_blocking system inner) (ok tt) (ground (arith, h, f, g, k))
                (spawned inner (track_thread discovering (track_thread accepting begun)) (ok tt)
                  refl
                  (ground (arith, append_assoc inner.threads (accepting ∷ []) (discovering ∷ []))))
        ]
      ]
    ]
