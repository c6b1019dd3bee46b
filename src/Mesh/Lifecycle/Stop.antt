-- ===== src/Mesh/Lifecycle/Stop.antt =====
-- What a stop of the mesh leaves behind.
use glycoprotein_rs.Mesh.Peers.Invariant.{shutdown_frame, fewer-IsMesh, IsMesh}
use glycoprotein_rs.Error.{GlycoError, IoError}
use glycoprotein_rs.Mesh.Peers.Histories.{
  served-StaysShut, served, serves, serves, tells, tells, closes, closes, here, removes, removes,
  spawns, Step-IsWorld, register_connection-StaysShut, next, registers, registers, registers, IsOut,
  drained-IsWorld, Reach, IsWorld, Step,
}
use glycoprotein_rs.Prelude.Text.{Str}
use glycoprotein_rs.Mesh.Peers.Shut.{shutdown-StaysShut, shutdown_shuts, IsSound, IsShut, StaysShut}
use glycoprotein_rs.Prelude.Result.{Result}
use glycoprotein_rs.Mesh.Lifecycle.{
  stopped, begun, not_running, socket_removed, Stops, joined, Rounds, drain_map,
}
use glycoprotein_rs.Prelude.Map.{lookup-remove, lookup-insert, values, Map, lookup}
use glycoprotein_rs.Mesh.Peers.{shutdown, allocate_peer, register_connection, Inner, Peer}
use glycoprotein_rs.Prelude.{
  list_beq_iff, Bool-cases, subst, All, ◌==◌, arith, ◌++◌, ◌∷◌, [], List, some, none, Option, false,
  true, inr, inl, ◌⊎◌, ◌∙◌, refl, ◌≡◌, ℕ, pair_has_eq, list_has_eq, nat_has_eq,
}

-- A thread has yet to shut the peer of this handle down.
abbrev pub Holds : ℕ → List Peer → Type 0
Holds handle [] = ⊥
Holds handle (p ∷ ps) = (p.handle ≡ handle) ⊎ Holds handle ps

-- Shut, or about to be
abbrev pub IsGone : ℕ → Inner → List Peer → Type 0
IsGone handle inner held = Holds handle held ⊎ StaysShut handle inner

abbrev pub HasHandle : Inner → ℕ → Type 0
HasHandle inner handle =
    (id : Str) × (p : Peer) × (lookup id inner.peers ≡ some p) × (p.handle ≡ handle)

Holds-without :
    (handle : ℕ) (xs : List Peer) (p : Peer) (ys : List Peer)
    → Holds handle (xs ++ p ∷ ys)
    → (p.handle ≡ handle) ⊎ Holds handle (xs ++ ys)
Holds-without handle [] p ys h = h
Holds-without handle (x ∷ xs) p ys (inl e) = inr (inl e)
Holds-without handle (x ∷ xs) p ys (inr h) = elim (Holds-without handle xs p ys h) [
  | inl e ↦ inl e
  | inr k ↦ inr (inr k)
]

Holds-append : (handle : ℕ) (xs ys : List Peer) → Holds handle xs → Holds handle (xs ++ ys)
Holds-append handle [] ys h = absurd h
Holds-append handle (x ∷ xs) ys (inl e) = inl e
Holds-append handle (x ∷ xs) ys (inr h) = inr (Holds-append handle xs ys h)

Holds-behind : (handle : ℕ) (xs ys : List Peer) → Holds handle ys → Holds handle (xs ++ ys)
Holds-behind handle [] ys h = h
Holds-behind handle (x ∷ xs) ys h = inr (Holds-behind handle xs ys h)

held-IsSound :
    (inner : Inner) (xs : List Peer) (p : Peer) (ys : List Peer)
    → All (IsOut inner) (xs ++ p ∷ ys)
    → IsSound p.handle inner
held-IsSound inner [] p ys h = h.0.0
held-IsSound inner (x ∷ xs) p ys h = held-IsSound inner xs p ys h.1

Step-IsGone :
    {s t : Inner} {held held' : List Peer}
    → Step s held t held'
    → IsWorld s held
    → (h : ℕ) → IsGone h s held
    → IsGone h t held'
Step-IsGone (registers setup peer_id room) w h (inl x) = inl x
Step-IsGone {s} (registers setup peer_id room) w h (inr x) =
    inr (register_connection-StaysShut setup peer_id h s x)
Step-IsGone (spawns by thread may) w h x = x
Step-IsGone (removes id p found) w h (inl x) = inl (inr x)
Step-IsGone (removes id p found) w h (inr x) = inr x
Step-IsGone {s} (closes before p rest e) (v, u, out) h (inl x) =
    elim (Holds-without h before p rest (subst (Holds h) e x)) [
      | inl same ↦ inr (
          subst (λ k. StaysShut k (shutdown p s)) same
            (shutdown_shuts p s (held-IsSound s before p rest (subst (All (IsOut s)) e out))))
      | inr k ↦ inl k
    ]
Step-IsGone {s} (closes before p rest e) w h (inr x) = inr (shutdown-StaysShut p h s x)
Step-IsGone (tells e) w h x = x
Step-IsGone (serves handle c queue receiving found) w h (inl x) = inl x
Step-IsGone {s} (serves handle c queue receiving found) w h (inr x) =
    inr (unfold served in served-StaysShut handle c queue receiving s found h x)

-- Who takes a peer out of the map has it yet to shut down.
Step-HasHandle :
    {s t : Inner} {held held' : List Peer}
    → Step s held t held'
    → (h : ℕ) → HasHandle s h
    → HasHandle t h ⊎ IsGone h t held'
unfolding register_connection allocate_peer
Step-HasHandle {s} (registers setup peer_id room) h (id, p, found, e) =
    let peer = (allocate_peer peer_id s).0 in
    inl (
      id,
      p,
      ground (arith, found, lookup-insert peer_id id peer s.peers, list_beq_iff peer_id id),
      e,
    )
Step-HasHandle (spawns by thread may) h x = inl x
Step-HasHandle {s} (removes id' q there) h (id, p, found, e) = elim (Bool-cases (id' == id)) [
  | inl same ↦ inr (inl (inl (ground (arith, there, found, e, same, list_beq_iff id' id))))
  | inr ne ↦ inl (id, p, ground (arith, ne, found, lookup-remove id' id s.peers), e)
]
Step-HasHandle {s} (closes before q rest e') h (id, p, found, e) =
    inl (id, p, rw (shutdown_frame q s).0 found, e)
Step-HasHandle (tells e) h x = inl x
Step-HasHandle (serves handle c queue receiving found) h x = inl x

Step-started : {s t : Inner} {held held' : List Peer} → Step s held t held' → t.started ≡ s.started
unfolding register_connection allocate_peer
Step-started {s} (registers setup peer_id room) = ground arith
Step-started (spawns by thread may) = refl
Step-started (removes id p found) = refl
Step-started {s} (closes before p rest e) = (shutdown_frame p s).5
Step-started (tells e) = refl
Step-started (serves handle c queue receiving found) = refl

-- What every section keeps of a mesh that is being stopped: first, a peer that was there when the token
-- was taken is in the map or gone, and then it is gone.
abbrev pub IsStopping : (Inner → List Peer → ℕ → Type 0) → (ℕ → Type 0) → Inner → List Peer → Type 0
IsStopping fate those inner held =
    IsWorld inner held × (inner.started ≡ false) × ((h : ℕ) → those h → fate inner held h)

abbrev pub IsGoneAt : Inner → List Peer → ℕ → Type 0
IsGoneAt inner held h = IsGone h inner held

abbrev pub IsThereOrGone : Inner → List Peer → ℕ → Type 0
IsThereOrGone inner held h = HasHandle inner h ⊎ IsGone h inner held

abbrev Survives : (Inner → List Peer → ℕ → Type 0) → Type 0
Survives fate =
    (s t : Inner) (held held' : List Peer)
    → Step s held t held'
    → IsWorld s held
    → (h : ℕ) → fate s held h
    → fate t held' h

IsGoneAt-survives : Survives IsGoneAt
IsGoneAt-survives s t held held' st w h x = Step-IsGone st w h x

IsThereOrGone-survives : Survives IsThereOrGone
IsThereOrGone-survives s t held held' st w h (inl x) = Step-HasHandle st h x
IsThereOrGone-survives s t held held' st w h (inr x) = inr (Step-IsGone st w h x)

Reach-IsStopping :
    (fate : Inner → List Peer → ℕ → Type 0)
    → Survives fate
    → (those : ℕ → Type 0) {s : Inner} {held : List Peer} {t : Inner} {held' : List Peer}
    → Reach s held t held'
    → IsStopping fate those s held
    → IsStopping fate those t held'
Reach-IsStopping fate survives those here v = v
Reach-IsStopping fate survives those (next r st) v =
    let (w, off, fates) = Reach-IsStopping fate survives those r v in
    (Step-IsWorld st w, Step-started st ∙ off, λ h m. survives _ _ _ _ st w h (fates h m))

Rounds-IsStopping :
    (those : ℕ → Type 0) {s : Inner} {held : List Peer} {n : ℕ} {t : Inner} {held' : List Peer}
    → Rounds s held n t held'
    → IsStopping IsGoneAt those s held
    → IsStopping IsGoneAt those t held'
Rounds-IsStopping those begun v = v
Rounds-IsStopping those (joined {t} rounds more r runs) v =
    let ((mesh, u, out), off, fates) = Rounds-IsStopping those rounds v in
    let taken = record t { threads = [] } in
    let mesh' : IsMesh taken =
      fewer-IsMesh taken mesh refl (omega arith) (omega arith) (λ id p h. h) mesh.live in
    Reach-IsStopping IsGoneAt IsGoneAt-survives those r ((mesh', u, out), off, fates)

drained-Holds :
    (m : Map Str Peer) (id : Str) (p : Peer) → lookup id m ≡ some p → Holds p.handle (values m)
unfolding lookup
drained-Holds [] id p h = ground (arith, h)
drained-Holds ((k, q) ∷ m) id p h = elim (Bool-cases (k == id)) [
  | inl e ↦ inl (ground (arith, e, h))
  | inr e ↦ inr (drained-Holds m id p (ground (arith, e, h)))
]

drain_map-IsStopping :
    (those : ℕ → Type 0) (inner : Inner) (held : List Peer)
    → IsStopping IsThereOrGone those inner held
    → IsStopping IsGoneAt those (drain_map inner).1 ((drain_map inner).0 ++ held)
unfolding drain_map
drain_map-IsStopping those inner held (w, off, fates) = (
  drained-IsWorld inner held w,
  off,
  λ h m. elim (fates h m) [
    | inl (id, p, found, e) ↦ inl (
        subst (λ k. Holds k (values inner.peers ++ held)) e
          (Holds-append p.handle (values inner.peers) held (drained-Holds inner.peers id p found)))
    | inr (inl x) ↦ inl (Holds-behind h (values inner.peers) held x)
    | inr (inr x) ↦ inr x
  ],
)

-- What became of the peer that was found.
abbrev pub WasShut : Option Peer → Inner → Type 0
WasShut none inner = Unit {0}
WasShut (some p) inner = IsShut p.handle inner

-- A stop of a mesh that is started and in order, however the critical sections of the other threads
-- come in between, and whichever of the system's calls fail, if none of them starts the mesh and the
-- generation counter does not run out. When it returns, with no thread left that has a peer yet to
-- shut down, the mesh is in order and not started, no thread is left to join, every peer that was
-- connected has lost its writer and its socket, and the result is that of removing the socket file.
pub Stops-IsStopping :
    (removal : Result (Unit {0}) IoError) {s t : Inner} {held : List Peer}
    {r : Result (Unit {0}) GlycoError}
    → IsWorld s held
    → s.started ≡ true
    → Stops removal s held r t
    → IsMesh t
      × (t.started ≡ false)
      × (t.threads ≡ [])
      × ((id : Str) → WasShut (lookup id s.peers) t)
      × (r ≡ socket_removed removal)
Stops-IsStopping removal {s} w on (not_running off) = ground arith
Stops-IsStopping removal {s} {t} (v, u, out) on (stopped _ before r rounds done) =
    let taken = record s { started = false } in
    let v' : IsMesh taken =
      fewer-IsMesh taken v refl (omega arith) (omega arith) (λ id p h. h) v.live in
    let begun =
      Reach-IsStopping IsThereOrGone IsThereOrGone-survives (HasHandle s) before
        ((v', u, out), refl, λ h m. inl m) in
    let stopping =
      Reach-IsStopping IsGoneAt IsGoneAt-survives (HasHandle s) r
        (drain_map-IsStopping (HasHandle s) _ _ begun) in
    let ((mesh, _, _), off, fates) = Rounds-IsStopping (HasHandle s) rounds stopping in
    (mesh, off, done, λ id. was_shut id (lookup id s.peers) refl fates, refl)
  where
    was_shut :
        (id : Str) (o : Option Peer)
        → lookup id s.peers ≡ o
        → ((h : ℕ) → HasHandle s h → IsGone h t [])
        → WasShut o t
    was_shut id none e fates = tt
    was_shut id (some p) e fates = elim (fates p.handle (id, p, e, refl)) [
      | inl x ↦ absurd x
      | inr shut ↦ shut.1
    ]
