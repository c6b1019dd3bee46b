-- ===== src/Mesh/Lifecycle/Joining.antt =====
-- The loop of a stop that joins the threads ends.
use glycoprotein_rs.Prelude.Text.{Str}
use glycoprotein_rs.Mesh.Peers.Histories.{
  serves, tells, closes, removes, spawns, registers, spawns_thread, here, next, Reach, Step,
}
use glycoprotein_rs.Mesh.Lifecycle.{begun, joined, Runs, spawner, Rounds, Among}
use glycoprotein_rs.Mesh.Peers.{
  Peer, register_connection, reading, reading, writing, writing, writing, Setup, handshaking,
  handshaking, handshaking, discovering, discovering, discovering, accepting, accepting, shutdown,
  allocate_peer, Inner, Thread,
}
use glycoprotein_rs.Prelude.{
  sym, subst, All, pair_has_eq, list_has_eq, nat_has_eq, arith, ◌++◌, ◌∷◌, [], List, some, true,
  inr, inl, ◌≢◌, refl, ◌≡◌, ◌<◌, ◌≤◌, ◌-◌, ◌+◌, suc, ℕ,
}

abbrev rank : Thread → ℕ
rank accepting = 3
rank discovering = 3
rank handshaking = 2
rank writing = 1
rank reading = 1

abbrev Under : ℕ → List Thread → Type 0
Under k threads = All (λ (t : Thread). rank t < k) threads

Under-append : (k : ℕ) (xs ys : List Thread) → Under k xs → Under k ys → Under k (xs ++ ys)
Under-append k [] ys h g = g
Under-append k (x ∷ xs) ys (h, hs) g = (h, Under-append k xs ys hs g)

Under-weaken : (k : ℕ) (xs : List Thread) → Under k xs → Under (suc k) xs
Under-weaken k [] h = tt
Under-weaken k (x ∷ xs) (h, hs) = (omega arith, Under-weaken k xs hs)

Among-Under :
    (k : ℕ) (thread : Thread) (xs : List Thread)
    → Among (some thread) xs
    → Under k xs
    → rank thread < k
Among-Under k thread [] m h = absurd m
Among-Under k thread (x ∷ xs) (inl e) h = subst (λ (t : Thread). rank t < k) e h.0
Among-Under k thread (x ∷ xs) (inr m) h = Among-Under k thread xs m h.1

spawns_thread-rank : (by thread : Thread) → spawns_thread by thread ≡ true → rank thread < rank by
spawns_thread-rank accepting accepting may = cc
spawns_thread-rank accepting discovering may = cc
spawns_thread-rank accepting handshaking may = omega arith
spawns_thread-rank accepting writing may = cc
spawns_thread-rank accepting reading may = cc
spawns_thread-rank discovering accepting may = cc
spawns_thread-rank discovering discovering may = cc
spawns_thread-rank discovering handshaking may = cc
spawns_thread-rank discovering writing may = omega arith
spawns_thread-rank discovering reading may = omega arith
spawns_thread-rank handshaking accepting may = cc
spawns_thread-rank handshaking discovering may = cc
spawns_thread-rank handshaking handshaking may = cc
spawns_thread-rank handshaking writing may = omega arith
spawns_thread-rank handshaking reading may = omega arith
spawns_thread-rank writing thread may = cc
spawns_thread-rank reading thread may = cc

register_connection-threads :
    (setup : Setup) (peer_id : Str) (s : Inner)
    → (register_connection setup peer_id s).threads ≡ s.threads
unfolding register_connection allocate_peer
register_connection-threads setup peer_id s = ground arith

shutdown-threads : (p : Peer) (s : Inner) → (shutdown p s).threads ≡ s.threads
unfolding shutdown
shutdown-threads p s = ground arith

-- A thread spawns only threads of a lower rank.
Step-Under :
    (k : ℕ) (batch : List Thread) {s t : Inner} {held held' : List Peer}
    → (st : Step s held t held') → Among (spawner st) (batch ++ s.threads)
    → Under (suc k) batch
    → Under k s.threads
    → Under k t.threads
Step-Under k batch {s} (registers setup peer_id room) m b h =
    subst (Under k) (sym (register_connection-threads setup peer_id s)) h
Step-Under k batch {s} (spawns by thread may) m b h =
    let high =
      Among-Under (suc k) by (batch ++ s.threads) m
        (Under-append (suc k) batch s.threads b (Under-weaken k s.threads h)) in
    let lower = spawns_thread-rank by thread may in
    Under-append k s.threads (thread ∷ []) h (omega (arith, high, lower), tt)
Step-Under k batch (removes id p found) m b h = h
Step-Under k batch {s} (closes before p rest e) m b h =
    subst (Under k) (sym (shutdown-threads p s)) h
Step-Under k batch (tells e) m b h = h
Step-Under k batch (serves handle c queue receiving found) m b h = h

Reach-Under :
    (k : ℕ) (batch : List Thread) {s : Inner} {held : List Peer} {t : Inner} {held' : List Peer}
    → (r : Reach s held t held') → Runs batch r
    → Under (suc k) batch
    → Under k s.threads
    → Under k t.threads
Reach-Under k batch here m b h = h
Reach-Under k batch (next r st) (m, ms) b h =
    Step-Under k batch st ms b (Reach-Under k batch r m b h)

Under-all : (xs : List Thread) → Under 4 xs
Under-all [] = tt
Under-all (accepting ∷ xs) = (omega arith, Under-all xs)
Under-all (discovering ∷ xs) = (omega arith, Under-all xs)
Under-all (handshaking ∷ xs) = (omega arith, Under-all xs)
Under-all (writing ∷ xs) = (omega arith, Under-all xs)
Under-all (reading ∷ xs) = (omega arith, Under-all xs)

Under-one : (xs : List Thread) → xs ≢ [] → (k : ℕ) → Under k xs → 1 < k
Under-one [] more k h = absurd (more refl)
Under-one (accepting ∷ xs) more k h = omega (arith, h.0)
Under-one (discovering ∷ xs) more k h = omega (arith, h.0)
Under-one (handshaking ∷ xs) more k h = omega (arith, h.0)
Under-one (writing ∷ xs) more k h = omega (arith, h.0)
Under-one (reading ∷ xs) more k h = omega (arith, h.0)

Rounds-Under :
    {s : Inner} {held : List Peer} {n : ℕ} {t : Inner} {held' : List Peer}
    → Rounds s held n t held'
    → (k : ℕ) × (k + n ≡ 4) × (0 < k) × Under k t.threads
Rounds-Under {s} begun = (4, omega arith, omega arith, Under-all s.threads)
Rounds-Under (joined {n} {t} {u} rounds more r runs) =
    let (k, sum, pos, under) = Rounds-Under rounds in
    let two = Under-one t.threads more k under in
    let e : suc (k - 1) ≡ k = omega arith in
    (
      k - 1,
      omega arith,
      omega arith,
      Reach-Under (k - 1) t.threads r runs (subst (λ j. Under j t.threads) (sym e) under) tt,
    )

-- The loop of a stop that joins the threads runs at most three rounds, however the sections of the
-- threads come, whichever of the system's calls fail and whatever is left to join, if only running
-- threads spawn others, each the kinds of threads that it spawns in the code, and the generation
-- counter does not run out.
pub Rounds-bound : {s t : Inner} {n : ℕ} {held held' : List Peer} → Rounds s held n t held' → n ≤ 3
Rounds-bound rounds = let (k, sum, pos, _) = Rounds-Under rounds in omega arith
