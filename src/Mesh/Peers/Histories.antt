-- ===== src/Mesh/Peers/Histories.antt =====
-- Any interleaving of the mesh's threads, as the sequence of their critical sections: what a thread
-- does under one lock, or with one atomic or one channel.
use glycoprotein_rs.Error.{GlycoError}
use glycoprotein_rs.Mesh.NodeId.{validate_node_id}
use glycoprotein_rs.Prelude.Result.{Result-cases, err, ok}
use glycoprotein_rs.Protocol.{ConnexonEvent}
use glycoprotein_rs.Mesh.Peers.Install.{register_connection-IsMesh}
use glycoprotein_rs.Mesh.Peers.Invariant.{
  with_socket_directory-IsMesh, send_event-IsMesh, shutdown_other, shutdown_frame,
  track_thread-IsMesh, fewer-IsMesh, IsMesh,
}
use glycoprotein_rs.Mesh.Peers.Shut.{shutdown-IsSound, StaysShut, IsSound}
use glycoprotein_rs.Prelude.Map.{
  values, lookup-remove, lookup-remove-some, insert, lookup-insert_ne, remove, lookup-insert, Map,
  lookup,
}
use glycoprotein_rs.Prelude.Text.{Str}
use glycoprotein_rs.Mesh.Peers.{
  with_socket_directory, send_event, reading, fresh_cell, writing, shutdown, handshaking,
  discovering, set_cell, track_thread, accepting, WriteRequest, allocate_peer, Peer, Cell, Setup,
  register_connection, Inner, Thread,
}
use glycoprotein_rs.Prelude.{
  list_beq_iff, subst, All-map, ap, sym, All, arith, ◌++◌, ◌∷◌, [], List, some, none, false, true,
  Bool, inr, inl, ◌⊎◌, ◌≢◌, ◌∙◌, refl, ◌≡◌, ◌<◌, ◌^◌, ◌+◌, ℕ, pair_has_eq, list_has_eq, nat_has_eq,
}

-- Which threads install peers, and which threads they spawn: the accepting thread one for each
-- handshake, and a thread that installs a peer the two of its connection.
abbrev pub spawns_thread : Thread → Thread → Bool
spawns_thread accepting handshaking = true
spawns_thread discovering writing = true
spawns_thread discovering reading = true
spawns_thread handshaking writing = true
spawns_thread handshaking reading = true
spawns_thread _ _ = false

-- A section of some thread. `held` are the peers that a thread has taken out of the map and has yet to
-- shut down.
pub data Step (s : Inner) (held : List Peer) : Inner → List Peer → Type 0 where
  -- `install_peer` up to the map, and a thread that was spawned
  registers :
      (setup : Setup) (peer_id : Str)
      → s.next_generation + 1 < 2 ^ 64
      → Step s held (register_connection setup peer_id s) held
  spawns :
      (by thread : Thread)
      → spawns_thread by thread ≡ true
      → Step s held (track_thread thread s) held
  -- the two parts of `disconnect_peer`, by whatever thread
  removes :
      (id : Str) (p : Peer)
      → lookup id s.peers ≡ some p
      → Step s held (record s { peers = remove id s.peers }) (p ∷ held)
  closes :
      (before : List Peer) (p : Peer) (rest : List Peer)
      → held ≡ before ++ p ∷ rest
      → Step s held (shutdown p s) (before ++ rest)
  -- any event, at any time
  tells : (e : ConnexonEvent) → Step s held (send_event e s) held
  -- what senders and the writer thread do to a queue; a writer thread that ends drops its receiver
  serves :
      (handle : ℕ) (c : Cell) (queue : List WriteRequest) (receiving : Bool)
      → lookup handle s.cells ≡ some c
      → Step s held (set_cell handle (record c { queue = queue; receiving = receiving }) s) held

pub data Reach (s : Inner) (held : List Peer) : Inner → List Peer → Type 0 where
  here : Reach s held s held
  next :
      {t u : Inner} {held' held'' : List Peer}
      → Reach s held t held'
      → Step t held' u held''
      → Reach s held u held''

-- A peer that is out of the map, and whose cell is sound.
abbrev pub IsOut : Inner → Peer → Type 0
IsOut inner p =
    IsSound p.handle inner
    × ((id : Str) (q : Peer) → lookup id inner.peers ≡ some q → q.handle ≢ p.handle)

-- A map has a key once.
abbrev pub AreUnique : Map Str Peer → Type 0
AreUnique [] = Unit
AreUnique ((k, p) ∷ m) = (lookup k m ≡ none) × AreUnique m

abbrev pub IsWorld : Inner → List Peer → Type 0
IsWorld inner held = IsMesh inner × AreUnique inner.peers × All (IsOut inner) held

insert-AreUnique : (k : Str) (p : Peer) (m : Map Str Peer) → AreUnique m → AreUnique (insert k p m)
unfolding insert lookup
insert-AreUnique k p [] u = (refl, tt)
insert-AreUnique k p ((j, q) ∷ m) u = ground (
  arith,
  u,
  insert-AreUnique k p m u.1,
  lookup-insert k j p m,
  list_beq_iff j k,
  list_beq_iff k j,
)

remove-AreUnique : (k : Str) (m : Map Str Peer) → AreUnique m → AreUnique (remove k m)
unfolding remove
remove-AreUnique k [] u = tt
remove-AreUnique k ((j, q) ∷ m) u = ground (arith, u, remove-AreUnique k m u.1, lookup-remove k j m)

-- What holds of each peer that is found holds of all values.
pub values-All {ℓ} :
    (P : Peer → Type ℓ) (m : Map Str Peer)
    → AreUnique m
    → ((id : Str) (p : Peer) → lookup id m ≡ some p → P p)
    → All P (values m)
unfolding lookup
values-All P [] u each = tt
values-All P ((k, p) ∷ m) u each = (
  each k p (ground (arith, list_beq_iff k k)),
  values-All P m u.1 (λ id q h. each id q (ground (arith, u.0, h, list_beq_iff k id))),
)

register_connection-AreUnique :
    (setup : Setup) (peer_id : Str) (inner : Inner)
    → AreUnique inner.peers
    → AreUnique (register_connection setup peer_id inner).peers
unfolding register_connection allocate_peer
register_connection-AreUnique setup peer_id inner u =
    ground (arith, u, insert-AreUnique peer_id (allocate_peer peer_id inner).0 inner.peers u)

register_connection-cells :
    (setup : Setup) (peer_id : Str) (handle : ℕ) (c : Cell) (inner : Inner)
    → handle < inner.next_handle
    → lookup handle inner.cells ≡ some c
    → (handle < (register_connection setup peer_id inner).next_handle)
      × (lookup handle (register_connection setup peer_id inner).cells ≡ some c)
unfolding register_connection allocate_peer
register_connection-cells setup peer_id handle c inner h found =
    let other = λ (d : Cell) (cells : Map ℕ Cell).
      lookup-insert_ne inner.next_handle handle d cells (λ e. omega arith) in
    let cells = insert inner.next_handle fresh_cell inner.cells in
    (
      ground (arith, h),
      ground (
        arith,
        found,
        other fresh_cell inner.cells,
        other (record fresh_cell { control_open = false }) cells,
      ),
    )

register_connection-IsOut :
    (setup : Setup) (peer_id : Str) (inner : Inner) (p : Peer)
    → IsOut inner p
    → IsOut (register_connection setup peer_id inner) p
unfolding register_connection allocate_peer
register_connection-IsOut setup peer_id inner p ((h, (c, found, shut)), out) =
    let (h', found') = register_connection-cells setup peer_id p.handle c inner h found in
    let peer = (allocate_peer peer_id inner).0 in
    (
      (h', (c, found', shut)),
      λ id q k e. ground (arith, h, out id q, lookup-insert peer_id id peer inner.peers, e),
    )

pub register_connection-StaysShut :
    (setup : Setup) (peer_id : Str) (handle : ℕ) (inner : Inner)
    → StaysShut handle inner
    → StaysShut handle (register_connection setup peer_id inner)
register_connection-StaysShut setup peer_id handle inner (h, (c, found, closed, w, o)) =
    let (h', found') = register_connection-cells setup peer_id handle c inner h found in
    (h', (c, found', closed, w, o))

-- One cell is written.
set_cell-cases :
    (handle k : ℕ) (d c : Cell) (inner : Inner)
    → lookup k inner.cells ≡ some c
    → ((handle ≡ k) × (lookup k (set_cell handle d inner).cells ≡ some d))
      ⊎ (lookup k (set_cell handle d inner).cells ≡ some c)
set_cell-cases handle k d c inner found =
    ground (arith, found, lookup-insert handle k d inner.cells, nat_has_eq.beq_iff handle k)

module _ (handle : ℕ) (c : Cell) (queue : List WriteRequest) (receiving : Bool) (inner : Inner)
    (found : lookup handle inner.cells ≡ some c) where
  unfoldable pub served : Inner
  served = set_cell handle (record c { queue = queue; receiving = receiving }) inner

  served-cell :
      (k : ℕ) (d : Cell)
      → lookup k inner.cells ≡ some d
      → (d' : Cell) × (lookup k served.cells ≡ some d')
        × (d'.closed ≡ d.closed)
        × (d'.writer ≡ d.writer)
        × (d'.control_open ≡ d.control_open)
  unfolding served
  served-cell k d there =
      let c' : Cell = record c { queue = queue; receiving = receiving } in
      elim (set_cell-cases handle k c' d inner there) [
        | inr same ↦ (d, same, refl, refl, refl)
        | inl (e, mine) ↦
            let eq : some c ≡ some d = sym found ∙ ap (λ h. lookup h inner.cells) e ∙ there in
            (c', mine, ground (arith, eq), ground (arith, eq), ground (arith, eq))
      ]

  served-IsMesh : IsMesh inner → IsMesh served
  unfolding served
  served-IsMesh v =
      fewer-IsMesh served v refl (omega arith) (omega arith) (λ id p h. h)
        (λ id p h.
          let (d, there, open_cell) = v.live id p h in
          let (d', there', closed, _, _) = served-cell p.handle d there in
          (d', there', closed ∙ open_cell))

  served-IsSound : (k : ℕ) → IsSound k inner → IsSound k served
  unfolding served
  served-IsSound k (h, (d, there, shut)) =
      let (d', there', closed, writer, control) = served-cell k d there in
      (h, (d', there', λ e. let (w, o) = shut (sym closed ∙ e) in (writer ∙ w, control ∙ o)))

  pub served-StaysShut : (k : ℕ) → StaysShut k inner → StaysShut k served
  unfolding served
  served-StaysShut k (h, (d, there, shut, w, o)) =
      let (d', there', closed, writer, control) = served-cell k d there in
      (h, (d', there', closed ∙ shut, writer ∙ w, control ∙ o))

All-without {ℓ κ} :
    {A : Type ℓ} (P : A → Type κ) (xs : List A) (y : A) (ys : List A)
    → All P (xs ++ y ∷ ys)
    → P y × All P (xs ++ ys)
All-without P [] y ys h = h
All-without P (x ∷ xs) y ys (h, hs) = let (p, rest) = All-without P xs y ys hs in (p, (h, rest))

pub live-IsSound :
    (inner : Inner) (id : Str) (p : Peer)
    → IsMesh inner
    → lookup id inner.peers ≡ some p
    → IsSound p.handle inner
live-IsSound inner id p v found =
    let (c, there, open_cell) = v.live id p found in
    ((v.entry id p found).allocated, (c, there, λ e. ground (arith, e, open_cell)))

pub Step-IsWorld :
    {s t : Inner} {held held' : List Peer} → Step s held t held' → IsWorld s held → IsWorld t held'
Step-IsWorld {s} {held = held} (registers setup peer_id room) (v, u, out) = (
  register_connection-IsMesh setup peer_id v room,
  register_connection-AreUnique setup peer_id s u,
  All-map (register_connection-IsOut setup peer_id s) held out,
)
Step-IsWorld (spawns by thread may) (v, u, out) = (track_thread-IsMesh thread v, u, out)
Step-IsWorld {s} {held = held} (removes id p found) (v, u, out) =
    let smaller : Inner = record s { peers = remove id s.peers } in
    let kept = λ (j : Str) (q : Peer). lookup-remove-some id j q s.peers in
    (
      fewer-IsMesh smaller v refl (omega arith) (omega arith) (λ j q h. (kept j q h).0)
          (λ j q h. v.live j q (kept j q h).0),
      remove-AreUnique id s.peers u,
      (
        (
          live-IsSound s id p v found,
          λ j q h e. (kept j q h).1 (v.handles id j p q found (kept j q h).0 (sym e)),
        ),
        All-map (λ (r : Peer) (o : IsOut s r). (o.0, λ j q h. o.1 j q (kept j q h).0)) held out,
      ),
    )
Step-IsWorld {s} (closes before p rest e) (v, u, out) =
    let (mine, others) = All-without (IsOut s) before p rest (subst (All (IsOut s)) e out) in
    let frame = shutdown_frame p s in
    (
      fewer-IsMesh (shutdown p s) v frame.1 (omega (arith, frame.3)) (omega (arith, frame.4))
          (λ j q h. rw frame.0 at h)
          (λ j q h.
            let there = rw frame.0 at h in
            rw (shutdown_other p s q.handle (mine.1 j q there)) (v.live j q there)),
      rw frame.0 u,
      All-map
          (λ (r : Peer) (o : IsOut s r).
            (shutdown-IsSound p r.handle s o.0, λ j q h. o.1 j q (rw frame.0 at h)))
          (before ++ rest) others,
    )
Step-IsWorld (tells e) (v, u, out) = (send_event-IsMesh e v, u, out)
Step-IsWorld {s} {held = held} (serves handle c queue receiving found) (v, u, out) =
    unfold served in
    (
      served-IsMesh handle c queue receiving s found v,
      u,
      All-map
          (λ (r : Peer) (o : IsOut s r).
            (served-IsSound handle c queue receiving s found r.handle o.0, o.1))
          held out,
    )

pub Reach-IsWorld :
    {s : Inner} {held : List Peer} {t : Inner} {held' : List Peer}
    → Reach s held t held'
    → IsWorld s held
    → IsWorld t held'
Reach-IsWorld here v = v
Reach-IsWorld (next r st) v = Step-IsWorld st (Reach-IsWorld r v)

All-append {ℓ κ} :
    {A : Type ℓ} (P : A → Type κ) (xs ys : List A) → All P xs → All P ys → All P (xs ++ ys)
All-append P [] ys h k = k
All-append P (x ∷ xs) ys (h, hs) k = (h, All-append P xs ys hs k)

-- The map is emptied under its lock, and its peers are yet to be shut down.
pub drained-IsWorld :
    (inner : Inner) (held : List Peer)
    → IsWorld inner held
    → IsWorld (record inner { peers = [] }) (values inner.peers ++ held)
unfolding lookup
drained-IsWorld inner held (v, u, out) =
    let empty : Inner = record inner { peers = [] } in
    (
      fewer-IsMesh empty v refl (omega arith) (omega arith) (λ id p h. ground (arith, h))
          (λ id p h. ground (arith, h)),
      tt,
      All-append (IsOut empty) (values inner.peers) held
          (values-All (IsOut empty) inner.peers u
            (λ id p found. (live-IsSound inner id p v found, λ j q h. ground (arith, h))))
          (All-map (λ (p : Peer) (o : IsOut inner p). (o.0, λ j q h. ground (arith, h))) held out),
    )

-- The whole life of a mesh node: its threads' sections, and those of starts and stops, which set and
-- take the token, empty the map, and take the threads to join.
pub data Life (s : Inner) : Inner → List Peer → Type 0 where
  made : Life s s []
  runs :
      {t u : Inner} {held held' : List Peer} → Life s t held → Step t held u held' → Life s u held'
  begins_start :
      {t : Inner} {held : List Peer} → Life s t held → Life s (record t { started = true }) held
  spawns_worker :
      {t : Inner} {held : List Peer} (thread : Thread)
      → Life s t held
      → Life s (track_thread thread t) held
  begins_stop :
      {t : Inner} {held : List Peer} → Life s t held → Life s (record t { started = false }) held
  drains :
      {t : Inner} {held : List Peer}
      → Life s t held
      → Life s (record t { peers = [] }) (values t.peers ++ held)
  joins : {t : Inner} {held : List Peer} → Life s t held → Life s (record t { threads = [] }) held

Life-IsWorld : {s t : Inner} {held : List Peer} → IsWorld s [] → Life s t held → IsWorld t held
Life-IsWorld v made = v
Life-IsWorld v (runs life st) = Step-IsWorld st (Life-IsWorld v life)
Life-IsWorld v (begins_start {t} life) =
    let (m, u, out) = Life-IsWorld v life in
    (
      fewer-IsMesh (record t { started = true }) m refl (omega arith) (omega arith) (λ id p h. h)
          m.live,
      u,
      out,
    )
Life-IsWorld v (spawns_worker thread life) =
    let (m, u, out) = Life-IsWorld v life in (track_thread-IsMesh thread m, u, out)
Life-IsWorld v (begins_stop {t} life) =
    let (m, u, out) = Life-IsWorld v life in
    (
      fewer-IsMesh (record t { started = false }) m refl (omega arith) (omega arith) (λ id p h. h)
          m.live,
      u,
      out,
    )
Life-IsWorld v (drains {t} {held} life) = drained-IsWorld t held (Life-IsWorld v life)
Life-IsWorld v (joins {t} life) =
    let (m, u, out) = Life-IsWorld v life in
    (
      fewer-IsMesh (record t { threads = [] }) m refl (omega arith) (omega arith) (λ id p h. h)
          m.live,
      u,
      out,
    )

with_socket_directory-IsWorld :
    (node_id : Str) (s : Inner) → with_socket_directory node_id ≡ ok s → IsWorld s []
unfolding with_socket_directory
with_socket_directory-IsWorld node_id s h =
    (with_socket_directory-IsMesh node_id s h, empty (Result-cases (validate_node_id node_id)), tt)
  where
    empty :
        ((x : Unit {0}) × (validate_node_id node_id ≡ ok x))
          ⊎ ((e : GlycoError) × (validate_node_id node_id ≡ err e))
        → AreUnique s.peers
    empty (inl (_, e)) = ground (arith, h, e)
    empty (inr (x, e)) = ground (arith, h, e)

-- From a new mesh node, after any interleaving of the critical sections of its threads, of starts and of
-- stops, whichever of the system's calls fail, until the 64-bit generation counter runs out: the peers
-- in the map have valid ids other than the node's own, each once, and distinct generations and cells,
-- and none of them is shut down; the peers that were taken out and are yet to be shut down share no
-- cell with them.
pub IsMesh-histories :
    (node_id : Str) (s t : Inner) (held : List Peer)
    → with_socket_directory node_id ≡ ok s
    → Life s t held
    → IsWorld t held
IsMesh-histories node_id s t held h life =
    Life-IsWorld (with_socket_directory-IsWorld node_id s h) life
