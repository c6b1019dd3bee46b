-- ===== src/Mesh/Peers/Traces.antt =====
-- What the events tell of the peers, if no two threads come between each other's sections: the source
-- sends the events behind its locks.
use glycoprotein_rs.Protocol.{fault, message, Glycosyl}
use glycoprotein_rs.Mesh.NodeId.{validate_node_id}
use glycoprotein_rs.Prelude.Result.{Result-cases, ok}
use glycoprotein_rs.Prelude.Map.{lookup}
use glycoprotein_rs.Mesh.Peers.Links.{
  event-IsTraced, link_step, disconnect_peer-IsTraced, link_after, install_peer-IsTraced, IsTraced,
}
use glycoprotein_rs.Prelude.Text.{Str}
use glycoprotein_rs.Mesh.Peers.{
  track_thread, Thread, send_event, report_fault, disconnect_peer, install_peer, Setup,
  with_socket_directory, Inner,
}
use glycoprotein_rs.Prelude.{
  arith, Option, inr, inl, refl, ◌≡◌, ℕ, pair_has_eq, list_has_eq, nat_has_eq,
}

-- One thread's whole call: a connection is installed, a peer is disconnected (by whatever thread, with
-- whatever generation it knows), a fault is reported, a message that was read is passed on, a thread
-- is tracked.
pub data Turn (s : Inner) : Inner → Type 0 where
  installs :
      (setup : Setup) (peer_id : Str)
      → setup.spawn_writer ≡ ok tt
      → setup.spawn_reader ≡ ok tt
      → Turn s (install_peer setup peer_id s).1
  disconnects : (peer_id : Str) (generation : ℕ) → Turn s (disconnect_peer peer_id generation s)
  faults : (peer : Option Str) (report : Str) → Turn s (report_fault peer report s)
  receives : (m : Glycosyl) → Turn s (send_event (message m) s)
  tracks : (thread : Thread) → Turn s (track_thread thread s)

pub data Turns (s : Inner) : Inner → Type 0 where
  done : Turns s s
  after : {t u : Inner} → Turns s t → Turn t u → Turns s u

Turn-IsTraced : {s t : Inner} → Turn s t → IsTraced s → IsTraced t
Turn-IsTraced (installs setup peer_id w r) v = install_peer-IsTraced setup peer_id v w r
Turn-IsTraced (disconnects peer_id generation) v = disconnect_peer-IsTraced peer_id generation v
Turn-IsTraced {s} (faults peer report) v =
    unfold report_fault link_step in
    event-IsTraced (fault peer report) (send_event (fault peer report) s) v refl (λ id. tt)
      (λ id. refl)
Turn-IsTraced {s} (receives m) v =
    unfold link_step in
    event-IsTraced (message m) (send_event (message m) s) v refl (λ id. tt) (λ id. refl)
Turn-IsTraced (tracks thread) v = record { link = v.link; alternates = v.alternates }

with_socket_directory-IsTraced :
    (node_id : Str) (s : Inner) → with_socket_directory node_id ≡ ok s → IsTraced s
unfolding with_socket_directory lookup link_after
with_socket_directory-IsTraced node_id s h = elim (Result-cases (validate_node_id node_id)) [
  | inl (_, e) ↦ record { link = λ id. ground arith; alternates = λ id. ground arith }
  | inr (x, e) ↦ ground arith
]

Turns-IsTraced : {s t : Inner} → IsTraced s → Turns s t → IsTraced t
Turns-IsTraced w done = w
Turns-IsTraced w (after r turn) = Turn-IsTraced turn (Turns-IsTraced w r)

-- From a new mesh node, after any sequence of whole calls that install and disconnect peers, report
-- faults, pass messages on and track threads, no two of which overlap, and in which no thread of a
-- connection fails to spawn: the subscribers' events tell exactly which peers are connected, and each
-- link goes up and down in turn.
pub IsTraced-Turns :
    (node_id : Str) (s t : Inner) → with_socket_directory node_id ≡ ok s → Turns s t → IsTraced t
IsTraced-Turns node_id s t h r = Turns-IsTraced (with_socket_directory-IsTraced node_id s h) r
