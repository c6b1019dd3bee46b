-- ===== src/Mesh/Send/Tests.antt =====
-- "alpha" with the peers "beta" and "gamma".
use glycoprotein_rs.Mesh.Send.Broadcast.{send_framed_broadcast, has_handle, frames_at}
use glycoprotein_rs.Mesh.Send.Settled.{finish_broadcast-AreSettled, AreSettled}
use glycoprotein_rs.Error.{peer_not_connected}
use glycoprotein_rs.Prelude.Result.{err, ok}
use glycoprotein_rs.Mesh.Send.Directed.{send_framed_queued, queue_at, IsOpen}
use glycoprotein_rs.Mesh.Send.{
  broken_pipe_error, finish_broadcast, awaits_all, finished, awaits_peer, broadcast_result, Answer,
  send_framed,
}
use glycoprotein_rs.Prelude.Text.{text}
use glycoprotein_rs.Prelude.Map.{lookup}
use glycoprotein_rs.Mesh.Frame.{to_le_bytes, frame_message}
use glycoprotein_rs.Protocol.{message, heartbeat, Glycosyl}
use glycoprotein_rs.Mesh.Peers.{reading, writing, Inner, Peer, Cell}
use glycoprotein_rs.Prelude.{
  pair_has_eq, list_has_eq, nat_has_eq, ◌==◌, if◌then◌else◌, ◌++◌, ◌∷◌, [], List, some, none, false,
  true, ◌≢◌, refl, ◌≡◌, ◌+◌, ℕ,
}

abbrev empty_cell : Cell
empty_cell = record {
  writer = true;
  receiving = true;
  queue = [];
  control_open = true;
  closed = false;
}

abbrev beta_peer : Peer
beta_peer = record { id = text "beta"; generation = 1; handle = 0 }

abbrev gamma_peer : Peer
gamma_peer = record { id = text "gamma"; generation = 2; handle = 1 }

abbrev alpha : Inner
alpha = record {
  node_id = text "alpha";
  max_frame_length = 100;
  events = [];
  peers = (text "beta", beta_peer) ∷ (text "gamma", gamma_peer) ∷ [];
  cells = (0, empty_cell) ∷ (1, empty_cell) ∷ [];
  next_handle = 2;
  started = true;
  threads = writing ∷ reading ∷ writing ∷ reading ∷ [];
  next_generation = 3;
}

abbrev beat : Glycosyl
beat = heartbeat (record { id = text "alpha" })

abbrev the_frame : List ℕ
the_frame = 2 ∷ 0 ∷ 0 ∷ 0 ∷ 7 ∷ 8 ∷ []

framed : frame_message (7 ∷ 8 ∷ []) 100 ≡ ok the_frame
unfolding frame_message to_le_bytes
framed = refl

beta-IsOpen : IsOpen alpha beta_peer
unfolding lookup
beta-IsOpen = (empty_cell, refl, refl, refl)

gamma-IsOpen : IsOpen alpha gamma_peer
unfolding lookup
gamma-IsOpen = (empty_cell, refl, refl, refl)

not_alpha : text "beta" ≢ text "alpha"
not_alpha h = cc

send_framed_queued_example :
    let (sending, after) = send_framed 5 (7 ∷ 8 ∷ []) (some (text "beta")) beat alpha in
    (sending ≡ awaits_peer beta_peer)
    × ((handle : ℕ)
        → queue_at handle after ≡ (
            if 0 == handle
            then queue_at handle alpha ++ record { bytes = the_frame; acknowledgement = 5 } ∷ []
            else queue_at handle alpha))
    × (after.peers ≡ alpha.peers)
    × (after.events ≡ [])
unfolding lookup
send_framed_queued_example =
    send_framed_queued 5 (7 ∷ 8 ∷ []) the_frame (text "beta") beat alpha beta_peer refl framed
      not_alpha refl beta-IsOpen

nobody :
    (send_framed 5 (7 ∷ []) (some (text "delta")) beat alpha).0
    ≡ finished (err (peer_not_connected (text "delta")))
unfolding send_framed frame_message lookup
nobody = refl

send_framed_broadcast_example :
    let (sending, after) = send_framed 5 (7 ∷ 8 ∷ []) none beat alpha in
    (sending ≡ awaits_all ((beta_peer, ok 5) ∷ (gamma_peer, ok (5 + 1)) ∷ []))
    × (after.events ≡ message beat ∷ [])
    × (after.peers ≡ alpha.peers)
    × ((handle : ℕ)
        → frames_at handle after ≡ (
            if has_handle handle (beta_peer ∷ gamma_peer ∷ [])
            then frames_at handle alpha ++ the_frame ∷ []
            else frames_at handle alpha))
send_framed_broadcast_example =
    send_framed_broadcast 5 (7 ∷ 8 ∷ []) the_frame beat alpha refl framed
      (beta-IsOpen, (gamma-IsOpen, tt)) (refl, (refl, tt))

abbrev answers : ℕ → Answer
answers a = if a == 5 then some (ok tt) else some (err (broken_pipe_error (text "Broken pipe")))

finish_broadcast-AreSettled_example :
    let (result, after) =
      finish_broadcast answers ((beta_peer, ok 5) ∷ (gamma_peer, ok 6) ∷ []) alpha in
    (result ≡ ok tt) × AreSettled answers ((beta_peer, ok 5) ∷ (gamma_peer, ok 6) ∷ []) after
unfolding broadcast_result
finish_broadcast-AreSettled_example =
    finish_broadcast-AreSettled answers ((beta_peer, ok 5) ∷ (gamma_peer, ok 6) ∷ []) alpha
      ((ok tt, refl), ((err (broken_pipe_error (text "Broken pipe")), refl), tt))
