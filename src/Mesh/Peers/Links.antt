-- ===== src/Mesh/Peers/Links.antt =====
-- The peer map as the subscribers of the events see it.
use glycoprotein_rs.Prelude.Result.{Result-cases, ok}
use glycoprotein_rs.Mesh.Peers.Invariant.{shutdown_frame}
use glycoprotein_rs.Prelude.Map.{lookup-remove, lookup-insert, remove, lookup, is_some}
use glycoprotein_rs.Protocol.{
  peer_disconnected, peer_disconnected, peer_connected, peer_connected, ConnexonEvent,
}
use glycoprotein_rs.Mesh.Peers.{
  prepare_socket, shutdown, send_event, Setup, allocate_peer, spawn_loops, register_peer,
  install_peer, disconnect_peer, Inner,
}
use glycoprotein_rs.Prelude.Text.{Str}
use glycoprotein_rs.Prelude.{
  ap, Bool-cases, sym, Option-cases, pair_has_eq, list_has_eq, nat_has_eq, ◌==◌, if◌then◌else◌,
  arith, ◌++◌, ◌∷◌, [], List, false, true, Bool, inr, inl, refl, ◌≡◌, ℕ,
}

-- Whether the link to `id` is up, after one event and after many.
unfoldable pub link_step : Str → Bool → ConnexonEvent → Bool
link_step id up (peer_connected j) = if j == id then true else up
link_step id up (peer_disconnected j) = if j == id then false else up
link_step id up _ = up

unfoldable pub link_after : Str → Bool → List ConnexonEvent → Bool
link_after id up [] = up
link_after id up (e ∷ es) = link_after id (link_step id up e) es

-- A link goes up only while it is down, and down only while it is up.
abbrev pub LinkOk : Str → Bool → ConnexonEvent → Type 0
LinkOk id up (peer_connected j) = j ≡ id → up ≡ false
LinkOk id up (peer_disconnected j) = j ≡ id → up ≡ true
LinkOk id up _ = Unit

abbrev pub Alternates : Str → Bool → List ConnexonEvent → Type 0
Alternates id up [] = Unit
Alternates id up (e ∷ es) = LinkOk id up e × Alternates id (link_step id up e) es

-- The events tell which peers are in the map, and each link goes up and down in turn.
pub record IsTraced (inner : Inner) : Type 0 where
  pub link : (id : Str) → link_after id false inner.events ≡ is_some (lookup id inner.peers)
  pub alternates : (id : Str) → Alternates id false inner.events

link_after-append :
    (id : Str) (up : Bool) (es : List ConnexonEvent) (e : ConnexonEvent)
    → link_after id up (es ++ e ∷ []) ≡ link_step id (link_after id up es) e
unfolding link_after
link_after-append id up [] e = refl
link_after-append id up (x ∷ es) e = link_after-append id (link_step id up x) es e

Alternates-append :
    (id : Str) (up : Bool) (es : List ConnexonEvent) (e : ConnexonEvent)
    → Alternates id up es
    → LinkOk id (link_after id up es) e
    → Alternates id up (es ++ e ∷ [])
unfolding link_after
Alternates-append id up [] e a h = (h, tt)
Alternates-append id up (x ∷ es) e a h = (a.0, Alternates-append id (link_step id up x) es e a.1 h)

-- One event more, with the change of the map that it tells.
pub event-IsTraced :
    (e : ConnexonEvent) {inner : Inner} (inner' : Inner)
    → IsTraced inner
    → inner'.events ≡ inner.events ++ e ∷ []
    → ((id : Str) → LinkOk id (is_some (lookup id inner.peers)) e)
    → ((id : Str)
        → is_some (lookup id inner'.peers) ≡ link_step id (is_some (lookup id inner.peers)) e)
    → IsTraced inner'
event-IsTraced e {inner} inner' v es fits change = record {
  link = λ id. rw (es, link_after-append id false inner.events e, v.link id) (sym (change id));
  alternates = λ id.
      rw es
        (Alternates-append id false inner.events e (v.alternates id) (rw (v.link id) (fits id)));
}

-- The same map and the same events.
pub same-IsTraced :
    {inner : Inner} (inner' : Inner)
    → IsTraced inner
    → inner'.events ≡ inner.events
    → inner'.peers ≡ inner.peers
    → IsTraced inner'
same-IsTraced inner' v es ps = record {
  link = λ id. rw (es, ps) (v.link id);
  alternates = λ id. rw es (v.alternates id);
}

pub disconnect_peer-IsTraced :
    (peer_id : Str) (generation : ℕ) {inner : Inner}
    → IsTraced inner
    → IsTraced (disconnect_peer peer_id generation inner)
unfolding disconnect_peer
disconnect_peer-IsTraced peer_id generation {inner} v =
    elim (Option-cases (lookup peer_id inner.peers)) [
      | inl e ↦ rw (disconnect_peer, e) v
      | inr (p, e) ↦ elim (Bool-cases (p.generation == generation)) [
        | inr f ↦ rw (disconnect_peer, e, f) v
        | inl t ↦
            let smaller : Inner = record inner { peers = remove peer_id inner.peers } in
            let frame = shutdown_frame p smaller in
            rw (disconnect_peer, e, t)
              (event-IsTraced (peer_disconnected peer_id)
                (send_event (peer_disconnected peer_id) (shutdown p smaller)) v
                (ap (λ es. es ++ peer_disconnected peer_id ∷ []) frame.2)
                (λ id same. rw (← same, e))
                (λ id.
                  rw frame.0
                    (unfold link_step in ground (arith, lookup-remove peer_id id inner.peers))))
      ]
    ]

-- With both threads spawned, `install_peer` reports a new peer, and nothing of a known one.
pub install_peer-IsTraced :
    (setup : Setup) (peer_id : Str) {inner : Inner}
    → IsTraced inner
    → setup.spawn_writer ≡ ok tt
    → setup.spawn_reader ≡ ok tt
    → IsTraced (install_peer setup peer_id inner).1
unfolding install_peer register_peer spawn_loops allocate_peer
install_peer-IsTraced setup peer_id {inner} v w r =
    elim (Result-cases (prepare_socket setup inner.node_id peer_id)) [
      | inr (x, e) ↦ rw (install_peer, e) v
      | inl (tt, e) ↦ elim (Option-cases (lookup peer_id inner.peers)) [
        | inr (p, f) ↦ rw (install_peer, e, register_peer, f) (same-IsTraced _ v refl refl)
        | inl f ↦
            rw (install_peer, e, register_peer, f, spawn_loops, w, r)
              (event-IsTraced (peer_connected peer_id) _ v refl (λ id same. rw (← same, f))
                (λ id.
                  unfold link_step in
                  ground (
                    arith,
                    lookup-insert peer_id id
                        (record {
                          id = peer_id;
                          generation = inner.next_generation;
                          handle = inner.next_handle;
                        })
                        inner.peers,
                  )))
      ]
    ]
