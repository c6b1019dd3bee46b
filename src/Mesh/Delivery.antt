-- ===== src/Mesh/Delivery.antt =====
-- From one node's `send` to the events of another: the queue of the peer, its writer thread, and the
-- reader thread at the other end (src/transport/unix_mesh.rs) together.
pub mod Wire
pub mod Everyone
mod Tests
use glycoprotein_rs.Error.{IoError}
use glycoprotein_rs.Mesh.Loops.{reader_loop, writer_loop, WriterTurn}
use glycoprotein_rs.Mesh.Frame.{frame_message}
use glycoprotein_rs.Mesh.Send.Directed.{send_framed-enqueue, enqueue-queue_at, IsOpen, queue_at}
use glycoprotein_rs.Mesh.Loops.Link.{
  reader_loop-writer_loop, messages, running_turns, new_writer, IsSmooth, arrivals, ReadsBack,
  Carries,
}
use glycoprotein_rs.Prelude.Map.{lookup}
use glycoprotein_rs.Prelude.Result.{ok}
use glycoprotein_rs.Prelude.Text.{Str}
use glycoprotein_rs.Protocol.{receiver, Glycosyl}
use glycoprotein_rs.Mesh.Peers.{Peer, WriteRequest, Inner}
use glycoprotein_rs.Mesh.Send.{enqueue, Codec, send}
use glycoprotein_rs.Prelude.{
  map, append_assoc, sym, subst, append-nil, beq_refl, All, pair_has_eq, list_has_eq, nat_has_eq,
  ◌==◌, if◌then◌else◌, arith, ◌++◌, ◌∷◌, [], List, some, none, Option, ◌||◌, ◌&&◌, false, true,
  Bool, inr, inl, ◌⊎◌, ◌↔◌, ◌≢◌, ◌∙◌, refl, ◌≡◌, ◌<◌, ◌≤◌, ◌^◌, ◌%◌, ◌/◌, ◌*◌, ◌-◌, ◌+◌, suc, zero,
  ℕ,
}

-- The messages are sent one behind the other, with an acknowledgement channel for each.
unfoldable pub send_all : Codec → ℕ → List Glycosyl → Inner → Inner
unfolding send
send_all codec acknowledgement [] inner = inner
send_all codec acknowledgement (m ∷ ms) inner =
    send_all codec (acknowledgement + 1) ms (send codec acknowledgement m inner).1

-- The codec prints the message, and it fits a frame.
abbrev pub Fits : Codec → ℕ → Glycosyl → List ℕ → Type 0
Fits codec limit m frame =
    (payload : List ℕ) × (codec.to_bytes m ≡ ok payload) × (frame_message payload limit ≡ ok frame)

-- A message for the node `to` that fits
abbrev pub IsFor : Codec → ℕ → Str → Glycosyl → Type 0
IsFor codec limit to m = (receiver m ≡ some to) × ((frame : List ℕ) × Fits codec limit m frame)

-- The node `to` is another one, and a connected peer.
abbrev pub Reaches : Inner → Str → Peer → Type 0
Reaches inner to peer =
    (inner.started ≡ true)
    × (to ≢ inner.node_id)
    × (lookup to inner.peers ≡ some peer)
    × IsOpen inner peer

Carries-append :
    (codec : Codec) (limit : ℕ) (rs : List WriteRequest) (ms : List Glycosyl) (r : WriteRequest)
    (m : Glycosyl)
    → Carries codec limit rs ms
    → Fits codec limit m r.bytes
    → Carries codec limit (rs ++ r ∷ []) (ms ++ m ∷ [])
Carries-append codec limit [] [] r m c f = (f, tt)
Carries-append codec limit (x ∷ rs) (y ∷ ms) r m (g, c) f =
    (g, Carries-append codec limit rs ms r m c f)
Carries-append codec limit [] (y ∷ ms) r m c f = absurd c
Carries-append codec limit (x ∷ rs) [] r m c f = absurd c

enqueue_frame :
    (acknowledgement : ℕ) (frame : List ℕ) (peer : Peer) (inner after : Inner)
    → enqueue acknowledgement frame peer inner ≡ ok after
    → (after.started ≡ inner.started)
      × (after.node_id ≡ inner.node_id)
      × (after.max_frame_length ≡ inner.max_frame_length)
unfolding enqueue
enqueue_frame acknowledgement frame peer inner after h = ground (arith, h)

-- One `send` to a peer that is reached.
send_queued :
    (codec : Codec) (acknowledgement : ℕ) (m : Glycosyl) (inner : Inner) (to : Str) (peer : Peer)
    → Reaches inner to peer
    → (for : IsFor codec inner.max_frame_length to m)
    → let after = (send codec acknowledgement m inner).1 in
      Reaches after to peer
      × (after.max_frame_length ≡ inner.max_frame_length)
      × (queue_at peer.handle after
          ≡ queue_at peer.handle inner
            ++ record { bytes = for.1.0; acknowledgement = acknowledgement } ∷ [])
unfolding send
send_queued codec acknowledgement m inner to peer (on, foreign, found, open_peer)
      (addressed, (frame, (payload, printed, framed))) =
    let (after, queued, queues, peers, _, still) =
      enqueue-queue_at acknowledgement frame peer inner open_peer in
    let (on', id', limit') = enqueue_frame acknowledgement frame peer inner after queued in
    rw
      (
        send,
        printed,
        addressed,
        send_framed-enqueue acknowledgement payload frame to m inner after peer on framed foreign
            found queued,
      )
      (
        (on' ∙ on, (λ e. foreign (e ∙ id')), rw peers found, still peer open_peer),
        limit',
        ground (arith, queues peer.handle, beq_refl peer.handle),
      )

-- The frames of what is sent go behind the frames that wait.
send_all-Carries :
    (codec : Codec) (acknowledgement : ℕ) (ms old : List Glycosyl) (inner : Inner) (to : Str)
    (peer : Peer) (limit : ℕ)
    → inner.max_frame_length ≡ limit
    → Reaches inner to peer
    → Carries codec limit (queue_at peer.handle inner) old
    → All (IsFor codec limit to) ms
    → Carries codec limit
        (queue_at peer.handle (send_all codec acknowledgement ms inner))
        (old ++ ms)
unfolding send_all
send_all-Carries codec acknowledgement [] old inner to peer limit same reached c all =
    rw append-nil c
send_all-Carries codec acknowledgement (m ∷ ms) old inner to peer limit same reached c (f, all) =
    let after = (send codec acknowledgement m inner).1 in
    let f' : IsFor codec inner.max_frame_length to m =
      subst (λ l. IsFor codec l to m) (sym same) f in
    let (reached', same', queued) = send_queued codec acknowledgement m inner to peer reached f' in
    let r : WriteRequest = record { bytes = f'.1.0; acknowledgement = acknowledgement } in
    let fits = subst (λ l. Fits codec l m f'.1.0) same f'.1.1 in
    let c' : Carries codec limit (queue_at peer.handle after) (old ++ m ∷ []) =
      subst (λ q. Carries codec limit q (old ++ m ∷ [])) (sym queued)
        (Carries-append codec limit (queue_at peer.handle inner) old r m c fits) in
    subst
      (Carries codec limit (queue_at peer.handle (send_all codec (acknowledgement + 1) ms after)))
      (append_assoc old (m ∷ []) ms)
      (send_all-Carries codec (acknowledgement + 1) ms (old ++ m ∷ []) after to peer limit
        (same' ∙ same) reached' c' all)

-- Messages that are sent one behind the other to a connected peer whose queue is empty, each of
-- them for that peer and short enough, and read by the codec as `read` says: if the writer gets the
-- requests, its turns are smooth, and none waits at the end, then the reader at the other end, with
-- the same limit, passes on exactly these messages as read, in their order, whatever bytes come
-- later.
pub reader_loop-send :
    (codec : Codec) (read : Glycosyl → Glycosyl) (acknowledgement : ℕ) (ms : List Glycosyl)
    (sender other : Inner) (to : Str) (peer : Peer) (from : Str) (generation : ℕ)
    (turns : List WriterTurn) (later : List ℕ) (ending : IoError)
    → All (ReadsBack codec read) ms
    → Reaches sender to peer
    → queue_at peer.handle sender ≡ []
    → All (IsFor codec sender.max_frame_length to) ms
    → other.max_frame_length ≡ sender.max_frame_length
    → arrivals turns ≡ queue_at peer.handle (send_all codec acknowledgement ms sender)
    → All IsSmooth turns
    → (writer_loop turns new_writer).queue ≡ []
    → reader_loop codec from generation
        (running_turns ms)
        (record { incoming = (writer_loop turns new_writer).written ++ later; ending = ending })
        other
      ≡ (false, record other { events = other.events ++ messages (map read ms) })
reader_loop-send codec read acknowledgement ms sender other to peer from generation turns later
      ending back reached idle all same arrive smooth empty =
    let limit = sender.max_frame_length in
    let none_wait : Carries codec limit (queue_at peer.handle sender) [] = rw idle tt in
    let queued =
      send_all-Carries codec acknowledgement ms [] sender to peer limit refl reached none_wait
        all in
    reader_loop-writer_loop codec read from generation turns ms later ending other back smooth empty
      (rw (same, arrive) queued)
