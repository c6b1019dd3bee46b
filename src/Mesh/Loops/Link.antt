-- ===== src/Mesh/Loops/Link.antt =====
-- A connection as a channel of messages: what is queued at one end comes out at the other.
use glycoprotein_rs.Mesh.Frame.Laws.{read_message-frame_message}
use glycoprotein_rs.Error.{IoError}
use glycoprotein_rs.Prelude.Text.{Str}
use glycoprotein_rs.Mesh.Frame.{frame_message}
use glycoprotein_rs.Protocol.{message, ConnexonEvent, Glycosyl}
use glycoprotein_rs.Mesh.Send.{Codec}
use glycoprotein_rs.Prelude.Result.{ok}
use glycoprotein_rs.Mesh.Loops.{
  receive_bytes, ReaderTurn, reader_loop, writer_loop, writer_turn, Writer, WriterTurn,
}
use glycoprotein_rs.Mesh.Peers.{send_event, Inner, WriteRequest}
use glycoprotein_rs.Prelude.{
  map, arith, none, append-nil, All, append_assoc, sym, ap, pair_has_eq, list_has_eq, nat_has_eq,
  ◌++◌, ◌∷◌, [], List, false, true, ◌∙◌, refl, ◌≡◌, ℕ,
}

abbrev pub bytes_of : List WriteRequest → List ℕ
bytes_of [] = []
bytes_of (r ∷ rs) = r.bytes ++ bytes_of rs

bytes_of-append : (rs qs : List WriteRequest) → bytes_of (rs ++ qs) ≡ bytes_of rs ++ bytes_of qs
bytes_of-append [] qs = refl
bytes_of-append (r ∷ rs) qs =
    ap (λ bs. r.bytes ++ bs) (bytes_of-append rs qs)
    ∙ sym (append_assoc r.bytes (bytes_of rs) (bytes_of qs))

abbrev pub arrivals : List WriterTurn → List WriteRequest
arrivals [] = []
arrivals (turn ∷ turns) = turn.arriving ++ arrivals turns

-- No turn is cancelled, finds the channel closed, or fails to write.
abbrev pub IsSmooth : WriterTurn → Type 0
IsSmooth turn = (turn.cancelled ≡ false) × (turn.connected ≡ true) × (turn.write ≡ ok tt)

abbrev pub in_flight : Writer → List ℕ
in_flight w = w.written ++ bytes_of w.queue

writer_turn-queue :
    (turn : WriterTurn) (w : Writer) (queue : List WriteRequest)
    → IsSmooth turn
    → w.queue ++ turn.arriving ≡ queue
    → ((writer_turn turn w).0 ≡ true)
      × (in_flight (writer_turn turn w).1 ≡ w.written ++ bytes_of queue)
unfolding writer_turn
writer_turn-queue turn w [] (going, connected, writes) e =
    rw (writer_turn, going, e) (connected, refl)
writer_turn-queue turn w (r ∷ rs) (going, connected, writes) e =
    rw (writer_turn, going, e, writes) (refl, append_assoc w.written r.bytes (bytes_of rs))

AreSmooth-in_flight :
    (turns : List WriterTurn) (w : Writer)
    → All IsSmooth turns
    → in_flight (writer_loop turns w) ≡ in_flight w ++ bytes_of (arrivals turns)
unfolding writer_loop
AreSmooth-in_flight [] w smooth = sym (append-nil (in_flight w))
AreSmooth-in_flight (turn ∷ turns) w (s, smooth) =
    let (goes_on, moved) = writer_turn-queue turn w (w.queue ++ turn.arriving) s refl in
    let next = (writer_turn turn w).1 in
    rw (writer_loop, goes_on)
      (AreSmooth-in_flight turns next smooth
        ∙ ap (λ bs. bs ++ bytes_of (arrivals turns))
            (moved
              ∙ ap (λ bs. w.written ++ bs) (bytes_of-append w.queue turn.arriving)
              ∙ sym (append_assoc w.written (bytes_of w.queue) (bytes_of turn.arriving)))
        ∙ append_assoc (in_flight w) (bytes_of turn.arriving) (bytes_of (arrivals turns))
        ∙ ap (λ bs. in_flight w ++ bs) (sym (bytes_of-append turn.arriving (arrivals turns))))

-- The requests are the frames of these messages.
abbrev pub Carries : Codec → ℕ → List WriteRequest → List Glycosyl → Type 0
Carries codec limit [] [] = Unit
Carries codec limit (r ∷ rs) (m ∷ ms) =
    ((payload : List ℕ) × (codec.to_bytes m ≡ ok payload)
      × (frame_message payload limit ≡ ok r.bytes))
    × Carries codec limit rs ms
Carries codec limit _ _ = ⊥

abbrev pub messages : List Glycosyl → List ConnexonEvent
messages [] = []
messages (m ∷ ms) = message m ∷ messages ms

abbrev pub running_turns : List Glycosyl → List ReaderTurn
running_turns [] = []
running_turns (m ∷ ms) = record { cancelled = false; cancelled_later = false } ∷ running_turns ms

-- The codec prints the message, and reads it as `read` says. (serde_json reads a payload that is
-- there and is `null` as an absent one.)
abbrev pub ReadsBack : Codec → (Glycosyl → Glycosyl) → Glycosyl → Type 0
ReadsBack codec read m =
    (bytes : List ℕ) × (codec.to_bytes m ≡ ok bytes) × (codec.from_bytes bytes ≡ ok (read m))

reader_loop-Carries :
    (codec : Codec) (read : Glycosyl → Glycosyl) (peer_id : Str) (generation : ℕ)
    (rs : List WriteRequest) (ms : List Glycosyl) (later : List ℕ) (ending : IoError)
    (inner : Inner)
    → All (ReadsBack codec read) ms
    → Carries codec inner.max_frame_length rs ms
    → reader_loop codec peer_id generation
        (running_turns ms)
        (record { incoming = bytes_of rs ++ later; ending = ending })
        inner
      ≡ (false, record inner { events = inner.events ++ messages (map read ms) })
unfolding reader_loop receive_bytes
reader_loop-Carries codec read peer_id generation [] [] later ending inner back carried =
    ap (λ es. (false, record inner { events = es })) (sym (append-nil inner.events))
reader_loop-Carries codec read peer_id generation [] (m ∷ ms) later ending inner back carried =
    absurd carried
reader_loop-Carries codec read peer_id generation (r ∷ rs) [] later ending inner back carried =
    absurd carried
reader_loop-Carries codec read peer_id generation (r ∷ rs) (m ∷ ms) later ending inner back
      carried =
    let ((bytes, prints, reads), back') = back in
    let ((payload, printed, framed), carried') = carried in
    let heard = send_event (message (read m)) inner in
    let got : receive_bytes codec peer_id payload inner ≡ heard =
      ground (arith, prints, printed, reads) in
    let rest =
      reader_loop-Carries codec read peer_id generation rs ms later ending heard back' carried' in
    rw
      (
        append_assoc r.bytes (bytes_of rs) later,
        reader_loop,
        read_message-frame_message payload r.bytes (bytes_of rs ++ later) inner.max_frame_length
            ending framed,
        got,
      )
      (rest
        ∙ ap (λ es. (false, record inner { events = es }))
            (append_assoc inner.events (message (read m) ∷ []) (messages (map read ms))))

abbrev pub new_writer : Writer
new_writer = record { queue = []; written = []; answers = []; failure = none }

-- If the writer's turns are smooth and leave no request, and the requests that came are the frames
-- of messages that the codec reads, then the reader at the other end, with the same limit, passes on
-- exactly these messages as read, in their order, in as many turns, whatever bytes come later.
pub reader_loop-writer_loop :
    (codec : Codec) (read : Glycosyl → Glycosyl) (peer_id : Str) (generation : ℕ)
    (turns : List WriterTurn) (ms : List Glycosyl) (later : List ℕ) (ending : IoError)
    (inner : Inner)
    → All (ReadsBack codec read) ms
    → All IsSmooth turns
    → (writer_loop turns new_writer).queue ≡ []
    → Carries codec inner.max_frame_length (arrivals turns) ms
    → reader_loop codec peer_id generation
        (running_turns ms)
        (record { incoming = (writer_loop turns new_writer).written ++ later; ending = ending })
        inner
      ≡ (false, record inner { events = inner.events ++ messages (map read ms) })
reader_loop-writer_loop codec read peer_id generation turns ms later ending inner back smooth empty
      carried =
    let w = writer_loop turns new_writer in
    let written : w.written ≡ bytes_of (arrivals turns) =
      sym (append-nil w.written)
      ∙ ap (λ (q : List WriteRequest). w.written ++ bytes_of q) (sym empty)
      ∙ AreSmooth-in_flight turns new_writer smooth in
    rw written (
      reader_loop-Carries codec read peer_id generation (arrivals turns) ms later ending inner back
        carried)
