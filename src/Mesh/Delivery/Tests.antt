-- ===== src/Mesh/Delivery/Tests.antt =====
-- "alpha" sends a reply to "beta".
use glycoprotein_rs.Error.{unexpected_eof, IoError}
use glycoprotein_rs.Mesh.Delivery.{reader_loop-send, Reaches, send_all}
use glycoprotein_rs.Mesh.Send.Directed.{queue_at}
use glycoprotein_rs.Mesh.Loops.{writer_turn, reader_loop, writer_loop, WriterTurn}
use glycoprotein_rs.Prelude.Map.{insert, lookup}
use glycoprotein_rs.Mesh.Frame.{to_le_bytes, frame_message}
use glycoprotein_rs.Mesh.Peers.{reading, writing, Inner, Peer, Cell}
use glycoprotein_rs.Mesh.Loops.Link.{arrivals, new_writer, running_turns}
use glycoprotein_rs.Mesh.Send.{enqueue, route, ensure_started, send_framed, send, Codec}
use glycoprotein_rs.Prelude.Result.{err, ok, Result}
use glycoprotein_rs.Protocol.{message, reply, reply, Reply, receiver, Glycosyl}
use glycoprotein_rs.Json.{Value}
use glycoprotein_rs.Prelude.Text.{text, Str}
use glycoprotein_rs.Prelude.{
  pair_has_eq, list_has_eq, nat_has_eq, arith, ◌++◌, ◌∷◌, [], List, some, none, Option, false, true,
  refl, ◌≡◌, ℕ,
}

-- A codec of replies without a payload and an error.
abbrev empty_reply : ℕ → Str → Reply
empty_reply qid to = record { payload = none; qid = qid; target_gid = some to; error = none }

abbrev reply_parts : ℕ → Option Value → Option Str → Option Str → Result (List ℕ) Str
reply_parts qid none (some to) none = ok (qid ∷ to)
reply_parts _ _ _ _ = err (text "not an empty reply")

abbrev reply_bytes : Glycosyl → Result (List ℕ) Str
reply_bytes (reply r) = reply_parts r.qid r.payload r.target_gid r.error
reply_bytes _ = err (text "not a reply")

abbrev read_reply : List ℕ → Result Glycosyl Str
read_reply [] = err (text "no bytes")
read_reply (qid ∷ to) = ok (reply (empty_reply qid to))

abbrev replies : Codec
replies = record { to_bytes = reply_bytes; from_bytes = read_reply }

abbrev answer : Glycosyl
answer = reply (empty_reply 7 (text "beta"))

abbrev cell : Cell
cell = record { writer = true; receiving = true; queue = []; control_open = true; closed = false }

abbrev beta_peer : Peer
beta_peer = record { id = text "beta"; generation = 1; handle = 0 }

abbrev alpha : Inner
alpha = record {
  node_id = text "alpha";
  max_frame_length = 100;
  events = [];
  peers = (text "beta", beta_peer) ∷ [];
  cells = (0, cell) ∷ [];
  next_handle = 1;
  started = true;
  threads = writing ∷ reading ∷ [];
  next_generation = 2;
}

abbrev beta : Inner
beta = record alpha { node_id = text "beta"; peers = []; cells = []; next_handle = 0 }

abbrev frame : List ℕ
frame = 5 ∷ 0 ∷ 0 ∷ 0 ∷ 7 ∷ text "beta"

framed : frame_message (7 ∷ text "beta") 100 ≡ ok frame
unfolding frame_message to_le_bytes
framed = refl

alpha-Reaches : Reaches alpha (text "beta") beta_peer
unfolding lookup
alpha-Reaches = (refl, (λ e. grind arith), refl, (cell, refl, refl, refl))

abbrev turn : WriterTurn
turn = record {
  cancelled = false;
  arriving = record { bytes = frame; acknowledgement = 3 } ∷ [];
  connected = true;
  write = ok tt;
}

idle : queue_at 0 alpha ≡ []
unfolding queue_at lookup
idle = refl

arrives : arrivals (turn ∷ []) ≡ queue_at 0 (send_all replies 3 (answer ∷ []) alpha)
unfolding send_all send send_framed ensure_started route enqueue frame_message to_le_bytes receiver
    queue_at lookup insert
arrives = refl

all_written : (writer_loop (turn ∷ []) new_writer).queue ≡ []
unfolding writer_loop writer_turn
all_written = refl

addressed : receiver answer ≡ some (text "beta")
unfolding receiver
addressed = refl

abbrev eof : IoError
eof = record { kind = unexpected_eof; message = text "failed to fill whole buffer" }

reader_loop-send_example :
    reader_loop replies
      (text "alpha")
      1
      (running_turns (answer ∷ []))
      (record { incoming = (writer_loop (turn ∷ []) new_writer).written ++ []; ending = eof })
      beta
    ≡ (false, record beta { events = message answer ∷ [] })
reader_loop-send_example =
    reader_loop-send replies (λ m. m) 3 (answer ∷ []) alpha beta (text "beta") beta_peer
      (text "alpha") 1 (turn ∷ []) [] eof ((7 ∷ text "beta", refl, refl), tt) alpha-Reaches idle
      ((addressed, (frame, (7 ∷ text "beta", refl, framed))), tt) refl arrives
      ((refl, refl, refl), tt) all_written
