-- ===== src/Mesh/Send/Await.antt =====
-- A whole send of the mesh: `send_framed` with its awaits, if no other thread comes between them.
use glycoprotein_rs.Error.{GlycoError}
use glycoprotein_rs.Prelude.Result.{Result}
use glycoprotein_rs.Mesh.Peers.{Inner}
use glycoprotein_rs.Protocol.{Glycosyl}
use glycoprotein_rs.Mesh.Send.{
  awaits_all, awaits_peer, finished, Sending, Answer, Codec, finish_broadcast, send, acknowledged,
}
use glycoprotein_rs.Prelude.{ℕ, pair_has_eq, list_has_eq, nat_has_eq}

-- The acknowledgements are awaited; `answers` tells what comes of each.
unfoldable pub await_sending :
    (ℕ → Answer) → ℕ → Sending → Inner → Result (Unit {0}) GlycoError × Inner
unfolding acknowledged finish_broadcast
await_sending answers acknowledgement (finished result) inner = (result, inner)
await_sending answers acknowledgement (awaits_peer peer) inner =
    acknowledged (answers acknowledgement) peer inner
await_sending answers acknowledgement (awaits_all pending) inner =
    finish_broadcast answers pending inner

unfoldable pub send_message :
    Codec → (ℕ → Answer) → ℕ → Glycosyl → Inner → Result (Unit {0}) GlycoError × Inner
unfolding await_sending send
send_message codec answers acknowledgement m inner =
    let (sending, after) = send codec acknowledgement m inner in
    await_sending answers acknowledgement sending after
