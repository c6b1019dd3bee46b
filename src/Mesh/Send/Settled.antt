-- ===== src/Mesh/Send/Settled.antt =====
-- How a broadcast ends.
use glycoprotein_rs.Mesh.Peers.Disconnect.{
  is_connected-disconnect_peer, disconnect_peer-is_connected, is_connected,
}
use glycoprotein_rs.Prelude.Text.{Str}
use glycoprotein_rs.Error.{IoError}
use glycoprotein_rs.Mesh.Peers.{report_fault, Inner, Peer}
use glycoprotein_rs.Prelude.Result.{err, ok, Result}
use glycoprotein_rs.Mesh.Send.{fail_peer, broadcast_result, finish_broadcast, Answer}
use glycoprotein_rs.Prelude.{
  not, pair_has_eq, list_has_eq, nat_has_eq, arith, ◌∷◌, [], List, some, Option, ◌||◌, false, true,
  Bool, refl, ◌≡◌, ℕ,
}

-- Every peer's writer has answered.
abbrev pub AreAnswered : (ℕ → Answer) → List (Peer × Result ℕ IoError) → Type 0
AreAnswered answers [] = Unit
AreAnswered answers ((p, r) ∷ rest) =
    ((a : Result (Unit {0}) IoError) × (broadcast_result answers r ≡ some a))
    × AreAnswered answers rest

abbrev pub is_success : Option (Result (Unit {0}) IoError) → Bool
is_success (some (ok _)) = true
is_success _ = false

-- Each peer got the message, or is not connected any more.
abbrev pub AreSettled : (ℕ → Answer) → List (Peer × Result ℕ IoError) → Inner → Type 0
AreSettled answers [] inner = Unit
AreSettled answers ((p, r) ∷ rest) inner =
    (is_success (broadcast_result answers r) || not (is_connected p.id p.generation inner) ≡ true)
    × AreSettled answers rest inner

is_connected-fail_peer :
    (id : Str) (g : ℕ) (p : Peer) (e : IoError) (inner : Inner)
    → is_connected id g inner ≡ false
    → is_connected id g (fail_peer p e inner) ≡ false
unfolding fail_peer is_connected report_fault
is_connected-fail_peer id g p e inner h = is_connected-disconnect_peer id g p.id p.generation _ h

fail_peer-is_connected :
    (p : Peer) (e : IoError) (inner : Inner)
    → is_connected p.id p.generation (fail_peer p e inner) ≡ false
unfolding fail_peer
fail_peer-is_connected p e inner = disconnect_peer-is_connected p.id p.generation _

-- What one entry does to the mesh
abbrev settle : Peer → Result (Unit {0}) IoError → Inner → Inner
settle p (ok _) inner = inner
settle p (err e) inner = fail_peer p e inner

finish_broadcast-settle :
    (answers : ℕ → Answer) (p : Peer) (r : Result ℕ IoError) (a : Result (Unit {0}) IoError)
    (rest : List (Peer × Result ℕ IoError)) (inner : Inner)
    → broadcast_result answers r ≡ some a
    → finish_broadcast answers ((p, r) ∷ rest) inner
      ≡ finish_broadcast answers rest (settle p a inner)
unfolding finish_broadcast
finish_broadcast-settle answers p r (ok _) rest inner e = rw (finish_broadcast, e) refl
finish_broadcast-settle answers p r (err x) rest inner e = rw (finish_broadcast, e) refl

is_connected-settle :
    (id : Str) (g : ℕ) (p : Peer) (a : Result (Unit {0}) IoError) (inner : Inner)
    → is_connected id g inner ≡ false
    → is_connected id g (settle p a inner) ≡ false
is_connected-settle id g p (ok _) inner h = h
is_connected-settle id g p (err e) inner h = is_connected-fail_peer id g p e inner h

settle-is_connected :
    (p : Peer) (a : Result (Unit {0}) IoError) (inner : Inner)
    → is_success (some a) || not (is_connected p.id p.generation (settle p a inner)) ≡ true
settle-is_connected p (ok _) inner = refl
settle-is_connected p (err e) inner = rw (fail_peer-is_connected p e inner) refl

finish_broadcast-is_connected :
    (answers : ℕ → Answer) (pending : List (Peer × Result ℕ IoError)) (inner : Inner) (id : Str)
    (g : ℕ)
    → AreAnswered answers pending
    → is_connected id g inner ≡ false
    → is_connected id g (finish_broadcast answers pending inner).1 ≡ false
unfolding finish_broadcast
finish_broadcast-is_connected answers [] inner id g all h = h
finish_broadcast-is_connected answers ((p, r) ∷ rest) inner id g ((a, e), all) h =
    rw (finish_broadcast-settle answers p r a rest inner e) (
      finish_broadcast-is_connected answers rest (settle p a inner) id g all
        (is_connected-settle id g p a inner h))

-- If every writer answers, a broadcast succeeds, and then each peer got the message or is not
-- connected any more under the generation that it had.
pub finish_broadcast-AreSettled :
    (answers : ℕ → Answer) (pending : List (Peer × Result ℕ IoError)) (inner : Inner)
    → AreAnswered answers pending
    → let (result, after) = finish_broadcast answers pending inner in
      (result ≡ ok tt) × AreSettled answers pending after
unfolding finish_broadcast
finish_broadcast-AreSettled answers [] inner all = (refl, tt)
finish_broadcast-AreSettled answers ((p, r) ∷ rest) inner ((a, e), all) =
    let next = settle p a inner in
    let (done, settled) = finish_broadcast-AreSettled answers rest next all in
    let kept = λ (h : is_connected p.id p.generation next ≡ false).
      finish_broadcast-is_connected answers rest next p.id p.generation all h in
    rw (finish_broadcast-settle answers p r a rest inner e)
      (done, (ground (arith, e, kept, settle-is_connected p a inner), settled))
