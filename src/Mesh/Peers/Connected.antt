-- ===== src/Mesh/Peers/Connected.antt =====
-- `UnixDomainMeshConnexon::connected_peers` of src/transport/unix_mesh.rs.
use glycoprotein_rs.Mesh.Discovery.{is_greater}
use glycoprotein_rs.Prelude.Map.{is_some, Map, keys, lookup}
use glycoprotein_rs.Mesh.Peers.{Peer, Inner}
use glycoprotein_rs.Prelude.Text.{list_cmp_trans, list_cmp_eq, list_cmp, list_cmp-flip, Str}
use glycoprotein_rs.Prelude.{
  All, ◌==◌, if◌then◌else◌, arith, ◌∷◌, [], List, ◌||◌, false, Bool, ◌∙◌, refl, ◌≡◌, pair_has_eq,
  list_has_eq, nat_has_eq,
}

-- `Vec::sort`: the order of the bytes of two strings is that of their code points.
unfoldable pub insert_id : Str → List Str → List Str
insert_id x [] = x ∷ []
insert_id x (y ∷ ys) =
    let rest = insert_id x ys in if is_greater (list_cmp x y) then y ∷ rest else x ∷ y ∷ ys

unfoldable pub sort_ids : List Str → List Str
unfolding insert_id
sort_ids [] = []
sort_ids (x ∷ xs) = insert_id x (sort_ids xs)

unfoldable pub connected_peers : Inner → List Str
unfolding sort_ids
connected_peers inner = sort_ids (keys inner.peers)

abbrev pub is_listed : Str → List Str → Bool
is_listed id [] = false
is_listed id (x ∷ xs) = x == id || is_listed id xs

abbrev pub NoneBefore : Str → List Str → Type 0
NoneBefore id xs = All (λ (x : Str). is_greater (list_cmp id x) ≡ false) xs

abbrev pub AreSorted : List Str → Type 0
AreSorted [] = Unit
AreSorted (x ∷ xs) = NoneBefore x xs × AreSorted xs

is_listed-insert_id :
    (id x : Str) (xs : List Str) → is_listed id (insert_id x xs) ≡ (x == id || is_listed id xs)
unfolding insert_id
is_listed-insert_id id x [] = refl
is_listed-insert_id id x (y ∷ ys) = ground (arith, is_listed-insert_id id x ys)

is_listed-sort_ids : (id : Str) (xs : List Str) → is_listed id (sort_ids xs) ≡ is_listed id xs
unfolding sort_ids
is_listed-sort_ids id [] = refl
is_listed-sort_ids id (x ∷ xs) =
    ground (arith, is_listed-insert_id id x (sort_ids xs), is_listed-sort_ids id xs)

is_listed-keys :
    (id : Str) (peers : Map Str Peer) → is_listed id (keys peers) ≡ is_some (lookup id peers)
unfolding lookup
is_listed-keys id [] = refl
is_listed-keys id ((k, p) ∷ peers) = ground (arith, is_listed-keys id peers)

NoneBefore-insert_id :
    (id x : Str) (xs : List Str)
    → is_greater (list_cmp id x) ≡ false
    → NoneBefore id xs
    → NoneBefore id (insert_id x xs)
unfolding insert_id
NoneBefore-insert_id id x [] h a = (h, tt)
NoneBefore-insert_id id x (y ∷ ys) h a = ground (arith, NoneBefore-insert_id id x ys h a.1)

list_cmp-not_greater :
    (x y z : Str)
    → is_greater (list_cmp x y) ≡ false
    → is_greater (list_cmp y z) ≡ false
    → is_greater (list_cmp x z) ≡ false
list_cmp-not_greater x y z h k =
    ground (arith, list_cmp_eq x y, list_cmp_eq y z, list_cmp_trans x y z)

NoneBefore-trans :
    (x y : Str) (ys : List Str)
    → is_greater (list_cmp x y) ≡ false
    → NoneBefore y ys
    → NoneBefore x ys
NoneBefore-trans x y [] h a = tt
NoneBefore-trans x y (z ∷ ys) h a =
    (list_cmp-not_greater x y z h a.0, NoneBefore-trans x y ys h a.1)

insert_id-AreSorted : (x : Str) (xs : List Str) → AreSorted xs → AreSorted (insert_id x xs)
unfolding insert_id
insert_id-AreSorted x [] a = (tt, tt)
insert_id-AreSorted x (y ∷ ys) a = ground (
  arith,
  list_cmp-flip x y,
  NoneBefore-trans x y ys,
  NoneBefore-insert_id y x ys,
  insert_id-AreSorted x ys,
)

sort_ids-AreSorted : (xs : List Str) → AreSorted (sort_ids xs)
unfolding sort_ids
sort_ids-AreSorted [] = tt
sort_ids-AreSorted (x ∷ xs) = insert_id-AreSorted x (sort_ids xs) (sort_ids-AreSorted xs)

-- The list of the connected peers holds exactly the ids in the peer map, in ascending order.
pub connected_peers-AreSorted :
    (inner : Inner)
    → AreSorted (connected_peers inner)
      × ((id : Str) → is_listed id (connected_peers inner) ≡ is_some (lookup id inner.peers))
unfolding connected_peers
connected_peers-AreSorted inner = (
  sort_ids-AreSorted (keys inner.peers),
  λ id. is_listed-sort_ids id (keys inner.peers) ∙ is_listed-keys id inner.peers,
)
