-- ===== src/Protocol/Content.antt =====
-- How serde reads a `serde_json::Value` out of a JSON text: here a `Value` is also the tree of the
-- text, whose objects hold their members in the order in which they are written, repeated keys
-- included. The payloads and schemas of src/protocol.rs are read so.
use glycoprotein_rs.Json.{
  nil, nil, null, null, cons, cons, cons, Values, object, object, object, array, array, array,
  string, string, string, number, number, number, bool, member, member, member, bool, member, bool,
  end, member, Members, Value,
}
use glycoprotein_rs.Prelude.Text.{list_cmp-flip, list_cmp, Str}
use glycoprotein_rs.Protocol.Wire.{insert_member}
use glycoprotein_rs.Prelude.{
  ap, Ordering, pair_has_eq, list_has_eq, nat_has_eq, arith, ◌∙◌, refl, ◌≡◌,
}

-- A key that comes again replaces the value (`Map::insert`).
unfoldable mutual
  unfolding insert_member

  pub from_content : Value → Value
  from_content null = null
  from_content (bool b) = bool b
  from_content (number n) = number n
  from_content (string s) = string s
  from_content (array vs) = array (from_contents vs)
  from_content (object ms) = object (collect ms end)

  pub from_contents : Values → Values
  from_contents nil = nil
  from_contents (cons v vs) = cons (from_content v) (from_contents vs)

  pub collect : Members → Members → Members
  collect end acc = acc
  collect (member k v ms) acc = collect ms (insert_member k (from_content v) acc)

abbrev pub KeysAbove : Str → Members → Type 0
KeysAbove k end = Unit
KeysAbove k (member j v ms) = (list_cmp k j ≡ Ordering.lt) × KeysAbove k ms

-- The keys of each object ascend, as they do in a `serde_json::Value`.
abbrev mutual
  pub IsNormal : Value → Type 0
  IsNormal null = Unit
  IsNormal (bool b) = Unit
  IsNormal (number n) = Unit
  IsNormal (string s) = Unit
  IsNormal (array vs) = AreNormal vs
  IsNormal (object ms) = AreOrdered ms

  pub AreNormal : Values → Type 0
  AreNormal nil = Unit
  AreNormal (cons v vs) = IsNormal v × AreNormal vs

  pub AreOrdered : Members → Type 0
  AreOrdered end = Unit
  AreOrdered (member k v ms) = IsNormal v × KeysAbove k ms × AreOrdered ms

abbrev append : Members → Members → Members
append end ms = ms
append (member k v ms) ns = member k v (append ms ns)

abbrev KeysBelow : Members → Str → Type 0
KeysBelow end k = Unit
KeysBelow (member j v ms) k = (list_cmp j k ≡ Ordering.lt) × KeysBelow ms k

abbrev AllBelow : Members → Members → Type 0
AllBelow acc end = Unit
AllBelow acc (member k v ms) = KeysBelow acc k × AllBelow acc ms

insert_member-append :
    (k : Str) (v : Value) (acc : Members)
    → KeysBelow acc k
    → insert_member k v acc ≡ append acc (member k v end)
unfolding insert_member
insert_member-append k v end h = refl
insert_member-append k v (member j w ms) (h, hs) =
    ground (arith, h, list_cmp-flip j k, insert_member-append k v ms hs)

KeysBelow-append :
    (acc : Members) (k j : Str) (v : Value)
    → KeysBelow acc j
    → list_cmp k j ≡ Ordering.lt
    → KeysBelow (append acc (member k v end)) j
KeysBelow-append end k j v h lt = (lt, tt)
KeysBelow-append (member i w ms) k j v (h, hs) lt = (h, KeysBelow-append ms k j v hs lt)

AllBelow-append :
    (acc : Members) (k : Str) (v : Value) (ms : Members)
    → AllBelow acc ms
    → KeysAbove k ms
    → AllBelow (append acc (member k v end)) ms
AllBelow-append acc k v end h a = tt
AllBelow-append acc k v (member j w ms) (h, hs) (a, as') =
    (KeysBelow-append acc k j v h a, AllBelow-append acc k v ms hs as')

append_assoc_members :
    (acc : Members) (k : Str) (v : Value) (ms : Members)
    → append (append acc (member k v end)) ms ≡ append acc (member k v ms)
append_assoc_members end k v ms = refl
append_assoc_members (member j w acc) k v ms = ap (member j w) (append_assoc_members acc k v ms)

AllBelow-end : (ms : Members) → AllBelow end ms
AllBelow-end end = tt
AllBelow-end (member k v ms) = (tt, AllBelow-end ms)

append_end : (acc : Members) → acc ≡ append acc end
append_end end = refl
append_end (member k v ms) = ap (member k v) (append_end ms)

mutual
  unfolding from_content

  from_content_same : (v : Value) → IsNormal v → from_content v ≡ v
  from_content_same null n = refl
  from_content_same (bool b) n = refl
  from_content_same (number b) n = refl
  from_content_same (string s) n = refl
  from_content_same (array vs) n = ap array (from_contents_same vs n)
  from_content_same (object ms) n = ap object (collect-append ms end n (AllBelow-end ms))

  from_contents_same : (vs : Values) → AreNormal vs → from_contents vs ≡ vs
  from_contents_same nil n = refl
  from_contents_same (cons v vs) (n, ns) =
      ground (arith, from_content_same v n, from_contents_same vs ns)

  collect-append :
      (ms acc : Members) → AreOrdered ms → AllBelow acc ms → collect ms acc ≡ append acc ms
  collect-append end acc n b = append_end acc
  collect-append (member k v ms) acc (n, above, ns) (b, bs) =
      rw (from_content_same v n, insert_member-append k v acc b)
        (collect-append ms (append acc (member k v end)) ns (AllBelow-append acc k v ms bs above)
          ∙ append_assoc_members acc k v ms)

-- A value is read back as it is.
pub from_content-IsNormal : (v : Value) → IsNormal v → from_content v ≡ v
from_content-IsNormal v n = from_content_same v n
