-- ===== src/Prelude/Map/Ordered.antt =====
-- A `BTreeMap` has its keys in strictly ascending order.
use glycoprotein_rs.Prelude.Map.{lookup, remove, insert_ordered, Map}
use glycoprotein_rs.Prelude.Text.{list_cmp_trans, list_cmp_refl, list_cmp-flip, list_cmp, Str}
use glycoprotein_rs.Prelude.{
  Ordering, list_beq_iff, pair_has_eq, list_has_eq, nat_has_eq, arith, ◌∷◌, [], none, refl, ◌≡◌,
}

module _ {V : Type 0} where
  -- Every key of the map comes behind `j`.
  abbrev pub Above : Str → Map Str V → Type 0
  Above j [] = Unit
  Above j ((k, v) ∷ m) = (list_cmp j k ≡ Ordering.lt) × Above j m

  abbrev pub IsOrdered : Map Str V → Type 0
  IsOrdered [] = Unit
  IsOrdered ((k, v) ∷ m) = Above k m × IsOrdered m

  pub Above-trans : (i j : Str) (m : Map Str V) → list_cmp i j ≡ Ordering.lt → Above j m → Above i m
  Above-trans i j [] h a = tt
  Above-trans i j ((k, v) ∷ m) h a = (list_cmp_trans i j k h a.0, Above-trans i j m h a.1)

  pub Above-insert_ordered :
      (i k : Str) (v : V) (m : Map Str V)
      → list_cmp i k ≡ Ordering.lt
      → Above i m
      → Above i (insert_ordered k v m)
  unfolding insert_ordered
  Above-insert_ordered i k v [] h a = (h, tt)
  Above-insert_ordered i k v ((j, w) ∷ m) h a = ground (arith, Above-insert_ordered i k v m)

  pub insert_ordered-IsOrdered :
      (k : Str) (v : V) (m : Map Str V) → IsOrdered m → IsOrdered (insert_ordered k v m)
  unfolding insert_ordered
  insert_ordered-IsOrdered k v [] o = (tt, tt)
  insert_ordered-IsOrdered k v ((j, w) ∷ m) o = ground (
    arith,
    Above-trans k j m,
    list_cmp-flip k j,
    Above-insert_ordered j k v m,
    insert_ordered-IsOrdered k v m,
  )

  pub Above-remove : (i k : Str) (m : Map Str V) → Above i m → Above i (remove k m)
  unfolding remove
  Above-remove i k [] a = tt
  Above-remove i k ((j, w) ∷ m) a = ground (arith, Above-remove i k m)

  pub remove-IsOrdered : (k : Str) (m : Map Str V) → IsOrdered m → IsOrdered (remove k m)
  unfolding remove
  remove-IsOrdered k [] o = tt
  remove-IsOrdered k ((j, w) ∷ m) o = ground (arith, Above-remove j k m, remove-IsOrdered k m)

  -- A key in front of all others is not among them.
  pub lookup-Above : (k : Str) (m : Map Str V) → Above k m → lookup k m ≡ none
  unfolding lookup
  lookup-Above k [] a = refl
  lookup-Above k ((j, w) ∷ m) a =
      ground (arith, lookup-Above k m, list_beq_iff j k, list_cmp_refl k)
