-- ===== src/Prelude/Map.antt =====
-- Maps as association lists. `insert` replaces the value of a key in its place, or adds the key at
-- the end (`HashMap`, whose order of iteration the standard library leaves open); `insert_ordered`
-- keeps the keys in ascending order (`BTreeMap`).
pub mod Ordered
use glycoprotein_rs.Prelude.{Bool-cases, beq_refl, pair_has_eq, nat_has_eq, inr, inl, ◌⊎◌, ◌≢◌}
use glycoprotein_rs.Prelude.Text.{Str, list_cmp, list_cmp_eq, list_cmp_refl}
use glycoprotein_rs.Prelude.Tests.{if◌then◌else◌}
use glycoprotein_rs.Prelude.Classes.{Eq, ◌==◌, list_has_eq, list_beq, list_beq_iff}
use Prim.Native.Nat.{Ordering}
use mathlib.Core.Path.{◌≡◌, refl}
use mathlib.Core.Bool.{Bool, true, false}
use mathlib.Core.Option.{Option, none, some}
use mathlib.Core.List.{List, [], ◌∷◌}
use native.Mathlib.Omega.{arith}

abbrev pub Map {ℓ} : Type ℓ → Type ℓ → Type ℓ
Map K V = List (K × V)

abbrev pub is_none {ℓ} : {A : Type ℓ} → Option A → Bool
is_none none = true
is_none (some a) = false

abbrev pub is_some {ℓ} : {A : Type ℓ} → Option A → Bool
is_some none = false
is_some (some a) = true

module _ {ℓ} {K V : Type ℓ} where
  abbrev pub keys : Map K V → List K
  keys [] = []
  keys ((k, v) ∷ m) = k ∷ keys m

  abbrev pub values : Map K V → List V
  values [] = []
  values ((k, v) ∷ m) = v ∷ values m

module _ {ℓ} {K V : Type ℓ} ⦃e : Eq K⦄ where
  unfoldable pub lookup : K → Map K V → Option V
  lookup k [] = none
  lookup k ((i, w) ∷ m) = if i == k then some w else lookup k m

  unfoldable pub insert : K → V → Map K V → Map K V
  insert k v [] = (k, v) ∷ []
  insert k v ((j, w) ∷ m) = if j == k then (j, v) ∷ m else (j, w) ∷ insert k v m

  unfoldable pub remove : K → Map K V → Map K V
  remove k [] = []
  remove k ((j, w) ∷ m) = let rest = remove k m in if j == k then rest else (j, w) ∷ rest

  pub lookup-insert :
      (k j : K) (v : V) (m : Map K V)
      → lookup j (insert k v m) ≡ (if k == j then some v else lookup j m)
  unfolding lookup insert
  lookup-insert k j x [] = refl
  lookup-insert k j x ((i, w) ∷ m) =
      ground (arith, lookup-insert k j x m, e.beq_iff i j, e.beq_iff i k, e.beq_iff k j)

  pub lookup-remove :
      (k j : K) (m : Map K V) → lookup j (remove k m) ≡ (if k == j then none else lookup j m)
  unfolding lookup remove
  lookup-remove k j [] = ground arith
  lookup-remove k j ((i, w) ∷ m) =
      ground (arith, e.beq_iff k j, e.beq_iff i k, e.beq_iff i j, lookup-remove k j m)

  pub lookup-insert_self : (k : K) (v : V) (m : Map K V) → lookup k (insert k v m) ≡ some v
  lookup-insert_self k v m = rw (lookup-insert k k v m, beq_refl k)

  pub lookup-insert_ne :
      (k j : K) (v : V) (m : Map K V) → k ≢ j → lookup j (insert k v m) ≡ lookup j m
  lookup-insert_ne k j v m ne = ground (arith, lookup-insert k j v m, e.beq_iff k j)

  pub lookup-remove_self : (k : K) (m : Map K V) → lookup k (remove k m) ≡ none
  lookup-remove_self k m = rw (lookup-remove k k m, beq_refl k)

  pub lookup-remove-some :
      (k j : K) (v : V) (m : Map K V)
      → lookup j (remove k m) ≡ some v
      → (lookup j m ≡ some v) × (k ≢ j)
  lookup-remove-some k j v m h = ground (arith, lookup-remove k j m, e.beq_iff k j)

  pub lookup-insert-some :
      (k j : K) (v w : V) (m : Map K V)
      → lookup j (insert k v m) ≡ some w
      → ((k ≡ j) × (v ≡ w)) ⊎ ((k ≢ j) × (lookup j m ≡ some w))
  lookup-insert-some k j v w m h = elim (Bool-cases (k == j)) [
    | inl t ↦ inl (ground (arith, lookup-insert k j v m, e.beq_iff k j))
    | inr f ↦ inr (ground (arith, lookup-insert k j v m, e.beq_iff k j))
  ]

  pub lookup-insert_again :
      (k j : K) (v w : V) (m : Map K V)
      → lookup j (insert k v (insert k w m)) ≡ lookup j (insert k v m)
  lookup-insert_again k j v w m =
      ground
        (arith, lookup-insert k j v (insert k w m), lookup-insert k j w m, lookup-insert k j v m)

module _ {V : Type 0} where
  unfoldable pub insert_ordered : Str → V → Map Str V → Map Str V
  insert_ordered k v [] = (k, v) ∷ []
  insert_ordered k v ((j, w) ∷ m) =
      let rest = (j, w) ∷ insert_ordered k v m in
      elim (list_cmp k j) [
        | Ordering.lt ↦ (k, v) ∷ (j, w) ∷ m
        | Ordering.eq ↦ (j, v) ∷ m
        | Ordering.gt ↦ rest
      ]

  pub lookup-insert_ordered :
      (k j : Str) (v : V) (m : Map Str V)
      → lookup j (insert_ordered k v m) ≡ (if list_beq k j then some v else lookup j m)
  unfolding lookup insert_ordered
  lookup-insert_ordered k j v [] = refl
  lookup-insert_ordered k j v ((i, w) ∷ m) = ground (
    arith,
    list_beq_iff k j,
    list_beq_iff i k,
    list_beq_iff i j,
    list_cmp_eq k i,
    list_cmp_refl k,
    lookup-insert_ordered k j v m,
  )
