-- ===== src/Prelude/Text.antt =====
-- Rust strings: a `Str` is the list of its chars (Unicode scalar values). `Ord for str` compares
-- the UTF-8 bytes; UTF-8 keeps the order of the scalar values, so the order is taken on these.
use Prim.Native.Char.{code}
use Prim.Native.String.{String}
use Prim.Native.Nat.{ℕ, compare, Ordering}
use mathlib.Core.Path.{◌≡◌, refl}
use mathlib.Core.List.{List, [], ◌∷◌}
use native.Mathlib.Omega.{arith}

abbrev pub Str : Type 0
Str = List ℕ

-- A literal of the source.
abbrev pub text : String → Str
text String.[] = []
text (String.◌∷◌ c s) = code c ∷ text s

-- `Ordering::then_with`
abbrev pub then_with : Ordering → Ordering → Ordering
then_with Ordering.lt o = Ordering.lt
then_with Ordering.eq o = o
then_with Ordering.gt o = Ordering.gt

-- `Ordering::reverse`
abbrev pub flip : Ordering → Ordering
flip Ordering.lt = Ordering.gt
flip Ordering.eq = Ordering.eq
flip Ordering.gt = Ordering.lt

-- `Iterator::cmp`, the lexicographic order
abbrev pub list_cmp : List ℕ → List ℕ → Ordering
list_cmp [] [] = Ordering.eq
list_cmp [] (y ∷ ys) = Ordering.lt
list_cmp (x ∷ xs) [] = Ordering.gt
list_cmp (x ∷ xs) (y ∷ ys) = then_with (compare x y) (list_cmp xs ys)

pub list_cmp_refl : (xs : List ℕ) → list_cmp xs xs ≡ Ordering.eq
list_cmp_refl [] = refl
list_cmp_refl (x ∷ xs) = ground (arith, list_cmp_refl xs)

pub list_cmp_eq : (xs ys : List ℕ) → list_cmp xs ys ≡ Ordering.eq → xs ≡ ys
list_cmp_eq [] [] h = refl
list_cmp_eq [] (y ∷ ys) h = cc
list_cmp_eq (x ∷ xs) [] h = cc
list_cmp_eq (x ∷ xs) (y ∷ ys) h = ground (arith, list_cmp_eq xs ys)

pub list_cmp-flip : (xs ys : List ℕ) → list_cmp ys xs ≡ flip (list_cmp xs ys)
list_cmp-flip [] [] = refl
list_cmp-flip [] (y ∷ ys) = refl
list_cmp-flip (x ∷ xs) [] = refl
list_cmp-flip (x ∷ xs) (y ∷ ys) = ground (arith, list_cmp-flip xs ys)

pub list_cmp_trans :
    (xs ys zs : List ℕ)
    → list_cmp xs ys ≡ Ordering.lt
    → list_cmp ys zs ≡ Ordering.lt
    → list_cmp xs zs ≡ Ordering.lt
list_cmp_trans [] [] zs h k = cc
list_cmp_trans [] (y ∷ ys) [] h k = cc
list_cmp_trans [] (y ∷ ys) (z ∷ zs) h k = refl
list_cmp_trans (x ∷ xs) [] zs h k = cc
list_cmp_trans (x ∷ xs) (y ∷ ys) [] h k = cc
list_cmp_trans (x ∷ xs) (y ∷ ys) (z ∷ zs) h k = ground (arith, list_cmp_trans xs ys zs)
