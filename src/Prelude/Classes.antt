-- ===== src/Prelude/Classes.antt =====
-- Equality of map keys as an interface, with its instances.
use Prim.Native.Nat.{ℕ}
use mathlib.Core.Path.{◌≡◌, refl}
use mathlib.Core.Logic.{◌↔◌}
use mathlib.Core.Bool.{Bool, true, false, ◌&&◌}
use mathlib.Core.List.{List, [], ◌∷◌}
use native.Mathlib.Omega.{arith}
use glycoprotein_rs.Prelude.Tests.{nat_eq, nat_eq_iff}

pub record Eq {ℓ} (A : Type ℓ) : Type ℓ where
  pub beq : A → A → Bool
  pub beq_iff : (a b : A) → (beq a b ≡ true) ↔ (a ≡ b)

pub beq_refl {ℓ} : {A : Type ℓ} ⦃e : Eq A⦄ (a : A) → e.beq a a ≡ true
beq_refl ⦃e⦄ a = (e.beq_iff a a).1 refl

infix 50 ◌==◌
abbrev pub ◌==◌ {ℓ} : {A : Type ℓ} ⦃e : Eq A⦄ → A → A → Bool
◌==◌ ⦃e⦄ = e.beq

instance abbrev pub nat_has_eq : Eq ℕ
nat_has_eq = record { beq = nat_eq; beq_iff = nat_eq_iff }

abbrev pub list_beq : List ℕ → List ℕ → Bool
list_beq [] [] = true
list_beq (x ∷ xs) (y ∷ ys) = nat_eq x y && list_beq xs ys
list_beq _ _ = false

pub list_beq_iff : (xs ys : List ℕ) → (list_beq xs ys ≡ true) ↔ (xs ≡ ys)
list_beq_iff [] [] = ((λ _. refl), (λ _. refl))
list_beq_iff [] (y ∷ ys) = ((λ h. cc), (λ h. cc))
list_beq_iff (x ∷ xs) [] = ((λ h. cc), (λ h. cc))
list_beq_iff (x ∷ xs) (y ∷ ys) = ground (arith, list_beq_iff xs ys)

instance abbrev pub list_has_eq : Eq (List ℕ)
list_has_eq = record { beq = list_beq; beq_iff = list_beq_iff }

abbrev pub pair_beq : List ℕ × List ℕ → List ℕ × List ℕ → Bool
pair_beq (a, b) (c, d) = list_beq a c && list_beq b d

pub pair_beq_iff : (p q : List ℕ × List ℕ) → (pair_beq p q ≡ true) ↔ (p ≡ q)
pair_beq_iff (a, b) (c, d) = ground (arith, list_beq_iff a c, list_beq_iff b d)

instance abbrev pub pair_has_eq : Eq (List ℕ × List ℕ)
pair_has_eq = record { beq = pair_beq; beq_iff = pair_beq_iff }
