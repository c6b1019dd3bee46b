-- ===== src/Prelude/Decimal.antt =====
-- Numbers as `{}` prints them, in decimal.
use Prim.Native.Nat.{ℕ, zero, suc, ◌+◌, ◌-◌, ◌*◌, ◌/◌, ◌%◌, ◌<◌, ◌^◌}
use mathlib.Core.Path.{◌≡◌}
use mathlib.Core.List.{[], ◌∷◌, ◌++◌}
use native.Mathlib.Omega.{arith}
use glycoprotein_rs.Prelude.Tests.{nat_eq, ltb, if◌then◌else◌}
use glycoprotein_rs.Prelude.Text.{Str, text}

-- The digits of `n` in front of `tail`. The fuel exceeds `n`.
unfoldable pub digits_before : ℕ → ℕ → Str → Str
digits_before zero n tail = tail
digits_before (suc f) n tail =
    let rest = digits_before f (n / 10) ((48 + n % 10) ∷ tail) in
    if nat_eq (n / 10) 0 then (48 + n % 10) ∷ tail else rest

unfoldable pub decimal : ℕ → Str
unfolding digits_before
decimal n = digits_before (suc n) n []

-- An `i32` is held as its bit pattern, below 2 ^ 32.
unfoldable pub decimal_i32 : ℕ → Str
unfolding decimal
decimal_i32 w = if ltb w (2 ^ 31) then decimal w else text "-" ++ decimal (2 ^ 32 - w)

unfoldable pub value_from : ℕ → Str → ℕ
value_from v [] = v
value_from v (c ∷ cs) = value_from (v * 10 + (c - 48)) cs

value_from-digits_before :
    (f n : ℕ) (tail : Str) → n < f → value_from 0 (digits_before f n tail) ≡ value_from n tail
unfolding value_from digits_before
value_from-digits_before zero n tail h = elim h [ ]
value_from-digits_before (suc f) n tail h =
    ground (arith, value_from-digits_before f (n / 10) ((48 + n % 10) ∷ tail))

-- The fuel is enough: the printed digits have the value of the number.
pub value_from-decimal : (n : ℕ) → value_from 0 (decimal n) ≡ n
unfolding decimal value_from
value_from-decimal n = value_from-digits_before (suc n) n [] (omega arith)
