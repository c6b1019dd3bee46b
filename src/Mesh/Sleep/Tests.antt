-- ===== src/Mesh/Sleep/Tests.antt =====
-- A pause of 60 milliseconds.
use glycoprotein_rs.Mesh.Sleep.{
  sleep_interruptibly-returns, AreUndisturbed, sleep_interruptibly, Nap,
}
use glycoprotein_rs.Prelude.{
  arith, ◌∷◌, [], List, false, true, refl, ◌≡◌, ◌≤◌, pair_has_eq, list_has_eq, nat_has_eq,
}

abbrev punctual : Nap
punctual = record { cancelled = false; late = 0 }

abbrev sleepy : Nap
sleepy = record { cancelled = false; late = 7_000_000 }

abbrev four_turns : List Nap
four_turns = sleepy ∷ punctual ∷ sleepy ∷ punctual ∷ []

rests : sleep_interruptibly four_turns 60_000_000 0 ≡ (true, 67_000_000)
unfolding sleep_interruptibly
rests = refl

wakes :
    sleep_interruptibly (punctual ∷ record { cancelled = true; late = 0 } ∷ []) 60_000_000 0
    ≡ (true, 25_000_000)
unfolding sleep_interruptibly
wakes = refl

sleep_interruptibly-returns_example :
    let (ended, at) = sleep_interruptibly four_turns 60_000_000 0 in
    (ended ≡ true) × (AreUndisturbed four_turns → 60_000_000 ≤ at)
sleep_interruptibly-returns_example =
    sleep_interruptibly-returns four_turns 3 60_000_000 (omega arith) (omega arith)
