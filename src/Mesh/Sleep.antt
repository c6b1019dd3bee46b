-- ===== src/Mesh/Sleep.antt =====
-- The pause of the discovery loop: `sleep_interruptibly` of src/transport/unix_mesh.rs.
mod Tests
use glycoprotein_rs.Prelude.{
  leb, length, All, min, ◌==◌, if◌then◌else◌, arith, ◌++◌, ◌∷◌, [], List, some, none, Option, ◌||◌,
  ◌&&◌, false, true, Bool, inr, inl, ◌⊎◌, ◌↔◌, ◌≢◌, ◌∙◌, refl, ◌≡◌, ◌<◌, ◌≤◌, ◌^◌, ◌%◌, ◌/◌, ◌*◌,
  ◌-◌, ◌+◌, suc, zero, ℕ, pair_has_eq, list_has_eq, nat_has_eq,
}

-- Durations are nanoseconds.
abbrev pub interrupt_poll_interval : ℕ
interrupt_poll_interval = 25_000_000

-- What a turn of the loop meets: whether the token is cancelled, and how much longer than asked the
-- thread sleeps, which it may.
pub record Nap : Type 0 where
  pub cancelled : Bool
  pub late : ℕ

-- Whether the loop has ended after these turns, and the time since it began.
unfoldable pub sleep_interruptibly : List Nap → ℕ → ℕ → Bool × ℕ
sleep_interruptibly [] duration elapsed = (false, elapsed)
sleep_interruptibly (nap ∷ naps) duration elapsed =
    let slept = elapsed + (min (duration - elapsed) interrupt_poll_interval + nap.late) in
    let rest = sleep_interruptibly naps duration slept in
    if nap.cancelled
    then (true, elapsed)
    else if leb duration elapsed
    then (true, elapsed)
    else rest

abbrev pub AreUndisturbed : List Nap → Type 0
AreUndisturbed naps = All (λ (nap : Nap). nap.cancelled ≡ false) naps

sleep_interruptibly-ends :
    (naps : List Nap) (n duration elapsed : ℕ)
    → duration ≤ elapsed + n * interrupt_poll_interval
    → n < length naps
    → (sleep_interruptibly naps duration elapsed).0 ≡ true
unfolding sleep_interruptibly
sleep_interruptibly-ends [] n duration elapsed h k = ground (arith, k)
sleep_interruptibly-ends (nap ∷ naps) zero duration elapsed h k = ground (arith, h)
sleep_interruptibly-ends (nap ∷ naps) (suc n) duration elapsed h k = ground (
  arith,
  h,
  k,
  sleep_interruptibly-ends naps n duration
      (elapsed + (min (duration - elapsed) interrupt_poll_interval + nap.late)),
)

sleep_interruptibly-late :
    (naps : List Nap) (duration elapsed : ℕ)
    → AreUndisturbed naps
    → (sleep_interruptibly naps duration elapsed).0 ≡ true
    → duration ≤ (sleep_interruptibly naps duration elapsed).1
unfolding sleep_interruptibly
sleep_interruptibly-late [] duration elapsed quiet h = ground (arith, h)
sleep_interruptibly-late (nap ∷ naps) duration elapsed (q, quiet) h = ground (
  arith,
  q,
  h,
  sleep_interruptibly-late naps duration
      (elapsed + (min (duration - elapsed) interrupt_poll_interval + nap.late)) quiet,
)

-- A pause ends after at most one turn more than poll intervals make up its duration, however long the
-- thread oversleeps and whatever the token does; and if the token is not cancelled, the duration is
-- then over.
pub sleep_interruptibly-returns :
    (naps : List Nap) (n duration : ℕ)
    → duration ≤ n * interrupt_poll_interval
    → n < length naps
    → let (ended, at) = sleep_interruptibly naps duration 0 in
      (ended ≡ true) × (AreUndisturbed naps → duration ≤ at)
sleep_interruptibly-returns naps n duration enough turns =
    let ended = sleep_interruptibly-ends naps n duration 0 (omega (arith, enough)) turns in
    (ended, λ quiet. sleep_interruptibly-late naps duration 0 quiet ended)
