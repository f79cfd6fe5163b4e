-- ===== src/Scripts/Polling.antt =====
-- clients/scripts/smoke.mjs, `waitFor`: a predicate is looked at again and again until it holds or the
-- time is over.
use msclaude_connector.Prelude.{
  ℕ, zero, suc, ◌+◌, ◌-◌, ◌*◌, ◌/◌, ◌≤◌, ◌<◌, ◌≡◌, refl, ◌⊎◌, inl, inr, Bool, true, false, Option,
  none, some, arith, ltb, if◌then◌else◌, if_cases, ltb→lt,
}

-- The outcome of the promise, at the number of the tick.
pub data Settled : Type 0 where
  resolved rejected : ℕ → Settled

-- `Date.now()` and `predicate()` at each tick; the clock is first read before the first tick.
module _ (start : ℕ) (clock : ℕ → ℕ) (holds : ℕ → Bool) (timeout_ms : ℕ) where
  -- The ticks from the `i`th on; the fuel runs out with `none`.
  unfoldable pub tick : (fuel i : ℕ) → Option Settled
  tick zero i = none
  tick (suc fuel) i =
      let later = tick fuel (suc i) in
      if holds i
      then some (resolved i)
      else if ltb timeout_ms (clock i - start)
      then some (rejected i)
      else later

  -- `waitFor`, with as many ticks as the time allows: each timer waits 25 ms at least.
  unfoldable pub wait_for : Option Settled
  unfolding tick
  wait_for = tick (timeout_ms / 25 + 2) 0

  -- The predicate held at no tick before the `i`th.
  abbrev pub NotYet : ℕ → Type 0
  NotYet zero = Unit
  NotYet (suc i) = NotYet i × (holds i ≡ false)

  -- The first tick at which the predicate holds, or one after the deadline before which it never held.
  pub record Ends (o : Option Settled) : Type 0 where
    pub at : ℕ
    pub not_yet : NotYet at
    pub outcome :
        ((o ≡ some (resolved at)) × (holds at ≡ true))
        ⊎ ((o ≡ some (rejected at)) × (holds at ≡ false) × (timeout_ms < clock at - start))

  module _ (early : start ≤ clock 0) (waits : (i : ℕ) → clock i + 25 ≤ clock (suc i)) where
    clock_le : (i : ℕ) → start + 25 * i ≤ clock i
    clock_le zero = omega (arith, early)
    clock_le (suc i) = omega (arith, clock_le i, waits i)

    -- Before each tick there is fuel for those that the time allows.
    tick-Ends :
        (fuel i : ℕ)
        → timeout_ms + 25 < 25 * (fuel + i)
        → 25 * i ≤ timeout_ms + 25
        → NotYet i
        → Ends (tick fuel i)
    unfolding tick
    tick-Ends zero i enough low before = absurd (omega arith)
    tick-Ends (suc fuel) i enough low before =
        let over = ltb timeout_ms (clock i - start) in
        if_cases Ends (holds i) _ _
          (λ now. record { at = i; not_yet = before; outcome = inl (refl, now) })
          λ not_now.
            if_cases Ends over _ _
              (λ late. record {
                at = i;
                not_yet = before;
                outcome = inr (refl, not_now, ltb→lt _ _ late);
              })
              λ in_time.
                tick-Ends fuel (suc i) (omega arith) (ground (arith, in_time, clock_le i))
                  (before, not_now)

    -- Whatever the predicate does, `waitFor` settles, within `timeout / 25 + 2` ticks: with the first
    -- tick at which the predicate holds, or with a timeout at a tick that is later than the deadline,
    -- up to which the predicate never held. The clock is not behind its first reading, and every timer
    -- waits 25 ms at least.
    pub wait_for-Ends : Ends wait_for
    unfolding wait_for
    wait_for-Ends = tick-Ends (timeout_ms / 25 + 2) 0 (omega arith) (omega arith) tt
