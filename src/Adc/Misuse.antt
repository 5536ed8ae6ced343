-- ===== src/Adc/Misuse.antt =====
-- What a second `activate` does to an active object, and what `deactivate` does to the lock.
use dtmc_zephyr.Prelude.{
  ℕ, ◌+◌, ◌-◌, ◌≡◌, refl, ap, Bool, true, false, Option, none, some, List, [], ◌∷◌, arith, take,
  if◌then◌else◌,
}
use dtmc_zephyr.Err.{leaf, wrap, badconfig}
use dtmc_zephyr.Port.Counter.{CounterDriver, TickSemaphore}
use dtmc_zephyr.Port.Adc.{AdcDriver, AdcConstants}
use dtmc_zephyr.Adc.Object.{State, Adc}
use dtmc_zephyr.Adc.Lifecycle.{ActivateAnswers, activate, deactivate, wait_over, is_over}

-- Whether some state is that of a reader that has ended.
abbrev pub any_over : List State → Bool
any_over [] = false
any_over (s ∷ later) = if is_over s then true else any_over later

wait_over_held :
    (held : ℕ) (states : List State)
    → wait_over held states ≡ (if any_over states then held + 1 else held)
unfolding wait_over
wait_over_held held [] = refl
wait_over_held held (s ∷ later) =
    let same : held + 1 - 1 ≡ held = omega arith in
    ground (arith, wait_over_held held later, ap (λ n. wait_over n later) same)

module _ {C S A : Type 0} (driver : CounterDriver C) (kernel : TickSemaphore S) (adc : AdcDriver A)
    (constants : AdcConstants) where
  -- A second `activate` of an active object is refused, and yet takes it down: the counter is
  -- stopped and its alarm cancelled, the ADC and the task are let go, and the object counts as
  -- inactive, while the request to stop that would end the reader is not made.
  pub activate_twice :
      (answers : ActivateAnswers) (s : Adc C S A) (fn : ℕ) (context : Option ℕ)
      → s.is_configured ≡ true
      → s.is_active ≡ true
      → answers.lock_acquire ≡ none
      → let (t, e) = activate driver kernel adc constants answers s (some fn) context in
        (e ≡ some (wrap badconfig (leaf badconfig)))
        × (driver.running t.counter ≡ false)
        × (driver.alarm t.counter ≡ none)
        × (t.adc_dev ≡ false)
        × (t.reader_tasker ≡ false)
        × (t.is_active ≡ false)
        × (t.should_pause ≡ s.should_pause)
        × (t.tick_sem ≡ s.tick_sem)
  unfolding activate
  activate_twice answers s fn context hc ha hl =
      let cancelled = driver.counter_cancel_channel_alarm s.counter in
      ground (
        arith,
        hc,
        ha,
        hl,
        driver.stop_stops cancelled,
        driver.stop-alarm cancelled,
        driver.cancel_disarms s.counter,
      )

  -- `deactivate` of an active object, with a lock that is granted each time: if one of the (at most
  -- 50) looks at the status sees that the reader has ended, the lock is held once more afterwards
  -- than before; only if none does, it is given back. In both cases the object is inactive.
  pub deactivate_lock :
      (s : Adc C S A) (states : List State)
      → s.is_active ≡ true
      → let t = deactivate driver kernel adc constants s states in
        (t.is_active ≡ false)
        × (t.held ≡ (if any_over (take 50 states) then s.held + 1 else s.held))
  unfolding deactivate
  deactivate_lock s states h =
      let same : s.held + 1 - 1 ≡ s.held = omega arith in
      let looks = take 50 states in
      let held = wait_over_held s.held looks in
      ground (arith, h, held, ap (λ n. wait_over n looks) same)
