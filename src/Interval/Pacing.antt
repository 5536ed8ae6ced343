-- ===== src/Interval/Pacing.antt =====
-- When ticks come, and how many calls of the callback they make.
use dtmc_zephyr.Prelude.{
  ℕ, ◌+◌, ◌*◌, ◌%◌, ◌≤◌, ◌<◌, ◌≡◌, refl, ◌∙◌, ap, ap₂, true, false, none, some, List, [], ◌∷◌,
  arith, is_some, if◌then◌else◌,
}
use dtmc_zephyr.Interval.Same.{IsStartable}
use dtmc_zephyr.Port.Counter.{CounterDriver, TickSemaphore}
use dtmc_zephyr.Interval.Counter.{
  Event, alarms, pauses, wakes, returns, CounterInterval, step, run, start, period_of, quiet,
}

-- the alarms, and the alarms and pauses, among some events
abbrev pub alarms_in : List Event → ℕ
alarms_in [] = 0
alarms_in (alarms ∷ events) = 1 + alarms_in events
alarms_in (pauses ∷ events) = alarms_in events
alarms_in (wakes ∷ events) = alarms_in events
alarms_in (returns e stored ∷ events) = alarms_in events

abbrev pub gives_in : List Event → ℕ
gives_in [] = 0
gives_in (alarms ∷ events) = 1 + gives_in events
gives_in (pauses ∷ events) = 1 + gives_in events
gives_in (wakes ∷ events) = gives_in events
gives_in (returns e stored ∷ events) = gives_in events

gives-cons :
    (e : Event) (events : List Event) → gives_in (e ∷ events) ≡ gives_in (e ∷ []) + gives_in events
gives-cons alarms events = omega arith
gives-cons pauses events = omega arith
gives-cons wakes events = omega arith
gives-cons (returns e stored) events = omega arith

module _ {C S : Type 0} (driver : CounterDriver C) (kernel : TickSemaphore S) where
  -- No step but the alarm moves the target, and none changes the period.
  step_target :
      (s : CounterInterval C S) (e : Event)
      → ((step driver kernel s e).period_ticks ≡ s.period_ticks)
        × ((step driver kernel s e).next_alarm ≡ elim e [
          | alarms ↦ (s.next_alarm + s.period_ticks) % 4294967296
          | pauses ↦ s.next_alarm
          | wakes ↦ s.next_alarm
          | returns x stored ↦ s.next_alarm
        ])
  unfolding step
  step_target s alarms = (refl, refl)
  step_target s pauses = (refl, refl)
  step_target s wakes = ground arith
  step_target s (returns none stored) = ground arith
  step_target s (returns (some x) stored) = ground arith

  target_after :
      (s : CounterInterval C S) (events : List Event)
      → s.next_alarm < 4294967296
      → (run driver kernel s events).next_alarm
        ≡ (s.next_alarm + alarms_in events * s.period_ticks) % 4294967296
  unfolding run
  target_after s [] h = omega arith
  target_after s (alarms ∷ events) h =
      let next = step driver kernel s alarms in
      let t = step_target s alarms in
      let ih = target_after next events (omega (arith, t.1)) in
      let same : alarms_in events * next.period_ticks ≡ alarms_in events * s.period_ticks =
        ap (λ p. alarms_in events * p) t.0 in
      let one : (1 + alarms_in events) * s.period_ticks
          ≡ s.period_ticks + alarms_in events * s.period_ticks =
        grind arith in
      omega (arith, ih, t.1, same, one)
  target_after s (pauses ∷ events) h =
      let next = step driver kernel s pauses in
      let t = step_target s pauses in
      target_after next events (omega (arith, t.1))
      ∙ ap₂ (λ a p. (a + alarms_in events * p) % 4294967296) t.1 t.0
  target_after s (wakes ∷ events) h =
      let next = step driver kernel s wakes in
      let t = step_target s wakes in
      target_after next events (omega (arith, t.1))
      ∙ ap₂ (λ a p. (a + alarms_in events * p) % 4294967296) t.1 t.0
  target_after s (returns e stored ∷ events) h =
      let next = step driver kernel s (returns e stored) in
      let t = step_target s (returns e stored) in
      target_after next events (omega (arith, t.1))
      ∙ ap₂ (λ a p. (a + alarms_in events * p) % 4294967296) t.1 t.0

  -- A call needs a give: those made and the tick that waits are no more than the gives.
  step_calls :
      (s : CounterInterval C S) (e : Event)
      → kernel.count s.tick_sem ≤ 1
      → let t = step driver kernel s e in
        (t.calls + kernel.count t.tick_sem ≤ s.calls + kernel.count s.tick_sem + gives_in (e ∷ []))
        × (kernel.count t.tick_sem ≤ 1)
  unfolding step
  step_calls s alarms h = ground (arith, kernel.give-count s.tick_sem)
  step_calls s pauses h = ground (arith, kernel.give-count s.tick_sem)
  step_calls s wakes h = ground (arith, kernel.take-count s.tick_sem)
  step_calls s (returns none stored) h = ground arith
  step_calls s (returns (some x) stored) h = ground arith

  calls_after :
      (s : CounterInterval C S) (events : List Event)
      → kernel.count s.tick_sem ≤ 1
      → let t = run driver kernel s events in
        t.calls + kernel.count t.tick_sem ≤ s.calls + kernel.count s.tick_sem + gives_in events
  unfolding run
  calls_after s [] h = omega arith
  calls_after s (e ∷ events) h =
      let one = step_calls s e h in
      let rest = calls_after (step driver kernel s e) events one.1 in
      let sum : gives_in (e ∷ events) ≡ gives_in (e ∷ []) + gives_in events = gives-cons e events in
      omega (arith, one, rest, sum)

  -- The counter with the first alarm, one period after its value at the start; without a callback
  -- `start` ends at once and cancels it.
  abbrev pub armed_first : CounterInterval C S → C
  armed_first s =
      let begun = (driver.counter_start s.dev).0 in
      let period =
        period_of (driver.counter_get_frequency s.dev) s.config.periodic_interval_micros in
      let target = (driver.counter_get_value begun + period) % 4294967296 in
      let armed = (driver.counter_set_channel_alarm begun target false).0 in
      if is_some s.callback_fn then armed else quiet driver kernel armed

  -- What `start` leaves of the target, the period and the ticks.
  start_target :
      (s : CounterInterval C S)
      → IsStartable driver s
      → let period =
          period_of (driver.counter_get_frequency s.dev) s.config.periodic_interval_micros in
        let now = driver.counter_get_value (driver.counter_start s.dev).0 in
        let t = start driver kernel s in
        (t.period_ticks ≡ period)
        × (t.next_alarm ≡ (now + period) % 4294967296)
        × (t.calls ≡ s.calls)
        × (t.tick_sem ≡ s.tick_sem)
        × (t.dev ≡ armed_first s)
  unfolding start
  start_target s h =
      let period =
        period_of (driver.counter_get_frequency s.dev) s.config.periodic_interval_micros in
      let now = driver.counter_get_value (driver.counter_start s.dev).0 in
      ground (arith, h.arms ((now + period) % 4294967296))

  -- What the alarm interrupt arms.
  rearms :
      (s : CounterInterval C S)
      → (step driver kernel s alarms).dev
        ≡ (driver.counter_set_channel_alarm s.dev
            ((s.next_alarm + s.period_ticks) % 4294967296)
            true).0
  unfolding step
  rearms s = refl

  period_after :
      (s : CounterInterval C S) (events : List Event)
      → (run driver kernel s events).period_ticks ≡ s.period_ticks
  unfolding run
  period_after s [] = refl
  period_after s (e ∷ events) = period_after (step driver kernel s e) events ∙ (step_target s e).0

  -- When the counter can be started and armed: `start` arms the first alarm one period after the
  -- counter's value at the start, and cancels it only if there is no callback. Whatever happens
  -- then, and however late the interrupts and the callbacks are, the target after k alarms is
  -- k + 1 periods after that value, modulo 2^32; and the alarm interrupt that comes next arms the
  -- counter for k + 2 periods after that value, with COUNTER_ALARM_CFG_EXPIRE_WHEN_LATE. So no
  -- delay adds up.
  pub no_drift :
      (s : CounterInterval C S) (events : List Event)
      → IsStartable driver s
      → let period =
          period_of (driver.counter_get_frequency s.dev) s.config.periodic_interval_micros in
        let now = driver.counter_get_value (driver.counter_start s.dev).0 in
        let t = run driver kernel (start driver kernel s) events in
        let k = alarms_in events in
        ((start driver kernel s).dev ≡ armed_first s)
        × (t.next_alarm ≡ (now + (1 + k) * period) % 4294967296)
        × ((step driver kernel t alarms).dev
            ≡ (driver.counter_set_channel_alarm t.dev
                ((now + (2 + k) * period) % 4294967296)
                true).0)
  no_drift s events h =
      let period =
        period_of (driver.counter_get_frequency s.dev) s.config.periodic_interval_micros in
      let now = driver.counter_get_value (driver.counter_start s.dev).0 in
      let begun = start driver kernel s in
      let t = run driver kernel begun events in
      let h0 = start_target s h in
      let k = alarms_in events in
      let after = target_after begun events (omega (arith, h0.1)) in
      let same : k * begun.period_ticks ≡ k * period = ap (λ p. k * p) h0.0 in
      let one : (1 + k) * period ≡ period + k * period = grind arith in
      let two : (2 + k) * period ≡ period + (period + k * period) = grind arith in
      let still : t.period_ticks ≡ period = period_after begun events ∙ h0.0 in
      let target : t.next_alarm ≡ (now + (1 + k) * period) % 4294967296 =
        omega (arith, after, h0.1, same, one) in
      let next : (t.next_alarm + t.period_ticks) % 4294967296
          ≡ (now + (2 + k) * period) % 4294967296 =
        omega (arith, target, still, one, two) in
      (h0.4, target, rearms t ∙ ap (λ a. (driver.counter_set_channel_alarm t.dev a true).0) next)

  -- When the counter can be started and armed, and no tick is pending: whatever happens after
  -- `start`, the callback is called at most once for each alarm and each call of `pause`.
  pub calls_bounded :
      (s : CounterInterval C S) (events : List Event)
      → IsStartable driver s
      → kernel.count s.tick_sem ≡ 0
      → (run driver kernel (start driver kernel s) events).calls ≤ s.calls + gives_in events
  calls_bounded s events h q =
      let t = start_target s h in
      let pending = ap kernel.count t.3 in
      omega
        (arith, t.2, pending, calls_after (start driver kernel s) events (omega (arith, pending)))
