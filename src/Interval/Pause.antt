-- ===== src/Interval/Pause.antt =====
-- What a call of `pause` does, by the phase in which it comes.
use dtmc_zephyr.Prelude.{pos, ◌+◌, ◌≡◌, refl, ◌∙◌, ap, true, false, none, List, [], ◌∷◌, arith}
use dtmc_zephyr.Port.Counter.{CounterDriver, TickSemaphore}
use dtmc_zephyr.Interval.Counter.{
  taking, calling, done, Event, alarms, pauses, wakes, returns, CounterInterval, quiet, step, run,
}

-- Events in which the wait does not end.
abbrev pub NoWakes : List Event → Type 0
NoWakes [] = Unit {0}
NoWakes (wakes ∷ events) = ⊥
NoWakes (alarms ∷ events) = NoWakes events
NoWakes (pauses ∷ events) = NoWakes events
NoWakes (returns e stored ∷ events) = NoWakes events

-- Events without a tick: no alarm, and no call of `pause`.
abbrev pub NoGives : List Event → Type 0
NoGives [] = Unit {0}
NoGives (wakes ∷ events) = NoGives events
NoGives (alarms ∷ events) = ⊥
NoGives (pauses ∷ events) = ⊥
NoGives (returns e stored ∷ events) = NoGives events

module _ {C S : Type 0} (driver : CounterDriver C) (kernel : TickSemaphore S) where
  -- A thread that waits and has been asked to stop.
  record IsAsked (s : CounterInterval C S) : Type 0 where
    phase : s.phase ≡ taking
    asked : s.should_pause ≡ true
    tick : kernel.count s.tick_sem ≡ 1

  pause-IsAsked :
      (s : CounterInterval C S) → s.phase ≡ taking → IsAsked (step driver kernel s pauses)
  unfolding step
  pause-IsAsked s h = record { phase = h; asked = refl; tick = kernel.give-count s.tick_sem }

  stays-IsAsked :
      (s : CounterInterval C S) (events : List Event)
      → NoWakes events
      → IsAsked s
      → IsAsked (run driver kernel s events)
  unfolding run step
  stays-IsAsked s [] n h = h
  stays-IsAsked s (alarms ∷ events) n h =
      stays-IsAsked (step driver kernel s alarms) events n
        (record { phase = h.phase; asked = h.asked; tick = kernel.give-count s.tick_sem })
  stays-IsAsked s (pauses ∷ events) n h =
      stays-IsAsked (step driver kernel s pauses) events n
        (record { phase = h.phase; asked = refl; tick = kernel.give-count s.tick_sem })
  stays-IsAsked s (wakes ∷ events) n h = absurd n
  stays-IsAsked s (returns e stored ∷ events) n h =
      stays-IsAsked (step driver kernel s (returns e stored)) events n
        (ground (arith, h.phase, h.asked, h.tick))

  wake_ends :
      (s : CounterInterval C S)
      → IsAsked s
      → let t = step driver kernel s wakes in
        (t.phase ≡ done none) × (t.calls ≡ s.calls) × (t.dev ≡ quiet driver kernel s.dev)
  unfolding step
  wake_ends s h = ground (arith, h.phase, h.asked, h.tick)

  -- `pause` while `start` waits for a tick: when the wait ends, whatever alarms and further pauses
  -- come before that, `start` returns without an error and without another call of the callback,
  -- and leaves the counter stopped and the alarm cancelled.
  pub pause_ends :
      (s : CounterInterval C S) (events : List Event)
      → s.phase ≡ taking
      → NoWakes events
      → let before = run driver kernel (step driver kernel s pauses) events in
        let t = step driver kernel before wakes in
        (t.phase ≡ done none)
        × (t.calls ≡ before.calls)
        × (driver.running t.dev ≡ false)
        × (driver.alarm t.dev ≡ none)
  pause_ends s events h n =
      let asked = stays-IsAsked (step driver kernel s pauses) events n (pause-IsAsked s h) in
      let before = run driver kernel (step driver kernel s pauses) events in
      let ends = wake_ends before asked in
      let cancelled = driver.counter_cancel_channel_alarm before.dev in
      (
        ends.0,
        ends.1,
        ap driver.running ends.2 ∙ driver.stop_stops cancelled,
        ap driver.alarm ends.2 ∙ driver.stop-alarm cancelled ∙ driver.cancel_disarms before.dev,
      )

  -- A tickless wait.
  record IsStuck (s : CounterInterval C S) : Type 0 where
    phase : s.phase ≡ taking
    no_tick : kernel.count s.tick_sem ≡ 0

  stays_stuck :
      (s : CounterInterval C S) (events : List Event)
      → NoGives events
      → IsStuck s
      → run driver kernel s events ≡ s
  unfolding run step
  stays_stuck s [] n h = refl
  stays_stuck s (alarms ∷ events) n h = absurd n
  stays_stuck s (pauses ∷ events) n h = absurd n
  stays_stuck s (wakes ∷ events) n h =
      let same : step driver kernel s wakes ≡ s = ground (arith, h.phase, h.no_tick) in
      ap (λ t. run driver kernel t events) same ∙ stays_stuck s events n h
  stays_stuck s (returns e stored ∷ events) n h =
      let same : step driver kernel s (returns e stored) ≡ s = ground (arith, h.phase, h.no_tick) in
      ap (λ t. run driver kernel t events) same ∙ stays_stuck s events n h

  -- the pause request is overwritten when the callback returns
  overwritten :
      (s : CounterInterval C S)
      → s.phase ≡ calling
      → let t = step driver kernel (step driver kernel s pauses) (returns none (pos 0)) in
        (t.phase ≡ taking)
        × (t.should_pause ≡ false)
        × (kernel.count t.tick_sem ≡ 1)
        × (t.calls ≡ s.calls)
        × (t.dev ≡ quiet driver kernel s.dev)
  unfolding step
  overwritten s h = ground (arith, h, kernel.give-count s.tick_sem)

  called_again :
      (s : CounterInterval C S)
      → s.phase ≡ taking
      → s.should_pause ≡ false
      → kernel.count s.tick_sem ≡ 1
      → let t = step driver kernel (step driver kernel s wakes) (returns none (pos 0)) in
        (t.phase ≡ taking)
        × (kernel.count t.tick_sem ≡ 0)
        × (t.calls ≡ s.calls + 1)
        × (t.dev ≡ s.dev)
  unfolding step
  called_again s h p c = ground (arith, h, p, c, kernel.take-count s.tick_sem)

  -- `pause` while the callback runs is lost if the callback then returns with 0 in its
  -- `should_pause`: the callback is called once more without an alarm, and if it returns with 0
  -- again, `start` waits, with the counter stopped and no alarm armed, and it does not return
  -- until there is another alarm or call of `pause`.
  pub pause_lost :
      (s : CounterInterval C S) (events : List Event)
      → s.phase ≡ calling
      → NoGives events
      → let t =
          run driver kernel s
            (pauses ∷ returns none (pos 0) ∷ wakes ∷ returns none (pos 0) ∷ events) in
        (t.phase ≡ taking)
        × (t.calls ≡ s.calls + 1)
        × (driver.running t.dev ≡ false)
        × (driver.alarm t.dev ≡ none)
  unfolding run
  pause_lost s events h n =
      let a = step driver kernel (step driver kernel s pauses) (returns none (pos 0)) in
      let t = step driver kernel (step driver kernel a wakes) (returns none (pos 0)) in
      let o = overwritten s h in
      let c = called_again a o.0 o.1 o.2 in
      let stuck = stays_stuck t events n (record { phase = c.0; no_tick = c.1 }) in
      let dev = c.3 ∙ o.4 in
      let cancelled = driver.counter_cancel_channel_alarm s.dev in
      rw stuck (
        c.0,
        c.2 ∙ ap (λ k. k + 1) o.3,
        ap driver.running dev ∙ driver.stop_stops cancelled,
        ap driver.alarm dev ∙ driver.stop-alarm cancelled ∙ driver.cancel_disarms s.dev,
      )
