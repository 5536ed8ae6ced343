-- ===== src/Interval/Tests.antt =====
-- The intervals at concrete inputs: tests, and the theorems applied.
use dtmc_zephyr.Prelude.{
  ℕ, pos, ◌+◌, ◌*◌, ◌%◌, ◌≤◌, ◌≡◌, refl, Bool, true, false, none, some, List, [], ◌∷◌, arith,
}
use dtmc_zephyr.Port.Ticks.{Clock, megahertz, on_or_off, one_tick}
use dtmc_zephyr.Interval.Counter.{
  CounterInterval, Event, alarms, pauses, wakes, returns, idle, taking, calling, done, period_of,
  start, step, run,
}
use dtmc_zephyr.Interval.Ktimer
use dtmc_zephyr.Interval.Ktimer.{KtimerInterval}
use dtmc_zephyr.Interval.Same.{Same, IsStartable, backends_agree}
use dtmc_zephyr.Interval.Pacing.{no_drift, calls_bounded}
use dtmc_zephyr.Interval.Pause.{pause_ends, pause_lost}

-- A counter that is near its end, with a period of 250 microseconds.
abbrev every_250 : CounterInterval Clock ℕ
every_250 = record {
  model_number = 1;
  config = record { name = []; periodic_interval_micros = pos 250; counter_dev = true };
  is_malloced = true;
  tick_sem = 0;
  period_ticks = 0;
  next_alarm = 0;
  callback_fn = some 1;
  callback_context = some 2;
  should_pause = false;
  dev = record { armed = none; on = false; value = 4294967196 };
  phase = idle;
  calls = 0;
}

abbrev every_250_timer : KtimerInterval Bool ℕ
every_250_timer = record {
  model_number = 2;
  config = record { name = []; periodic_interval_micros = pos 250 };
  is_malloced = true;
  timer = false;
  tick_sem = 0;
  callback_fn = some 1;
  callback_context = some 2;
  should_pause = false;
  phase = idle;
  calls = 0;
}

every_250-IsStartable : IsStartable megahertz every_250
unfolding period_of
every_250-IsStartable = record {
  period = omega arith;
  frequency = omega arith;
  starts = refl;
  arms = λ target. refl;
}

abbrev two_ticks : List Event
two_ticks = alarms ∷ wakes ∷ alarms ∷ returns none (pos 0) ∷ wakes ∷ []

-- The target wraps round, and both ticks call the callback.
two_ticks-run :
    let t = run megahertz one_tick (start megahertz one_tick every_250) two_ticks in
    (t.next_alarm ≡ 650) × (t.calls ≡ 2) × (t.phase ≡ calling)
unfolding run start step period_of
two_ticks-run = (refl, refl, refl)

-- A callback that asks for a pause ends `start`; only the counter is then stopped.
asked_by_callback :
    let events = alarms ∷ wakes ∷ returns none (pos 1) ∷ [] in
    ((run megahertz one_tick (start megahertz one_tick every_250) events).dev.on ≡ false)
    × ((Ktimer.run on_or_off one_tick
          (Ktimer.start on_or_off one_tick every_250_timer)
          events).timer
        ≡ true)
unfolding run start step period_of Ktimer.run Ktimer.start Ktimer.step
asked_by_callback = (refl, refl)

backends_agree_example :
    Same
      (run megahertz one_tick (start megahertz one_tick every_250) two_ticks)
      (Ktimer.run on_or_off one_tick (Ktimer.start on_or_off one_tick every_250_timer) two_ticks)
backends_agree_example =
    backends_agree megahertz on_or_off one_tick every_250 every_250_timer two_ticks
      every_250-IsStartable refl refl refl

no_drift_example :
    let t = run megahertz one_tick (start megahertz one_tick every_250) two_ticks in
    ((start megahertz one_tick every_250).dev ≡ record {
      armed = some ((4294967196 + period_of 1000000 (pos 250)) % 4294967296);
      on = true;
      value = 4294967196;
    })
    × (t.next_alarm ≡ (4294967196 + (1 + 2) * period_of 1000000 (pos 250)) % 4294967296)
    × ((step megahertz one_tick t alarms).dev ≡ record (t.dev) {
      armed = some ((4294967196 + (2 + 2) * period_of 1000000 (pos 250)) % 4294967296);
    })
no_drift_example = no_drift megahertz one_tick every_250 two_ticks every_250-IsStartable

calls_bounded_example :
    (run megahertz one_tick (start megahertz one_tick every_250) two_ticks).calls ≤ 0 + 2
calls_bounded_example =
    calls_bounded megahertz one_tick every_250 two_ticks every_250-IsStartable refl

abbrev waiting : CounterInterval Clock ℕ
waiting = record every_250 { phase = taking; dev = record { armed = some 9; on = true; value = 0 } }

pause_ends_example :
    let before = run megahertz one_tick (step megahertz one_tick waiting pauses) (alarms ∷ []) in
    let t = step megahertz one_tick before wakes in
    (t.phase ≡ done none) × (t.calls ≡ before.calls) × (t.dev.on ≡ false) × (t.dev.armed ≡ none)
pause_ends_example = pause_ends megahertz one_tick waiting (alarms ∷ []) refl tt

abbrev in_callback : CounterInterval Clock ℕ
in_callback = record waiting { phase = calling; calls = 4 }

pause_lost_example :
    let t =
      run megahertz one_tick in_callback
        (pauses ∷ returns none (pos 0) ∷ wakes ∷ returns none (pos 0) ∷ wakes ∷ []) in
    (t.phase ≡ taking) × (t.calls ≡ 4 + 1) × (t.dev.on ≡ false) × (t.dev.armed ≡ none)
pause_lost_example = pause_lost megahertz one_tick in_callback (wakes ∷ []) refl tt
