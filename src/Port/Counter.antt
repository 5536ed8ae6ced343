-- ===== src/Port/Counter.antt =====
-- Zephyr counters and kernel timers, and the semaphore that holds at most one tick.
use dtmc_zephyr.Prelude.{ℕ, ◌<◌, ◌≡◌, Bool, true, false, Option, none}
use dtmc_zephyr.Err.{Rc}

-- A counter with one alarm channel. `alarm` is the target that is armed.
pub record CounterDriver (C : Type 0) : Type 0 where
  pub alarm : C → Option ℕ
  pub running : C → Bool
  pub counter_get_frequency : C → ℕ
  pub counter_get_value : C → ℕ
  pub counter_get_top_value : C → ℕ
  pub counter_start : C → C × Rc
  pub counter_stop : C → C
  -- an absolute target, and whether COUNTER_ALARM_CFG_EXPIRE_WHEN_LATE is given
  pub counter_set_channel_alarm : C → ℕ → Bool → C × Rc
  pub counter_cancel_channel_alarm : C → C
  -- the counter when the reads of a scan are over: time goes on while an ADC converts
  pub counter_elapse : C → C
  -- the documented behaviour
  pub stop_stops : (c : C) → running (counter_stop c) ≡ false
  pub stop-alarm : (c : C) → alarm (counter_stop c) ≡ alarm c
  pub cancel_disarms : (c : C) → alarm (counter_cancel_channel_alarm c) ≡ none

-- `struct k_timer` with a period in microseconds
pub record KernelTimer (T : Type 0) : Type 0 where
  pub running : T → Bool
  pub k_timer_init : T
  pub k_timer_start : T → ℕ → T
  pub k_timer_stop : T → T
  pub start_runs : (t : T) (n : ℕ) → running (k_timer_start t n) ≡ true
  pub stop_stops : (t : T) → running (k_timer_stop t) ≡ false

-- `struct k_sem` after `k_sem_init(sem, 0, 1)`. A take with K_FOREVER waits for `count` to be 1.
pub record TickSemaphore (S : Type 0) : Type 0 where
  pub count : S → ℕ
  pub k_sem_init : S
  pub k_sem_give : S → S
  pub k_sem_take : S → S
  pub init-count : count k_sem_init ≡ 0
  pub give-count : (s : S) → count (k_sem_give s) ≡ 1
  pub take-count : (s : S) → 0 < count s → count (k_sem_take s) ≡ 0
