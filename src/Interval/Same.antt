-- ===== src/Interval/Same.antt =====
-- The two backends make the same calls of the callback.
use dtmc_zephyr.Prelude.{
  ℕ, ℤ, ◌+◌, ◌%◌, ◌<◌, ◌≡◌, ap, true, false, Option, none, some, List, [], ◌∷◌, arith,
}
use dtmc_zephyr.Err.{Dterr, is_success}
use dtmc_zephyr.Port.Counter.{CounterDriver, KernelTimer, TickSemaphore}
use dtmc_zephyr.Interval.Counter
use dtmc_zephyr.Interval.Counter.{
  Phase, idle, taking, calling, done, Event, alarms, pauses, wakes, returns, nonzero,
  CounterInterval,
}
use dtmc_zephyr.Interval.Ktimer
use dtmc_zephyr.Interval.Ktimer.{KtimerInterval}

-- What the two have in common.
pub record Same {C T S : Type 0} (c : CounterInterval C S) (k : KtimerInterval T S) : Type 0 where
  pub phase : c.phase ≡ k.phase
  pub calls : c.calls ≡ k.calls
  pub should_pause : c.should_pause ≡ k.should_pause
  pub tick_sem : c.tick_sem ≡ k.tick_sem

-- A counter whose period is not 0, and that starts and takes an alarm.
pub record IsStartable {C S : Type 0} (driver : CounterDriver C) (c : CounterInterval C S)
    : Type 0 where
  pub period :
      0 < Counter.period_of (driver.counter_get_frequency c.dev) c.config.periodic_interval_micros
  pub frequency : 0 < driver.counter_get_frequency c.dev
  pub starts : is_success (driver.counter_start c.dev).1 ≡ true
  pub arms :
      (target : ℕ)
      → is_success (driver.counter_set_channel_alarm (driver.counter_start c.dev).0 target false).1
        ≡ true

module _ {C T S : Type 0} (driver : CounterDriver C) (timers : KernelTimer T)
    (kernel : TickSemaphore S) where
  Same-wake :
      (c : CounterInterval C S) (k : KtimerInterval T S)
      → Same c k
      → Same (Counter.wake driver kernel c) (Ktimer.wake timers kernel k)
  unfolding Counter.wake Ktimer.wake
  Same-wake c k h = ground (arith, ap kernel.count h.tick_sem, ap kernel.k_sem_take h.tick_sem)

  Same-returns :
      (c : CounterInterval C S) (k : KtimerInterval T S) (e : Option Dterr) (stored : ℤ)
      → Same c k
      → Same
          (Counter.callback_returns driver kernel c e stored)
          (Ktimer.callback_returns timers kernel k e stored)
  unfolding Counter.callback_returns Ktimer.callback_returns
  Same-returns c k none stored h = ground arith
  Same-returns c k (some e) stored h = ground arith

  Same-step :
      (c : CounterInterval C S) (k : KtimerInterval T S) (e : Event)
      → Same c k
      → Same (Counter.step driver kernel c e) (Ktimer.step timers kernel k e)
  unfolding Counter.step Ktimer.step
  Same-step c k alarms h = ground (arith, ap kernel.k_sem_give h.tick_sem)
  Same-step c k pauses h = ground (arith, ap kernel.k_sem_give h.tick_sem)
  Same-step c k wakes h = ground (arith, Same-wake c k h)
  Same-step c k (returns e stored) h = ground (arith, Same-returns c k e stored h)

  Same-run :
      (c : CounterInterval C S) (k : KtimerInterval T S) (events : List Event)
      → Same c k
      → Same (Counter.run driver kernel c events) (Ktimer.run timers kernel k events)
  unfolding Counter.run Ktimer.run
  Same-run c k [] h = h
  Same-run c k (e ∷ events) h =
      Same-run (Counter.step driver kernel c e) (Ktimer.step timers kernel k e) events
        (Same-step c k e h)

  -- When a counter can be started and armed, both backends behave alike from `start` on: with the same
  -- callback, the same tick semaphore and the same events afterwards, they make as many calls, are in
  -- the same phase, with the same result, and have the same pause request and tick pending.
  pub backends_agree :
      (c : CounterInterval C S) (k : KtimerInterval T S) (events : List Event)
      → IsStartable driver c
      → c.callback_fn ≡ k.callback_fn
      → c.tick_sem ≡ k.tick_sem
      → c.calls ≡ k.calls
      → Same
          (Counter.run driver kernel (Counter.start driver kernel c) events)
          (Ktimer.run timers kernel (Ktimer.start timers kernel k) events)
  unfolding Counter.start Ktimer.start
  backends_agree c k events h hc ht hn =
      let period =
        Counter.period_of (driver.counter_get_frequency c.dev) c.config.periodic_interval_micros in
      let value = driver.counter_get_value (driver.counter_start c.dev).0 in
      Same-run (Counter.start driver kernel c) (Ktimer.start timers kernel k) events
        (ground (arith, h.arms ((value + period) % 4294967296)))
