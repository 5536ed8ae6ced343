-- ===== src/Interval/Counter.antt =====
-- dtinterval_zephyr_counter.c. `start` blocks: it is a state machine with a phase, and its steps are
-- the alarm interrupt, a call of `pause` from another context, the wait that ends, and the callback
-- that returns.
use dtmc_zephyr.Prelude.{
  ℕ, ℤ, pos, pos_part, ◌+◌, ◌*◌, ◌/◌, ◌%◌, Bool, true, false, not, Option, none, some, List, [],
  ◌∷◌, ltb, leb, ◌==◌, is_some, if◌then◌else◌,
}
use dtmc_zephyr.Err.{Dterr, leaf, wrap, argument_null, badarg, fail, is_success}
use dtmc_zephyr.Port.Counter.{CounterDriver, TickSemaphore}

-- `dtinterval_zephyr_counter_config_t`; `counter_dev` says whether the device is not NULL.
pub record Config : Type 0 where
  pub name : List ℕ
  pub periodic_interval_micros : ℤ
  pub counter_dev : Bool

-- Where the thread that called `start` is: not in it, in `k_sem_take`, in the callback, or out of
-- `start` with its result.
pub data Phase : Type 0 where
  idle taking calling : Phase
  done : Option Dterr → Phase

-- `dtinterval_zephyr_counter_t`, its device, and the thread in `start`; `calls` counts the calls of
-- the callback.
pub record CounterInterval (C S : Type 0) : Type 0 where
  pub model_number : ℕ
  pub config : Config
  pub is_malloced : Bool
  pub tick_sem : S
  pub period_ticks : ℕ
  pub next_alarm : ℕ
  pub callback_fn : Option ℕ
  pub callback_context : Option ℕ
  pub should_pause : Bool
  pub dev : C
  pub phase : Phase
  pub calls : ℕ

-- What happens: the alarm interrupt, `pause`, the thread's wait may end, and the callback returns an
-- error and what it stored in `should_pause`.
pub data Event : Type 0 where
  alarms pauses wakes : Event
  returns : Option Dterr → ℤ → Event

-- an `int` as a `bool`
abbrev pub nonzero : ℤ → Bool
nonzero (pos n) = not (n == 0)
nonzero _ = true

abbrev pub zero_config : Config
zero_config = record { name = []; periodic_interval_micros = pos 0; counter_dev = false }

-- `freq * periodic_interval_micros / 1000000` as a `uint32_t`
unfoldable pub period_of : ℕ → ℤ → ℕ
period_of freq micros = freq * pos_part micros / 1000000 % 4294967296

module _ {C S : Type 0} (driver : CounterDriver C) (kernel : TickSemaphore S) where
  -- `registered` is what `dtinterval_set_vtable` answers.
  unfoldable pub register_vtables : Bool → Option Dterr → Bool × Option Dterr
  register_vtables true registered = (true, none)
  register_vtables false none = (true, none)
  register_vtables false (some e) = (false, some e)

  -- The object, and whether the vtable is registered afterwards.
  unfoldable pub init : ℕ → C → Bool → Option Dterr → CounterInterval C S × Bool × Option Dterr
  unfolding register_vtables
  init model dev are_registered registered =
      let (now, e) = register_vtables are_registered registered in
      (
        record {
          model_number = model;
          config = zero_config;
          is_malloced = false;
          tick_sem = kernel.k_sem_init;
          period_ticks = 0;
          next_alarm = 0;
          callback_fn = none;
          callback_context = none;
          should_pause = false;
          dev = dev;
          phase = idle;
          calls = 0;
        },
        now,
        elim e [ none ↦ none | some x ↦ some (wrap fail x) ],
      )

  -- `alloc` is what `dtheaper_alloc_and_zero` answers.
  unfoldable pub create :
      Option Dterr
      → ℕ
      → C
      → Bool
      → Option Dterr
      → Option (CounterInterval C S) × Bool × Option Dterr
  unfolding init
  create (some e) model dev are_registered registered = (none, are_registered, some (wrap fail e))
  create none model dev are_registered registered =
      let (self, now, e) = init model dev are_registered registered in
      elim e [
        | some x ↦ (none, now, some (wrap fail x))
        | none ↦ (some (record self { is_malloced = true }), now, none)
      ]

  unfoldable pub configure :
      CounterInterval C S → Option Config → CounterInterval C S × Option Dterr
  configure self none = (self, some (leaf argument_null))
  configure self (some config) =
      if not config.counter_dev
      then (self, some (leaf argument_null))
      else if leb (pos_part config.periodic_interval_micros) 0
      then (self, some (leaf badarg))
      else (record self { config = config }, none)

  unfoldable pub set_callback :
      CounterInterval C S → Option ℕ → Option ℕ → CounterInterval C S × Option Dterr
  set_callback self none context = (self, some (leaf argument_null))
  set_callback self (some fn) none = (self, some (leaf argument_null))
  set_callback self (some fn) (some context) =
      (record self { callback_fn = some fn; callback_context = some context }, none)

  -- after `cleanup`: the alarm is cancelled and the counter stopped
  abbrev pub quiet : C → C
  quiet dev = driver.counter_stop (driver.counter_cancel_channel_alarm dev)

  unfoldable pub leave : CounterInterval C S → Option Dterr → CounterInterval C S
  leave self e = record self { dev = quiet self.dev; phase = done e }

  -- `while (!should_pause) { k_sem_take(…); …`, at the test
  unfoldable pub loop_test : CounterInterval C S → CounterInterval C S
  unfolding leave
  loop_test self = if self.should_pause then leave self none else record self { phase = taking }

  -- `start` up to its first wait, or its end. The interval is not negative, by `configure`.
  unfoldable pub start : CounterInterval C S → CounterInterval C S
  unfolding leave loop_test
  start self =
      let freq = driver.counter_get_frequency self.dev in
      let period = period_of freq self.config.periodic_interval_micros in
      let sized : CounterInterval C S = record self { period_ticks = period } in
      let ready : CounterInterval C S = record sized { should_pause = false } in
      let (started, rc) = driver.counter_start self.dev in
      let target = (driver.counter_get_value started + period) % 4294967296 in
      let (armed, rc_alarm) = driver.counter_set_channel_alarm started target false in
      let aimed : CounterInterval C S = record ready { next_alarm = target; dev = armed } in
      if freq == 0
      then leave self (some (leaf fail))
      else if period == 0
      then leave sized (some (leaf fail))
      else if not (is_success rc)
      then leave (record ready { dev = started }) (some (leaf fail))
      else if not (is_success rc_alarm)
      then leave (record aimed { dev = driver.counter_stop armed }) (some (leaf fail))
      else if is_some self.callback_fn
      then loop_test aimed
      else leave aimed none

  -- `_alarm_handler`: arm the next target, then give the tick.
  unfoldable pub alarm_handler : CounterInterval C S → CounterInterval C S
  alarm_handler self =
      let target = (self.next_alarm + self.period_ticks) % 4294967296 in
      record self {
        next_alarm = target;
        dev = (driver.counter_set_channel_alarm self.dev target true).0;
        tick_sem = kernel.k_sem_give self.tick_sem;
      }

  unfoldable pub pause : CounterInterval C S → CounterInterval C S
  pause self = record self {
    should_pause = true;
    dev = quiet self.dev;
    tick_sem = kernel.k_sem_give self.tick_sem;
  }

  -- The wait ends, if there is a tick: stop, or call the callback.
  unfoldable pub wake : CounterInterval C S → CounterInterval C S
  unfolding leave
  wake self =
      let taken : CounterInterval C S = record self {
        tick_sem = kernel.k_sem_take self.tick_sem;
      } in
      if ltb 0 (kernel.count self.tick_sem)
      then (if self.should_pause
          then leave taken none
          else record taken { phase = calling; calls = self.calls + 1 })
      else self

  -- The callback returns.
  unfoldable pub callback_returns : CounterInterval C S → Option Dterr → ℤ → CounterInterval C S
  unfolding leave loop_test
  callback_returns self (some e) stored = leave self (some e)
  callback_returns self none stored = loop_test (record self { should_pause = nonzero stored })

  -- An event that cannot happen in a phase changes nothing.
  unfoldable pub step : CounterInterval C S → Event → CounterInterval C S
  unfolding alarm_handler pause wake callback_returns
  step self alarms = alarm_handler self
  step self pauses = pause self
  step self wakes = elim self.phase [
    | taking ↦ wake self
    | idle ↦ self
    | calling ↦ self
    | done e ↦ self
  ]
  step self (returns e stored) = elim self.phase [
    | calling ↦ callback_returns self e stored
    | idle ↦ self
    | taking ↦ self
    | done x ↦ self
  ]

  unfoldable pub run : CounterInterval C S → List Event → CounterInterval C S
  run self [] = self
  run self (e ∷ events) = run (step self e) events

  -- What is left of the object, and the device.
  unfoldable pub dispose : CounterInterval C S → Option (CounterInterval C S) × C
  dispose self =
      let dev = if self.config.counter_dev then quiet self.dev else self.dev in
      (
        if self.is_malloced
            then none
            else some (record self {
              model_number = 0;
              config = zero_config;
              period_ticks = 0;
              next_alarm = 0;
              callback_fn = none;
              callback_context = none;
              should_pause = false;
              dev = dev;
            }),
        dev,
      )
