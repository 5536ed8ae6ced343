-- ===== src/Interval/Ktimer.antt =====
-- dtinterval_zephyr_ktimer.c, with the phases and events of Interval/Counter.
use dtmc_zephyr.Prelude.{
  ℕ, ℤ, pos, pos_part, ◌+◌, Bool, true, false, Option, none, some, List, [], ◌∷◌, ltb, is_some,
  if◌then◌else◌,
}
use dtmc_zephyr.Err.{Dterr, leaf, wrap, argument_null, fail}
use dtmc_zephyr.Port.Counter.{KernelTimer, TickSemaphore}
use dtmc_zephyr.Interval.Counter.{
  Phase, idle, taking, calling, done, Event, alarms, pauses, wakes, returns, nonzero,
}

-- `dtinterval_zephyr_ktimer_config_t`
pub record Config : Type 0 where
  pub name : List ℕ
  pub periodic_interval_micros : ℤ

-- `dtinterval_zephyr_ktimer_t`, and the thread in `start`
pub record KtimerInterval (T S : Type 0) : Type 0 where
  pub model_number : ℕ
  pub config : Config
  pub is_malloced : Bool
  pub timer : T
  pub tick_sem : S
  pub callback_fn : Option ℕ
  pub callback_context : Option ℕ
  pub should_pause : Bool
  pub phase : Phase
  pub calls : ℕ

abbrev pub zero_config : Config
zero_config = record { name = []; periodic_interval_micros = pos 0 }

module _ {T S : Type 0} (timers : KernelTimer T) (kernel : TickSemaphore S) where
  unfoldable pub register_vtables : Bool → Option Dterr → Bool × Option Dterr
  register_vtables true registered = (true, none)
  register_vtables false none = (true, none)
  register_vtables false (some e) = (false, some e)

  -- The object, and whether the vtable is registered afterwards.
  unfoldable pub init : ℕ → Bool → Option Dterr → KtimerInterval T S × Bool × Option Dterr
  unfolding register_vtables
  init model are_registered registered =
      let (now, e) = register_vtables are_registered registered in
      (
        record {
          model_number = model;
          config = zero_config;
          is_malloced = false;
          timer = timers.k_timer_init;
          tick_sem = kernel.k_sem_init;
          callback_fn = none;
          callback_context = none;
          should_pause = false;
          phase = idle;
          calls = 0;
        },
        now,
        elim e [ none ↦ none | some x ↦ some (wrap fail x) ],
      )

  -- `alloc` is what `dtheaper_alloc_and_zero` answers.
  unfoldable pub create :
      Option Dterr → ℕ → Bool → Option Dterr → Option (KtimerInterval T S) × Bool × Option Dterr
  unfolding init
  create (some e) model are_registered registered = (none, are_registered, some (wrap fail e))
  create none model are_registered registered =
      let (self, now, e) = init model are_registered registered in
      elim e [
        | some x ↦ (none, now, some (wrap fail x))
        | none ↦ (some (record self { is_malloced = true }), now, none)
      ]

  unfoldable pub configure : KtimerInterval T S → Option Config → KtimerInterval T S × Option Dterr
  configure self none = (self, some (leaf argument_null))
  configure self (some config) = (record self { config = config }, none)

  unfoldable pub set_callback :
      KtimerInterval T S → Option ℕ → Option ℕ → KtimerInterval T S × Option Dterr
  set_callback self none context = (self, some (leaf argument_null))
  set_callback self (some fn) none = (self, some (leaf argument_null))
  set_callback self (some fn) (some context) =
      (record self { callback_fn = some fn; callback_context = some context }, none)

  -- After `cleanup`: the timer is stopped only if there is an error.
  unfoldable pub leave : KtimerInterval T S → Option Dterr → KtimerInterval T S
  leave self none = record self { phase = done none }
  leave self (some e) = record self {
    timer = timers.k_timer_stop self.timer;
    phase = done (some e);
  }

  -- `while (!should_pause) { k_sem_take(…); …`, at the test
  unfoldable pub loop_test : KtimerInterval T S → KtimerInterval T S
  unfolding leave
  loop_test self = if self.should_pause then leave self none else record self { phase = taking }

  -- `start` up to its first wait, or its end
  unfoldable pub start : KtimerInterval T S → KtimerInterval T S
  unfolding leave loop_test
  start self =
      let armed : KtimerInterval T S = record self {
        should_pause = false;
        timer = timers.k_timer_start self.timer (pos_part self.config.periodic_interval_micros);
      } in
      if is_some self.callback_fn then loop_test armed else leave armed none

  -- `timer_expiry_fn`
  unfoldable pub timer_expiry_fn : KtimerInterval T S → KtimerInterval T S
  timer_expiry_fn self = record self { tick_sem = kernel.k_sem_give self.tick_sem }

  unfoldable pub pause : KtimerInterval T S → KtimerInterval T S
  pause self = record self {
    should_pause = true;
    timer = timers.k_timer_stop self.timer;
    tick_sem = kernel.k_sem_give self.tick_sem;
  }

  -- The wait ends, if there is a tick: stop, or call the callback.
  unfoldable pub wake : KtimerInterval T S → KtimerInterval T S
  unfolding leave
  wake self =
      let taken : KtimerInterval T S = record self { tick_sem = kernel.k_sem_take self.tick_sem } in
      if ltb 0 (kernel.count self.tick_sem)
      then (if self.should_pause
          then leave taken none
          else record taken { phase = calling; calls = self.calls + 1 })
      else self

  -- The callback returns.
  unfoldable pub callback_returns : KtimerInterval T S → Option Dterr → ℤ → KtimerInterval T S
  unfolding leave loop_test
  callback_returns self (some e) stored = leave self (some e)
  callback_returns self none stored = loop_test (record self { should_pause = nonzero stored })

  -- An event that cannot happen in a phase changes nothing.
  unfoldable pub step : KtimerInterval T S → Event → KtimerInterval T S
  unfolding timer_expiry_fn pause wake callback_returns
  step self alarms = timer_expiry_fn self
  step self pauses = pause self
  step self wakes = elim self.phase [
    | taking ↦ wake self
    | idle ↦ self
    | calling ↦ self
    | done e ↦ self
  ]
  step self (returns e stored) = elim self.phase [
    | calling ↦ callback_returns self e stored
    | idle ↦ self
    | taking ↦ self
    | done x ↦ self
  ]

  unfoldable pub run : KtimerInterval T S → List Event → KtimerInterval T S
  run self [] = self
  run self (e ∷ events) = run (step self e) events

  -- What is left of the object; its timer is stopped first.
  unfoldable pub dispose : KtimerInterval T S → Option (KtimerInterval T S)
  dispose self =
      if self.is_malloced
      then none
      else some (record self {
        model_number = 0;
        config = zero_config;
        timer = timers.k_timer_stop self.timer;
        callback_fn = none;
        callback_context = none;
        should_pause = false;
      })
