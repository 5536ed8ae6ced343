-- ===== src/Adc/Lifecycle.antt =====
-- The methods. The tasker and the lock enter by what their calls answer.
use dtmc_zephyr.Prelude.{
  ℕ, ℤ, pos_part, ◌+◌, ◌-◌, ◌*◌, ◌/◌, ◌%◌, Bool, true, false, not, Option, none, some, List, [],
  ◌∷◌, ltb, ◌==◌, take, set, replicate, if◌then◌else◌,
}
use dtmc_zephyr.Err.{
  Rc, Dterr, leaf, wrap, argument_null, badconfig, fail, error_code, is_success, rewrap, or_else,
}
use dtmc_zephyr.Err
use dtmc_zephyr.Port.Counter.{CounterDriver, TickSemaphore}
use dtmc_zephyr.Port.Adc.{AdcDriver, AdcConstants}
use dtmc_zephyr.Adc.Object.{
  ChannelConfig, Config, ChannelRuntime, State, starting, stopped, error, Status, Adc, no_runtime,
  zeroed,
}
use dtmc_zephyr.Adc.Config.{validate_config, resolve_channel}
use dtmc_zephyr.Adc.Scan.{request_stop}

-- What the calls of `activate` answer.
pub record ActivateAnswers : Type 0 where
  pub lock_acquire : Option Dterr
  -- for a stack size and a priority
  pub tasker_create : ℕ → ℕ → Option Dterr
  pub tasker_start : Option Dterr

-- What `open_hardware` leaves of the ADC, the descriptors and the error.
pub record Opened (A : Type 0) : Type 0 where
  pub adc : A
  pub channel_runtime : List ChannelRuntime
  pub dterr : Option Dterr

-- a setting of the reader task, or its default where it is not positive
abbrev pub or_default : ℤ → ℕ → ℕ
or_default setting default = if ltb 0 (pos_part setting) then pos_part setting else default

-- one look at the status, under the lock: whether the reader has ended
abbrev pub is_over : State → Bool
is_over stopped = true
is_over error = true
is_over _ = false

-- The waits of `deactivate`, given how often the lock is held before and what the status is at each:
-- how often the lock is held afterwards. A look that sees the reader ended leaves the loop without
-- the release.
unfoldable pub wait_over : ℕ → List State → ℕ
wait_over held [] = held
wait_over held (s ∷ later) =
    let next = wait_over (held + 1 - 1) later in if is_over s then held + 1 else next

module _ {A : Type 0} (adc : AdcDriver A) where
  -- the channels from index `i` on
  unfoldable pub setup_channels : A → List ChannelConfig → ℕ → List ChannelRuntime → Opened A
  unfolding resolve_channel
  setup_channels a [] i runtime = record { adc = a; channel_runtime = runtime; dterr = none }
  setup_channels a (c ∷ rest) i runtime =
      let r = resolve_channel c in
      let (next, ok) = adc.adc_channel_setup a r.channel_cfg in
      let filled = set runtime i r in
      elim ok [
        | false ↦ record { adc = next; channel_runtime = filled; dterr = some (leaf Err.state) }
        | true ↦ setup_channels next rest (i + 1) filled
      ]

module _ {C S A : Type 0} (driver : CounterDriver C) (kernel : TickSemaphore S) (adc : AdcDriver A)
    (constants : AdcConstants) where
  -- `vtable` and `lock_create` are what `dtadc_set_vtable` and `dtlock_create` answer.
  unfoldable pub init : ℕ → C → A → Option Dterr → Option Dterr → Adc C S A × Option Dterr
  init model counter a vtable lock_create =
      let cleared : Adc C S A = record (zeroed kernel.k_sem_init counter a) {
        model_number = model;
      } in
      let registered : Adc C S A = record cleared { channel_runtime = replicate 8 no_runtime } in
      elim vtable [
        | some e ↦ (cleared, rewrap (some e))
        | none ↦ elim lock_create [
          | some e ↦ (registered, rewrap (some e))
          | none ↦ (record registered { lock = true }, none)
        ]
      ]

  -- `alloc` is what `dtheaper_alloc_and_zero` answers.
  unfoldable pub create :
      Option Dterr → ℕ → C → A → Option Dterr → Option Dterr → Option (Adc C S A) × Option Dterr
  unfolding init
  create (some x) model counter a vtable lock_create = (none, rewrap (some x))
  create none model counter a vtable lock_create =
      let (self, e) = init model counter a vtable lock_create in
      elim e [ some x ↦ (none, rewrap (some x)) | none ↦ (some self, none) ]

  unfoldable pub configure : Adc C S A → Option Config → Adc C S A × Option Dterr
  configure self none = (self, rewrap (some (leaf argument_null)))
  configure self (some config) =
      if self.is_active
      then (self, rewrap (some (leaf badconfig)))
      else elim (validate_config config) [
        | some e ↦ (self, rewrap (some e))
        | none ↦ (record self { config = config; is_configured = true }, none)
      ]

  unfoldable pub close_hardware : Adc C S A → Adc C S A
  close_hardware self = record self { adc_dev = false }

  unfoldable pub open_hardware : Adc C S A → Adc C S A × Option Dterr
  unfolding close_hardware
  open_hardware self =
      let channels = take (pos_part self.config.channel_count) self.config.channels in
      let opened = setup_channels adc self.adc channels 0 (replicate 8 no_runtime) in
      let filled : Adc C S A = record self {
        adc_dev = true;
        adc = opened.adc;
        channel_runtime = opened.channel_runtime;
      } in
      if not adc.has_adc
      then (close_hardware self, some (leaf Err.state))
      else if not (adc.device_is_ready self.adc)
      then (close_hardware self, some (leaf Err.state))
      else elim opened.dterr [ some e ↦ (close_hardware filled, some e) | none ↦ (filled, none) ]

  -- `freq * scan_interval_ms / 1000` as a `uint32_t`
  unfoldable pub period_of : ℕ → ℤ → ℕ
  period_of freq ms = freq * pos_part ms / 1000 % 4294967296

  -- the counter and its alarm
  unfoldable pub arm : Adc C S A → Adc C S A × Option Dterr
  unfolding period_of
  arm self =
      let freq = driver.counter_get_frequency self.counter in
      let period = period_of freq self.config.scan_interval_ms in
      let sized : Adc C S A = record self { period_ticks = period } in
      let ready : Adc C S A = record sized {
        tick_sem = kernel.k_sem_init;
        should_pause = false;
        counter_prev = 0;
        counter_base = 0;
      } in
      let (started, rc) = driver.counter_start self.counter in
      let target = (driver.counter_get_value started + period) % 4294967296 in
      let (armed, rc_alarm) = driver.counter_set_channel_alarm started target false in
      let aimed : Adc C S A = record ready { next_alarm = target; counter = armed } in
      if freq == 0
      then (self, some (leaf fail))
      else if period == 0
      then (sized, some (leaf fail))
      else if not (is_success rc)
      then (record ready { counter = started }, some (leaf fail))
      else if not (is_success rc_alarm)
      then (record aimed { counter = driver.counter_stop armed }, some (leaf fail))
      else (aimed, none)

  -- the hardware, the counter and the task, once the lock is held and the object is not active
  unfoldable pub bring_up :
      ActivateAnswers → Adc C S A → Option ℕ → Option ℕ → Adc C S A × Option Dterr
  bring_up answers self fn context =
      let begun : Adc C S A = record self {
        scan_callback_fn = fn;
        scan_callback_context = context;
        status = record { state = starting; dterr = none };
      } in
      let (opened, e) = open_hardware begun in
      let (armed, e_arm) = arm opened in
      let stack = or_default self.config.task_stack_size 4096 in
      let priority = or_default self.config.task_priority constants.priority_urgent_medium in
      let tasked : Adc C S A = record armed { reader_tasker = true } in
      elim e [
        | some x ↦ (opened, some x)
        | none ↦ elim e_arm [
          | some x ↦ (armed, some x)
          | none ↦ elim (answers.tasker_create stack priority) [
            | some x ↦ (armed, some x)
            | none ↦ elim answers.tasker_start [
              | some x ↦ (tasked, some x)
              | none ↦ (record tasked { is_active = true }, none)
            ]
          ]
        ]
      ]

  -- `cleanup` with an error
  unfoldable pub tear_down : Adc C S A → Adc C S A
  unfolding close_hardware
  tear_down self =
      let quiet = driver.counter_stop (driver.counter_cancel_channel_alarm self.counter) in
      record (close_hardware self) { counter = quiet; reader_tasker = false; is_active = false }

  unfoldable pub finish_activate : Adc C S A × Option Dterr → Adc C S A × Option Dterr
  unfolding tear_down
  finish_activate (self, none) = (self, none)
  finish_activate (self, some e) = (tear_down self, rewrap (some e))

  -- `fn` is `none` for NULL.
  unfoldable pub activate :
      ActivateAnswers → Adc C S A → Option ℕ → Option ℕ → Adc C S A × Option Dterr
  unfolding finish_activate
  activate answers self none context = finish_activate (self, some (leaf argument_null))
  activate answers self (some fn) context = finish_activate (
      if not self.is_configured then (self, some (leaf badconfig)) else elim answers.lock_acquire [
        | some e ↦ (self, some e)
        | none ↦
            if self.is_active
            then (self, some (leaf badconfig))
            else bring_up answers self (some fn) context
      ])

  -- The lock is granted each time. `states` are the states seen in the waits, at most 50; what the
  -- reader does to the object meanwhile are steps of its own.
  unfoldable pub deactivate : Adc C S A → List State → Adc C S A
  unfolding close_hardware request_stop
  deactivate self states =
      let stopping = request_stop driver kernel adc self in
      let closed = close_hardware stopping in
      if not self.is_active then self else record closed {
        reader_tasker = false;
        is_active = false;
        held = wait_over (self.held + 1 - 1) (take 50 states) + 1 - 1;
      }

  -- The object is freed: what is left of its devices.
  unfoldable pub dispose : Adc C S A → List State → C × A
  unfolding deactivate
  dispose self states =
      let ended = if self.is_active then deactivate self states else self in
      (ended.counter, ended.adc)

  unfoldable pub get_status : Adc C S A → Option Dterr → Bool → Option Status × Option Dterr
  get_status self lock_acquire false = (none, some (leaf argument_null))
  get_status self (some e) true = (none, some e)
  get_status self none true = (some self.status, none)
