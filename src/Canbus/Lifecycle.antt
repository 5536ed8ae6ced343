-- ===== src/Canbus/Lifecycle.antt =====
-- Creation, configuration, attachment and disposal: the other methods of dtiox_zephyr_canbus.c.
-- No callback runs inside these.
use dtmc_zephyr.Prelude.{
  ℕ, pos_part, Bool, true, false, ◌&&◌, ◌||◌, not, Option, none, some, leb, if◌then◌else◌,
}
use dtmc_zephyr.Err.{
  success, Dterr, leaf, fail, badarg, nomem, argument_null, negerror_c, is_negative, rc_value,
  rewrap, or_else,
}
use dtmc_zephyr.Port.Ring.{RingFifo}
use dtmc_zephyr.Port.Core.{CoreHelper}
use dtmc_zephyr.Port.Host.{Host}
use dtmc_zephyr.Port.Can.{error_active, CanDriver}
use dtmc_zephyr.Canbus.Object.{Config, Canbus, World, zeroed, zero_stats, zero_err_cnt}

module _ {F : Type 0} (ring : RingFifo F) (host : Host) (model : ℕ) where
  unfoldable pub init : Canbus F → Canbus F × Option Dterr
  init self =
      let (fifo, e) = ring.init ring.blank in
      let ready : Canbus F = record (zeroed fifo) {
        model_number = model;
        cur_state = error_active;
      } in
      let registered = or_else (host.dtiox_set_vtable model) (host.dtobject_set_vtable model) in
      (ready, rewrap (or_else e registered))

  -- The new object (`none` for NULL) and the error. `has_out` says that `self_ptr` is not NULL.
  unfoldable pub create : Bool → Option (Canbus F) × Option Dterr
  unfolding init
  create has_out =
      let (self, e) = init (zeroed ring.blank) in
      if not has_out
      then (none, some (leaf argument_null))
      else if not host.has_memory
      then (none, some (leaf nomem))
      else elim e [
        | some x ↦ (none, rewrap (some x))
        | none ↦ (some (record self { is_malloced = true }), none)
      ]

module _ {F : Type 0} (ring : RingFifo F) (host : Host) where
  -- `cfg` is `none` for NULL.
  unfoldable pub configure : Canbus F → Option Config → Canbus F × Option Dterr
  configure self none = (self, some (leaf argument_null))
  configure self (some cfg) =
      let taken : Canbus F = record self {
        config = cfg;
        tx_retry_milliseconds = 100;
        tx_retry_count = 5;
      } in
      let n = pos_part cfg.rx_ring_capacity in
      let (fifo, e) = ring.configure self.rx_fifo n in
      if leb n 0 then (taken, some (leaf badarg)) else elim (host.dtbuffer_create n) [
        | some x ↦ (taken, some x)
        | none ↦ (record taken { rx_fifo_buffer = some n; rx_fifo = fifo }, e)
      ]

unfoldable pub set_rx_semaphore : {F : Type 0} → Canbus F → Option ℕ → Canbus F
set_rx_semaphore self rx_semaphore = record self { rx_semaphore = rx_semaphore }

module _ {F B : Type 0} (ring : RingFifo F) (core : CoreHelper) (driver : CanDriver B) where
  -- the catch-all filter, then the counters and flags
  attach_filter : World F B → World F B × Option Dterr
  attach_filter w =
      let (bus, filter_id) = driver.can_add_rx_filter w.bus in
      let added : World F B = record w { bus = bus } in
      if is_negative filter_id then (added, some (leaf fail)) else (
        record added {
          self = record (w.self) {
            rx_filter_id = rc_value filter_id;
            rx_filter_is_installed = true;
            rx_enabled = false;
            rx_overflow_flag = false;
            fifo_dropped_bytes = 0;
            rx_error_count = 0;
            stats = zero_stats;
          };
        },
        none,
      )

  -- from `can_start` on
  attach_started : World F B → World F B × Option Dterr
  unfolding attach_filter
  attach_started w =
      let (bus, rc) = driver.can_start w.bus in
      let started : Canbus F = record (w.self) { dev_started = true } in
      let (got, state, err_cnt) = driver.can_get_state bus w.self.cur_state w.self.last_err_cnt in
      let known : World F B = record {
        self = record started { cur_state = state; last_err_cnt = err_cnt };
        bus = bus;
      } in
      let filtered = attach_filter known in
      elim (negerror_c rc) [
        | some e ↦ (record w { bus = bus }, some e)
        | none ↦ elim (negerror_c got) [ some e ↦ (known, some e) | none ↦ filtered ]
      ]

  -- the code under `cleanup`
  attach_cleanup : World F B × Option Dterr → World F B × Option Dterr
  attach_cleanup (w, none) = (w, none)
  attach_cleanup (w, some e) = (
    if w.self.dev_started && w.self.can_dev
        then record { self = record (w.self) { dev_started = false }; bus = driver.can_stop w.bus }
        else w,
    some e,
  )

  unfoldable pub attach : World F B → World F B × Option Dterr
  unfolding attach_started attach_cleanup
  attach w =
      let found : Canbus F = record (w.self) { can_dev = true } in
      let ready : World F B = record w { self = record found { dev_ready = true } } in
      attach_cleanup (
        if not (driver.device_is_ready w.bus)
        then (record w { self = found }, some (leaf fail))
        else attach_started ready)

  -- Take the filter away and stop the controller, as `detach` and `dispose` do.
  release : World F B → World F B
  release w =
      let unfiltered : World F B =
        if w.self.can_dev && w.self.rx_filter_is_installed
        then record {
          self = record (w.self) { rx_filter_is_installed = false };
          bus = driver.can_remove_rx_filter w.bus w.self.rx_filter_id;
        }
        else w in
      if unfiltered.self.can_dev && unfiltered.self.dev_started
      then record {
        self = record (unfiltered.self) { dev_started = false };
        bus = driver.can_stop unfiltered.bus;
      }
      else unfiltered

  unfoldable pub detach : World F B → World F B
  unfolding release
  detach w =
      let quiet = release (record w { self = record (w.self) { rx_enabled = false } }) in
      record quiet {
        self = record (quiet.self) {
          rx_fifo = ring.reset quiet.self.rx_fifo;
          fifo_dropped_bytes = 0;
          rx_overflow_flag = false;
          stats = record (quiet.self.stats) {
            rx_bytes = 0;
            rx_calls = 0;
            tx_bytes = 0;
            tx_calls = 0;
          };
          rx_error_count = 0;
          tx_error_count = 0;
          last_tx_error = success;
          last_err_cnt = zero_err_cnt;
          state_change_count = 0;
        };
      }

  -- The buffer is freed besides; the object itself is not.
  unfoldable pub dispose : World F B → World F B
  unfolding release
  dispose w = release (record w { self = record (w.self) { rx_enabled = false } })

module _ {F : Type 0} (ring : RingFifo F) (core : CoreHelper) where
  unfoldable pub enable : Canbus F → Bool → Canbus F × Option Dterr
  enable self enable_rx_irq =
      let switched : Canbus F = record self { rx_enabled = enable_rx_irq } in
      if not self.dev_ready || not self.dev_started
      then (record self { rx_error_count = core.inc32 self.rx_error_count }, some (leaf fail))
      else if enable_rx_irq
      then (
        record switched {
          rx_fifo = ring.reset self.rx_fifo;
          rx_overflow_flag = false;
          fifo_dropped_bytes = 0;
          rx_error_count = 0;
          stats = zero_stats;
        },
        none,
      )
      else (switched, none)
