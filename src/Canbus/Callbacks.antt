-- ===== src/Canbus/Callbacks.antt =====
-- dtiox_zephyr_canbus_callbacks.c and dtiox_zephyr_canbus_helpers.c. The context pointer that the
-- driver hands back is the object, never NULL.
use dtmc_zephyr.Prelude.{
  ℕ, ℤ, pos_part, ◌-◌, Bool, true, false, ◌&&◌, Option, none, some, List, [], ◌∷◌, ltb, leb, length,
  take, if◌then◌else◌,
}
use dtmc_zephyr.Err.{Rc, is_success, Dterr, leaf, fail}
use dtmc_zephyr.Port.Ring.{RingFifo}
use dtmc_zephyr.Port.Core.{CoreHelper}
use dtmc_zephyr.Port.Can.{
  CanState, error_active, error_passive, CanBusErrCnt, CanFrame, CanEvent, rx_event, tx_event,
  state_change_event, CanDriver,
}
use dtmc_zephyr.Canbus.Object.{Canbus}

-- `self->cur_state != CAN_STATE_ERROR_ACTIVE && self->cur_state != CAN_STATE_ERROR_PASSIVE`
abbrev pub is_bad_state : CanState → Bool
is_bad_state error_active = false
is_bad_state error_passive = false
is_bad_state _ = true

module _ {F : Type 0} (ring : RingFifo F) (core : CoreHelper) where
  -- Push bytes into the FIFO. The source pointer is not NULL; `len` is the list's length.
  unfoldable pub rx_fifo_push : Canbus F → List ℕ → Canbus F × ℕ
  rx_fifo_push self src =
      let (fifo, written) = ring.push self.rx_fifo src in
      let dropped = length src - written in
      let pushed : Canbus F = record self { rx_fifo = fifo } in
      if leb (length src) 0
      then (self, 0)
      else if ltb 0 dropped
      then (
        record pushed {
          rx_overflow_flag = true;
          fifo_dropped_bytes = core.add32 self.fifo_dropped_bytes dropped;
        },
        written,
      )
      else (pushed, written)

  -- Pop at most `len` bytes.
  unfoldable pub rx_fifo_pop : Canbus F → ℤ → Canbus F × List ℕ
  rx_fifo_pop self len =
      let (fifo, bytes) = ring.pop self.rx_fifo (pos_part len) in
      if leb (pos_part len) 0 then (self, []) else (record self { rx_fifo = fifo }, bytes)

  -- FAIL unless the controller is ERROR_ACTIVE or ERROR_PASSIVE.
  unfoldable pub check_error_state : Canbus F → Canbus F × Option Dterr
  check_error_state self =
      if is_bad_state self.cur_state
      then (record self { rx_error_count = core.inc32 self.rx_error_count }, some (leaf fail))
      else (self, none)

  unfoldable pub tx_callback : Canbus F → Rc → Canbus F
  tx_callback self error =
      if is_success error
      then record self { last_tx_error = error }
      else record self { tx_error_count = core.inc32 self.tx_error_count; last_tx_error = error }

  unfoldable pub state_change_callback : Canbus F → CanState → CanBusErrCnt → Canbus F
  state_change_callback self state err_cnt = record self {
    state_change_count = core.inc32 self.state_change_count;
    cur_state = state;
    last_err_cnt = err_cnt;
  }

  module _ {B : Type 0} (driver : CanDriver B) where
    -- `can_dlc_to_bytes`, at most 8
    abbrev pub frame_len : CanFrame → ℕ
    frame_len frame = let n = driver.can_dlc_to_bytes frame.dlc in if ltb 8 n then 8 else n

    -- The Boolean says whether `dtsemaphore_post(self->rx_semaphore)` is called.
    unfoldable pub rx_callback : Canbus F → Option CanFrame → Canbus F × Bool
    rx_callback self none = (
      record self {
        stats = record (self.stats) { rx_callback_calls = core.inc32 self.stats.rx_callback_calls };
      },
      false,
    )
    rx_callback self (some frame) =
        let len = frame_len frame in
        let counted : Canbus F = record self {
          stats = record (self.stats) {
            rx_callback_calls = core.inc32 self.stats.rx_callback_calls;
            rx_callback_bytes = core.add32 self.stats.rx_callback_bytes len;
          };
        } in
        let pushed = (rx_fifo_push counted (take len frame.bytes)).0 in
        if self.rx_enabled && ltb 0 len
        then (
          record pushed {
            stats = record (pushed.stats) { rx_bytes = core.add32 pushed.stats.rx_bytes len };
          },
          true,
        )
        else (counted, false)

    -- A callback, as the driver calls it.
    unfoldable pub on_event : Canbus F → CanEvent → Canbus F
    on_event self (rx_event frame) = (rx_callback self frame).0
    on_event self (tx_event error) = tx_callback self error
    on_event self (state_change_event state err_cnt) = state_change_callback self state err_cnt

    -- The callbacks that run while a driver call blocks.
    unfoldable pub on_events : Canbus F → List CanEvent → Canbus F
    on_events self [] = self
    on_events self (e ∷ es) = on_events (on_event self e) es
