-- ===== src/Canbus/Object.antt =====
-- `dtiox_zephyr_canbus_t` and its parts (dtiox_zephyr_canbus_internals.h). The receive FIFO is a
-- value of the type `F` that `dtringfifo` works on; a pointer that is only tested is a `Bool`, a
-- semaphore handle a number.
use dtmc_zephyr.Prelude.{ℕ, ℤ, pos, Bool, false, Option, none}
use dtmc_zephyr.Err.{Rc, success}
use dtmc_zephyr.Port.Can.{CanState, error_active, CanBusErrCnt}

-- `dtiox_zephyr_canbus_config_t`
pub record Config : Type 0 where
  pub txid : ℕ
  pub use_extended_id : Bool
  pub rx_ring_capacity : ℤ

-- `dtiox_zephyr_canbus_stats_t`
pub record Stats : Type 0 where
  pub rx_callback_bytes : ℕ
  pub rx_callback_calls : ℕ
  pub rx_bytes : ℕ
  pub rx_calls : ℕ
  pub tx_bytes : ℕ
  pub tx_calls : ℕ

-- `memset(&self->stats, 0, …)`
abbrev pub zero_stats : Stats
zero_stats = record {
  rx_callback_bytes = 0;
  rx_callback_calls = 0;
  rx_bytes = 0;
  rx_calls = 0;
  tx_bytes = 0;
  tx_calls = 0;
}

abbrev pub zero_err_cnt : CanBusErrCnt
zero_err_cnt = record { tx_err_cnt = 0; rx_err_cnt = 0 }

pub record Canbus (F : Type 0) : Type 0 where
  pub model_number : ℕ
  pub is_malloced : Bool
  pub config : Config
  pub can_dev : Bool
  pub dev_ready : Bool
  pub dev_started : Bool
  pub rx_fifo : F
  -- the length of the buffer, if there is one
  pub rx_fifo_buffer : Option ℕ
  pub rx_semaphore : Option ℕ
  pub rx_filter_is_installed : Bool
  pub rx_filter_id : ℕ
  pub rx_enabled : Bool
  pub rx_overflow_flag : Bool
  pub fifo_dropped_bytes : ℕ
  pub stats : Stats
  pub rx_error_count : ℕ
  pub tx_error_count : ℕ
  pub tx_retry_milliseconds : ℕ
  pub tx_retry_count : ℕ
  pub last_tx_error : Rc
  pub cur_state : CanState
  pub last_err_cnt : CanBusErrCnt
  pub state_change_count : ℕ

-- The object that `memset` leaves, round a FIFO in its zeroed state.
abbrev pub zeroed : {F : Type 0} → F → Canbus F
zeroed fifo = record {
  model_number = 0;
  is_malloced = false;
  config = record { txid = 0; use_extended_id = false; rx_ring_capacity = pos 0 };
  can_dev = false;
  dev_ready = false;
  dev_started = false;
  rx_fifo = fifo;
  rx_fifo_buffer = none;
  rx_semaphore = none;
  rx_filter_is_installed = false;
  rx_filter_id = 0;
  rx_enabled = false;
  rx_overflow_flag = false;
  fifo_dropped_bytes = 0;
  stats = zero_stats;
  rx_error_count = 0;
  tx_error_count = 0;
  tx_retry_milliseconds = 0;
  tx_retry_count = 0;
  last_tx_error = success;
  cur_state = error_active;
  last_err_cnt = zero_err_cnt;
  state_change_count = 0;
}

-- What a method works on: the object and the driver's state.
pub record World (F B : Type 0) : Type 0 where
  pub self : Canbus F
  pub bus : B
