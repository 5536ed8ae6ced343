-- ===== src/Uartirq/Object.antt =====
-- `dtiox_zephyr_uartirq_t` and its parts (dtiox_zephyr_uartirq__internals.h).
use dtmc_zephyr.Prelude.{ℕ, ℤ, pos, Bool, false, Option, none, List}
use dtmc_zephyr.Port.Serial.{UartConfig, parity_none, data_8, stop_1, flow_none}

-- `dtiox_zephyr_uartirq_config_t`; the name is `none` for NULL.
pub record Config : Type 0 where
  pub device_tree_name : Option (List ℕ)
  pub uart_config : UartConfig
  pub rx_capacity : ℤ
  pub tx_capacity : ℤ

-- `dtiox_zephyr_uartirq_stats_t`
pub record Stats : Type 0 where
  pub irq_count : ℕ
  pub irq_monitor_count : ℕ
  pub irq_error_count : ℕ
  pub tx_ready_count : ℕ
  pub tx_pushed : ℕ
  pub tx_dropped : ℕ
  pub tx_popped : ℕ
  pub tx_error_count : ℕ
  pub rx_ready_count : ℕ
  pub rx_error_count : ℕ
  pub rx_dropped : ℕ
  pub rx_popped : ℕ

abbrev pub zero_stats : Stats
zero_stats = record {
  irq_count = 0;
  irq_monitor_count = 0;
  irq_error_count = 0;
  tx_ready_count = 0;
  tx_pushed = 0;
  tx_dropped = 0;
  tx_popped = 0;
  tx_error_count = 0;
  rx_ready_count = 0;
  rx_error_count = 0;
  rx_dropped = 0;
  rx_popped = 0;
}

-- `dev` says whether the device is bound; a buffer is its length, `none` for NULL; `posts` counts
-- the calls of `dtsemaphore_post` on the receive semaphore.
pub record Uartirq (F : Type 0) : Type 0 where
  pub model_number : ℕ
  pub is_malloced : Bool
  pub config : Config
  pub dev : Bool
  pub rx_semaphore : Option ℕ
  pub posts : ℕ
  pub enabled : Bool
  pub stats : Stats
  pub tx_fifo : F
  pub tx_fifo_buffer : Option ℕ
  pub rx_fifo : F
  pub rx_fifo_buffer : Option ℕ

-- The object that `memset` leaves, round FIFOs in their zeroed state.
abbrev pub zeroed : {F : Type 0} → F → Uartirq F
zeroed fifo = record {
  model_number = 0;
  is_malloced = false;
  config = record {
    device_tree_name = none;
    uart_config = record {
      baudrate = 0;
      parity = parity_none;
      data_bits = data_8;
      stop_bits = stop_1;
      flow = flow_none;
    };
    rx_capacity = pos 0;
    tx_capacity = pos 0;
  };
  dev = false;
  rx_semaphore = none;
  posts = 0;
  enabled = false;
  stats = zero_stats;
  tx_fifo = fifo;
  tx_fifo_buffer = none;
  rx_fifo = fifo;
  rx_fifo_buffer = none;
}

-- The object with the driver.
pub record Line (F U : Type 0) : Type 0 where
  pub self : Uartirq F
  pub dev : U
