-- ===== src/Modbus/Object.antt =====
-- `dtiox_zephyr_modbus_slave_t` and its parts (dtiox_zephyr_modbus_slave__internals.h). The counters
-- are plain `int32_t` sums in the source; they are kept as numbers here.
use dtmc_zephyr.Prelude.{ℕ, ℤ, Bool, Option, none, List, [], pos, false, replicate}
use dtmc_zephyr.Port.Serial.{UartConfig, parity_none, data_8, stop_1, flow_none}

-- `dtiox_zephyr_modbus_slave_config_t`
pub record Config : Type 0 where
  pub device_tree_name : List ℕ
  pub unit_id : ℕ
  pub uart_config : UartConfig
  pub rx_ring_capacity : ℤ

-- `dtiox_zephyr_modbus_slave_stats_t`
pub record Stats : Type 0 where
  pub m2s_polls_started_count : ℕ
  pub m2s_blobs_started_count : ℕ
  pub s2m_transfers_started_count : ℕ
  pub put_blob_count : ℕ
  pub give_me_any_data_count : ℕ
  pub rx_dropped : ℕ
  pub tx_dropped : ℕ

abbrev pub zero_stats : Stats
zero_stats = record {
  m2s_polls_started_count = 0;
  m2s_blobs_started_count = 0;
  s2m_transfers_started_count = 0;
  put_blob_count = 0;
  give_me_any_data_count = 0;
  rx_dropped = 0;
  tx_dropped = 0;
}

-- `tx_staged_buf` is the payload of the buffer, `none` for NULL; `posts` counts the calls of
-- `dtsemaphore_post` on the receive semaphore.
pub record ModbusSlave (F : Type 0) : Type 0 where
  pub model_number : ℕ
  pub is_malloced : Bool
  pub is_modbus_init_server : Bool
  pub is_callback_processing_enabled : Bool
  pub config : Config
  pub rx_semaphore : Option ℕ
  pub posts : ℕ
  pub iface : ℕ
  pub rx_fifo : F
  pub rx_fifo_buffer : Option ℕ
  pub rx_overflow_pending : Bool
  pub tx_staged_buf : Option (List ℕ)
  pub tx_staged_len : ℕ
  pub tx_staged_pending : Bool
  pub m2s_cmd : ℕ
  pub m2s_len : ℕ
  pub m2s_data_regs : List ℕ
  pub m2s_data_regs_expected : ℕ
  pub m2s_data_regs_written : ℕ
  pub s2m_status : ℕ
  pub s2m_len : ℕ
  pub s2m_data_regs : List ℕ
  pub lock_handle : Bool
  pub stats : Stats

-- The object that `memset` leaves, round a FIFO in its zeroed state.
abbrev pub zeroed : {F : Type 0} → F → ℕ → ModbusSlave F
zeroed fifo max_regs = record {
  model_number = 0;
  is_malloced = false;
  is_modbus_init_server = false;
  is_callback_processing_enabled = false;
  config = record {
    device_tree_name = [];
    unit_id = 0;
    uart_config = record {
      baudrate = 0;
      parity = parity_none;
      data_bits = data_8;
      stop_bits = stop_1;
      flow = flow_none;
    };
    rx_ring_capacity = pos 0;
  };
  rx_semaphore = none;
  posts = 0;
  iface = 0;
  rx_fifo = fifo;
  rx_fifo_buffer = none;
  rx_overflow_pending = false;
  tx_staged_buf = none;
  tx_staged_len = 0;
  tx_staged_pending = false;
  m2s_cmd = 0;
  m2s_len = 0;
  m2s_data_regs = replicate max_regs 0;
  m2s_data_regs_expected = 0;
  m2s_data_regs_written = 0;
  s2m_status = 0;
  s2m_len = 0;
  s2m_data_regs = replicate max_regs 0;
  lock_handle = false;
  stats = zero_stats;
}
