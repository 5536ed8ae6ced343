-- ===== src/Port/Serial.antt =====
-- UART settings: those of dtmc_base (`dtuart_helper_config_t`) and those of Zephyr. An enumeration
-- has the values that the sources name, and the rest.
use dtmc_zephyr.Prelude.{ℕ}

-- DTUART_PARITY_…
pub data Parity : Type 0 where
  parity_none parity_odd parity_even : Parity
  other_parity : ℕ → Parity

-- DTUART_STOPBITS_…
pub data StopBits : Type 0 where
  stop_1 stop_2 : StopBits
  other_stop : ℕ → StopBits

-- DTUART_DATA_BITS_…
pub data DataBits : Type 0 where
  data_7 data_8 : DataBits
  other_data : ℕ → DataBits

-- DTUART_FLOW_…
pub data Flow : Type 0 where
  flow_none flow_rtscts : Flow
  other_flow : ℕ → Flow

-- `dtuart_helper_config_t`
pub record UartConfig : Type 0 where
  pub baudrate : ℕ
  pub parity : Parity
  pub data_bits : DataBits
  pub stop_bits : StopBits
  pub flow : Flow

-- UART_CFG_PARITY_…, UART_CFG_STOP_BITS_…, UART_CFG_DATA_BITS_…, UART_CFG_FLOW_CTRL_…
pub data CfgParity : Type 0 where
  cfg_parity_none cfg_parity_odd cfg_parity_even : CfgParity

pub data CfgStopBits : Type 0 where
  cfg_stop_1 cfg_stop_2 : CfgStopBits

pub data CfgDataBits : Type 0 where
  cfg_data_7 cfg_data_8 : CfgDataBits

pub data CfgFlow : Type 0 where
  cfg_flow_none cfg_flow_rts_cts : CfgFlow
