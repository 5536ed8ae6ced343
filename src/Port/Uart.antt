-- ===== src/Port/Uart.antt =====
-- The Zephyr UART driver with its interrupts: a hardware FIFO of bytes that came in, and a wire.
use dtmc_zephyr.Prelude.{ℕ, ◌≤◌, ◌≡◌, Bool, Option, some, List, ◌++◌, length, take, drop}
use dtmc_zephyr.Err.{Rc}
use dtmc_zephyr.Port.Serial.{CfgParity, CfgStopBits, CfgDataBits, CfgFlow}

-- `struct uart_config`
pub record ZephyrUartConfig : Type 0 where
  pub baudrate : ℕ
  pub parity : CfgParity
  pub stop_bits : CfgStopBits
  pub data_bits : CfgDataBits
  pub flow_ctrl : CfgFlow

pub record UartDriver (U : Type 0) : Type 0 where
  -- the bytes that wait in the hardware FIFO, and those that went out, oldest first
  pub incoming : U → List ℕ
  pub sent : U → List ℕ
  pub usb_enable : U → U
  pub device_get_binding : List ℕ → Bool
  pub device_is_ready : U → Bool
  pub uart_config_get : U → Rc
  pub uart_configure : U → ZephyrUartConfig → U × Rc
  pub uart_irq_callback_user_data_set : U → U × Rc
  pub uart_irq_tx_enable : U → U
  pub uart_irq_tx_disable : U → U
  pub uart_irq_rx_enable : U → U
  pub uart_irq_rx_disable : U → U
  -- the results are tested against 0
  pub uart_irq_update : U → U × Bool
  pub uart_irq_tx_ready : U → Bool
  pub uart_irq_rx_ready : U → Bool
  -- at most so many bytes, `none` for a negative result
  pub uart_fifo_read : U → ℕ → U × Option (List ℕ)
  -- how many bytes were taken, `none` for a negative result
  pub uart_fifo_fill : U → List ℕ → U × Option ℕ
  -- the documented behaviour
  pub read_takes :
      (u : U) (n : ℕ) (bytes : List ℕ)
      → (uart_fifo_read u n).1 ≡ some bytes
      → (bytes ≡ take n (incoming u)) × (incoming (uart_fifo_read u n).0 ≡ drop n (incoming u))
  pub fill_sends :
      (u : U) (bytes : List ℕ) (n : ℕ)
      → (uart_fifo_fill u bytes).1 ≡ some n
      → (n ≤ length bytes) × (sent (uart_fifo_fill u bytes).0 ≡ sent u ++ take n bytes)
  pub tx_disable_sends_nothing : (u : U) → sent (uart_irq_tx_disable u) ≡ sent u
