-- ===== src/Port/Gpio.antt =====
-- The Zephyr GPIO driver: devices by port, and their pins.
use dtmc_zephyr.Prelude.{ℕ, Bool, Option}
use dtmc_zephyr.Err.{Rc}

-- The flags that the sources set, as bits of `gpio_flags_t`.
pub record Flags : Type 0 where
  pub input : Bool
  pub output : Bool
  pub open_drain : Bool
  pub pull_up : Bool
  pub pull_down : Bool

pub record GpioDriver (G : Type 0) : Type 0 where
  pub device_is_ready : G → ℕ → Bool
  pub gpio_pin_configure : G → ℕ → ℕ → Flags → G × Rc
  -- GPIO_INT_EDGE_BOTH or GPIO_INT_DISABLE
  pub gpio_pin_interrupt_configure : G → ℕ → ℕ → Bool → G × Rc
  -- of a device that may be NULL
  pub gpio_pin_get : G → Option ℕ → ℕ → Rc
  pub gpio_pin_set : G → Option ℕ → ℕ → Bool → G × Rc
  -- the callback of a port is added
  pub gpio_add_callback : G → ℕ → G
