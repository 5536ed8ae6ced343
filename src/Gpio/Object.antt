-- ===== src/Gpio/Object.antt =====
-- `struct dtgpiopin_zephyr_t`, `struct port_state`, and the memory in which they lie.
use dtmc_zephyr.Prelude.{ℕ, Bool, false, Option, none, List, replicate}

-- DTGPIOPIN_MODE_…, DTGPIOPIN_PULL_… and DTGPIOPIN_DRIVE_…, as far as the sources name them
pub data Mode : Type 0 where
  mode_input mode_output mode_inout : Mode
  other_mode : ℕ → Mode

pub data Pull : Type 0 where
  pull_none pull_up pull_down : Pull
  other_pull : ℕ → Pull

pub data Drive : Type 0 where
  drive_default drive_open_drain : Drive
  other_drive : ℕ → Drive

-- `dtgpiopin_zephyr_config_t`
pub record Config : Type 0 where
  pub pin_number : ℕ
  pub mode : Mode
  pub pull : Pull
  pub drive : Drive

-- `struct dtgpiopin_zephyr_t`; a device is named by its port.
pub record Pin : Type 0 where
  pub model_number : ℕ
  pub is_malloced : Bool
  pub config : Config
  pub port_dev : Option ℕ
  pub cb : Option ℕ
  pub caller_context : Option ℕ
  pub irq_enabled : Bool

-- `struct port_state`: whether the device is bound, whether the callback is added, its `pin_mask` as
-- 32 bits from the lowest on, and the owners by local pin, as handles.
pub record PortState : Type 0 where
  pub dev : Bool
  pub callback_added : Bool
  pub pin_mask : List Bool
  pub owner : List (Option ℕ)

-- The objects by their handles, `none` where there is none or it is freed; `s_ports`; and the pins
-- of the hardware.
pub record World (G : Type 0) : Type 0 where
  pub pins : List (Option Pin)
  pub s_ports : List PortState
  pub gpio : G

abbrev pub no_word : List Bool
no_word = replicate 32 false

abbrev pub no_port : PortState
no_port = record {
  dev = false;
  callback_added = false;
  pin_mask = no_word;
  owner = replicate 32 none;
}

-- An object that is zeros, with a model number and the settings of `init`.
abbrev pub initial : ℕ → Pin
initial model = record {
  model_number = model;
  is_malloced = false;
  config = record { pin_number = 0; mode = mode_input; pull = pull_none; drive = drive_default };
  port_dev = none;
  cb = none;
  caller_context = none;
  irq_enabled = false;
}
