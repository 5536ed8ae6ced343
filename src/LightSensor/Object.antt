-- ===== src/LightSensor/Object.antt =====
-- `dtlightsensor_zephyr_t` and its configuration.
use dtmc_zephyr.Prelude.{ℕ, ℤ, pos, Bool, false, Option, none, List}

-- `dtlightsensor_zephyr_config_t`; the gain is an `int`.
pub record Config : Type 0 where
  pub device_name : Option (List ℕ)
  pub integration_time_milliseconds : ℤ
  pub gain : ℤ

-- `dtlightsensor_zephyr_t`, with the driver
pub record LightSensor (D : Type 0) : Type 0 where
  pub model_number : ℕ
  pub config : Config
  pub sensor_channel : ℕ
  pub dev : Option ℕ
  pub is_malloced : Bool
  pub driver_state : D

-- The object that `memset` leaves.
abbrev pub zeroed : {D : Type 0} → D → LightSensor D
zeroed d = record {
  model_number = 0;
  config = record { device_name = none; integration_time_milliseconds = pos 0; gain = pos 0 };
  sensor_channel = 0;
  dev = none;
  is_malloced = false;
  driver_state = d;
}
