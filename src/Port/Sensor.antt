-- ===== src/Port/Sensor.antt =====
-- The Zephyr sensor driver, and the constants of the TSL2591 that the light sensor names.
use dtmc_zephyr.Prelude.{ℕ, ℤ, Bool, Option, List}
use dtmc_zephyr.Err.{Rc}

-- SENSOR_CHAN_LIGHT, TSL2591_SENSOR_GAIN_…, and the number of EOVERFLOW
pub record SensorConstants : Type 0 where
  pub chan_light : ℕ
  pub gain_low : ℤ
  pub gain_med : ℤ
  pub gain_high : ℤ
  pub gain_max : ℤ
  pub eoverflow : ℕ

-- SENSOR_ATTR_INTEGRATION_TIME and SENSOR_ATTR_GAIN_MODE
pub data Attribute : Type 0 where
  integration_time gain_mode : Attribute

-- `struct sensor_value`
pub record SensorValue : Type 0 where
  pub val1 : ℤ
  pub val2 : ℤ

-- A device is `none` for NULL.
pub record SensorDriver (D : Type 0) : Type 0 where
  pub device_get_binding : D → Option (List ℕ) → Option ℕ
  pub device_is_ready : D → Option ℕ → Bool
  pub sensor_attr_set : D → Option ℕ → ℕ → Attribute → SensorValue → D × Rc
  pub sensor_sample_fetch : D → Option ℕ → D × Rc
  pub sensor_channel_get : D → Option ℕ → ℕ → SensorValue × Rc
  -- `(int64_t)sensor_value_to_double(…)`
  pub to_int64 : SensorValue → ℤ
