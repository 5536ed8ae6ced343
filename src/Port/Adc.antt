-- ===== src/Port/Adc.antt =====
-- The Zephyr ADC driver, and the constants of Zephyr and dtmc_base that the ADC backend names.
use dtmc_zephyr.Prelude.{ℕ, ℤ, Bool, Option}

-- NRF_SAADC_INPUT_…, ADC_GAIN_1_6, ADC_REF_INTERNAL, ADC_ACQ_TIME(ADC_ACQ_TIME_MICROSECONDS, 40) and
-- DTTASKER_PRIORITY_URGENT_MEDIUM
pub record AdcConstants : Type 0 where
  pub ain0 : ℕ
  pub ain1 : ℕ
  pub ain2 : ℕ
  pub ain3 : ℕ
  pub gain_1_6 : ℕ
  pub ref_internal : ℕ
  pub acq_time_40us : ℕ
  pub priority_urgent_medium : ℕ

-- `struct adc_channel_cfg`, as far as it is set
pub record ChannelCfg : Type 0 where
  pub gain : ℕ
  pub reference : ℕ
  pub acquisition_time : ℕ
  pub channel_id : ℕ
  pub input_positive : ℕ

-- `struct adc_sequence`, as far as it is not constant
pub record Sequence : Type 0 where
  pub channels : ℕ
  pub resolution : ℕ

pub record AdcDriver (A : Type 0) : Type 0 where
  -- whether the devicetree has an ADC
  pub has_adc : Bool
  pub device_is_ready : A → Bool
  -- whether the result is 0
  pub adc_channel_setup : A → ChannelCfg → A × Bool
  -- the value that was stored, or `none` for a result that is not 0
  pub adc_read : A → Sequence → A × Option ℤ
