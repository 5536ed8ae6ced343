-- ===== src/Adc/Object.antt =====
-- `dtadc_zephyr_saadc_t` and its parts.
use dtmc_zephyr.Prelude.{ℕ, ℤ, pos, negsuc, Bool, false, Option, none, List, [], replicate}
use dtmc_zephyr.Err.{Dterr}
use dtmc_zephyr.Port.Adc.{ChannelCfg}

-- `dtadc_zephyr_saadc_channel_config_t`
pub record ChannelConfig : Type 0 where
  pub channel_id : ℤ
  pub input_positive : ℕ
  pub gain : ℕ
  pub reference : ℕ
  pub acquisition_time : ℕ
  pub resolution : ℕ

-- `dtadc_zephyr_saadc_config_t`; `counter_dev` says whether the device is not NULL.
-- The info callback of the task and its context are left out: they are only passed to the tasker.
pub record Config : Type 0 where
  pub scan_interval_ms : ℤ
  pub task_stack_size : ℤ
  pub task_priority : ℤ
  pub channel_count : ℤ
  pub channels : List ChannelConfig
  pub counter_dev : Bool

-- `dtadc_zephyr_saadc_channel_runtime_t`
pub record ChannelRuntime : Type 0 where
  pub channel_id : ℤ
  pub input_positive : ℕ
  pub gain : ℕ
  pub reference : ℕ
  pub acquisition_time : ℕ
  pub resolution : ℕ
  pub channel_cfg : ChannelCfg

-- DTADC_STATE_…, and the state that `memset` leaves
pub data State : Type 0 where
  unset starting active stopped error : State

-- `dtadc_status_t`
pub record Status : Type 0 where
  pub state : State
  pub dterr : Option Dterr

-- `dtadc_scan_t`, with the channels that its pointer shows
pub record Scan : Type 0 where
  pub timestamp_ns : ℕ
  pub sequence_number : ℕ
  pub channels : List ℤ

-- `dtadc_zephyr_saadc_t`, with its counter and its ADC. `held` is how often the thread that calls the
-- methods has acquired the lock and not released it; `scans` are the scans that the callback was
-- given, oldest first.
pub record Adc (C S A : Type 0) : Type 0 where
  pub model_number : ℕ
  pub config : Config
  pub is_configured : Bool
  pub is_active : Bool
  pub lock : Bool
  pub held : ℕ
  pub reader_tasker : Bool
  pub tick_sem : S
  pub period_ticks : ℕ
  pub next_alarm : ℕ
  pub should_pause : Bool
  pub counter_prev : ℕ
  pub counter_base : ℕ
  pub scan_callback_fn : Option ℕ
  pub scan_callback_context : Option ℕ
  pub sequence_number : ℕ
  pub scan_timestamp_ns : ℕ
  pub channels : List ℤ
  pub channel_runtime : List ChannelRuntime
  pub adc_dev : Bool
  pub status : Status
  pub counter : C
  pub adc : A
  pub scans : List Scan

abbrev pub zero_channel : ChannelConfig
zero_channel = record {
  channel_id = pos 0;
  input_positive = 0;
  gain = 0;
  reference = 0;
  acquisition_time = 0;
  resolution = 0;
}

abbrev pub zero_config : Config
zero_config = record {
  scan_interval_ms = pos 0;
  task_stack_size = pos 0;
  task_priority = pos 0;
  channel_count = pos 0;
  channels = replicate 8 zero_channel;
  counter_dev = false;
}

-- a runtime descriptor with `channel_id` -1
abbrev pub no_runtime : ChannelRuntime
no_runtime = record {
  channel_id = negsuc 0;
  input_positive = 0;
  gain = 0;
  reference = 0;
  acquisition_time = 0;
  resolution = 0;
  channel_cfg = record {
    gain = 0;
    reference = 0;
    acquisition_time = 0;
    channel_id = 0;
    input_positive = 0;
  };
}

-- a runtime descriptor that `memset` leaves
abbrev pub zero_runtime : ChannelRuntime
zero_runtime = record no_runtime { channel_id = pos 0 }

-- The object that `memset` leaves, round a semaphore and devices.
abbrev pub zeroed : {C S A : Type 0} → S → C → A → Adc C S A
zeroed sem counter adc = record {
  model_number = 0;
  config = zero_config;
  is_configured = false;
  is_active = false;
  lock = false;
  held = 0;
  reader_tasker = false;
  tick_sem = sem;
  period_ticks = 0;
  next_alarm = 0;
  should_pause = false;
  counter_prev = 0;
  counter_base = 0;
  scan_callback_fn = none;
  scan_callback_context = none;
  sequence_number = 0;
  scan_timestamp_ns = 0;
  channels = replicate 8 (pos 0);
  channel_runtime = replicate 8 zero_runtime;
  adc_dev = false;
  status = record { state = unset; dterr = none };
  counter = counter;
  adc = adc;
  scans = [];
}
