-- ===== src/Adc/Config.antt =====
-- The defaults, the check of a configuration, and the runtime descriptor of a channel.
use dtmc_zephyr.Prelude.{
  ℕ, ℤ, pos, negsuc, pos_part, is_negative, ◌%◌, Bool, false, not, ◌||◌, Option, none, some, List,
  [], ◌∷◌, ltb, leb, ◌==◌, take, replicate, if◌then◌else◌,
}
use dtmc_zephyr.Err.{Dterr, leaf, badarg}
use dtmc_zephyr.Port.Adc.{AdcConstants}
use dtmc_zephyr.Adc.Object.{ChannelConfig, Config, ChannelRuntime, zero_channel}

-- channel `id` on an input, with the common settings
abbrev pub default_channel : AdcConstants → ℕ → ℕ → ChannelConfig
default_channel k id input = record {
  channel_id = pos id;
  input_positive = input;
  gain = k.gain_1_6;
  reference = k.ref_internal;
  acquisition_time = k.acq_time_40us;
  resolution = 12;
}

-- `config_init_defaults`; the counter is left NULL.
unfoldable pub init_defaults : AdcConstants → Config
init_defaults k = record {
  scan_interval_ms = pos 100;
  task_stack_size = pos 4096;
  task_priority = pos k.priority_urgent_medium;
  channel_count = pos 4;
  channels =
      default_channel k 0 k.ain0
      ∷ default_channel k 1 k.ain1
      ∷ default_channel k 2 k.ain2
      ∷ default_channel k 3 k.ain3
      ∷ replicate 4 zero_channel;
  counter_dev = false;
}

abbrev pub eq_int : ℤ → ℤ → Bool
eq_int (pos a) (pos b) = a == b
eq_int (negsuc a) (negsuc b) = a == b
eq_int (pos a) (negsuc b) = false
eq_int (negsuc a) (pos b) = false

-- `for (j = i + 1; …)`: whether a later channel has the id
unfoldable pub has_duplicate : ℤ → List ChannelConfig → Bool
has_duplicate id [] = false
has_duplicate id (c ∷ rest) = eq_int id c.channel_id || has_duplicate id rest

-- `for (i = 0; i < cfg->channel_count; i++)`
unfoldable pub validate_channels : List ChannelConfig → Option Dterr
validate_channels [] = none
validate_channels (c ∷ rest) =
    let later = validate_channels rest in
    if is_negative c.channel_id || leb 8 (pos_part c.channel_id)
    then some (leaf badarg)
    else if leb c.resolution 0
    then some (leaf badarg)
    else if has_duplicate c.channel_id rest
    then some (leaf badarg)
    else later

unfoldable pub validate_config : Config → Option Dterr
validate_config cfg =
    if not cfg.counter_dev
    then some (leaf badarg)
    else if leb (pos_part cfg.scan_interval_ms) 0
    then some (leaf badarg)
    else if leb (pos_part cfg.channel_count) 0 || ltb 8 (pos_part cfg.channel_count)
    then some (leaf badarg)
    else validate_channels (take (pos_part cfg.channel_count) cfg.channels)

unfoldable pub resolve_channel : ChannelConfig → ChannelRuntime
resolve_channel src = record {
  channel_id = src.channel_id;
  input_positive = src.input_positive;
  gain = src.gain;
  reference = src.reference;
  acquisition_time = src.acquisition_time;
  resolution = src.resolution;
  channel_cfg = record {
    gain = src.gain;
    reference = src.reference;
    acquisition_time = src.acquisition_time;
    channel_id = pos_part src.channel_id % 256;
    input_positive = src.input_positive;
  };
}
