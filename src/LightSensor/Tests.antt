-- ===== src/LightSensor/Tests.antt =====
-- The gains of a light sensor at concrete inputs.
use dtmc_zephyr.Prelude.{pos, ◌≡◌, refl, none, some}
use dtmc_zephyr.Port.Sensor.{SensorConstants}
use dtmc_zephyr.LightSensor.Methods.{gain_value}

abbrev tsl2591 : SensorConstants
tsl2591 = record {
  chan_light = 17;
  gain_low = pos 0;
  gain_med = pos 16;
  gain_high = pos 32;
  gain_max = pos 48;
  eoverflow = 139;
}

-- DTLIGHTSENSOR_ZEPHYR_GAIN_MAX is 4, and is refused; 5, which is no gain, is taken as the maximum.
gains :
    (gain_value tsl2591 (pos 3) ≡ some (pos 32))
    × (gain_value tsl2591 (pos 4) ≡ none)
    × (gain_value tsl2591 (pos 5) ≡ some (pos 48))
unfolding gain_value
gains = (refl, refl, refl)
