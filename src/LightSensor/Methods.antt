-- ===== src/LightSensor/Methods.antt =====
-- The methods of the light sensor. The object is not NULL.
use dtmc_zephyr.Prelude.{
  ℕ, ℤ, pos, negsuc, Bool, true, false, not, Option, none, some, ltb, ◌==◌, is_some, if◌then◌else◌,
}
use dtmc_zephyr.Err.{Rc, negative, other, Dterr, leaf, wrap, badarg, fail, nomem, is_success}
use dtmc_zephyr.Port.Sensor.{
  SensorConstants, integration_time, gain_mode, SensorValue, SensorDriver,
}
use dtmc_zephyr.LightSensor.Object.{Config, LightSensor, zeroed}

-- an error put round the one that a method ends with
abbrev pub failing : Option Dterr → Option Dterr
failing none = none
failing (some e) = some (wrap fail e)

-- `rc == -EOVERFLOW`
abbrev pub is_eoverflow : SensorConstants → Rc → Bool
is_eoverflow k (negative (other n)) = n == k.eoverflow
is_eoverflow k _ = false

abbrev pub is_zero : ℤ → Bool
is_zero (pos n) = n == 0
is_zero (negsuc n) = false

-- The gain as the TSL2591 has it, or an error: the comparisons in the order of the source.
unfoldable pub gain_value : SensorConstants → ℤ → Option ℤ
gain_value k (negsuc n) = none
gain_value k (pos n) =
    if n == 1
    then some k.gain_low
    else if n == 2
    then some k.gain_med
    else if n == 3
    then some k.gain_high
    else if ltb 4 n
    then some k.gain_max
    else none

module _ {D : Type 0} (driver : SensorDriver D) (constants : SensorConstants) where
  -- `vtable` is what `dtlightsensor_set_vtable` answers.
  unfoldable pub init : ℕ → D → Option Dterr → LightSensor D × Option Dterr
  init model d vtable = (record (zeroed d) { model_number = model }, failing vtable)

  -- `has_memory` is whether `malloc` gives memory. The object is freed after an error.
  unfoldable pub create : Bool → ℕ → D → Option Dterr → Option (LightSensor D) × Option Dterr
  unfolding init
  create false model d vtable = (none, failing (some (leaf nomem)))
  create true model d vtable =
      let (self, e) = init model d vtable in
      elim e [
        | some x ↦ (none, failing (some x))
        | none ↦ (some (record self { is_malloced = true }), none)
      ]

  -- The configuration is stored before the check.
  unfoldable pub configure : LightSensor D → Config → LightSensor D × Option Dterr
  configure self config =
      let stored : LightSensor D = record self { config = config } in
      if is_some config.device_name
      then (record stored { sensor_channel = constants.chan_light }, none)
      else (stored, failing (some (leaf badarg)))

  unfoldable pub set_integration_time : LightSensor D → LightSensor D × Option Dterr
  set_integration_time self =
      let time = self.config.integration_time_milliseconds in
      let val : SensorValue = record { val1 = time; val2 = pos 0 } in
      let (d, rc) =
        driver.sensor_attr_set self.driver_state self.dev self.sensor_channel integration_time
          val in
      if is_zero time
      then (self, none)
      else (record self { driver_state = d }, if is_success rc then none else some (leaf fail))

  unfoldable pub set_gain : LightSensor D → LightSensor D × Option Dterr
  unfolding gain_value
  set_gain self =
      if is_zero self.config.gain
      then (self, none)
      else elim (gain_value constants self.config.gain) [
        | none ↦ (self, some (leaf badarg))
        | some g ↦
            let val : SensorValue = record { val1 = g; val2 = pos 0 } in
            let (d, rc) =
              driver.sensor_attr_set self.driver_state self.dev self.sensor_channel gain_mode val in
            (record self { driver_state = d }, if is_success rc then none else some (leaf fail))
      ]

  unfoldable pub activate : LightSensor D → LightSensor D × Option Dterr
  unfolding set_integration_time set_gain
  activate self =
      let bound : LightSensor D = record self {
        dev = driver.device_get_binding self.driver_state self.config.device_name;
      } in
      let (timed, e_time) = set_integration_time bound in
      let (gained, e_gain) = set_gain timed in
      if not (driver.device_is_ready self.driver_state bound.dev)
      then (bound, failing (some (leaf fail)))
      else elim e_time [ some x ↦ (timed, failing (some x)) | none ↦ (gained, failing e_gain) ]

  -- The sample is `none` where it is not written; -1 says that the sensor is saturated.
  unfoldable pub sample : LightSensor D → LightSensor D × Option ℤ × Option Dterr
  sample self =
      let (d, rc) = driver.sensor_sample_fetch self.driver_state self.dev in
      let fetched : LightSensor D = record self { driver_state = d } in
      let (lux, rc_get) = driver.sensor_channel_get d self.dev self.sensor_channel in
      if is_eoverflow constants rc
      then (fetched, some (negsuc 0), none)
      else if not (is_success rc)
      then (fetched, none, failing (some (leaf fail)))
      else if not (is_success rc_get)
      then (fetched, none, failing (some (leaf fail)))
      else (fetched, some (driver.to_int64 lux), none)

  -- What is left of the object.
  unfoldable pub dispose : LightSensor D → Option (LightSensor D)
  dispose self = if self.is_malloced then none else some (zeroed self.driver_state)
