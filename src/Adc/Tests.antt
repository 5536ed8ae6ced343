-- ===== src/Adc/Tests.antt =====
-- The ADC at concrete inputs: tests, and the theorems applied.
use dtmc_zephyr.Prelude.{
  ℕ, ℤ, pos, negsuc, ◌*◌, ◌/◌, ◌≡◌, ◌++◌, ◌↔◌, refl, true, false, none, some, List, [], ◌∷◌, arith,
  replicate,
}
use dtmc_zephyr.Err
use dtmc_zephyr.Err.{Dterr, leaf, wrap, badarg, badconfig}
use dtmc_zephyr.Port.Ticks.{Clock, megahertz, one_tick, scripted_adc, some_constants}
use dtmc_zephyr.Adc.Object.{
  Config, Adc, zeroed, zero_channel, State, starting, active, stopped, no_runtime,
}
use dtmc_zephyr.Adc.Config.{init_defaults, validate_config, validate_channels, has_duplicate}
use dtmc_zephyr.Adc.Time.{to_ns}
use dtmc_zephyr.Adc.Scan.{
  Running, waiting, ended, alarms, stops, wakes, on_tick, stamp, read_channels, run, step, wake,
}
use dtmc_zephyr.Adc.Lifecycle.{
  ActivateAnswers, configure, activate, deactivate, bring_up, open_hardware, setup_channels, arm,
}
use dtmc_zephyr.Adc.Valid.{IsUsable, validate_config_iff}
use dtmc_zephyr.Adc.Clock.{to_ns_exact, shown, totals, totals_exact}
use dtmc_zephyr.Adc.Delivery.{ScanOutcome, values, scan_all_or_nothing}
use dtmc_zephyr.Adc.Sequence.{Extends, scans_numbered, stop_ends}
use dtmc_zephyr.Adc.Misuse.{activate_twice, deactivate_lock}

abbrev defaults : Config
defaults = record (init_defaults some_constants) { counter_dev = true }

-- The defaults are accepted when a counter is given, and not with a channel that is there twice.
defaults_valid :
    (validate_config defaults ≡ none)
    × (validate_config
          (record defaults { channels = replicate 8 (record zero_channel { resolution = 8 }) })
        ≡ some (leaf badarg))
unfolding init_defaults validate_config validate_channels has_duplicate
defaults_valid = (refl, refl)

validate_config_iff_example : (validate_config defaults ≡ none) ↔ IsUsable defaults
validate_config_iff_example = validate_config_iff defaults

to_ns_exact_example : to_ns 32768 100000 ≡ 100000 * 1000000000 / 32768
to_ns_exact_example = to_ns_exact 32768 100000 (omega arith) (omega arith) (omega arith)

totals_exact_example :
    totals 99 (record { counter_prev = 0; counter_base = 0 }) (shown 99 (80 ∷ 130 ∷ 229 ∷ []))
    ≡ 80 ∷ 130 ∷ 229 ∷ []
totals_exact_example = totals_exact 99 (80 ∷ 130 ∷ 229 ∷ []) (omega arith)

abbrev fresh : Adc Clock ℕ (List ℤ)
fresh =
    zeroed 0 (record { armed = none; on = false; value = 100 })
      (pos 5 ∷ negsuc 2 ∷ pos 7 ∷ pos 8 ∷ [])

abbrev granted : ActivateAnswers
granted = record {
  lock_acquire = none;
  tasker_create = λ stack priority. none;
  tasker_start = none;
}

-- Activated with two channels.
abbrev two_channels : Config
two_channels = record defaults { channel_count = pos 2 }

up_and_running :
    let configured =
      configure megahertz one_tick scripted_adc some_constants fresh (some two_channels) in
    let (t, e) =
      activate megahertz one_tick scripted_adc some_constants granted configured.0
        (some 1)
        (some 2) in
    (configured.1 ≡ none)
    × (e ≡ none)
    × (t.is_active ≡ true)
    × (t.status.state ≡ starting)
    × (t.next_alarm ≡ 100100)
    × (t.counter.armed ≡ some 100100)
unfolding configure validate_config validate_channels has_duplicate init_defaults activate bring_up
    open_hardware setup_channels arm
up_and_running = (refl, refl, refl, refl, refl, refl)

-- An active object with the descriptors of two channels.
abbrev up : Adc Clock ℕ (List ℤ)
up = record fresh {
  config = two_channels;
  is_configured = true;
  is_active = true;
  lock = true;
  reader_tasker = true;
  adc_dev = true;
  period_ticks = 100000;
  next_alarm = 100100;
  channel_runtime =
      record no_runtime { channel_id = pos 0; resolution = 12 }
      ∷ record no_runtime { channel_id = pos 1; resolution = 12 }
      ∷ replicate 6 no_runtime;
}

abbrev reader : Running Clock ℕ (List ℤ)
reader = record { self = up; reader = waiting }

-- Two ticks, two scans; the third finds no values, and ends the reader.
two_scans :
    let tick = alarms ∷ wakes none ∷ [] in
    let t = run megahertz one_tick scripted_adc reader (tick ++ tick ++ tick) in
    (t.self.scans
      ≡ record {
        timestamp_ns = 100000;
        sequence_number = 0;
        channels = pos 5 ∷ negsuc 2 ∷ replicate 6 (pos 0);
      }
        ∷ record {
          timestamp_ns = 140000;
          sequence_number = 1;
          channels = pos 7 ∷ pos 8 ∷ replicate 6 (pos 0);
        }
        ∷ [])
    × (t.reader ≡ ended (some (leaf Err.state)))
    × (t.self.status.state ≡ State.error)
unfolding run step wake on_tick stamp read_channels init_defaults
two_scans = (refl, refl, refl)

scan_all_or_nothing_example :
    let (t, e) = on_tick megahertz one_tick scripted_adc up none in
    ScanOutcome megahertz one_tick scripted_adc up none t e (
      values scripted_adc up.adc (
        record no_runtime { channel_id = pos 0; resolution = 12 }
        ∷ record no_runtime { channel_id = pos 1; resolution = 12 }
        ∷ []))
unfolding init_defaults
scan_all_or_nothing_example =
    scan_all_or_nothing megahertz one_tick scripted_adc up none (omega arith)

scans_numbered_example :
    Extends up (run megahertz one_tick scripted_adc reader (alarms ∷ wakes none ∷ [])).self
scans_numbered_example =
    scans_numbered megahertz one_tick scripted_adc reader (alarms ∷ wakes none ∷ [])

stop_ends_example :
    let before =
      run megahertz one_tick scripted_adc
        (step megahertz one_tick scripted_adc reader stops)
        (alarms ∷ []) in
    let t = step megahertz one_tick scripted_adc before (wakes none) in
    (t.reader ≡ ended none) × (t.self.status.state ≡ stopped) × (t.self.scans ≡ before.self.scans)
stop_ends_example = stop_ends megahertz one_tick scripted_adc reader (alarms ∷ []) none refl tt

activate_twice_example :
    let (t, e) =
      activate megahertz one_tick scripted_adc some_constants granted up (some 1) (some 2) in
    (e ≡ some (wrap badconfig (leaf badconfig)))
    × (t.counter.on ≡ false)
    × (t.counter.armed ≡ none)
    × (t.adc_dev ≡ false)
    × (t.reader_tasker ≡ false)
    × (t.is_active ≡ false)
    × (t.should_pause ≡ false)
    × (t.tick_sem ≡ 0)
activate_twice_example =
    activate_twice megahertz one_tick scripted_adc some_constants granted up 1 (some 2) refl refl
      refl

deactivate_lock_example :
    let t = deactivate megahertz one_tick scripted_adc some_constants up (active ∷ stopped ∷ []) in
    (t.is_active ≡ false) × (t.held ≡ 1)
deactivate_lock_example =
    deactivate_lock megahertz one_tick scripted_adc some_constants up (active ∷ stopped ∷ []) refl
