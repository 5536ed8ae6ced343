-- ===== src/Port/Ticks.antt =====
-- A concrete counter of one megahertz, a timer that is on or off, a tick semaphore, and an ADC.
use dtmc_zephyr.Prelude.{ℕ, ℤ, ◌+◌, refl, Bool, true, false, Option, none, some, List, [], ◌∷◌}
use dtmc_zephyr.Port.Adc.{AdcDriver, AdcConstants}
use dtmc_zephyr.Err.{success}
use dtmc_zephyr.Port.Counter.{CounterDriver, KernelTimer, TickSemaphore}

pub record Clock : Type 0 where
  pub armed : Option ℕ
  pub on : Bool
  pub value : ℕ

abbrev pub megahertz : CounterDriver Clock
megahertz = record {
  alarm = λ c. c.armed;
  running = λ c. c.on;
  counter_get_frequency = λ c. 1000000;
  counter_get_value = λ c. c.value;
  counter_get_top_value = λ c. 4294967295;
  counter_start = λ c. (record c { on = true }, success);
  counter_stop = λ c. record c { on = false };
  counter_set_channel_alarm = λ c target late. (record c { armed = some target }, success);
  counter_cancel_channel_alarm = λ c. record c { armed = none };
  counter_elapse = λ c. record c { value = c.value + 40 };
  stop_stops = λ c. refl;
  stop-alarm = λ c. refl;
  cancel_disarms = λ c. refl;
}

abbrev pub on_or_off : KernelTimer Bool
on_or_off = record {
  running = λ t. t;
  k_timer_init = false;
  k_timer_start = λ t n. true;
  k_timer_stop = λ t. false;
  start_runs = λ t n. refl;
  stop_stops = λ t. refl;
}

abbrev pub one_tick : TickSemaphore ℕ
one_tick = record {
  count = λ n. n;
  k_sem_init = 0;
  k_sem_give = λ n. 1;
  k_sem_take = λ n. 0;
  init-count = refl;
  give-count = λ n. refl;
  take-count = λ n h. refl;
}

-- An ADC that gives the values it holds, one after another, and then fails.
abbrev pub next_value : List ℤ → List ℤ × Option ℤ
next_value [] = ([], none)
next_value (v ∷ vs) = (vs, some v)

abbrev pub scripted_adc : AdcDriver (List ℤ)
scripted_adc = record {
  has_adc = true;
  device_is_ready = λ a. true;
  adc_channel_setup = λ a cfg. (a, true);
  adc_read = λ a q. next_value a;
}

abbrev pub some_constants : AdcConstants
some_constants = record {
  ain0 = 1;
  ain1 = 2;
  ain2 = 3;
  ain3 = 4;
  gain_1_6 = 5;
  ref_internal = 6;
  acq_time_40us = 40;
  priority_urgent_medium = 13;
}
