-- ===== src/Gpio/Tests.antt =====
-- One pin of the second port, whose level is high, and the theorems applied to it.
use dtmc_zephyr.Prelude.{
  ℕ, zero, suc, ◌<◌, ◌≡◌, refl, length, set, get_or, Bool, true, false, none, some, List, [], ◌∷◌,
  arith,
}
use dtmc_zephyr.Err.{success, positive, leaf, fail}
use dtmc_zephyr.Port.Gpio.{GpioDriver}
use dtmc_zephyr.Gpio.Object.{
  Config, World, initial, no_port, no_word, mode_inout, pull_up, drive_default,
}
use dtmc_zephyr.Gpio.Methods.{bind_port, claim, attach, enable, dispose, port_at}
use dtmc_zephyr.Gpio.Interrupt.{port_isr}
use dtmc_zephyr.Gpio.Visits.{serve_all, isr_exact}
use dtmc_zephyr.Gpio.Attach.{IsLaidOut, attach_not_ready}
use dtmc_zephyr.Gpio.Ringing.{pin_rings}

-- The hardware is ready or not; levels are high.
abbrev board : GpioDriver Bool
board = record {
  device_is_ready = λ g i. g;
  gpio_pin_configure = λ g i l f. (g, success);
  gpio_pin_interrupt_configure = λ g i l on. (g, success);
  gpio_pin_get = λ g dev l. positive 0;
  gpio_pin_set = λ g dev l level. (g, success);
  gpio_add_callback = λ g i. g;
}

abbrev config : Config
config = record { pin_number = 37; mode = mode_inout; pull = pull_up; drive = drive_default }

abbrev with_pin : Bool → World Bool
with_pin ready = record {
  pins = some (record (initial 3) { config = config }) ∷ [];
  s_ports = no_port ∷ no_port ∷ [];
  gpio = ready;
}

owners_of : (ready : Bool) (i : ℕ) → i < 2 → length (port_at (with_pin ready) i).owner ≡ 32
owners_of ready zero h = refl
owners_of ready (suc zero) h = refl
owners_of ready (suc (suc i)) h = absurd (omega arith)

is_laid_out : (ready : Bool) → IsLaidOut (with_pin ready)
is_laid_out ready = record { ports = refl; owners = owners_of ready }

-- Pin 37 is bit 5 of port 1.
abbrev bit_five : List Bool
bit_five = set no_word 5 true

abbrev attached : World Bool
attached = (attach board (with_pin true) 0 (some 9) (some 4)).0

abbrev enabled : World Bool
enabled = (enable board attached 0 true).0

attached_ok : (attach board (with_pin true) 0 (some 9) (some 4)).1 ≡ none
unfolding attach bind_port claim
attached_ok = refl

enabled_ok : (enable board attached 0 true).1 ≡ none
unfolding attach bind_port claim enable
enabled_ok = refl

pin_rings_example :
    (port_isr board enabled 1 bit_five
      ≡ record { cb = 9; is_rising = true; caller_context = some 4 } ∷ [])
    × (get_or (port_at (dispose board config enabled 0) 1).owner 5 none ≡ none)
    × (port_isr board (dispose board config enabled 0) 1 bit_five ≡ [])
pin_rings_example =
    pin_rings board config (with_pin true) 0 9 (some 4) bit_five (omega arith) (is_laid_out true)
      (omega arith) attached_ok enabled_ok refl refl

isr_exact_example :
    port_isr board enabled 1 (true ∷ false ∷ false ∷ true ∷ false ∷ true ∷ [])
    ≡ serve_all board enabled 1 (0 ∷ 3 ∷ 5 ∷ [])
isr_exact_example =
    isr_exact board enabled 1 (true ∷ false ∷ false ∷ true ∷ false ∷ true ∷ []) (omega arith)

attach_not_ready_example :
    ((attach board (with_pin false) 0 (some 9) none).1 ≡ some (leaf fail))
    × ((attach board (attach board (with_pin false) 0 (some 9) none).0 0 (some 9) none).1 ≡ none)
attach_not_ready_example =
    attach_not_ready board (with_pin false) 0 (some 9) none (omega arith) (is_laid_out false) refl
      refl refl
