-- ===== src/Gpio/Interrupt.antt =====
-- `_zephyr_port_isr`. The calls of the callbacks are listed; a callback does not change the objects.
use dtmc_zephyr.Prelude.{
  ℕ, zero, suc, Bool, not, ◌||◌, Option, none, some, List, [], ◌∷◌, ◌++◌, ltb, length, get_or,
  if◌then◌else◌,
}
use dtmc_zephyr.Err.{is_success, is_negative}
use dtmc_zephyr.Port.Gpio.{GpioDriver}
use dtmc_zephyr.Gpio.Object.{Pin, World}
use dtmc_zephyr.Gpio.Word.{any, ctz, minus_one, and_bits}
use dtmc_zephyr.Gpio.Methods.{pin_at, port_at, dev_at}

-- A call of a callback: the function, the edge (rising or falling), and the context.
pub record Call : Type 0 where
  pub cb : ℕ
  pub is_rising : Bool
  pub caller_context : Option ℕ

module _ {G : Type 0} (driver : GpioDriver G) where
  abbrev call_owner : World G → ℕ → ℕ → Pin → List Call
  call_owner w port bit owner =
      let rc = driver.gpio_pin_get w.gpio (dev_at w port) bit in
      elim owner.cb [
        | none ↦ []
        | some fn ↦
            if not owner.irq_enabled || is_negative rc
            then []
            else record {
              cb = fn;
              is_rising = not (is_success rc);
              caller_context = owner.caller_context;
            }
              ∷ []
      ]

  -- one turn of the loop: the call for one bit, if there is one
  unfoldable pub serve : World G → ℕ → ℕ → List Call
  serve w port bit =
      if not (ltb bit 32) then [] else elim (get_or (port_at w port).owner bit none) [
        | none ↦ []
        | some h ↦ call_owner w port bit (pin_at w h)
      ]

  -- `while (pins)`, on fuel
  unfoldable pub isr_loop : ℕ → World G → ℕ → List Bool → List Call
  unfolding serve
  isr_loop zero w port pins = []
  isr_loop (suc fuel) w port pins =
      let later = isr_loop fuel w port (and_bits pins (minus_one pins)) in
      if any pins then serve w port (ctz pins) ++ later else []

  -- `port` is the one of the callback that the driver passes.
  unfoldable pub port_isr : World G → ℕ → List Bool → List Call
  port_isr w port pins = if ltb port 2 then isr_loop (length pins) w port pins else []
