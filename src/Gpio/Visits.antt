-- ===== src/Gpio/Visits.antt =====
-- Which pins the interrupt of a port serves.
use dtmc_zephyr.Prelude.{
  ℕ, zero, suc, ◌+◌, ◌<◌, ◌≤◌, ◌≡◌, refl, sym, ◌∙◌, ap, ap₂, Bool, true, false, List, [], ◌∷◌, ◌++◌,
  length, arith, lt→ltb, Bool-cases, inl, inr,
}
use dtmc_zephyr.Port.Gpio.{GpioDriver}
use dtmc_zephyr.Gpio.Object.{World}
use dtmc_zephyr.Gpio.Word.{any, ctz, minus_one, and_bits}
use dtmc_zephyr.Gpio.Interrupt.{Call, serve, isr_loop, port_isr}

-- The numbers of the bits that are set, in order, if the lowest bit has the number `i`.
abbrev pub set_bits : ℕ → List Bool → List ℕ
set_bits i [] = []
set_bits i (true ∷ bits) = i ∷ set_bits (suc i) bits
set_bits i (false ∷ bits) = set_bits (suc i) bits

and_same : (bits : List Bool) → and_bits bits bits ≡ bits
and_same [] = refl
and_same (true ∷ bits) = ap (λ l. true ∷ l) (and_same bits)
and_same (false ∷ bits) = ap (λ l. false ∷ l) (and_same bits)

-- `pins & (pins - 1)` clears the lowest bit that is set, which is bit `ctz(pins)`.
clear_lowest :
    (i : ℕ) (bits : List Bool)
    → any bits ≡ true
    → set_bits i bits ≡ (i + ctz bits) ∷ set_bits i (and_bits bits (minus_one bits))
clear_lowest i [] h = absurd (cc h)
clear_lowest i (true ∷ bits) h =
    let here : i ≡ i + 0 = omega arith in
    ap₂ (λ n l. n ∷ set_bits (suc i) l) here (sym (and_same bits))
clear_lowest i (false ∷ bits) h =
    let here : suc i + ctz bits ≡ i + suc (ctz bits) = omega arith in
    clear_lowest (suc i) bits h
    ∙ ap (λ n. n ∷ set_bits (suc i) (and_bits bits (minus_one bits))) here

none_set : (i : ℕ) (bits : List Bool) → any bits ≡ false → set_bits i bits ≡ []
none_set i [] h = refl
none_set i (true ∷ bits) h = absurd (cc h)
none_set i (false ∷ bits) h = none_set (suc i) bits h

length-and_bits : (xs ys : List Bool) → length (and_bits xs ys) ≤ length xs
length-and_bits [] ys = omega arith
length-and_bits (x ∷ xs) [] = omega arith
length-and_bits (x ∷ xs) (y ∷ ys) = omega (arith, length-and_bits xs ys)

set_bits-bounded : (i : ℕ) (bits : List Bool) → length (set_bits i bits) ≤ length bits
set_bits-bounded i [] = omega arith
set_bits-bounded i (true ∷ bits) = omega (arith, set_bits-bounded (suc i) bits)
set_bits-bounded i (false ∷ bits) = omega (arith, set_bits-bounded (suc i) bits)

module _ {G : Type 0} (driver : GpioDriver G) where
  -- the calls for a list of bits
  abbrev pub serve_all : World G → ℕ → List ℕ → List Call
  serve_all w port [] = []
  serve_all w port (bit ∷ bits) = serve driver w port bit ++ serve_all w port bits

  loop_serves :
      (fuel : ℕ) (w : World G) (port : ℕ) (pins : List Bool)
      → length (set_bits 0 pins) ≤ fuel
      → isr_loop driver fuel w port pins ≡ serve_all w port (set_bits 0 pins)
  unfolding isr_loop
  loop_serves zero w port pins h = elim (Bool-cases (any pins)) [
    | inr r ↦ ap (serve_all w port) (sym (none_set 0 pins r))
    | inl r ↦ absurd (omega (arith, ap length (clear_lowest 0 pins r), h))
  ]
  loop_serves (suc fuel) w port pins h = elim (Bool-cases (any pins)) [
    | inr r ↦ rw r (ap (serve_all w port) (sym (none_set 0 pins r)))
    | inl r ↦
        let rest = and_bits pins (minus_one pins) in
        let lowest = clear_lowest 0 pins r in
        let here : 0 + ctz pins ≡ ctz pins = omega arith in
        let fewer : length (set_bits 0 rest) ≤ fuel = omega (arith, ap length lowest, h) in
        rw r (
          ap (λ l. serve driver w port (ctz pins) ++ l) (loop_serves fuel w port rest fewer)
          ∙ ap (λ n. serve_all w port (n ∷ set_bits 0 rest)) (sym here)
          ∙ ap (serve_all w port) (sym lowest))
  ]

  -- The interrupt of one of the two ports serves the pins whose bits are set, each of them once and
  -- from the lowest on, and no others; the loop ends.
  pub isr_exact :
      (w : World G) (port : ℕ) (pins : List Bool)
      → port < 2
      → port_isr driver w port pins ≡ serve_all w port (set_bits 0 pins)
  unfolding port_isr
  isr_exact w port pins h =
      rw (lt→ltb port 2 h) (loop_serves (length pins) w port pins (set_bits-bounded 0 pins))
