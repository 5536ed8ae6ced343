-- ===== src/Gpio/Ringing.antt =====
-- The interrupt of a pin that is attached, enabled and disposed.
use dtmc_zephyr.Prelude.{
  ℕ, ◌<◌, ◌≡◌, refl, sym, ◌∙◌, ap, subst, Bool, true, false, not, Option, none, some, List, [], ◌∷◌,
  ◌++◌, length, get_or, length-set, leb, arith, Bool-cases, inl, inr,
}
use dtmc_zephyr.Err.{is_success, is_negative}
use dtmc_zephyr.Port.Gpio.{GpioDriver}
use dtmc_zephyr.Gpio.Object.{Config, PortState, World}
use dtmc_zephyr.Gpio.Methods.{pin_at, port_at, put_port, bind_port, claim, attach, enable, dispose}
use dtmc_zephyr.Gpio.Interrupt.{serve, port_isr}
use dtmc_zephyr.Gpio.Visits.{set_bits, serve_all, isr_exact}
use dtmc_zephyr.Gpio.Enable.{enable-IsOwner}
use dtmc_zephyr.Gpio.Owner.{
  IsOwner, port_at-put_port, claim-IsOwner, serve-IsOwner, dispose_owner, serve_nobody,
}
use dtmc_zephyr.Gpio.Attach.{IsLaidOut, pin_split, port_of, local_of, bind_bound, attach_unready}

module _ {G : Type 0} (driver : GpioDriver G) where
  bind_ready :
      (w : World G) (i : ℕ)
      → (port_at w i).dev ≡ false
      → driver.device_is_ready w.gpio i ≡ true
      → bind_port driver w i ≡ (put_port w i (record (port_at w i) { dev = true }), true)
  unfolding bind_port
  bind_ready w i h r = rw (h, r) refl

  attach_claims :
      (w b : World G) (h fn : ℕ) (context : Option ℕ)
      → leb 2 (port_of driver w h) ≡ false
      → bind_port driver w (port_of driver w h) ≡ (b, true)
      → attach driver w h (some fn) context
        ≡ claim driver b h (port_of driver w h) (local_of driver w h) (some fn) context
  unfolding attach
  attach_claims w b h fn context low bound = rw (low, bound) refl

  claimed-IsOwner :
      (w b : World G) (h fn : ℕ) (context : Option ℕ)
      → let port = port_of driver b h in
        let local = local_of driver b h in
        attach driver w h (some fn) context ≡ claim driver b h port local (some fn) context
        → h < length b.pins
        → port < length b.s_ports
        → local < length (port_at b port).owner
        → (port_at b port).dev ≡ true
        → (attach driver w h (some fn) context).1 ≡ none
        → IsOwner (attach driver w h (some fn) context).0 h port local fn context
  claimed-IsOwner w b h fn context same slot ports owners dev done =
      subst (λ r. IsOwner r.0 h (port_of driver b h) (local_of driver b h) fn context) (sym same)
        (claim-IsOwner driver b h fn context slot ports owners dev
          (sym (ap (λ r. r.1) same) ∙ done))

  attach-IsOwner :
      (w : World G) (h fn : ℕ) (context : Option ℕ)
      → (pin_at w h).config.pin_number < 64
      → IsLaidOut w
      → h < length w.pins
      → (attach driver w h (some fn) context).1 ≡ none
      → IsOwner
          (attach driver w h (some fn) context).0
          h
          (port_of driver w h)
          (local_of driver w h)
          fn
          context
  attach-IsOwner w h fn context small laid slot done =
      let port = port_of driver w h in
      let split = pin_split (pin_at w h).config.pin_number small in
      let low : leb 2 port ≡ false = ground (arith, split.0) in
      let ports : port < length w.s_ports = omega (arith, split.0, laid.ports) in
      let owners : local_of driver w h < length (port_at w port).owner =
        omega (arith, split.1, laid.owners port split.0) in
      elim (Bool-cases (port_at w port).dev) [
        | inl dev ↦
            claimed-IsOwner w w h fn context
              (attach_claims w w h fn context low (bind_bound driver w port dev)) slot ports owners
              dev done
        | inr dev ↦ elim (Bool-cases (driver.device_is_ready w.gpio port)) [
          | inr not_ready ↦ absurd (
              cc (
                done,
                ap (λ r. r.1) (attach_unready driver w h (some fn) context low dev not_ready),
              ))
          | inl ready ↦
              let ps : PortState = record (port_at w port) { dev = true } in
              let b = put_port w port ps in
              let at_port = port_at-put_port w port ps ports in
              claimed-IsOwner w b h fn context
                (attach_claims w b h fn context low (bind_ready w port dev ready)) slot
                (omega (arith, length-set w.s_ports port ps, ports)) (rw at_port owners)
                (ap (λ (q : PortState). q.dev) at_port) done
        ]
      ]

  -- An object with a pin number below 64 that is attached with a callback and enabled, both without
  -- an error: an interrupt of its port with the bit of its pin alone calls its callback once, with
  -- its context and the edge that the level of the pin says, if the level can be read; and
  -- `dispose` leaves no owner for the pin, so that the same interrupt reads no object and calls
  -- nothing.
  pub pin_rings :
      (zeros : Config) (w : World G) (h fn : ℕ) (context : Option ℕ) (pins : List Bool)
      → (pin_at w h).config.pin_number < 64
      → IsLaidOut w
      → h < length w.pins
      → (attach driver w h (some fn) context).1 ≡ none
      → (enable driver (attach driver w h (some fn) context).0 h true).1 ≡ none
      → set_bits 0 pins ≡ local_of driver w h ∷ []
      → let v = (enable driver (attach driver w h (some fn) context).0 h true).0 in
        let port = port_of driver w h in
        let level = driver.gpio_pin_get v.gpio (some port) (local_of driver w h) in
        is_negative level ≡ false
        → (port_isr driver v port pins
            ≡ record { cb = fn; is_rising = not (is_success level); caller_context = context } ∷ [])
          × (get_or (port_at (dispose driver zeros v h) port).owner (local_of driver w h) none
              ≡ none)
          × (port_isr driver (dispose driver zeros v h) port pins ≡ [])
  pin_rings zeros w h fn context pins small laid slot attached enabled bit level =
      let port = port_of driver w h in
      let local = local_of driver w h in
      let split = pin_split (pin_at w h).config.pin_number small in
      let (u, e) = attach driver w h (some fn) context in
      let v = (enable driver u h true).0 in
      let own = attach-IsOwner w h fn context small laid slot attached in
      let (mine, on) = enable-IsOwner driver u h port local fn context true own split.0 enabled in
      let one : (x : World G) → port_isr driver x port pins ≡ serve driver x port local ++ [] =
        λ x. isr_exact driver x port pins split.0 ∙ ap (serve_all driver x port) bit in
      let nobody = dispose_owner driver zeros v h port local fn context mine split.0 in
      (
        one v
            ∙ ap (λ l. l ++ [])
                (serve-IsOwner driver v h port local fn context mine split.1 on level),
        nobody,
        one (dispose driver zeros v h)
            ∙ ap (λ l. l ++ []) (serve_nobody driver (dispose driver zeros v h) port local nobody),
      )
