-- ===== src/Gpio/Enable.antt =====
-- What `enable` keeps of an object that owns its pin.
use dtmc_zephyr.Prelude.{
  ℕ, ◌<◌, ◌≡◌, refl, sym, ◌∙◌, ap, subst, Bool, true, false, not, ◌&&◌, Option, none, some, length,
  length-set, set, get_or, leb, arith, Bool-cases, inl, inr,
}
use dtmc_zephyr.Err.{Rc, is_success}
use dtmc_zephyr.Port.Gpio.{GpioDriver}
use dtmc_zephyr.Gpio.Object.{Config, Pin, PortState, World, no_port, no_word}
use dtmc_zephyr.Gpio.Methods.{
  port_from_global, local_from_global, pin_at, put_pin, port_at, mask_pin, enable,
}
use dtmc_zephyr.Gpio.Owner.{IsOwner, pin_at-put_pin, port_at-put_port}
use dtmc_zephyr.Gpio.Attach.{port_of, local_of}

module _ {G : Type 0} (driver : GpioDriver G) where
  -- a change of the pin and of the port that keeps the owner and the callback
  keep-IsOwner :
      (w v : World G) (h port local fn : ℕ) (context : Option ℕ) (p : Pin) (ps : PortState)
      → IsOwner w h port local fn context
      → v.pins ≡ set w.pins h (some p)
      → v.s_ports ≡ set w.s_ports port ps
      → p.config ≡ (pin_at w h).config
      → p.cb ≡ (pin_at w h).cb
      → p.caller_context ≡ (pin_at w h).caller_context
      → ps.dev ≡ true
      → ps.owner ≡ (port_at w port).owner
      → IsOwner v h port local fn context × (pin_at v h ≡ p)
  keep-IsOwner w v h port local fn context p ps o pins ports same_config same_cb same_context dev
        owners =
      let at_pin : pin_at v h ≡ p =
        ap (λ l. pin_at (record w { pins = l }) h) pins ∙ pin_at-put_pin w h p o.slot in
      let at_port : port_at v port ≡ ps =
        ap (λ l. get_or l port no_port) ports ∙ port_at-put_port w port ps o.ports in
      (
        record {
          slot = omega (arith, length-set w.pins h (some p), o.slot, ap length pins);
          ports = omega (arith, length-set w.s_ports port ps, o.ports, ap length ports);
          owners = rw at_port (rw owners o.owners);
          port_number =
              ap (λ (q : Pin). port_from_global q.config.pin_number) at_pin
              ∙ ap (λ (c : Config). port_from_global c.pin_number) same_config
              ∙ o.port_number;
          local_number =
              ap (λ (q : Pin). local_from_global q.config.pin_number) at_pin
              ∙ ap (λ (c : Config). local_from_global c.pin_number) same_config
              ∙ o.local_number;
          dev = ap (λ (q : PortState). q.dev) at_port ∙ dev;
          owner =
              ap (λ (q : PortState). get_or q.owner local none) at_port
              ∙ ap (λ l. get_or l local none) owners
              ∙ o.owner;
          cb = ap (λ (q : Pin). q.cb) at_pin ∙ same_cb ∙ o.cb;
          context = ap (λ (q : Pin). q.caller_context) at_pin ∙ same_context ∙ o.context;
        },
        at_pin,
      )

  mask_pin_keeps :
      (w : World G) (port local : ℕ) (on : Bool)
      → (ps : PortState) × ((mask_pin driver w port local on).pins ≡ w.pins)
        × ((mask_pin driver w port local on).s_ports ≡ set w.s_ports port ps)
        × (ps.dev ≡ (port_at w port).dev)
        × (ps.owner ≡ (port_at w port).owner)
  unfolding mask_pin
  mask_pin_keeps w port local on = elim (Bool-cases (on && not (port_at w port).callback_added)) [
    | inl h ↦
        let ps : PortState = record (port_at w port) {
          callback_added = true;
          pin_mask = set no_word local true;
        } in
        (ps, rw h refl, rw h refl, refl, refl)
    | inr h ↦
        let ps : PortState = record (port_at w port) {
          pin_mask = set (port_at w port).pin_mask local on;
        } in
        (ps, rw h refl, rw h refl, refl, refl)
  ]

  abbrev interrupt_answer : World G → ℕ → ℕ → Bool → G × Rc
  interrupt_answer w port local on = driver.gpio_pin_interrupt_configure w.gpio port local on

  enable_success :
      (w : World G) (h : ℕ) (on : Bool)
      → (enable driver w h on).1 ≡ none
      → is_success (interrupt_answer w (port_of driver w h) (local_of driver w h) on).1 ≡ true
  unfolding enable
  enable_success w h on done =
      elim (Bool-cases
        (is_success (interrupt_answer w (port_of driver w h) (local_of driver w h) on).1)) [
          | inl ok ↦ ok
          | inr bad ↦ absurd (ground (arith, bad, done))
        ]

  enable_result :
      (w : World G) (h : ℕ) (on : Bool)
      → let port = port_of driver w h in
        let local = local_of driver w h in
        leb 2 port ≡ false
        → (port_at w port).dev ≡ true
        → is_success (interrupt_answer w port local on).1 ≡ true
        → (enable driver w h on).0
          ≡ put_pin
              (mask_pin driver
                (record w { gpio = (interrupt_answer w port local on).0 })
                port
                local
                on)
              h
              (record (pin_at w h) { irq_enabled = on })
  unfolding enable
  enable_result w h on low dev ok = rw (low, dev, ok) refl

  move-IsOwner :
      (w : World G) (h p q l m fn : ℕ) (context : Option ℕ)
      → p ≡ q
      → l ≡ m
      → IsOwner w h p l fn context
      → IsOwner w h q m fn context
  move-IsOwner w h p q l m fn context e f o =
      subst (λ x. IsOwner w h q x fn context) f (subst (λ x. IsOwner w h x l fn context) e o)

  pub enable-IsOwner :
      (w : World G) (h port local fn : ℕ) (context : Option ℕ) (on : Bool)
      → IsOwner w h port local fn context
      → port < 2
      → (enable driver w h on).1 ≡ none
      → IsOwner (enable driver w h on).0 h port local fn context
        × ((pin_at (enable driver w h on).0 h).irq_enabled ≡ on)
  enable-IsOwner w h port local fn context on o low done =
      let i = port_of driver w h in
      let j = local_of driver w h in
      let here =
        move-IsOwner w h port i local j fn context (sym o.port_number) (sym o.local_number) o in
      let low_port : leb 2 i ≡ false = ground (arith, o.port_number) in
      let ok = enable_success w h on done in
      let (gpio, rc) = interrupt_answer w i j on in
      let result = enable_result w h on low_port here.dev ok in
      let set_up : World G = record w { gpio = gpio } in
      let (ps, pins, ports, dev, owners) = mask_pin_keeps set_up i j on in
      let p : Pin = record (pin_at w h) { irq_enabled = on } in
      let v = (enable driver w h on).0 in
      let (kept, at_pin) =
        keep-IsOwner w v h i j fn context p ps here
          (ap (λ (x : World G). x.pins) result ∙ ap (λ l. set l h (some p)) pins)
          (ap (λ (x : World G). x.s_ports) result ∙ ports) refl refl refl (dev ∙ here.dev) owners in
      (
        move-IsOwner v h i port j local fn context o.port_number o.local_number kept,
        ap (λ (q : Pin). q.irq_enabled) at_pin,
      )
