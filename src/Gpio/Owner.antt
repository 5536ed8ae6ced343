-- ===== src/Gpio/Owner.antt =====
-- An object that owns a pin: `attach` makes it one, its interrupt calls it, and `dispose` ends it.
use dtmc_zephyr.Prelude.{
  ℕ, ◌<◌, ◌≡◌, refl, sym, ◌∙◌, ap, subst, true, false, not, ◌==◌, Option, none, some, [], ◌∷◌,
  length, length-set, set, get_or, leb, arith, lt→ltb, Bool-cases, inl, inr,
}
use dtmc_zephyr.Err.{Rc, is_success, is_negative}
use dtmc_zephyr.Port.Gpio.{GpioDriver}
use dtmc_zephyr.Gpio.Object.{Config, Pin, PortState, World, no_port}
use dtmc_zephyr.Gpio.Methods.{
  port_from_global, local_from_global, map_flags, pin_at, put_pin, port_at, put_port, claim,
  release, dispose,
}
use dtmc_zephyr.Gpio.Interrupt.{serve}
use dtmc_zephyr.Gpio.Attach.{get_or-set, port_of, local_of}

-- An object that owns a pin, with its callback.
pub record IsOwner {G : Type 0} (w : World G) (h port local fn : ℕ) (given : Option ℕ)
    : Type 0 where
  pub slot : h < length w.pins
  pub ports : port < length w.s_ports
  pub owners : local < length (port_at w port).owner
  pub port_number : port_from_global (pin_at w h).config.pin_number ≡ port
  pub local_number : local_from_global (pin_at w h).config.pin_number ≡ local
  pub dev : (port_at w port).dev ≡ true
  pub owner : get_or (port_at w port).owner local none ≡ some h
  pub cb : (pin_at w h).cb ≡ some fn
  pub context : (pin_at w h).caller_context ≡ given

module _ {G : Type 0} where
  pub pin_at-put_pin :
      (w : World G) (h : ℕ) (p : Pin) → h < length w.pins → pin_at (put_pin w h p) h ≡ p
  pin_at-put_pin w h p inside = rw (pin_at, get_or-set w.pins h (some p) none inside) refl

  pub port_at-put_port :
      (w : World G) (i : ℕ) (ps : PortState)
      → i < length w.s_ports
      → port_at (put_port w i ps) i ≡ ps
  port_at-put_port w i ps inside = get_or-set w.s_ports i ps no_port inside

module _ {G : Type 0} (driver : GpioDriver G) where
  -- the object and the port after a successful `claim`
  abbrev claimed_pin : World G → ℕ → ℕ → ℕ → Option ℕ → Pin
  claimed_pin w h port fn context = record (pin_at w h) {
    port_dev = some port;
    cb = some fn;
    caller_context = context;
  }

  abbrev claimed_port : World G → ℕ → ℕ → ℕ → PortState
  claimed_port w h port local = record (port_at w port) {
    owner = set (port_at w port).owner local (some h);
  }

  abbrev pin_answer : World G → ℕ → ℕ → ℕ → G × Rc
  pin_answer w h port local =
      driver.gpio_pin_configure w.gpio port local (map_flags (pin_at w h).config)

  claim_success :
      (w : World G) (h port local : ℕ) (cb context : Option ℕ)
      → (claim driver w h port local cb context).1 ≡ none
      → is_success (pin_answer w h port local).1 ≡ true
  unfolding claim
  claim_success w h port local cb context done =
      elim (Bool-cases (is_success (pin_answer w h port local).1)) [
        | inl ok ↦ ok
        | inr bad ↦ absurd (ground (arith, bad, done))
      ]

  claim_result :
      (w : World G) (h port local fn : ℕ) (context : Option ℕ)
      → is_success (pin_answer w h port local).1 ≡ true
      → (claim driver w h port local (some fn) context).0
        ≡ put_port
            (put_pin
              (record w { gpio = (pin_answer w h port local).0 })
              h
              (claimed_pin w h port fn context))
            port
            (claimed_port w h port local)
  unfolding claim
  claim_result w h port local fn context ok = rw ok refl

  pub claim-IsOwner :
      (w : World G) (h fn : ℕ) (context : Option ℕ)
      → let port = port_of driver w h in
        let local = local_of driver w h in
        h < length w.pins
        → port < length w.s_ports
        → local < length (port_at w port).owner
        → (port_at w port).dev ≡ true
        → (claim driver w h port local (some fn) context).1 ≡ none
        → IsOwner (claim driver w h port local (some fn) context).0 h port local fn context
  claim-IsOwner w h fn context slot ports owners dev done =
      let port = port_of driver w h in
      let local = local_of driver w h in
      let ok = claim_success w h port local (some fn) context done in
      let p = claimed_pin w h port fn context in
      let ps = claimed_port w h port local in
      let put : World G = put_pin (record w { gpio = (pin_answer w h port local).0 }) h p in
      let v = put_port put port ps in
      let at_pin : pin_at v h ≡ p =
        pin_at-put_pin (record w { gpio = (pin_answer w h port local).0 }) h p slot in
      let at_port : port_at v port ≡ ps = port_at-put_port put port ps ports in
      let mine : get_or ps.owner local none ≡ some h =
        get_or-set (port_at w port).owner local (some h) none owners in
      let here : IsOwner v h port local fn context = record {
        slot = omega (arith, length-set w.pins h (some p), slot);
        ports = omega (arith, length-set w.s_ports port ps, ports);
        owners =
            rw at_port (omega (arith, length-set (port_at w port).owner local (some h), owners));
        port_number = ap (λ (q : Pin). port_from_global q.config.pin_number) at_pin;
        local_number = ap (λ (q : Pin). local_from_global q.config.pin_number) at_pin;
        dev = ap (λ (q : PortState). q.dev) at_port ∙ dev;
        owner = ap (λ (q : PortState). get_or q.owner local none) at_port ∙ mine;
        cb = ap (λ (q : Pin). q.cb) at_pin;
        context = ap (λ (q : Pin). q.caller_context) at_pin;
      } in
      subst (λ x. IsOwner x h port local fn context)
        (sym (claim_result w h port local fn context ok)) here

  pub serve-IsOwner :
      (w : World G) (h port local fn : ℕ) (context : Option ℕ)
      → IsOwner w h port local fn context
      → local < 32
      → (pin_at w h).irq_enabled ≡ true
      → is_negative (driver.gpio_pin_get w.gpio (some port) local) ≡ false
      → serve driver w port local
        ≡ record {
          cb = fn;
          is_rising = not (is_success (driver.gpio_pin_get w.gpio (some port) local));
          caller_context = context;
        }
          ∷ []
  unfolding serve
  serve-IsOwner w h port local fn context o small on level =
      ground (arith, lt→ltb local 32 small, o.owner, o.cb, on, o.dev, level, o.context)

  pub serve_nobody :
      (w : World G) (port local : ℕ)
      → get_or (port_at w port).owner local none ≡ none
      → serve driver w port local ≡ []
  unfolding serve
  serve_nobody w port local h = ground (arith, h)

  abbrev left_port : World G → ℕ → ℕ → PortState
  left_port w port local = record (port_at w port) {
    owner = set (port_at w port).owner local none;
    pin_mask = set (port_at w port).pin_mask local false;
  }

  release_result :
      (w : World G) (h port local fn : ℕ) (context : Option ℕ)
      → IsOwner w h port local fn context
      → port < 2
      → (release driver w h port local).s_ports ≡ set w.s_ports port (left_port w port local)
  unfolding release
  release_result w h port local fn context o low =
      let low_port : leb 2 port ≡ false = ground arith in
      let self : (h == h) ≡ true = ground arith in rw (low_port, o.dev, o.owner, self) refl

  release_port :
      (w : World G) (h port local fn : ℕ) (context : Option ℕ)
      → IsOwner w h port local fn context
      → port < 2
      → get_or (port_at (release driver w h port local) port).owner local none ≡ none
  release_port w h port local fn context o low =
      let left = left_port w port local in
      ap (λ l. get_or (get_or l port no_port).owner local none)
        (release_result w h port local fn context o low)
      ∙ ap (λ (q : PortState). get_or q.owner local none) (port_at-put_port w port left o.ports)
      ∙ get_or-set (port_at w port).owner local none none o.owners

  dispose-s_ports :
      (zeros : Config) (w : World G) (h : ℕ)
      → (dispose driver zeros w h).s_ports
        ≡ (release driver w h (port_of driver w h) (local_of driver w h)).s_ports
  unfolding dispose
  dispose-s_ports zeros w h = elim (Bool-cases (pin_at w h).is_malloced) [
    | inl m ↦ rw m refl
    | inr m ↦ rw m refl
  ]

  -- `dispose` leaves no owner for the pin.
  pub dispose_owner :
      (zeros : Config) (w : World G) (h port local fn : ℕ) (context : Option ℕ)
      → IsOwner w h port local fn context
      → port < 2
      → get_or (port_at (dispose driver zeros w h) port).owner local none ≡ none
  dispose_owner zeros w h port local fn context o low =
      let there : (dispose driver zeros w h).s_ports ≡ (release driver w h port local).s_ports =
        dispose-s_ports zeros w h
        ∙ ap (λ p. (release driver w h p (local_of driver w h)).s_ports) o.port_number
        ∙ ap (λ l. (release driver w h port l).s_ports) o.local_number in
      ap (λ l. get_or (get_or l port no_port).owner local none) there
      ∙ release_port w h port local fn context o low
