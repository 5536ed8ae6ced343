-- ===== src/Gpio/Attach.antt =====
-- Pin numbers, the binding of a port by `attach`, and an `attach` that fails.
use dtmc_zephyr.Prelude.{
  ℕ, zero, suc, ◌+◌, ◌*◌, ◌<◌, ◌≡◌, refl, ◌∙◌, ap, true, false, Option, none, some, List, [], ◌∷◌,
  length, set, get_or, leb, arith,
}
use dtmc_zephyr.Err.{leaf, fail, is_success}
use dtmc_zephyr.Port.Gpio.{GpioDriver}
use dtmc_zephyr.Gpio.Object.{PortState, World, no_port}
use dtmc_zephyr.Gpio.Methods.{
  port_from_global, local_from_global, map_flags, pin_at, port_at, put_port, bind_port, claim,
  attach,
}

pub get_or-set :
    {A : Type 0} (xs : List A) (i : ℕ) (v d : A) → i < length xs → get_or (set xs i v) i d ≡ v
get_or-set [] i v d h = absurd (omega arith)
get_or-set (x ∷ xs) zero v d h = refl
get_or-set (x ∷ xs) (suc i) v d h = get_or-set xs i v d (omega arith)

-- The memory has the two ports with 32 owners each.
pub record IsLaidOut {G : Type 0} (w : World G) : Type 0 where
  pub ports : length w.s_ports ≡ 2
  pub owners : (i : ℕ) → i < 2 → length (port_at w i).owner ≡ 32

-- A pin number below 64 is that of a port below 2 and a local pin below 32, and of no other pair.
pub pin_split :
    (n : ℕ)
    → n < 64
    → (port_from_global n < 2)
      × (local_from_global n < 32)
      × (port_from_global n * 32 + local_from_global n ≡ n)
pin_split n h = (omega arith, omega arith, omega arith)

module _ {G : Type 0} (driver : GpioDriver G) where
  -- the port and the local pin of an object
  abbrev pub port_of : World G → ℕ → ℕ
  port_of w h = port_from_global (pin_at w h).config.pin_number

  abbrev pub local_of : World G → ℕ → ℕ
  local_of w h = local_from_global (pin_at w h).config.pin_number

  pub bind_bound :
      (w : World G) (i : ℕ) → (port_at w i).dev ≡ true → bind_port driver w i ≡ (w, true)
  unfolding bind_port
  bind_bound w i h = rw h refl

  bind_fails :
      (w : World G) (i : ℕ)
      → (port_at w i).dev ≡ false
      → driver.device_is_ready w.gpio i ≡ false
      → bind_port driver w i ≡ (put_port w i (record (port_at w i) { dev = true }), false)
  unfolding bind_port
  bind_fails w i h r = rw (h, r) refl

  pub attach_unready :
      (w : World G) (h : ℕ) (cb context : Option ℕ)
      → leb 2 (port_of w h) ≡ false
      → (port_at w (port_of w h)).dev ≡ false
      → driver.device_is_ready w.gpio (port_of w h) ≡ false
      → attach driver w h cb context ≡ (
        put_port w (port_of w h) (record (port_at w (port_of w h)) { dev = true }),
        some (leaf fail),
      )
  unfolding attach
  attach_unready w h cb context low unbound not_ready =
      rw (low, bind_fails w (port_of w h) unbound not_ready) refl

  pub attach_bound :
      (w : World G) (h : ℕ) (cb context : Option ℕ)
      → leb 2 (port_of w h) ≡ false
      → (port_at w (port_of w h)).dev ≡ true
      → attach driver w h cb context ≡ claim driver w h (port_of w h) (local_of w h) cb context
  unfolding attach
  attach_bound w h cb context low bound = rw (low, bind_bound w (port_of w h) bound) refl

  claim_error :
      (w : World G) (h port local : ℕ) (cb context : Option ℕ)
      → is_success (driver.gpio_pin_configure w.gpio port local (map_flags (pin_at w h).config)).1
        ≡ true
      → (claim driver w h port local cb context).1 ≡ none
  unfolding claim
  claim_error w h port local cb context ok = rw ok refl

  -- `attach` to a port whose device is not ready and not bound yet fails; but the device stays bound,
  -- so a second `attach` does not ask whether it is ready, and succeeds if the pin can be
  -- configured.
  pub attach_not_ready :
      (w : World G) (h : ℕ) (cb context : Option ℕ)
      → (pin_at w h).config.pin_number < 64
      → IsLaidOut w
      → (port_at w (port_of w h)).dev ≡ false
      → driver.device_is_ready w.gpio (port_of w h) ≡ false
      → is_success
          (driver.gpio_pin_configure w.gpio
            (port_of w h)
            (local_of w h)
            (map_flags (pin_at w h).config)).1
        ≡ true
      → ((attach driver w h cb context).1 ≡ some (leaf fail))
        × ((attach driver (attach driver w h cb context).0 h cb context).1 ≡ none)
  attach_not_ready w h cb context small laid unbound not_ready ok =
      let split = pin_split (pin_at w h).config.pin_number small in
      let low : leb 2 (port_of w h) ≡ false = ground (arith, split.0) in
      let first = attach_unready w h cb context low unbound not_ready in
      let ps : PortState = record (port_at w (port_of w h)) { dev = true } in
      let v = put_port w (port_of w h) ps in
      let inside : port_of w h < length w.s_ports = omega (arith, split.0, laid.ports) in
      let bound : (port_at v (port_of w h)).dev ≡ true =
        ap (λ (p : PortState). p.dev) (get_or-set w.s_ports (port_of w h) ps no_port inside) in
      let second = attach_bound v h cb context low bound in
      (
        ap (λ r. r.1) first,
        ap (λ r. (attach driver r.0 h cb context).1) first
            ∙ ap (λ r. r.1) second
            ∙ claim_error v h (port_of w h) (local_of w h) cb context ok,
      )
