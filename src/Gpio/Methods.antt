-- ===== src/Gpio/Methods.antt =====
-- The methods. `h` is the handle of an object that is not NULL.
use dtmc_zephyr.Prelude.{
  ℕ, ◌/◌, ◌%◌, Bool, true, false, not, ◌&&◌, ◌||◌, ◌==◌, Option, none, some, [], ◌∷◌, ◌++◌, leb,
  length, set, get_or, if◌then◌else◌,
}
use dtmc_zephyr.Err.{Dterr, leaf, argument_null, fail, nomem, is_success, is_negative, rewrap}
use dtmc_zephyr.Port.Gpio.{Flags, GpioDriver}
use dtmc_zephyr.Gpio.Object.{
  Mode, mode_input, mode_output, mode_inout, Pull, pull_up, pull_down, Drive, drive_open_drain,
  Config, Pin, PortState, World, no_word, no_port, initial,
}

abbrev pub port_from_global : ℕ → ℕ
port_from_global global_pin = global_pin / 32 % 256

abbrev pub local_from_global : ℕ → ℕ
local_from_global global_pin = global_pin % 32 % 256

abbrev pub is_input : Mode → Bool
is_input mode_input = true
is_input mode_inout = true
is_input _ = false

abbrev pub is_output : Mode → Bool
is_output mode_output = true
is_output mode_inout = true
is_output _ = false

abbrev pub is_open_drain : Drive → Bool
is_open_drain drive_open_drain = true
is_open_drain _ = false

abbrev pub is_pull_up : Pull → Bool
is_pull_up pull_up = true
is_pull_up _ = false

abbrev pub is_pull_down : Pull → Bool
is_pull_down pull_down = true
is_pull_down _ = false

-- `_map_mode_flags` and `_map_pull_flags`
unfoldable pub map_flags : Config → Flags
map_flags config = record {
  input = is_input config.mode;
  output = is_output config.mode;
  open_drain = is_open_drain config.drive;
  pull_up = is_pull_up config.pull;
  pull_down = is_pull_down config.pull;
}

module _ {G : Type 0} where
  abbrev pub pin_at : World G → ℕ → Pin
  pin_at w h = elim (get_or w.pins h none) [ none ↦ initial 0 | some p ↦ p ]

  abbrev pub put_pin : World G → ℕ → Pin → World G
  put_pin w h p = record w { pins = set w.pins h (some p) }

  abbrev pub port_at : World G → ℕ → PortState
  port_at w i = get_or w.s_ports i no_port

  -- the device of a port, or NULL
  abbrev pub dev_at : World G → ℕ → Option ℕ
  dev_at w i = if (port_at w i).dev then some i else none

  abbrev pub put_port : World G → ℕ → PortState → World G
  put_port w i ps = record w { s_ports = set w.s_ports i ps }

  -- `vtable` is what `dtgpiopin_set_vtable` answers.
  unfoldable pub init : ℕ → World G → ℕ → Option Dterr → World G × Option Dterr
  init model w h vtable = (put_pin w h (initial model), rewrap vtable)

  -- `has_memory` is whether `malloc` gives memory: the new object has the next handle.
  unfoldable pub create : ℕ → World G → Bool → Option Dterr → World G × Option ℕ × Option Dterr
  create model w false vtable = (w, none, some (leaf nomem))
  create model w true (some e) = (w, none, rewrap (rewrap (some e)))
  create model w true none = (
    record w { pins = w.pins ++ (some (record (initial model) { is_malloced = true }) ∷ []) },
    some (length w.pins),
    none,
  )

  unfoldable pub configure : World G → ℕ → Option Config → World G × Option Dterr
  configure w h none = (w, some (leaf argument_null))
  configure w h (some config) =
      if leb 64 config.pin_number
      then (w, some (leaf fail))
      else (put_pin w h (record (pin_at w h) { config = config }), none)

module _ {G : Type 0} (driver : GpioDriver G) where
  -- The device of a port below 2, which is not NULL, is bound if it is not yet; the answer is whether
  -- the caller goes on.
  unfoldable pub bind_port : World G → ℕ → World G × Bool
  bind_port w i =
      if (port_at w i).dev
      then (w, true)
      else (put_port w i (record (port_at w i) { dev = true }), driver.device_is_ready w.gpio i)

  -- `attach` after the port is bound
  unfoldable pub claim : World G → ℕ → ℕ → ℕ → Option ℕ → Option ℕ → World G × Option Dterr
  unfolding map_flags
  claim w h port local cb context =
      let self = record (pin_at w h) { port_dev = some port } in
      let (gpio, rc) = driver.gpio_pin_configure w.gpio port local (map_flags self.config) in
      let ps = port_at w port in
      if is_success rc
      then (
        put_port
            (put_pin (record w { gpio = gpio }) h
              (record self { cb = cb; caller_context = context }))
            port (record ps { owner = set ps.owner local (some h) }),
        none,
      )
      else (put_pin (record w { gpio = gpio }) h self, some (leaf fail))

  unfoldable pub attach : World G → ℕ → Option ℕ → Option ℕ → World G × Option Dterr
  attach w h cb context =
      let port = port_from_global (pin_at w h).config.pin_number in
      let local = local_from_global (pin_at w h).config.pin_number in
      let (bound, ready) = bind_port w port in
      if leb 2 port
      then (w, some (leaf fail))
      else if ready
      then claim bound h port local cb context
      else (bound, some (leaf fail))

  -- The callback of the port is added, or its mask changes.
  unfoldable pub mask_pin : World G → ℕ → ℕ → Bool → World G
  mask_pin w port local enable =
      let ps = port_at w port in
      let added = record ps { callback_added = true; pin_mask = set no_word local true } in
      if enable && not ps.callback_added
      then record (put_port w port added) { gpio = driver.gpio_add_callback w.gpio port }
      else put_port w port (record ps { pin_mask = set ps.pin_mask local enable })

  unfoldable pub enable : World G → ℕ → Bool → World G × Option Dterr
  enable w h on =
      let port = port_from_global (pin_at w h).config.pin_number in
      let local = local_from_global (pin_at w h).config.pin_number in
      let (gpio, rc) = driver.gpio_pin_interrupt_configure w.gpio port local on in
      let set_up : World G = record w { gpio = gpio } in
      if leb 2 port || not (port_at w port).dev
      then (w, some (leaf fail))
      else if is_success rc
      then (
        put_pin (mask_pin set_up port local on) h (record (pin_at w h) { irq_enabled = on }),
        none,
      )
      else (set_up, some (leaf fail))

  -- `has_out` says that `out_level` is not NULL.
  unfoldable pub read : World G → ℕ → Bool → Option Bool × Option Dterr
  read w h false = (none, some (leaf argument_null))
  read w h true =
      let rc =
        driver.gpio_pin_get w.gpio (pin_at w h).port_dev
          (local_from_global (pin_at w h).config.pin_number) in
      if is_negative rc then (none, some (leaf fail)) else (some (not (is_success rc)), none)

  unfoldable pub write : World G → ℕ → Bool → World G × Option Dterr
  write w h level =
      let config = (pin_at w h).config in
      let (gpio, rc) =
        driver.gpio_pin_set w.gpio (pin_at w h).port_dev (local_from_global config.pin_number)
          level in
      if is_output config.mode
      then (record w { gpio = gpio }, if is_success rc then none else some (leaf fail))
      else (w, some (leaf fail))

  -- What `concat_format` does to the port and the object.
  unfoldable pub concat_format : World G → ℕ → World G
  unfolding bind_port
  concat_format w h =
      let port = port_from_global (pin_at w h).config.pin_number in
      let (bound, ready) = bind_port w port in
      if leb 2 port
      then w
      else if ready
      then put_pin bound h (record (pin_at w h) { port_dev = some port })
      else bound

  -- whether a handle owns a pin
  abbrev pub owns : ℕ → Option ℕ → Bool
  owns h none = false
  owns h (some i) = i == h

  -- The port lets the object go.
  unfoldable pub release : World G → ℕ → ℕ → ℕ → World G
  release w h port local =
      let ps = port_at w port in
      let off : World G = record w {
        gpio = (driver.gpio_pin_interrupt_configure w.gpio port local false).0;
      } in
      let left = record ps {
        owner = set ps.owner local none;
        pin_mask = set ps.pin_mask local false;
      } in
      if leb 2 port || not ps.dev
      then w
      else if owns h (get_or ps.owner local none)
      then put_port off port left
      else off

  -- `zeros` is the configuration that zeros mean.
  unfoldable pub dispose : Config → World G → ℕ → World G
  unfolding release
  dispose zeros w h =
      let self = pin_at w h in
      let port = port_from_global self.config.pin_number in
      let local = local_from_global self.config.pin_number in
      let left = release w h port local in
      if self.is_malloced
      then record left { pins = set left.pins h none }
      else put_pin left h (record (initial 0) { config = zeros })
