-- ===== src/Uartirq/Methods.antt =====
-- dtiox_zephyr_uartirq.c. `detach` does nothing there.
use dtmc_zephyr.Prelude.{
  ℕ, ℤ, pos_part, ◌%◌, Bool, true, not, Option, none, some, List, [], ltb, leb, length, take,
  if◌then◌else◌,
}
use dtmc_zephyr.Err.{Dterr, leaf, argument_null, badarg, fail, nomem, or_else, rewrap, negerror_c}
use dtmc_zephyr.Port.Ring.{RingFifo}
use dtmc_zephyr.Port.Core.{CoreHelper}
use dtmc_zephyr.Port.Host.{Host}
use dtmc_zephyr.Port.Serial.{
  UartConfig, Parity, parity_none, parity_odd, StopBits, stop_2, DataBits, data_7, Flow,
  flow_rtscts, CfgParity, cfg_parity_none, cfg_parity_odd, cfg_parity_even, CfgStopBits, cfg_stop_1,
  cfg_stop_2, CfgDataBits, cfg_data_7, cfg_data_8, CfgFlow, cfg_flow_none, cfg_flow_rts_cts,
}
use dtmc_zephyr.Port.Uart.{ZephyrUartConfig, UartDriver}
use dtmc_zephyr.Uartirq.Object.{Config, zero_stats, Uartirq, zeroed, Line}
use dtmc_zephyr.Uartirq.Interrupt.{tx_check, rx_check}

-- How the settings of dtmc_base become those of Zephyr.
unfoldable pub line_parity : Parity → CfgParity
line_parity parity_none = cfg_parity_none
line_parity parity_odd = cfg_parity_odd
line_parity _ = cfg_parity_even

unfoldable pub line_stop_bits : StopBits → CfgStopBits
line_stop_bits stop_2 = cfg_stop_2
line_stop_bits _ = cfg_stop_1

unfoldable pub line_data_bits : DataBits → CfgDataBits
line_data_bits data_7 = cfg_data_7
line_data_bits _ = cfg_data_8

unfoldable pub line_flow : Flow → CfgFlow
line_flow flow_rtscts = cfg_flow_rts_cts
line_flow _ = cfg_flow_none

unfoldable pub line_config : UartConfig → ZephyrUartConfig
unfolding line_parity line_stop_bits line_data_bits line_flow
line_config c = record {
  baudrate = c.baudrate % 4294967296;
  parity = line_parity c.parity;
  stop_bits = line_stop_bits c.stop_bits;
  data_bits = line_data_bits c.data_bits;
  flow_ctrl = line_flow c.flow;
}

-- What a read leaves: the error, the bytes in `buf`, and `*out_read` if that was written.
pub record ReadReply : Type 0 where
  pub dterr : Option Dterr
  pub bytes : List ℕ
  pub out_read : Option ℕ

-- What a write leaves: the error and `*out_written`, if that was written.
pub record WriteReply : Type 0 where
  pub dterr : Option Dterr
  pub out_written : Option ℕ

abbrev pub no_read : Dterr → ReadReply
no_read e = record { dterr = some e; bytes = []; out_read = none }

abbrev pub no_write : Dterr → WriteReply
no_write e = record { dterr = some e; out_written = none }

unfoldable pub set_rx_semaphore : {F : Type 0} → Uartirq F → Option ℕ → Uartirq F
set_rx_semaphore self rx_semaphore = record self { rx_semaphore = rx_semaphore }

module _ {F : Type 0} (ring : RingFifo F) (host : Host) where
  -- Only the receive FIFO is initialised; `model` is the model number of the backend.
  unfoldable pub init : ℕ → Uartirq F × Option Dterr
  init model =
      let (fifo, e) = ring.init ring.blank in
      (
        record (zeroed ring.blank) { model_number = model; rx_fifo = fifo },
        rewrap (or_else e (or_else (host.dtiox_set_vtable model) (host.dtobject_set_vtable model))),
      )

  -- `*self_ptr` afterwards, and the error; the pointer to it is not NULL.
  unfoldable pub create : ℕ → Option (Uartirq F) × Option Dterr
  unfolding init
  create model =
      let (self, e) = init model in
      if not host.has_memory then (none, some (leaf nomem)) else elim e [
        | some x ↦ (none, rewrap (some x))
        | none ↦ (some (record self { is_malloced = true }), none)
      ]

  module _ (uart_validate : UartConfig → Option Dterr) where
    -- the two allocations, after the configuration is taken over
    allocate : Uartirq F → Config → Uartirq F × Option Dterr
    allocate self cfg =
        let nr = pos_part cfg.rx_capacity in
        let nt = pos_part cfg.tx_capacity in
        let taken : Uartirq F = record self { config = cfg } in
        let (rx, e) = ring.configure self.rx_fifo nr in
        let with_rx : Uartirq F = record taken { rx_fifo_buffer = some nr; rx_fifo = rx } in
        let (tx, d) = ring.configure self.tx_fifo nt in
        elim (host.dtbuffer_create nr) [
          | some x ↦ (taken, some x)
          | none ↦ elim (or_else e (host.dtbuffer_create nt)) [
            | some x ↦ (with_rx, some x)
            | none ↦ (record with_rx { tx_fifo_buffer = some nt; tx_fifo = tx }, d)
          ]
        ]

    -- `cfg` is `none` for NULL.
    unfoldable pub configure : Uartirq F → Option Config → Uartirq F × Option Dterr
    unfolding allocate
    configure self none = (self, some (leaf argument_null))
    configure self (some cfg) = elim cfg.device_tree_name [
      | none ↦ (self, some (leaf argument_null))
      | some name ↦ elim (uart_validate cfg.uart_config) [
        | some x ↦ (self, some x)
        | none ↦
            if leb (pos_part cfg.rx_capacity) 0
            then (self, some (leaf badarg))
            else if leb (pos_part cfg.tx_capacity) 0
            then (self, some (leaf badarg))
            else allocate self cfg
      ]
    ]

-- the name in a configuration, empty for NULL
abbrev pub device_name : Option (List ℕ) → List ℕ
device_name none = []
device_name (some name) = name

module _ {F U : Type 0} (ring : RingFifo F) (core : CoreHelper) (driver : UartDriver U) where
  -- the settings and the interrupt handler, for a bound device that is ready
  attach_ready : Line F U → Line F U × Option Dterr
  unfolding line_config
  attach_ready w =
      let (set, rc) = driver.uart_configure w.dev (line_config w.self.config.uart_config) in
      let (hooked, rc_hook) = driver.uart_irq_callback_user_data_set set in
      elim (negerror_c (driver.uart_config_get w.dev)) [
        | some e ↦ (w, some e)
        | none ↦ elim (or_else (negerror_c rc) (negerror_c (driver.uart_config_get set))) [
          | some e ↦ (record w { dev = set }, some e)
          | none ↦ (record w { dev = hooked }, negerror_c rc_hook)
        ]
      ]

  unfoldable pub attach : Line F U → Line F U × Option Dterr
  unfolding attach_ready
  attach w =
      let dev = driver.usb_enable w.dev in
      let bound = driver.device_get_binding (device_name w.self.config.device_tree_name) in
      let opened : Line F U = record { self = record (w.self) { dev = bound }; dev = dev } in
      if not bound
      then (opened, some (leaf fail))
      else if not (driver.device_is_ready dev)
      then (opened, some (leaf fail))
      else attach_ready opened

  -- both interrupts off
  abbrev pub quiet : U → U
  quiet dev = driver.uart_irq_rx_disable (driver.uart_irq_tx_disable dev)

  unfoldable pub enable : Line F U → Bool → Line F U × Option Dterr
  enable w enabled =
      let cleared : Uartirq F = record (w.self) {
        enabled = enabled;
        tx_fifo = ring.reset w.self.tx_fifo;
        rx_fifo = ring.reset w.self.rx_fifo;
        stats = zero_stats;
      } in
      let off = quiet w.dev in
      if not w.self.dev then (w, some (leaf argument_null)) else (
        record { self = cleared; dev = if enabled then driver.uart_irq_rx_enable off else off },
        none,
      )

  -- `has_buf` and `has_out` say that `buf` and `out_read` are not NULL.
  unfoldable pub read : Uartirq F → Bool → Bool → ℤ → Uartirq F × ReadReply
  read self has_buf has_out buf_len =
      let (fifo, bytes) = ring.pop self.rx_fifo (pos_part buf_len) in
      let popped : Uartirq F = record self {
        rx_fifo = fifo;
        stats = record (self.stats) { rx_popped = core.add32 self.stats.rx_popped (length bytes) };
      } in
      if not self.dev
      then (self, no_read (leaf argument_null))
      else if not has_buf
      then (self, no_read (leaf argument_null))
      else if not has_out
      then (self, no_read (leaf argument_null))
      else elim (rx_check self) [
        | some e ↦ (self, no_read e)
        | none ↦ (popped, record { dterr = none; bytes = bytes; out_read = some (length bytes) })
      ]

  -- `buf` is `none` for NULL; `has_out` says that `out_written` is not NULL.
  unfoldable pub write : Line F U → Option (List ℕ) → ℤ → Bool → Line F U × WriteReply
  write w none len has_out = (w, no_write (leaf argument_null))
  write w (some buf) len has_out =
      let self = w.self in
      let (fifo, n) = ring.push self.tx_fifo (take (pos_part len) buf) in
      let pushed : Uartirq F = record self {
        tx_fifo = fifo;
        stats = record (self.stats) { tx_pushed = core.add32 self.stats.tx_pushed n };
      } in
      let dev = if ltb 0 n then driver.uart_irq_tx_enable w.dev else w.dev in
      if not self.dev
      then (w, no_write (leaf argument_null))
      else if not has_out
      then (w, no_write (leaf argument_null))
      else elim (tx_check self) [
        | some e ↦ (w, no_write e)
        | none ↦
            (record { self = pushed; dev = dev }, record { dterr = none; out_written = some n })
      ]

  -- What is left of the object: nothing if it came from `create`, else zeros.
  unfoldable pub dispose : Line F U → Option (Uartirq F) × U
  dispose w = (
    if w.self.is_malloced then none else some (zeroed ring.blank),
    if w.self.dev then quiet w.dev else w.dev,
  )
