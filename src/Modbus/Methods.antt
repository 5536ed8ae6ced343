-- ===== src/Modbus/Methods.antt =====
-- dtiox_zephyr_modbus_slave.c. `detach` and `dispose` do nothing there.
use dtmc_zephyr.Prelude.{
  ℕ, ℤ, pos_part, is_negative, ◌+◌, ◌%◌, Bool, true, false, ◌&&◌, ◌||◌, not, Option, none, some,
  List, [], ◌++◌, ltb, leb, length, take, drop, replicate, if◌then◌else◌,
}
use dtmc_zephyr.Err.{
  Rc, Dterr, leaf, argument_null, badarg, busy, fail, nomem, notfound, overflow, is_success,
  or_else, rc_value,
}
use dtmc_zephyr.Err
use dtmc_zephyr.Port.Ring.{RingFifo}
use dtmc_zephyr.Port.Host.{Host}
use dtmc_zephyr.Port.Modbus.{ModbusProtocol, LockAnswers}
use dtmc_zephyr.Port.Serial.{
  UartConfig, Parity, parity_odd, parity_even, StopBits, stop_2, CfgParity, cfg_parity_none,
  cfg_parity_odd, cfg_parity_even, CfgStopBits, cfg_stop_1, cfg_stop_2,
}
use dtmc_zephyr.Modbus.Object.{Config, ModbusSlave, zero_stats, zeroed}
use dtmc_zephyr.Modbus.Helpers.{release_lock, clamp_len}

-- `struct modbus_iface_param`, as `attach` fills it in
pub record ServerParam : Type 0 where
  pub unit_id : ℕ
  pub baud : ℕ
  pub parity : CfgParity
  pub stop_bits_client : CfgStopBits

unfoldable pub server_parity : Parity → CfgParity
server_parity parity_even = cfg_parity_even
server_parity parity_odd = cfg_parity_odd
server_parity _ = cfg_parity_none

unfoldable pub server_stop_bits : StopBits → CfgStopBits
server_stop_bits stop_2 = cfg_stop_2
server_stop_bits _ = cfg_stop_1

unfoldable pub server_param : Config → ServerParam
unfolding server_parity server_stop_bits
server_param config = record {
  unit_id = config.unit_id % 256;
  baud = config.uart_config.baudrate;
  parity = server_parity config.uart_config.parity;
  stop_bits_client = server_stop_bits config.uart_config.stop_bits;
}

-- What the calls of `attach` answer.
pub record AttachAnswers : Type 0 where
  pub lock_create : Option Dterr
  pub lock : LockAnswers
  pub iface_get_by_name : List ℕ → Rc
  pub init_server : ℕ → ServerParam → Rc

-- The error, the object after the call, and whether it is now the one that the callbacks serve.
pub record Attached (F : Type 0) : Type 0 where
  pub dterr : Option Dterr
  pub self : ModbusSlave F
  pub is_bound : Bool

-- What a write leaves: the error and `*out_written`, if that was written.
pub record WriteReply : Type 0 where
  pub dterr : Option Dterr
  pub out_written : Option ℕ

-- What a read leaves: the error, `*out_read` if that was written, and the bytes put into `buf`.
pub record ReadReply : Type 0 where
  pub dterr : Option Dterr
  pub out_read : Option ℕ
  pub bytes : List ℕ

abbrev pub no_write : Dterr → WriteReply
no_write e = record { dterr = some e; out_written = none }

abbrev pub no_read : Dterr → ReadReply
no_read e = record { dterr = some e; out_read = none; bytes = [] }

module _ {F : Type 0} where
  -- from the interface lookup to the release of the lock
  attach_locked : AttachAnswers → ModbusSlave F → Attached F
  attach_locked answers self =
      let iface = answers.iface_get_by_name self.config.device_tree_name in
      let found : ModbusSlave F = record self { iface = rc_value iface } in
      let rc = answers.init_server (rc_value iface) (server_param self.config) in
      let done = release_lock self.lock_handle answers.lock.release in
      if Err.is_negative iface
      then record { dterr = done (some (leaf notfound)); self = self; is_bound = true }
      else if not (is_success rc)
      then record { dterr = done (some (leaf fail)); self = found; is_bound = true }
      else record {
        dterr = done none;
        self = record found { is_modbus_init_server = true };
        is_bound = true;
      }

  unfoldable pub attach : AttachAnswers → ModbusSlave F → Bool → Attached F
  unfolding attach_locked
  attach answers self is_bound =
      let locked : ModbusSlave F = record self { lock_handle = true } in
      if self.is_modbus_init_server
      then record { dterr = none; self = self; is_bound = is_bound }
      else elim answers.lock_create [
        | some e ↦ record {
          dterr = some e;
          self = record self { lock_handle = false };
          is_bound = is_bound;
        }
        | none ↦ elim answers.lock.acquire [
          | some e ↦ record { dterr = some e; self = locked; is_bound = is_bound }
          | none ↦ attach_locked answers locked
        ]
      ]

  -- Before `attach` there is no lock yet.
  unfoldable pub set_rx_semaphore :
      LockAnswers → ModbusSlave F → Option ℕ → ModbusSlave F × Option Dterr
  set_rx_semaphore lock self rx_semaphore =
      let set_up : ModbusSlave F = record self { rx_semaphore = rx_semaphore } in
      if self.lock_handle
      then elim lock.acquire [
        | some e ↦ (self, some e)
        | none ↦ (set_up, release_lock true lock.release none)
      ]
      else (set_up, none)

module _ {F : Type 0} (ring : RingFifo F) (proto : ModbusProtocol) where
  -- the staging under the lock
  stage : ModbusSlave F → List ℕ → List ℕ → ℕ → ModbusSlave F × WriteReply
  stage self staged buf len =
      let send_len = clamp_len proto len in
      if self.tx_staged_pending
      then (
        record self { stats = record (self.stats) { tx_dropped = self.stats.tx_dropped + len } },
        record { dterr = some (leaf busy); out_written = some 0 },
      )
      else (
        record self {
          tx_staged_buf = some (take send_len buf ++ drop send_len staged);
          tx_staged_len = send_len;
          tx_staged_pending = ltb 0 send_len;
        },
        record { dterr = none; out_written = some send_len },
      )

  -- `model` is the model number of the backend.
  unfoldable pub init : Host → ℕ → ModbusSlave F × Option Dterr
  init host model =
      let (fifo, e) = ring.init ring.blank in
      (
        record (zeroed fifo proto.max_blob_regs) { model_number = model },
        or_else e (or_else (host.dtiox_set_vtable model) (host.dtobject_set_vtable model)),
      )

  -- What `*self_ptr` becomes (`none` if it is left as it was), and the error.
  unfoldable pub create : Host → ℕ → Bool → Option (ModbusSlave F) × Option Dterr
  unfolding init
  create host model has_out =
      let (self, e) = init host model in
      if not has_out
      then (none, some (leaf argument_null))
      else if not host.has_memory
      then (none, some (leaf nomem))
      else elim e [
        | some x ↦ (none, some x)
        | none ↦ (some (record self { is_malloced = true }), none)
      ]

  -- `buf` is `none` for NULL; `has_out` says that `out_written` is not NULL.
  unfoldable pub write :
      LockAnswers → ModbusSlave F → Option (List ℕ) → ℤ → Bool → ModbusSlave F × WriteReply
  unfolding stage
  write lock self none len has_out = (self, no_write (leaf argument_null))
  write lock self (some buf) len has_out = elim self.tx_staged_buf [
    | none ↦ (self, no_write (leaf argument_null))
    | some staged ↦
        let (after, reply) = stage self staged buf (pos_part len) in
        if not has_out || not self.lock_handle
        then (self, no_write (leaf argument_null))
        else if is_negative len
        then (self, no_write (leaf badarg))
        else elim lock.acquire [
          | some e ↦ (self, no_write e)
          | none ↦ (after, record reply { dterr = release_lock true lock.release reply.dterr })
        ]
  ]

  -- the read under the lock
  read_locked : ModbusSlave F → ℕ → ModbusSlave F × ReadReply
  read_locked self buf_len =
      let (fifo, bytes) = ring.pop self.rx_fifo buf_len in
      if self.rx_overflow_pending
      then (record self { rx_overflow_pending = false }, no_read (leaf overflow))
      else (
        record self { rx_fifo = fifo },
        record { dterr = none; out_read = some (length bytes); bytes = bytes },
      )

  -- `has_buf` and `has_out` say that the pointers are not NULL.
  unfoldable pub read : LockAnswers → ModbusSlave F → Bool → Bool → ℤ → ModbusSlave F × ReadReply
  unfolding read_locked
  read lock self has_buf has_out buf_len =
      let (after, reply) = read_locked self (pos_part buf_len) in
      if not (has_buf && has_out) || not self.lock_handle
      then (self, no_read (leaf argument_null))
      else if is_negative buf_len
      then (self, no_read (leaf badarg))
      else elim lock.acquire [
        | some e ↦ (self, no_read e)
        | none ↦ (after, record reply { dterr = release_lock true lock.release reply.dterr })
      ]

  -- When it is enabled, the state that a session begins with.
  unfoldable pub enable : LockAnswers → ModbusSlave F → Bool → ModbusSlave F × Option Dterr
  enable lock self enabled =
      let switched : ModbusSlave F = record self { is_callback_processing_enabled = enabled } in
      let cleared : ModbusSlave F = record switched {
        rx_fifo = ring.reset self.rx_fifo;
        rx_overflow_pending = false;
        tx_staged_pending = false;
        tx_staged_len = 0;
        s2m_status = proto.no_data;
        s2m_len = 0;
        s2m_data_regs = replicate proto.max_blob_regs 0;
        stats = zero_stats;
      } in
      if not self.lock_handle then (self, some (leaf argument_null)) else elim lock.acquire [
        | some e ↦ (self, some e)
        | none ↦ (if enabled then cleared else switched, release_lock true lock.release none)
      ]

  module _ (host : Host) (uart_validate : UartConfig → Option Dterr) where
    -- the allocations, after the configuration is taken over
    allocate : ModbusSlave F → Config → ModbusSlave F × Option Dterr
    allocate self cfg =
        let n = pos_part cfg.rx_ring_capacity in
        let taken : ModbusSlave F = record self { config = cfg } in
        let (fifo, e) = ring.configure self.rx_fifo n in
        let with_rx : ModbusSlave F = record taken { rx_fifo_buffer = some n; rx_fifo = fifo } in
        elim (host.dtbuffer_create n) [
          | some x ↦ (taken, some x)
          | none ↦ elim (or_else e (host.dtbuffer_create proto.max_blob_bytes)) [
            | some x ↦ (with_rx, some x)
            | none ↦ (
              record with_rx {
                tx_staged_buf = some (replicate proto.max_blob_bytes 0);
                rx_overflow_pending = false;
                tx_staged_len = 0;
                tx_staged_pending = false;
              },
              none,
            )
          ]
        ]

    -- `cfg` is `none` for NULL.
    unfoldable pub configure : ModbusSlave F → Option Config → ModbusSlave F × Option Dterr
    unfolding allocate
    configure self none = (self, some (leaf argument_null))
    configure self (some cfg) = elim (uart_validate cfg.uart_config) [
      | some x ↦ (self, some x)
      | none ↦
          if leb (pos_part cfg.rx_ring_capacity) 0
          then (self, some (leaf badarg))
          else allocate self cfg
    ]
