-- ===== src/Modbus/Session.antt =====
-- What holds of a Modbus slave after any calls of its methods and any requests of the master.
use dtmc_zephyr.Prelude.{
  ℕ, ℤ, ◌+◌, ◌≤◌, ◌≡◌, Bool, Option, none, some, List, [], ◌∷◌, ltb, length, if◌then◌else◌,
}
use dtmc_zephyr.Err.{Dterr}
use dtmc_zephyr.Port.Ring.{RingFifo}
use dtmc_zephyr.Port.Host.{Host}
use dtmc_zephyr.Port.Modbus.{ModbusProtocol, LockAnswers}
use dtmc_zephyr.Port.Serial.{UartConfig}
use dtmc_zephyr.Modbus.Object.{Config, ModbusSlave}
use dtmc_zephyr.Modbus.Helpers.{clamp_len}
use dtmc_zephyr.Modbus.Callbacks.{holding_reg_rd, holding_reg_wr}
use dtmc_zephyr.Modbus.Methods.{
  AttachAnswers, attach, set_rx_semaphore, write, read, enable, configure,
}

-- The bounds of the register arrays and lengths; staged bytes are pending exactly if there are any.
pub record IsValid {F : Type 0} (proto : ModbusProtocol) (s : ModbusSlave F) : Type 0 where
  pub s2m_len : s.s2m_len ≤ proto.max_blob_bytes
  pub tx_staged_len : s.tx_staged_len ≤ proto.max_blob_bytes
  pub expected : s.m2s_data_regs_expected ≤ proto.max_blob_regs
  pub m2s_regs : length s.m2s_data_regs ≡ proto.max_blob_regs
  pub s2m_regs : length s.s2m_data_regs ≡ proto.max_blob_regs
  pub pending : s.tx_staged_pending ≡ ltb 0 s.tx_staged_len

module _ {F : Type 0} (ring : RingFifo F) (proto : ModbusProtocol) where
  -- a length received, before the poll is answered
  abbrev sized : ModbusSlave F → ℕ → ModbusSlave F
  sized s reg =
      let regs = proto.blob_to_regs (clamp_len proto reg) in
      record s {
        m2s_len = reg;
        m2s_data_regs_expected = if ltb proto.max_blob_regs regs then proto.max_blob_regs else regs;
        stats = record (s.stats) { m2s_polls_started_count = s.stats.m2s_polls_started_count + 1 };
      }

  -- the object in an option, or another
  abbrev pub or_self : Option (ModbusSlave F) → ModbusSlave F → ModbusSlave F
  or_self none s = s
  or_self (some t) s = t

-- A call of a method with the answers that it meets, or a request of the master.
pub data Call : Type 0 where
  configures : Host → (UartConfig → Option Dterr) → Option Config → Call
  attaches : AttachAnswers → Bool → Call
  enables : LockAnswers → Bool → Call
  sets_rx_semaphore : LockAnswers → Option ℕ → Call
  reads : LockAnswers → Bool → Bool → ℤ → Call
  writes : LockAnswers → Option (List ℕ) → ℤ → Bool → Call
  reg_reads : ℕ → Bool → Call
  reg_writes : ℕ → ℕ → Call

module _ {F : Type 0} (ring : RingFifo F) (proto : ModbusProtocol) where
  unfoldable pub call : ModbusSlave F → Call → ModbusSlave F
  call s (configures host validate cfg) = (configure ring proto host validate s cfg).0
  call s (attaches answers is_bound) = (attach answers s is_bound).self
  call s (enables lock on) = (enable ring proto lock s on).0
  call s (sets_rx_semaphore lock handle) = (set_rx_semaphore lock s handle).0
  call s (reads lock has_buf has_out n) = (read ring proto lock s has_buf has_out n).0
  call s (writes lock buf len has_out) = (write ring proto lock s buf len has_out).0
  call s (reg_reads addr has_out) =
      or_self ring proto (holding_reg_rd ring proto (some s) addr has_out).self s
  call s (reg_writes addr reg) =
      or_self ring proto (holding_reg_wr ring proto (some s) addr reg).0 s

  unfoldable pub session : ModbusSlave F → List Call → ModbusSlave F
  session s [] = s
  session s (c ∷ calls) = session (call s c) calls
