-- ===== src/Modbus/Callbacks.antt =====
-- dtiox_zephyr_modbus_slave__callbacks.c. `g_self` is the object that is bound, `none` for NULL. The
-- lock that two of the branches take is not tested by them.
use dtmc_zephyr.Prelude.{
  ℕ, ◌+◌, ◌-◌, Bool, ◌&&◌, not, Option, none, some, ltb, leb, ◌==◌, get_or, set, replicate,
  if◌then◌else◌,
}
use dtmc_zephyr.Err.{eio, Rc, success, negative}
use dtmc_zephyr.Port.Ring.{RingFifo}
use dtmc_zephyr.Port.Modbus.{ModbusProtocol}
use dtmc_zephyr.Modbus.Object.{ModbusSlave}
use dtmc_zephyr.Modbus.Helpers.{clamp_len, put_m2s_into_rxfifo, put_tx_staged_into_s2m}

-- What a register read leaves: the result, and `*out_reg` if that was written.
pub record RegRead (F : Type 0) : Type 0 where
  pub self : Option (ModbusSlave F)
  pub rc : Rc
  pub out_reg : Option ℕ

module _ {F : Type 0} (ring : RingFifo F) (proto : ModbusProtocol) where
  -- whether an address is one of the data registers from `base` on
  abbrev pub in_data : ℕ → ℕ → Bool
  in_data base addr = leb base addr && ltb addr (base + proto.max_blob_regs)

  read_bound : ModbusSlave F → ℕ → RegRead F
  read_bound self addr =
      let counted : ModbusSlave F = record self {
        stats = record (self.stats) {
          s2m_transfers_started_count = self.stats.s2m_transfers_started_count + 1;
        };
      } in
      if not self.is_callback_processing_enabled
      then record { self = some self; rc = success; out_reg = none }
      else if addr == proto.s2m_status_reg
      then record { self = some counted; rc = success; out_reg = some self.s2m_status }
      else if addr == proto.s2m_status_reg + 1
      then record { self = some self; rc = success; out_reg = some self.s2m_len }
      else if in_data proto.s2m_data_reg addr
      then record {
        self = some self;
        rc = success;
        out_reg = some (get_or self.s2m_data_regs (addr - proto.s2m_data_reg) 0);
      }
      else record { self = some self; rc = success; out_reg = some 0 }

  -- `has_out` says that `out_reg` is not NULL.
  unfoldable pub holding_reg_rd : Option (ModbusSlave F) → ℕ → Bool → RegRead F
  unfolding read_bound
  holding_reg_rd none addr has_out = record { self = none; rc = negative eio; out_reg = none }
  holding_reg_rd (some self) addr has_out =
      if not has_out
      then record { self = some self; rc = negative eio; out_reg = none }
      else read_bound self addr

  -- A new command starts a new transaction.
  unfoldable pub on_command : ModbusSlave F → ℕ → ModbusSlave F
  on_command self reg = record self {
    m2s_cmd = reg;
    m2s_len = 0;
    m2s_data_regs_expected = 0;
    m2s_data_regs_written = 0;
    m2s_data_regs = replicate proto.max_blob_regs 0;
  }

  -- The length: a poll is answered at once, a blob waits for its registers.
  unfoldable pub on_length : ModbusSlave F → ℕ → ModbusSlave F
  on_length self reg =
      let regs = proto.blob_to_regs (clamp_len proto reg) in
      let expected = if ltb proto.max_blob_regs regs then proto.max_blob_regs else regs in
      let sized : ModbusSlave F = record self {
        m2s_len = reg;
        m2s_data_regs_expected = expected;
      } in
      if self.m2s_cmd == proto.give_me_any_data
      then put_tx_staged_into_s2m ring proto (record sized {
        stats = record (self.stats) {
          m2s_polls_started_count = self.stats.m2s_polls_started_count + 1;
        };
      })
      else record sized {
        stats = record (self.stats) {
          m2s_blobs_started_count = self.stats.m2s_blobs_started_count + 1;
        };
      }

  -- A data register: the blob is consumed when as many registers are written as are expected.
  unfoldable pub on_data : ModbusSlave F → ℕ → ℕ → ModbusSlave F
  on_data self i reg =
      let stored : ModbusSlave F = record self {
        m2s_data_regs = set self.m2s_data_regs i reg;
        m2s_data_regs_written = self.m2s_data_regs_written + 1;
      } in
      if self.m2s_cmd == proto.put_blob
        && (ltb 0 self.m2s_data_regs_expected
            && leb self.m2s_data_regs_expected (self.m2s_data_regs_written + 1))
      then put_m2s_into_rxfifo ring proto stored
      else stored

  unfoldable pub holding_reg_wr : Option (ModbusSlave F) → ℕ → ℕ → Option (ModbusSlave F) × Rc
  holding_reg_wr none addr reg = (none, negative eio)
  holding_reg_wr (some self) addr reg = (
    some (
        if not self.is_callback_processing_enabled
        then self
        else if addr == proto.m2s_cmd_reg
        then on_command self reg
        else if addr == proto.m2s_cmd_reg + 1
        then on_length self reg
        else if in_data proto.m2s_data_reg addr
        then on_data self (addr - proto.m2s_data_reg) reg
        else self),
    success,
  )
