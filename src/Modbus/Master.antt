-- ===== src/Modbus/Master.antt =====
-- The requests of a Modbus master, as calls of the register callbacks on the bound object.
use dtmc_zephyr.Prelude.{
  ℕ, zero, suc, ◌+◌, ◌-◌, ◌<◌, ◌≡◌, sym, ◌∙◌, ap, ap₂, true, Option, none, some, List, [], ◌∷◌,
  arith, length, get_or, drop, drop-get, drop_all,
}
use dtmc_zephyr.Port.Ring.{RingFifo}
use dtmc_zephyr.Port.Modbus.{ModbusProtocol}
use dtmc_zephyr.Modbus.Object.{ModbusSlave}
use dtmc_zephyr.Modbus.Callbacks.{holding_reg_rd, on_command, on_length, on_data, holding_reg_wr}
use dtmc_zephyr.Modbus.Session.{or_self}

-- what a read gave, 0 for nothing
abbrev pub or_zero : Option ℕ → ℕ
or_zero none = 0
or_zero (some n) = n

module _ {F : Type 0} (ring : RingFifo F) (proto : ModbusProtocol) where
  -- a register write
  abbrev pub put_reg : ModbusSlave F → ℕ → ℕ → ModbusSlave F
  put_reg s addr reg = or_self ring proto (holding_reg_wr ring proto (some s) addr reg).0 s

  -- what a read of an address gives
  abbrev pub reg_at : ModbusSlave F → ℕ → Option ℕ
  reg_at s addr = (holding_reg_rd ring proto (some s) addr true).out_reg

  -- `k` data registers, from the one with index `i` on
  unfoldable pub read_regs : ModbusSlave F → ℕ → ℕ → List ℕ
  read_regs s i zero = []
  read_regs s i (suc k) = or_zero (reg_at s (proto.s2m_data_reg + i)) ∷ read_regs s (i + 1) k

  pub put_command :
      (s : ModbusSlave F) (reg : ℕ)
      → s.is_callback_processing_enabled ≡ true
      → put_reg s proto.m2s_cmd_reg reg ≡ on_command ring proto s reg
  unfolding holding_reg_wr
  put_command s reg h = ground arith

  pub put_length :
      (s : ModbusSlave F) (reg : ℕ)
      → s.is_callback_processing_enabled ≡ true
      → put_reg s (proto.m2s_cmd_reg + 1) reg ≡ on_length ring proto s reg
  unfolding holding_reg_wr
  put_length s reg h = ground arith

  pub put_data :
      (s : ModbusSlave F) (i reg : ℕ)
      → s.is_callback_processing_enabled ≡ true
      → i < proto.max_blob_regs
      → put_reg s (proto.m2s_data_reg + i) reg ≡ on_data ring proto s i reg
  unfolding holding_reg_wr
  put_data s i reg h lt =
      let index : proto.m2s_data_reg + i - proto.m2s_data_reg ≡ i = omega arith in
      ground (arith, proto.m2s_layout, ap (λ j. on_data ring proto s j reg) index)

  pub read_status :
      (s : ModbusSlave F)
      → s.is_callback_processing_enabled ≡ true
      → reg_at s proto.s2m_status_reg ≡ some s.s2m_status
  unfolding holding_reg_rd
  read_status s h = ground arith

  pub read_length :
      (s : ModbusSlave F)
      → s.is_callback_processing_enabled ≡ true
      → reg_at s (proto.s2m_status_reg + 1) ≡ some s.s2m_len
  unfolding holding_reg_rd
  read_length s h = ground arith

  read_data :
      (s : ModbusSlave F) (i : ℕ)
      → s.is_callback_processing_enabled ≡ true
      → i < proto.max_blob_regs
      → reg_at s (proto.s2m_data_reg + i) ≡ some (get_or s.s2m_data_regs i 0)
  unfolding holding_reg_rd
  read_data s i h lt =
      let index : proto.s2m_data_reg + i - proto.s2m_data_reg ≡ i = omega arith in
      ground (arith, proto.s2m_layout, ap (λ j. get_or s.s2m_data_regs j 0) index)

  -- Reads of all the data registers give the registers.
  pub read_regs_from :
      (s : ModbusSlave F) (i k : ℕ)
      → s.is_callback_processing_enabled ≡ true
      → length s.s2m_data_regs ≡ proto.max_blob_regs
      → i + k ≡ proto.max_blob_regs
      → read_regs s i k ≡ drop i s.s2m_data_regs
  unfolding read_regs
  read_regs_from s i zero h size e = sym (drop_all i s.s2m_data_regs (omega arith))
  read_regs_from s i (suc k) h size e =
      let next : i + 1 ≡ suc i = omega arith in
      ap₂ ◌∷◌ (ap or_zero (read_data s i h (omega arith)))
        (read_regs_from s (i + 1) k h size (omega arith) ∙ ap (λ j. drop j s.s2m_data_regs) next)
      ∙ sym (drop-get i s.s2m_data_regs 0 (omega arith))
