-- ===== src/Port/Modbus.antt =====
-- The register protocol of dtmc_base (dtiox_modbus.h, dtmodbus_helpers.h) and the Zephyr Modbus
-- server: constants, packing of bytes into registers, and the answers of calls.
use dtmc_zephyr.Prelude.{ℕ, ◌+◌, ◌≤◌, ◌<◌, ◌≡◌, ◌≢◌, List, [], ◌∷◌, Option, length}
use dtmc_zephyr.Err.{Dterr}

abbrev pub AllBytes : List ℕ → Type 0
AllBytes [] = Unit {0}
AllBytes (b ∷ bs) = (b < 256) × AllBytes bs

pub record ModbusProtocol : Type 0 where
  -- DTIOX_MODBUS_REG_…: where the master writes and reads
  pub m2s_cmd_reg : ℕ
  pub m2s_data_reg : ℕ
  pub s2m_status_reg : ℕ
  pub s2m_data_reg : ℕ
  -- DTIOX_MODBUS_CMD_… and DTIOX_MODBUS_STATUS_…
  pub put_blob : ℕ
  pub give_me_any_data : ℕ
  pub has_data : ℕ
  pub no_data : ℕ
  -- DTIOX_MODBUS_MAX_BLOB_BYTES, …_REGS and DTIOX_MODBUS_BLOB_TO_REGS
  pub max_blob_bytes : ℕ
  pub max_blob_regs : ℕ
  pub blob_to_regs : ℕ → ℕ
  -- `dtmodbus_helpers_pack_bytes_to_regs` into the registers given, and the way back
  pub pack_bytes_to_regs : List ℕ → List ℕ → List ℕ
  pub unpack_regs_to_bytes : List ℕ → ℕ → List ℕ
  -- The header registers stand before the data registers, in both directions.
  pub m2s_layout : m2s_cmd_reg + 2 ≤ m2s_data_reg
  pub s2m_layout : s2m_status_reg + 2 ≤ s2m_data_reg
  pub commands_differ : put_blob ≢ give_me_any_data
  -- The largest blob fits its registers, and fits a 16-bit length.
  pub blob_fits : (n : ℕ) → n ≤ max_blob_bytes → blob_to_regs n ≤ max_blob_regs
  pub blob_needs_regs : (n : ℕ) → 0 < n → 0 < blob_to_regs n
  pub len_fits : max_blob_bytes < 65536
  pub length-pack : (bytes regs : List ℕ) → length (pack_bytes_to_regs bytes regs) ≡ length regs
  pub length-unpack : (regs : List ℕ) (n : ℕ) → length (unpack_regs_to_bytes regs n) ≡ n
  pub unpack-pack :
      (bytes regs : List ℕ)
      → length regs ≡ max_blob_regs
      → length bytes ≤ max_blob_bytes
      → AllBytes bytes
      → unpack_regs_to_bytes (pack_bytes_to_regs bytes regs) (length bytes) ≡ bytes

-- What `dtlock_acquire` and `dtlock_release` answer in a call.
pub record LockAnswers : Type 0 where
  pub acquire : Option Dterr
  pub release : Option Dterr
