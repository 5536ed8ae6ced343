-- ===== src/Modbus/Helpers.antt =====
-- dtiox_zephyr_modbus_slave__helpers.c
use dtmc_zephyr.Prelude.{
  ℕ, ◌+◌, ◌-◌, Bool, true, false, ◌&&◌, Option, none, some, List, [], ltb, take, replicate, is_some,
  if◌then◌else◌,
}
use dtmc_zephyr.Err.{Dterr}
use dtmc_zephyr.Port.Ring.{RingFifo}
use dtmc_zephyr.Port.Modbus.{ModbusProtocol}
use dtmc_zephyr.Modbus.Object.{ModbusSlave, Stats}

-- Release the lock, if there is one; an error that came in goes before its own.
unfoldable pub release_lock : Bool → Option Dterr → Option Dterr → Option Dterr
release_lock false released dterr_in = dterr_in
release_lock true released none = released
release_lock true released (some e) = some e

-- a length, at most DTIOX_MODBUS_MAX_BLOB_BYTES
abbrev pub clamp_len : ModbusProtocol → ℕ → ℕ
clamp_len proto n = if ltb proto.max_blob_bytes n then proto.max_blob_bytes else n

-- the payload, empty for a missing buffer
abbrev pub payload : Option (List ℕ) → List ℕ
payload none = []
payload (some bytes) = bytes

module _ {F : Type 0} (ring : RingFifo F) (proto : ModbusProtocol) where
  -- The payload in the shadow registers goes into the receive FIFO.
  unfoldable pub put_m2s_into_rxfifo : ModbusSlave F → ModbusSlave F
  put_m2s_into_rxfifo self =
      let byte_len = clamp_len proto self.m2s_len in
      let tmp = proto.unpack_regs_to_bytes self.m2s_data_regs byte_len in
      let (fifo, written) = ring.push self.rx_fifo tmp in
      let short = ltb written byte_len in
      record self {
        rx_fifo = fifo;
        rx_overflow_pending = if short then true else self.rx_overflow_pending;
        posts = if is_some self.rx_semaphore && ltb 0 written then self.posts + 1 else self.posts;
        stats = record (self.stats) {
          rx_dropped =
              if short then self.stats.rx_dropped + (byte_len - written) else self.stats.rx_dropped;
          put_blob_count = self.stats.put_blob_count + 1;
        };
      }

  -- The staged bytes, if any, go into the registers that the master reads.
  unfoldable pub put_tx_staged_into_s2m : ModbusSlave F → ModbusSlave F
  put_tx_staged_into_s2m self =
      let byte_len = clamp_len proto self.tx_staged_len in
      let counted : Stats = record (self.stats) {
        give_me_any_data_count = self.stats.give_me_any_data_count + 1;
      } in
      if self.tx_staged_pending && ltb 0 self.tx_staged_len
      then record self {
        s2m_status = proto.has_data;
        s2m_len = byte_len;
        s2m_data_regs =
            proto.pack_bytes_to_regs (take byte_len (payload self.tx_staged_buf))
              self.s2m_data_regs;
        tx_staged_pending = false;
        tx_staged_len = 0;
        stats = counted;
      }
      else record self {
        s2m_status = proto.no_data;
        s2m_len = 0;
        s2m_data_regs = replicate proto.max_blob_regs 0;
        stats = counted;
      }
