-- ===== src/Canbus/Read.antt =====
-- `dtiox_zephyr_canbus_read` of dtiox_zephyr_canbus.c.
use dtmc_zephyr.Prelude.{
  ℕ, ℤ, Bool, false, ◌&&◌, ◌||◌, not, Option, none, some, List, [], length, if◌then◌else◌,
}
use dtmc_zephyr.Err.{Dterr, leaf, fail, overflow, argument_null}
use dtmc_zephyr.Port.Ring.{RingFifo}
use dtmc_zephyr.Port.Core.{CoreHelper}
use dtmc_zephyr.Canbus.Object.{Canbus}
use dtmc_zephyr.Canbus.Callbacks.{check_error_state, rx_fifo_pop}

-- The error, `*out_read` (`none` if nothing was written there), and the bytes put into `buf`.
pub record ReadReply : Type 0 where
  pub dterr : Option Dterr
  pub out_read : Option ℕ
  pub bytes : List ℕ

abbrev pub refused : Dterr → ReadReply
refused e = record { dterr = some e; out_read = some 0; bytes = [] }

module _ {F : Type 0} (ring : RingFifo F) (core : CoreHelper) where
  -- The overflow report, or the bytes.
  read_fifo : Canbus F → ℤ → Canbus F × ReadReply
  read_fifo self buf_len =
      let (popped, bytes) = rx_fifo_pop ring core self buf_len in
      let n = length bytes in
      if self.rx_overflow_flag
      then (
        record self { rx_overflow_flag = false; rx_error_count = core.inc32 self.rx_error_count },
        refused (leaf overflow),
      )
      else (
        record popped {
          stats = record (popped.stats) {
            rx_calls = core.inc32 popped.stats.rx_calls;
            rx_bytes = core.add32 popped.stats.rx_bytes n;
          };
        },
        record { dterr = none; out_read = some n; bytes = bytes },
      )

  -- `has_buf` and `has_out` say that the pointers are not NULL.
  unfoldable pub read : Canbus F → Bool → Bool → ℤ → Canbus F × ReadReply
  unfolding read_fifo
  read self has_buf has_out buf_len =
      let (checked, gate) = check_error_state ring core self in
      if not (has_buf && has_out)
      then (self, record { dterr = some (leaf argument_null); out_read = none; bytes = [] })
      else if not self.dev_ready || not self.dev_started
      then (record self { rx_error_count = core.inc32 self.rx_error_count }, refused (leaf fail))
      else elim gate [ some e ↦ (checked, refused e) | none ↦ read_fifo checked buf_len ]
