-- ===== src/Canbus/Write.antt =====
-- `dtiox_zephyr_canbus_write` of dtiox_zephyr_canbus.c. The loops recur on the attempts and rounds
-- that are left; each round sends at least one byte, so `len` rounds are enough.
use dtmc_zephyr.Prelude.{
  ℕ, zero, suc, ℤ, pos_part, ◌+◌, ◌-◌, Bool, not, Option, none, some, List, ◌++◌, ltb, take, drop,
  replicate, if◌then◌else◌, bit_or, ◌||◌,
}
use dtmc_zephyr.Err.{
  Rc, success, positive, negative, is_success, is_eagain, Dterr, leaf, fail, timeout, argument_null,
}
use dtmc_zephyr.Port.Ring.{RingFifo}
use dtmc_zephyr.Port.Core.{CoreHelper}
use dtmc_zephyr.Port.Can.{CanFrame, CanDriver}
use dtmc_zephyr.Canbus.Object.{Config, Canbus, World}
use dtmc_zephyr.Canbus.Callbacks.{check_error_state, on_events}

-- What the retry loop has left: an error that goes to `cleanup`, or the last `ret`.
pub record Attempts (F B : Type 0) : Type 0 where
  pub world : World F B
  pub dterr : Option Dterr
  pub ret : Rc

-- What the method leaves: the error, `*out_written` (`none` if nothing was written there).
pub record Written (F B : Type 0) : Type 0 where
  pub world : World F B
  pub dterr : Option Dterr
  pub out_written : Option ℕ

module _ {B : Type 0} (driver : CanDriver B) where
  -- the frame of a round, from the bytes `chunk`
  unfoldable pub make_frame : Config → List ℕ → ℕ → CanFrame
  make_frame config chunk chunk_len = record {
    id = config.txid;
    dlc = driver.can_bytes_to_dlc chunk_len;
    flags = if config.use_extended_id then bit_or 0 driver.frame_ide else 0;
    bytes = chunk ++ replicate (8 - chunk_len) 0;
  }

module _ {F B : Type 0} (ring : RingFifo F) (core : CoreHelper) (driver : CanDriver B) where
  -- `for (attempt = 0; attempt < self->tx_retry_count; ++attempt)`, by the attempts left
  unfoldable pub send_attempts : ℕ → World F B → CanFrame → Rc → Attempts F B
  send_attempts zero w frame ret = record { world = w; dterr = none; ret = ret }
  send_attempts (suc left) w frame ret =
      let (checked, gate) = check_error_state ring core w.self in
      let (bus, rc, events) = driver.can_send w.bus frame checked.tx_retry_milliseconds in
      let self = on_events ring core driver checked events in
      let sent : World F B = record { self = self; bus = bus } in
      let again = send_attempts left sent frame rc in
      let failed : Attempts F B = record { world = sent; dterr = some (leaf fail); ret = rc } in
      let unsettled : Attempts F B = elim rc [
        | success ↦ again
        | positive n ↦ again
        | negative e ↦ if is_eagain (negative e) then again else failed
      ] in
      elim gate [
        | some e ↦ record { world = record w { self = checked }; dterr = some e; ret = ret }
        | none ↦
            if is_success rc
            then record { world = sent; dterr = none; ret = rc }
            else if not (is_success self.last_tx_error)
            then failed
            else unsettled
      ]

  -- `while (total_written < len)`, by the rounds left
  unfoldable pub write_loop : ℕ → World F B → List ℕ → ℕ → ℕ → Written F B
  write_loop zero w buf len total_written = record {
    world = w;
    dterr = none;
    out_written = some total_written;
  }
  write_loop (suc rounds) w buf len total_written =
      let rest = len - total_written in
      let chunk_len = if ltb 8 rest then 8 else rest in
      let frame =
        make_frame driver w.self.config (take chunk_len (drop total_written buf)) chunk_len in
      let sent = send_attempts w.self.tx_retry_count w frame success in
      let self = sent.world.self in
      let counted : Canbus F = record self {
        stats = record (self.stats) { tx_bytes = core.add32 self.stats.tx_bytes chunk_len };
      } in
      let next =
        write_loop rounds (record (sent.world) { self = counted }) buf len
          (total_written + chunk_len) in
      let stop : Dterr → Written F B =
        λ e. record { world = sent.world; dterr = some e; out_written = some 0 } in
      if ltb total_written len
      then elim sent.dterr [
        | some e ↦ stop e
        | none ↦ if is_eagain sent.ret then stop (leaf timeout) else next
      ]
      else record { world = w; dterr = none; out_written = some total_written }

  -- After the loop: `*out_written` and the call count, unless an error went to `cleanup`.
  unfoldable pub finish : Written F B → Written F B
  finish done =
      let self = done.world.self in
      let counted : Canbus F = record self {
        stats = record (self.stats) { tx_calls = core.inc32 self.stats.tx_calls };
      } in
      elim done.dterr [
        | some e ↦ done
        | none ↦ record done { world = record (done.world) { self = counted } }
      ]

  -- `buf` is `none` for NULL; `has_out` says that `out_written` is not NULL.
  unfoldable pub write : World F B → Option (List ℕ) → ℤ → Bool → Written F B
  write w none len has_out = record {
    world = w;
    dterr = some (leaf argument_null);
    out_written = none;
  }
  write w (some buf) len has_out =
      let self = w.self in
      let n = pos_part len in
      if not has_out
      then record { world = w; dterr = some (leaf argument_null); out_written = none }
      else if not self.dev_ready || not self.dev_started
      then record {
        world = record w { self = record self { rx_error_count = core.inc32 self.rx_error_count } };
        dterr = some (leaf fail);
        out_written = some 0;
      }
      else finish (write_loop n w buf n 0)
