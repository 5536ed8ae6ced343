-- ===== src/Canbus/BadState.antt =====
-- Reads and writes while the controller is in a state in which the CAN object refuses both.
use dtmc_zephyr.Prelude.{
  ℕ, zero, suc, pos, ◌-◌, ◌<◌, ◌≡◌, refl, ◌∙◌, ap, true, false, Option, none, some, List, [], ◌∷◌,
  arith, length, take, drop, replicate, ltb, if◌then◌else◌,
}
use dtmc_zephyr.Err.{Dterr, leaf, fail, Rc, success}
use dtmc_zephyr.Port.Ring.{RingFifo}
use dtmc_zephyr.Port.Core.{CoreHelper}
use dtmc_zephyr.Port.Can.{CanFrame, CanBusErrCnt, state_change_event, error_active, CanDriver}
use dtmc_zephyr.Canbus.Object.{World}
use dtmc_zephyr.Canbus.Callbacks.{is_bad_state, check_error_state, state_change_callback, on_event}
use dtmc_zephyr.Canbus.Read.{refused, read}
use dtmc_zephyr.Canbus.Write.{make_frame, send_attempts, write_loop, finish, write}
use dtmc_zephyr.Canbus.Overflow.{IsReadable, read_bytes}

-- A read into a buffer of so many bytes, or a write of so many bytes of a buffer.
pub data Transfer : Type 0 where
  asks : ℕ → Transfer
  sends : List ℕ → ℕ → Transfer

-- whether all the writes are of some bytes
abbrev pub AllWriteSome : List Transfer → Type 0
AllWriteSome [] = Unit
AllWriteSome (asks n ∷ ts) = AllWriteSome ts
AllWriteSome (sends buf len ∷ ts) = (0 < len) × AllWriteSome ts

-- what a caller is told of a transfer that is refused
abbrev pub no_transfer : Option Dterr × Option ℕ
no_transfer = (some (leaf fail), some 0)

-- A configured and started controller in a bad state.
pub record IsBad {F B : Type 0} (w : World F B) : Type 0 where
  pub bad : is_bad_state w.self.cur_state ≡ true
  pub ready : w.self.dev_ready ≡ true
  pub started : w.self.dev_started ≡ true
  pub tries : 0 < w.self.tx_retry_count

module _ {F B : Type 0} (ring : RingFifo F) (core : CoreHelper) (driver : CanDriver B) where
  -- the world after a transfer, its error, and the number of bytes that the caller is told
  unfoldable pub transfer : World F B → Transfer → World F B × Option Dterr × Option ℕ
  transfer w (asks n) =
      let (self, reply) = read ring core w.self true true (pos n) in
      (record w { self = self }, reply.dterr, reply.out_read)
  transfer w (sends buf len) =
      let out = write ring core driver w (some buf) (pos len) true in
      (out.world, out.dterr, out.out_written)

  -- transfers one after another, with what each of them tells the caller
  unfoldable pub transfers : World F B → List Transfer → World F B × List (Option Dterr × Option ℕ)
  transfers w [] = (w, [])
  transfers w (t ∷ ts) =
      let (next, e, told) = transfer w t in
      let (last, replies) = transfers next ts in (last, (e, told) ∷ replies)

  -- the world with one more refusal counted
  abbrev counted : World F B → World F B
  counted w = record w {
    self = record (w.self) { rx_error_count = core.inc32 w.self.rx_error_count };
  }

  attempts_turned_down :
      (tries : ℕ) (w : World F B) (frame : CanFrame) (ret : Rc)
      → 0 < tries
      → is_bad_state w.self.cur_state ≡ true
      → send_attempts ring core driver tries w frame ret
        ≡ record { world = counted w; dterr = some (leaf fail); ret = ret }
  unfolding send_attempts check_error_state
  attempts_turned_down zero w frame ret h bad = absurd (omega arith)
  attempts_turned_down (suc tries) w frame ret h bad = ground arith

  write_turned_down :
      (w : World F B) (buf : List ℕ) (len : ℕ)
      → IsBad w
      → 0 < len
      → write ring core driver w (some buf) (pos len) true
        ≡ record { world = counted w; dterr = some (leaf fail); out_written = some 0 }
  unfolding write finish write_loop
  write_turned_down w buf zero h lo = absurd (omega arith)
  write_turned_down w buf (suc len) h lo =
      let n = if ltb 8 (suc len - 0) then 8 else suc len - 0 in
      let frame = make_frame driver w.self.config (take n (drop 0 buf)) n in
      let sent = attempts_turned_down w.self.tx_retry_count w frame success h.tries h.bad in
      ground (arith, h.ready, h.started, sent)

  read_turned_down :
      (w : World F B) (n : ℕ)
      → IsBad w
      → read ring core w.self true true (pos n) ≡ ((counted w).self, refused (leaf fail))
  unfolding read check_error_state
  read_turned_down w n h = ground (arith, h.ready, h.started, h.bad)

  counted-IsBad : (w : World F B) → IsBad w → IsBad (counted w)
  counted-IsBad w h = record { bad = h.bad; ready = h.ready; started = h.started; tries = h.tries }

  -- What transfers leave: all but the count of refusals.
  record Untouched (w v : World F B) : Type 0 where
    bus : v.bus ≡ w.bus
    rx_fifo : v.self.rx_fifo ≡ w.self.rx_fifo
    overflow : v.self.rx_overflow_flag ≡ w.self.rx_overflow_flag
    ready : v.self.dev_ready ≡ w.self.dev_ready
    started : v.self.dev_started ≡ w.self.dev_started

  counted-Untouched : (w v : World F B) → Untouched (counted w) v → Untouched w v
  counted-Untouched w v u = record {
    bus = u.bus;
    rx_fifo = u.rx_fifo;
    overflow = u.overflow;
    ready = u.ready;
    started = u.started;
  }

  transfer_turned_down :
      (w : World F B) (t : Transfer)
      → IsBad w
      → AllWriteSome (t ∷ [])
      → transfer w t ≡ (counted w, some (leaf fail), some 0)
  unfolding transfer
  transfer_turned_down w (asks n) h some_bytes = rw (read_turned_down w n h) refl
  transfer_turned_down w (sends buf len) h some_bytes =
      rw (write_turned_down w buf len h some_bytes.0) refl

  transfers_turned_down :
      (w : World F B) (ts : List Transfer)
      → IsBad w
      → AllWriteSome ts
      → Untouched w (transfers w ts).0 × ((transfers w ts).1 ≡ replicate (length ts) no_transfer)
  unfolding transfers
  transfers_turned_down w [] h each =
      (record { bus = refl; rx_fifo = refl; overflow = refl; ready = refl; started = refl }, refl)
  transfers_turned_down w (asks n ∷ ts) h each =
      let rest = transfers_turned_down (counted w) ts (counted-IsBad w h) each in
      rw (transfer_turned_down w (asks n) h tt)
        (counted-Untouched w _ rest.0, ap (λ rs. no_transfer ∷ rs) rest.1)
  transfers_turned_down w (sends buf len ∷ ts) h each =
      let rest = transfers_turned_down (counted w) ts (counted-IsBad w h) each.1 in
      rw (transfer_turned_down w (sends buf len) h (each.0, tt))
        (counted-Untouched w _ rest.0, ap (λ rs. no_transfer ∷ rs) rest.1)

  -- Take a configured and started controller that is neither ERROR_ACTIVE nor ERROR_PASSIVE, with no
  -- overflow to report, and any reads, and writes of some bytes, with no callback in between. Each
  -- of them is refused with DTERR_FAIL and 0 bytes, nothing is sent, and nothing is taken out of
  -- the FIFO: once the driver reports ERROR_ACTIVE, a read that asks for some bytes gives the
  -- oldest ones that were held before all this.
  pub bad_state_refuses :
      (w : World F B) (ts : List Transfer) (err_cnt : CanBusErrCnt) (m : ℕ)
      → IsBad w
      → w.self.rx_overflow_flag ≡ false
      → AllWriteSome ts
      → 0 < m
      → let (v, replies) = transfers w ts in
        let good = on_event ring core driver v.self (state_change_event error_active err_cnt) in
        let bytes = take m (ring.contents w.self.rx_fifo) in
        (replies ≡ replicate (length ts) no_transfer)
        × (v.bus ≡ w.bus)
        × ((read ring core good true true (pos m)).1
            ≡ record { dterr = none; out_read = some (length bytes); bytes = bytes })
  unfolding on_event state_change_callback
  bad_state_refuses w ts err_cnt m h quiet each lo =
      let v = (transfers w ts).0 in
      let after = transfers_turned_down w ts h each in
      let u = after.0 in
      let good = state_change_callback ring core v.self error_active err_cnt in
      let readable : IsReadable good = record {
        ready = u.ready ∙ h.ready;
        started = u.started ∙ h.started;
        good = refl;
      } in
      let got : (ring.pop v.self.rx_fifo m).1 ≡ take m (ring.contents w.self.rx_fifo) =
        ring.pop_bytes v.self.rx_fifo m ∙ ap (λ f. take m (ring.contents f)) u.rx_fifo in
      (
        after.1,
        u.bus,
        read_bytes ring core good m readable (u.overflow ∙ quiet) lo
            ∙ ap (λ l. record { dterr = none; out_read = some (length l); bytes = l }) got,
      )
