-- ===== src/Canbus/Overflow.antt =====
-- The error paths of the CAN object that a caller sees: an overflow of the FIFO, and a write before
-- `configure`.
use dtmc_zephyr.Prelude.{
  ℕ, zero, suc, pos, ◌+◌, ◌-◌, ◌≤◌, ◌<◌, ◌≡◌, refl, ◌∙◌, ap, true, false, none, some, List, ◌++◌,
  arith, ltb, dec_lt, length, take, if◌then◌else◌, drop,
}
use dtmc_zephyr.Err.{leaf, overflow, success}
use dtmc_zephyr.Port.Ring.{RingFifo}
use dtmc_zephyr.Port.Core.{CoreHelper}
use dtmc_zephyr.Port.Can.{CanDriver}
use dtmc_zephyr.Canbus.Object.{Canbus, World}
use dtmc_zephyr.Canbus.Callbacks.{is_bad_state, rx_fifo_push, rx_fifo_pop, check_error_state}
use dtmc_zephyr.Canbus.Read.{ReadReply, refused, read}
use dtmc_zephyr.Canbus.Write.{make_frame, write_loop, finish, write}
use dtmc_zephyr.Canbus.Timeout.{no_attempts}

-- a controller on which reads go as far as the FIFO
pub record IsReadable {F : Type 0} (self : Canbus F) : Type 0 where
  pub ready : self.dev_ready ≡ true
  pub started : self.dev_started ≡ true
  pub good : is_bad_state self.cur_state ≡ false

module _ {F : Type 0} (ring : RingFifo F) (core : CoreHelper) where
  read_overflow :
      (self : Canbus F) (n : ℕ)
      → IsReadable self
      → self.rx_overflow_flag ≡ true
      → read ring core self true true (pos n) ≡ (
        record self { rx_overflow_flag = false; rx_error_count = core.inc32 self.rx_error_count },
        refused (leaf overflow),
      )
  unfolding read check_error_state
  read_overflow self n h flag = ground arith

  pub read_bytes :
      (self : Canbus F) (m : ℕ)
      → IsReadable self
      → self.rx_overflow_flag ≡ false
      → 0 < m
      → (read ring core self true true (pos m)).1 ≡ (
          let bytes = (ring.pop self.rx_fifo m).1 in
          record { dterr = none; out_read = some (length bytes); bytes = bytes })
  unfolding read rx_fifo_pop check_error_state
  read_bytes self m h flag hm = ground arith

  push_overflow :
      (self : Canbus F) (src : List ℕ)
      → ring.room self.rx_fifo < length src
      → let after = (rx_fifo_push ring core self src).0 in
        (after.rx_overflow_flag ≡ true)
        × (after.rx_fifo ≡ (ring.push self.rx_fifo src).0)
        × (after.dev_ready ≡ self.dev_ready)
        × (after.dev_started ≡ self.dev_started)
        × (after.cur_state ≡ self.cur_state)
  unfolding rx_fifo_push
  push_overflow self src h = ground (arith, ring.push_count self.rx_fifo src)

  push-IsReadable :
      (self : Canbus F) (src : List ℕ)
      → ring.room self.rx_fifo < length src
      → IsReadable self
      → IsReadable (rx_fifo_push ring core self src).0
  push-IsReadable self src h r =
      let p = push_overflow self src h in
      record {
        ready = p.2 ∙ r.ready;
        started = p.3 ∙ r.started;
        good = ap is_bad_state p.4 ∙ r.good;
      }

  -- On a started controller in a good state, a push that does not fit makes the next read return
  -- DTERR_OVERFLOW and no bytes, and the read after that, if nothing arrives between them and it
  -- asks for some bytes, return the oldest ones held, the part of the push that did fit included.
  pub overflow_reported_once :
      (self : Canbus F) (src : List ℕ) (n m : ℕ)
      → IsReadable self
      → ring.room self.rx_fifo < length src
      → 0 < m
      → let pushed = (rx_fifo_push ring core self src).0 in
        let first = read ring core pushed true true (pos n) in
        let bytes = take m (ring.contents self.rx_fifo ++ take (ring.room self.rx_fifo) src) in
        (first.1 ≡ refused (leaf overflow))
        × ((read ring core first.0 true true (pos m)).1
            ≡ record { dterr = none; out_read = some (length bytes); bytes = bytes })
  overflow_reported_once self src n m r hroom hm =
      let f = self.rx_fifo in
      let pushed = (rx_fifo_push ring core self src).0 in
      let p = push_overflow self src hroom in
      let r₁ = push-IsReadable self src hroom r in
      let told = read_overflow pushed n r₁ p.0 in
      let quiet : Canbus F = record pushed {
        rx_overflow_flag = false;
        rx_error_count = core.inc32 pushed.rx_error_count;
      } in
      let r₂ : IsReadable quiet = record {
        ready = r₁.ready;
        started = r₁.started;
        good = r₁.good;
      } in
      let count : (ring.push f src).1 ≡ ring.room f = ring.push_count f src ∙ omega arith in
      let held : ring.contents pushed.rx_fifo ≡ ring.contents f ++ take (ring.room f) src =
        ap ring.contents p.1
        ∙ ring.push_contents f src
        ∙ ap (λ k. ring.contents f ++ take k src) count in
      let got : (ring.pop pushed.rx_fifo m).1 ≡ take m (ring.contents f ++ take (ring.room f) src) =
        ring.pop_bytes pushed.rx_fifo m ∙ ap (take m) held in
      (
        ap (λ q. q.1) told,
        ap (λ q. (read ring core q.0 true true (pos m)).1) told
            ∙ read_bytes quiet m r₂ refl hm
            ∙ ap {B = ReadReply}
                (λ b. record { dterr = none; out_read = some (length b); bytes = b }) got,
      )

module _ {F B : Type 0} (ring : RingFifo F) (core : CoreHelper) (driver : CanDriver B) where
  -- the state after a round that sent nothing
  abbrev skip : World F B → ℕ → World F B
  skip w n = record w {
    self = record (w.self) {
      stats = record (w.self.stats) { tx_bytes = core.add32 w.self.stats.tx_bytes n };
    };
  }

  -- A round with no attempt goes on as if its frame had been sent.
  skipped_round :
      (w : World F B) (rounds len : ℕ) (buf : List ℕ) (total : ℕ)
      → w.self.tx_retry_count ≡ 0
      → total < len
      → let n = if ltb 8 (len - total) then 8 else len - total in
        write_loop ring core driver (suc rounds) w buf len total
        ≡ write_loop ring core driver rounds (skip w n) buf len (total + n)
  unfolding write_loop
  skipped_round w rounds len buf total h lt =
      let n = if ltb 8 (len - total) then 8 else len - total in
      let frame = make_frame driver w.self.config (take n (drop total buf)) n in
      ground (arith, no_attempts ring core driver w frame success)

  loop_ended :
      (w : World F B) (rounds len : ℕ) (buf : List ℕ) (total : ℕ)
      → len ≤ total
      → write_loop ring core driver rounds w buf len total
        ≡ record { world = w; dterr = none; out_written = some total }
  unfolding write_loop
  loop_ended w zero len buf total h = refl
  loop_ended w (suc rounds) len buf total h = ground arith

  skipped_rounds :
      (w : World F B) (rounds len : ℕ) (buf : List ℕ) (total : ℕ)
      → w.self.tx_retry_count ≡ 0
      → len ≤ total + rounds
      → total ≤ len
      → let out = write_loop ring core driver rounds w buf len total in
        (out.dterr ≡ none) × (out.out_written ≡ some len) × (out.world.bus ≡ w.bus)
  skipped_rounds w zero len buf total h hr hle =
      let e : total ≡ len = omega arith in
      rw (loop_ended w zero len buf total (omega arith)) (refl, ap some e, refl)
  skipped_rounds w (suc rounds) len buf total h hr hle = elim (dec_lt total len) [
    | no p ↦
        let e : total ≡ len = omega arith in
        rw (loop_ended w (suc rounds) len buf total (omega arith)) (refl, ap some e, refl)
    | yes p ↦
        let n = if ltb 8 (len - total) then 8 else len - total in
        let some_progress : (0 < n) × (total + n ≤ len) = ground arith in
        rw (skipped_round w rounds len buf total h p)
          (skipped_rounds (skip w n) rounds len buf (total + n) h (omega arith) some_progress.1)
  ]

  -- A write to a started controller that was never configured, so that no attempt is allowed,
  -- reports all the bytes as written without an error, and has sent nothing.
  pub unconfigured_write :
      (w : World F B) (buf : List ℕ) (len : ℕ)
      → w.self.dev_ready ≡ true
      → w.self.dev_started ≡ true
      → w.self.tx_retry_count ≡ 0
      → let out = write ring core driver w (some buf) (pos len) true in
        (out.dterr ≡ none) × (out.out_written ≡ some len) × (out.world.bus ≡ w.bus)
  unfolding write finish
  unconfigured_write w buf len hr hs h =
      ground (arith, skipped_rounds w len len buf 0 h (omega arith) (omega arith))
