-- ===== src/Canbus/Timeout.antt =====
-- How `dtiox_zephyr_canbus_write` ends when frames do not get through.
use dtmc_zephyr.Prelude.{
  ℕ, zero, suc, pos, ◌-◌, ◌<◌, ◌≡◌, refl, ◌∙◌, ap, true, false, Option, none, some, List, [], arith,
  ltb, if◌then◌else◌, take,
}
use dtmc_zephyr.Err.{eagain, Rc, success, negative, Dterr, leaf, timeout}
use dtmc_zephyr.Port.Ring.{RingFifo}
use dtmc_zephyr.Port.Core.{CoreHelper}
use dtmc_zephyr.Port.Can.{CanFrame, CanDriver}
use dtmc_zephyr.Canbus.Object.{World}
use dtmc_zephyr.Canbus.Callbacks.{is_bad_state, check_error_state, on_events}
use dtmc_zephyr.Canbus.Write.{Attempts, make_frame, send_attempts, write_loop, finish, write}

module _ {B : Type 0} (driver : CanDriver B) where
  -- A driver in a state from which every send times out, with no callback.
  pub record IsStalled (P : B → Type 0) : Type 0 where
    pub times_out :
        (b : B) (f : CanFrame) (ms : ℕ) → P b → (driver.can_send b f ms).1 ≡ negative eagain
    pub silent : (b : B) (f : CanFrame) (ms : ℕ) → P b → (driver.can_send b f ms).2 ≡ []
    pub stays : (b : B) (f : CanFrame) (ms : ℕ) → P b → P (driver.can_send b f ms).0

  -- `n` sends of one frame
  abbrev pub sends : ℕ → B → CanFrame → ℕ → B
  sends zero b f ms = b
  sends (suc n) b f ms = sends n (driver.can_send b f ms).0 f ms

module _ {F B : Type 0} (ring : RingFifo F) (core : CoreHelper) (driver : CanDriver B) where
  abbrev pub after_sends : ℕ → World F B → CanFrame → World F B
  after_sends n w f = record {
    self = w.self;
    bus = sends driver n w.bus f w.self.tx_retry_milliseconds;
  }

  stalled_attempt :
      (left : ℕ) (w : World F B) (f : CanFrame) (ret : Rc)
      → (driver.can_send w.bus f w.self.tx_retry_milliseconds).1 ≡ negative eagain
      → (driver.can_send w.bus f w.self.tx_retry_milliseconds).2 ≡ []
      → is_bad_state w.self.cur_state ≡ false
      → w.self.last_tx_error ≡ success
      → send_attempts ring core driver (suc left) w f ret
        ≡ send_attempts ring core driver left (after_sends 1 w f) f (negative eagain)
  unfolding send_attempts check_error_state on_events
  stalled_attempt left w f ret ht he hs hl = ground arith

  -- With no attempt configured the retry loop does nothing, and reports no error.
  pub no_attempts :
      (w : World F B) (f : CanFrame) (ret : Rc)
      → send_attempts ring core driver zero w f ret ≡ record { world = w; dterr = none; ret = ret }
  unfolding send_attempts
  no_attempts w f ret = refl

  stalled_attempts :
      (P : B → Type 0) (stalled : IsStalled driver P) (left : ℕ) (w : World F B) (f : CanFrame)
      (ret : Rc)
      → P w.bus
      → is_bad_state w.self.cur_state ≡ false
      → w.self.last_tx_error ≡ success
      → send_attempts ring core driver (suc left) w f ret
        ≡ record { world = after_sends (suc left) w f; dterr = none; ret = negative eagain }
  stalled_attempts P stalled zero w f ret hp hs hl =
      let ms = w.self.tx_retry_milliseconds in
      stalled_attempt zero w f ret (stalled.times_out w.bus f ms hp) (stalled.silent w.bus f ms hp)
        hs hl
      ∙ no_attempts (after_sends 1 w f) f (negative eagain)
  stalled_attempts P stalled (suc left) w f ret hp hs hl =
      let ms = w.self.tx_retry_milliseconds in
      stalled_attempt (suc left) w f ret (stalled.times_out w.bus f ms hp)
        (stalled.silent w.bus f ms hp) hs hl
      ∙ stalled_attempts P stalled left (after_sends 1 w f) f (negative eagain)
          (stalled.stays w.bus f ms hp) hs hl

  -- the frame that a write of the buffer begins with
  abbrev pub first_frame : World F B → List ℕ → ℕ → CanFrame
  first_frame w buf len =
      let n = if ltb 8 len then 8 else len in make_frame driver w.self.config (take n buf) n

  -- A first round whose attempts have all timed out.
  first_round :
      (n : ℕ) (w : World F B) (buf : List ℕ) (out : Attempts F B)
      → send_attempts ring core driver w.self.tx_retry_count w (first_frame w buf (suc n)) success
        ≡ out
      → out.dterr ≡ none
      → out.ret ≡ negative eagain
      → write_loop ring core driver (suc n) w buf (suc n) 0
        ≡ record { world = out.world; dterr = some (leaf timeout); out_written = some 0 }
  unfolding write_loop
  first_round n w buf out e hd hr =
      let z : suc n - 0 ≡ suc n = omega arith in
      let more : ltb 0 (suc n) ≡ true = ground arith in simp (z, more, e, hd, hr)

  started :
      (w : World F B) (buf : List ℕ) (len : ℕ)
      → w.self.dev_ready ≡ true
      → w.self.dev_started ≡ true
      → write ring core driver w (some buf) (pos len) true
        ≡ finish ring core driver (write_loop ring core driver len w buf len 0)
  unfolding write
  started w buf len hready hstarted = simp (hready, hstarted)

  finish_error :
      (w : World F B) (e : Dterr) (out : Option ℕ)
      → finish ring core driver (record { world = w; dterr = some e; out_written = out })
        ≡ record { world = w; dterr = some e; out_written = out }
  unfolding finish
  finish_error w e out = refl

  -- While every send times out and no callback runs during the sends, a write of some bytes to a
  -- ready and started controller in a good state, with at least one attempt configured and no
  -- error of an earlier transmission in `last_tx_error`, gives up with a timeout after the
  -- configured number of attempts, all with its first frame, and leaves the object as it was.
  pub write_times_out :
      (P : B → Type 0) (stalled : IsStalled driver P) (w : World F B) (buf : List ℕ) (len : ℕ)
      → P w.bus
      → is_bad_state w.self.cur_state ≡ false
      → w.self.last_tx_error ≡ success
      → 0 < w.self.tx_retry_count
      → 0 < len
      → w.self.dev_ready ≡ true
      → w.self.dev_started ≡ true
      → write ring core driver w (some buf) (pos len) true ≡ record {
        world = after_sends w.self.tx_retry_count w (first_frame w buf len);
        dterr = some (leaf timeout);
        out_written = some 0;
      }
  write_times_out P stalled w buf zero hp hs hl hr h hready hstarted = absurd (omega arith)
  write_times_out P stalled w buf (suc n) hp hs hl hr h hready hstarted =
      let f = first_frame w buf (suc n) in
      let e : suc (w.self.tx_retry_count - 1) ≡ w.self.tx_retry_count = omega arith in
      let spent =
        rw e at (stalled_attempts P stalled (w.self.tx_retry_count - 1) w f success hp hs hl) in
      started w buf (suc n) hready hstarted
      ∙ ap (finish ring core driver) (first_round n w buf _ spent refl refl)
      ∙ finish_error _ _ _
