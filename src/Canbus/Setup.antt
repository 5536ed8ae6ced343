-- ===== src/Canbus/Setup.antt =====
-- The fields that callbacks, reads and writes leave alone.
use dtmc_zephyr.Prelude.{
  ℕ, zero, suc, ℤ, ◌+◌, ◌-◌, ◌≡◌, refl, ◌∙◌, sym, subst, ◌⊎◌, inl, inr, Bool, Option, none, some,
  List, [], ◌∷◌, arith, ltb, take, drop, if◌then◌else◌, pos_part,
}
use dtmc_zephyr.Err.{Rc, success}
use dtmc_zephyr.Port.Ring.{RingFifo}
use dtmc_zephyr.Port.Core.{CoreHelper}
use dtmc_zephyr.Port.Can.{CanFrame, CanEvent, rx_event, tx_event, state_change_event, CanDriver}
use dtmc_zephyr.Canbus.Object.{Canbus, World}
use dtmc_zephyr.Canbus.Callbacks.{
  rx_fifo_push, check_error_state, rx_callback, tx_callback, state_change_callback, on_event,
  on_events,
}
use dtmc_zephyr.Canbus.Write.{make_frame, send_attempts, write_loop, finish, write}

pub record SameSetup {F : Type 0} (s t : Canbus F) : Type 0 where
  pub config : t.config ≡ s.config
  pub tx_retry_count : t.tx_retry_count ≡ s.tx_retry_count
  pub can_dev : t.can_dev ≡ s.can_dev
  pub dev_ready : t.dev_ready ≡ s.dev_ready
  pub dev_started : t.dev_started ≡ s.dev_started
  pub rx_filter : t.rx_filter_is_installed ≡ s.rx_filter_is_installed

pub SameSetup-trans :
    {F : Type 0} {s t u : Canbus F} → SameSetup s t → SameSetup t u → SameSetup s u
SameSetup-trans h k = record {
  config = k.config ∙ h.config;
  tx_retry_count = k.tx_retry_count ∙ h.tx_retry_count;
  can_dev = k.can_dev ∙ h.can_dev;
  dev_ready = k.dev_ready ∙ h.dev_ready;
  dev_started = k.dev_started ∙ h.dev_started;
  rx_filter = k.rx_filter ∙ h.rx_filter;
}

pub SameSetup-refl : {F : Type 0} (s : Canbus F) → SameSetup s s
SameSetup-refl s = record {
  config = refl;
  tx_retry_count = refl;
  can_dev = refl;
  dev_ready = refl;
  dev_started = refl;
  rx_filter = refl;
}

module _ {F B : Type 0} (ring : RingFifo F) (core : CoreHelper) (driver : CanDriver B) where
  pub on_event-SameSetup :
      (s : Canbus F) (e : CanEvent) → SameSetup s (on_event ring core driver s e)
  unfolding on_event rx_callback rx_fifo_push tx_callback state_change_callback
  on_event-SameSetup s (rx_event none) = ground arith
  on_event-SameSetup s (rx_event (some f)) = ground arith
  on_event-SameSetup s (tx_event error) = ground arith
  on_event-SameSetup s (state_change_event state err_cnt) = ground arith

  pub on_events-SameSetup :
      (s : Canbus F) (es : List CanEvent) → SameSetup s (on_events ring core driver s es)
  unfolding on_events
  on_events-SameSetup s [] = SameSetup-refl s
  on_events-SameSetup s (e ∷ es) =
      SameSetup-trans (on_event-SameSetup s e)
        (on_events-SameSetup (on_event ring core driver s e) es)

  pub check_error_state-SameSetup : (s : Canbus F) → SameSetup s (check_error_state ring core s).0
  unfolding check_error_state
  check_error_state-SameSetup s = ground arith

  -- the state in which an attempt sends, and the one that the send leaves
  abbrev pub checked : World F B → Canbus F
  checked w = (check_error_state ring core w.self).0

  abbrev pub after_send : World F B → CanFrame → World F B
  after_send w frame =
      let reply = driver.can_send w.bus frame (checked w).tx_retry_milliseconds in
      record { self = on_events ring core driver (checked w) reply.2; bus = reply.0 }

  abbrev pub send_ret : World F B → CanFrame → Rc
  send_ret w frame = (driver.can_send w.bus frame (checked w).tx_retry_milliseconds).1

  no_attempt :
      (w : World F B) (frame : CanFrame) (ret : Rc)
      → SameSetup w.self (send_attempts ring core driver zero w frame ret).world.self
  unfolding send_attempts
  no_attempt w frame ret = SameSetup-refl w.self

  send_attempts_cases :
      (left : ℕ) (w : World F B) (frame : CanFrame) (ret : Rc)
      → let out = send_attempts ring core driver (suc left) w frame ret in
        (out.world.self ≡ checked w)
        ⊎ (out.world.self ≡ (after_send w frame).self)
        ⊎ (out ≡ send_attempts ring core driver left (after_send w frame) frame (send_ret w frame))
  unfolding send_attempts
  send_attempts_cases left w frame ret = ground arith

  after_send-SameSetup :
      (w : World F B) (frame : CanFrame) → SameSetup w.self (after_send w frame).self
  after_send-SameSetup w frame = SameSetup-trans (check_error_state-SameSetup w.self) (
      on_events-SameSetup (checked w)
        (driver.can_send w.bus frame (checked w).tx_retry_milliseconds).2)

  pub send_attempts-SameSetup :
      (left : ℕ) (w : World F B) (frame : CanFrame) (ret : Rc)
      → SameSetup w.self (send_attempts ring core driver left w frame ret).world.self
  send_attempts-SameSetup zero w frame ret = no_attempt w frame ret
  send_attempts-SameSetup (suc left) w frame ret = elim (send_attempts_cases left w frame ret) [
    | inl e ↦ subst (SameSetup w.self) (sym e) (check_error_state-SameSetup w.self)
    | inr (inl e) ↦ subst (SameSetup w.self) (sym e) (after_send-SameSetup w frame)
    | inr (inr e) ↦
        subst (λ out. SameSetup w.self out.world.self) (sym e)
          (SameSetup-trans (after_send-SameSetup w frame)
            (send_attempts-SameSetup left (after_send w frame) frame (send_ret w frame)))
  ]

  -- a round's attempts, and the state in which the next one begins
  abbrev pub round_world : World F B → List ℕ → ℕ → ℕ → World F B
  round_world w buf len total =
      let n = if ltb 8 (len - total) then 8 else len - total in
      (send_attempts ring core driver w.self.tx_retry_count w
        (make_frame driver w.self.config (take n (drop total buf)) n) success).world

  abbrev pub next_world : World F B → List ℕ → ℕ → ℕ → World F B
  next_world w buf len total =
      let n = if ltb 8 (len - total) then 8 else len - total in
      let sent = round_world w buf len total in
      record sent {
        self = record (sent.self) {
          stats = record (sent.self.stats) { tx_bytes = core.add32 sent.self.stats.tx_bytes n };
        };
      }

  pub write_loop_cases :
      (rounds : ℕ) (w : World F B) (buf : List ℕ) (len total : ℕ)
      → let out = write_loop ring core driver (suc rounds) w buf len total in
        (out.world ≡ w)
        ⊎ (out.world ≡ round_world w buf len total)
        ⊎ (out
            ≡ write_loop ring core driver rounds
                (next_world w buf len total)
                buf
                len
                (total + (if ltb 8 (len - total) then 8 else len - total)))
  unfolding write_loop
  write_loop_cases rounds w buf len total = ground arith

  no_round :
      (w : World F B) (buf : List ℕ) (len total : ℕ)
      → SameSetup w.self (write_loop ring core driver zero w buf len total).world.self
  unfolding write_loop
  no_round w buf len total = SameSetup-refl w.self

  round-SameSetup :
      (w : World F B) (buf : List ℕ) (len total : ℕ)
      → SameSetup w.self (round_world w buf len total).self
  round-SameSetup w buf len total = send_attempts-SameSetup w.self.tx_retry_count w _ success

  next-SameSetup :
      (w : World F B) (buf : List ℕ) (len total : ℕ)
      → SameSetup w.self (next_world w buf len total).self
  next-SameSetup w buf len total =
      let r = round-SameSetup w buf len total in
      record {
        config = r.config;
        tx_retry_count = r.tx_retry_count;
        can_dev = r.can_dev;
        dev_ready = r.dev_ready;
        dev_started = r.dev_started;
        rx_filter = r.rx_filter;
      }

  write_loop-SameSetup :
      (rounds : ℕ) (w : World F B) (buf : List ℕ) (len total : ℕ)
      → SameSetup w.self (write_loop ring core driver rounds w buf len total).world.self
  write_loop-SameSetup zero w buf len total = no_round w buf len total
  write_loop-SameSetup (suc rounds) w buf len total =
      let n = if ltb 8 (len - total) then 8 else len - total in
      let round = round-SameSetup w buf len total in
      let next = next_world w buf len total in
      elim (write_loop_cases rounds w buf len total) [
        | inl e ↦ subst (λ v. SameSetup w.self v.self) (sym e) (SameSetup-refl w.self)
        | inr (inl e) ↦ subst (λ v. SameSetup w.self v.self) (sym e) round
        | inr (inr e) ↦
            subst (λ out. SameSetup w.self out.world.self) (sym e)
              (SameSetup-trans (next-SameSetup w buf len total)
                (write_loop-SameSetup rounds next buf len (total + n)))
      ]

  pub write-SameSetup :
      (w : World F B) (buf : Option (List ℕ)) (len : ℤ) (has_out : Bool)
      → SameSetup w.self (write ring core driver w buf len has_out).world.self
  unfolding write finish
  write-SameSetup w none len has_out = SameSetup-refl w.self
  write-SameSetup w (some buf) len has_out =
      ground (arith, write_loop-SameSetup (pos_part len) w buf (pos_part len) 0)
