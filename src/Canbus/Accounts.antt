-- ===== src/Canbus/Accounts.antt =====
-- What the counters of the receive path say of a history of callbacks and reads.
use dtmc_zephyr.Prelude.{
  ℕ, ℤ, pos_part, ◌+◌, ◌-◌, ◌≤◌, ◌≡◌, ◌∙◌, ap, none, some, List, [], ◌∷◌, arith, length, take, min,
  length-append, length-take, length-drop,
}
use dtmc_zephyr.Port.Ring.{RingFifo}
use dtmc_zephyr.Port.Core.{CoreHelper, int32_max}
use dtmc_zephyr.Port.Can.{rx_event, tx_event, state_change_event, CanDriver}
use dtmc_zephyr.Canbus.Object.{Canbus}
use dtmc_zephyr.Canbus.Callbacks.{
  rx_fifo_push, rx_fifo_pop, check_error_state, frame_len, rx_callback, tx_callback,
  state_change_callback, on_event,
}
use dtmc_zephyr.Canbus.Read.{read}
use dtmc_zephyr.Canbus.Stream.{RxStep, event, reads, History, rx_step, rx_run}

module _ {F B : Type 0} (ring : RingFifo F) (core : CoreHelper) (driver : CanDriver B) where
  -- The frames that arrive hold at least the bytes that their length code says.
  abbrev pub AllFull : List RxStep → Type 0
  AllFull [] = Unit {0}
  AllFull (event (rx_event (some f)) ∷ steps) =
      (frame_len ring core driver f ≤ length f.bytes) × AllFull steps
  AllFull (s ∷ steps) = AllFull steps

  -- What the counters say, `held` and `left` being the numbers of bytes in the FIFO before and
  -- after.
  pub record Accounts (self : Canbus F) (h : History F) : Type 0 where
    pub kept :
        length h.delivered + length (ring.contents h.self.rx_fifo)
        ≤ length (ring.contents self.rx_fifo) + length h.received
    pub dropped :
        h.self.fifo_dropped_bytes
        ≡ min
            (self.fifo_dropped_bytes
              + (length (ring.contents self.rx_fifo)
                  + length h.received
                  - (length h.delivered + length (ring.contents h.self.rx_fifo))))
            int32_max
    pub counted :
        h.self.stats.rx_bytes
        ≡ min (self.stats.rx_bytes + (length h.received + length h.delivered)) int32_max

  rx_fifo_push_accounts :
      (self : Canbus F) (src : List ℕ)
      → self.fifo_dropped_bytes ≤ int32_max
      → let after = (rx_fifo_push ring core self src).0 in
        (length (ring.contents after.rx_fifo) ≤ length (ring.contents self.rx_fifo) + length src)
        × (after.fifo_dropped_bytes
            ≡ min
                (self.fifo_dropped_bytes
                  + (length (ring.contents self.rx_fifo)
                      + length src
                      - length (ring.contents after.rx_fifo)))
                int32_max)
        × (after.stats ≡ self.stats)
  unfolding rx_fifo_push
  rx_fifo_push_accounts self src h =
      let f = self.rx_fifo in
      let p = ring.push f src in
      ground (
        arith,
        ap length (ring.push_contents f src) ∙ length-append (ring.contents f) (take p.1 src),
        length-take p.1 src,
        ring.push_count f src,
        core.add32_clamps self.fifo_dropped_bytes (length src - p.1),
      )

  rx_fifo_pop_accounts :
      (self : Canbus F) (n : ℤ)
      → let (after, bytes) = rx_fifo_pop ring core self n in
        (length bytes + length (ring.contents after.rx_fifo) ≡ length (ring.contents self.rx_fifo))
        × (after.fifo_dropped_bytes ≡ self.fifo_dropped_bytes)
        × (after.stats ≡ self.stats)
  unfolding rx_fifo_pop
  rx_fifo_pop_accounts self n =
      let f = self.rx_fifo in
      let k = pos_part n in
      ground (
        arith,
        ap length (ring.pop_bytes f k) ∙ length-take k (ring.contents f),
        ap length (ring.pop_contents f k) ∙ length-drop k (ring.contents f),
      )

  step-Accounts :
      (self : Canbus F) (s : RxStep)
      → self.fifo_dropped_bytes ≤ int32_max
      → self.stats.rx_bytes ≤ int32_max
      → AllFull (s ∷ [])
      → Accounts self (rx_step ring core driver self s)
  unfolding rx_step on_event rx_callback tx_callback state_change_callback read check_error_state
  step-Accounts self (event (rx_event none)) hd hb full = ground arith
  step-Accounts self (event (rx_event (some frame))) hd hb full =
      let n = frame_len ring core driver frame in
      let counted : Canbus F = record self {
        stats = record (self.stats) {
          rx_callback_calls = core.inc32 self.stats.rx_callback_calls;
          rx_callback_bytes = core.add32 self.stats.rx_callback_bytes n;
        };
      } in
      ground (
        arith,
        rx_fifo_push_accounts counted (take n frame.bytes) hd,
        length-take n frame.bytes,
        core.add32_clamps self.stats.rx_bytes n hb,
      )
  step-Accounts self (event (tx_event error)) hd hb full = ground arith
  step-Accounts self (event (state_change_event state err_cnt)) hd hb full = ground arith
  step-Accounts self (reads n) hd hb full = ground (
    arith,
    rx_fifo_pop_accounts self n,
    core.add32_clamps self.stats.rx_bytes (length (rx_fifo_pop ring core self n).1) hb,
  )

  AllFull-split :
      (s : RxStep) (steps : List RxStep) → AllFull (s ∷ steps) → AllFull (s ∷ []) × AllFull steps
  AllFull-split (event (rx_event (some f))) steps h = ((h.0, tt), h.1)
  AllFull-split (event (rx_event none)) steps h = (tt, h)
  AllFull-split (event (tx_event error)) steps h = (tt, h)
  AllFull-split (event (state_change_event state err_cnt)) steps h = (tt, h)
  AllFull-split (reads n) steps h = (tt, h)

  -- Through callbacks and reads in any order, with counters that are in range at the start and
  -- frames that hold the bytes they announce: no more bytes are read or held than were held or
  -- arrived, `fifo_dropped_bytes` grows by exactly those that are missing, and `rx_bytes` by the
  -- bytes that arrived and the bytes that were read, both up to INT32_MAX.
  pub rx_run-Accounts :
      (self : Canbus F) (steps : List RxStep)
      → self.fifo_dropped_bytes ≤ int32_max
      → self.stats.rx_bytes ≤ int32_max
      → AllFull steps
      → Accounts self (rx_run ring core driver self steps)
  unfolding rx_run
  rx_run-Accounts self [] hd hb full = omega arith
  rx_run-Accounts self (s ∷ steps) hd hb full =
      let first = rx_step ring core driver self s in
      let rest = rx_run ring core driver first.self steps in
      let split = AllFull-split s steps full in
      let now = step-Accounts self s hd hb split.0 in
      let later =
        rx_run-Accounts first.self steps (omega (arith, now.dropped)) (omega (arith, now.counted))
          split.1 in
      omega (
        arith,
        now,
        later,
        length-append first.received rest.received,
        length-append first.delivered rest.delivered,
      )
