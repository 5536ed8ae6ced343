-- ===== src/Canbus/Stream.antt =====
-- The receive path as a byte stream: frames that arrive, bytes that are read, and what is lost.
use dtmc_zephyr.Prelude.{
  ℕ, ℤ, pos_part, ◌+◌, ◌≡◌, sym, true, false, Option, none, some, List, [], ◌∷◌, ◌++◌, append-nil,
  eq_nil_of_length, stream_trans, arith, take, if◌then◌else◌, length-take, take-append-drop,
  take_all,
}
use dtmc_zephyr.Err.{Dterr, leaf, overflow}
use dtmc_zephyr.Port.Ring.{RingFifo}
use dtmc_zephyr.Port.Core.{CoreHelper}
use dtmc_zephyr.Port.Can.{CanEvent, rx_event, tx_event, state_change_event, CanDriver}
use dtmc_zephyr.Canbus.Object.{Canbus}
use dtmc_zephyr.Canbus.Callbacks.{
  rx_fifo_push, rx_fifo_pop, check_error_state, frame_len, rx_callback, tx_callback,
  state_change_callback, on_event,
}
use dtmc_zephyr.Canbus.Read.{read}

-- A step of the receive path: a callback, or a read of at most so many bytes.
pub data RxStep : Type 0 where
  event : CanEvent → RxStep
  reads : ℤ → RxStep

-- What a history of steps has shown so far.
pub record History (F : Type 0) : Type 0 where
  pub self : Canbus F
  -- the bytes of the frames that arrived while receiving was enabled
  pub received : List ℕ
  -- the bytes that reads have returned
  pub delivered : List ℕ
  -- how often a read returned DTERR_OVERFLOW
  pub overflows : ℕ

-- 1 for the error DTERR_OVERFLOW, else 0
abbrev pub count_overflow : Option Dterr → ℕ
count_overflow (some (leaf overflow)) = 1
count_overflow _ = 0

module _ {F B : Type 0} (ring : RingFifo F) (core : CoreHelper) (driver : CanDriver B) where
  -- the bytes that an event brings
  abbrev pub arriving : Canbus F → CanEvent → List ℕ
  arriving self (rx_event (some frame)) =
      if self.rx_enabled then take (frame_len ring core driver frame) frame.bytes else []
  arriving self _ = []

  unfoldable pub rx_step : Canbus F → RxStep → History F
  rx_step self (event e) = record {
    self = on_event ring core driver self e;
    received = arriving self e;
    delivered = [];
    overflows = 0;
  }
  rx_step self (reads n) =
      let (after, reply) = read ring core self true true n in
      record {
        self = after;
        received = [];
        delivered = reply.bytes;
        overflows = count_overflow reply.dterr;
      }

  unfoldable pub rx_run : Canbus F → List RxStep → History F
  rx_run self [] = record { self = self; received = []; delivered = []; overflows = 0 }
  rx_run self (s ∷ steps) =
      let first = rx_step self s in
      let rest = rx_run first.self steps in
      record {
        self = rest.self;
        received = first.received ++ rest.received;
        delivered = first.delivered ++ rest.delivered;
        overflows = first.overflows + rest.overflows;
      }

  rx_fifo_push_exact :
      (self : Canbus F) (src : List ℕ)
      → let after = (rx_fifo_push ring core self src).0 in
        after.rx_overflow_flag ≡ false
        → (self.rx_overflow_flag ≡ false)
          × (ring.contents after.rx_fifo ≡ ring.contents self.rx_fifo ++ src)
  unfolding rx_fifo_push
  rx_fifo_push_exact self src h = ground (
    arith,
    ring.push_count self.rx_fifo src,
    ring.push_contents self.rx_fifo src,
    take_all (ring.push self.rx_fifo src).1 src,
    eq_nil_of_length src,
    append-nil (ring.contents self.rx_fifo),
  )

  rx_fifo_pop_exact :
      (self : Canbus F) (n : ℤ)
      → let (after, bytes) = rx_fifo_pop ring core self n in
        (bytes ++ ring.contents after.rx_fifo ≡ ring.contents self.rx_fifo)
        × (after.rx_overflow_flag ≡ self.rx_overflow_flag)
  unfolding rx_fifo_pop
  rx_fifo_pop_exact self n = ground (
    arith,
    ring.pop_bytes self.rx_fifo (pos_part n),
    ring.pop_contents self.rx_fifo (pos_part n),
    take-append-drop (pos_part n) (ring.contents self.rx_fifo),
  )

  -- What one step that loses nothing keeps.
  step_exact :
      (self : Canbus F) (s : RxStep)
      → let h = rx_step self s in
        h.overflows ≡ 0
        → h.self.rx_overflow_flag ≡ false
        → (self.rx_overflow_flag ≡ false)
          × (h.delivered ++ ring.contents h.self.rx_fifo ≡ ring.contents self.rx_fifo ++ h.received)
  unfolding rx_step on_event rx_callback tx_callback state_change_callback read check_error_state
  step_exact self (event (rx_event none)) ho hf = (hf, sym (append-nil _))
  step_exact self (event (rx_event (some frame))) ho hf =
      let n = frame_len ring core driver frame in
      let counted : Canbus F = record self {
        stats = record (self.stats) {
          rx_callback_calls = core.inc32 self.stats.rx_callback_calls;
          rx_callback_bytes = core.add32 self.stats.rx_callback_bytes n;
        };
      } in
      ground (
        arith,
        rx_fifo_push_exact counted (take n frame.bytes),
        append-nil (ring.contents self.rx_fifo),
        eq_nil_of_length (take n frame.bytes),
        length-take n frame.bytes,
      )
  step_exact self (event (tx_event error)) ho hf =
      ground (arith, append-nil (ring.contents self.rx_fifo))
  step_exact self (event (state_change_event state err_cnt)) ho hf = (hf, sym (append-nil _))
  step_exact self (reads n) ho hf =
      ground (arith, rx_fifo_pop_exact self n, append-nil (ring.contents self.rx_fifo))

  rx_run_exact_from :
      (self : Canbus F) (steps : List RxStep)
      → let h = rx_run self steps in
        h.overflows ≡ 0
        → h.self.rx_overflow_flag ≡ false
        → (self.rx_overflow_flag ≡ false)
          × (h.delivered ++ ring.contents h.self.rx_fifo ≡ ring.contents self.rx_fifo ++ h.received)
  unfolding rx_run
  rx_run_exact_from self [] ho hf = (hf, sym (append-nil _))
  rx_run_exact_from self (s ∷ steps) ho hf =
      let first = rx_step self s in
      let rest = rx_run first.self steps in
      let later = rx_run_exact_from first.self steps (omega arith) hf in
      let now = step_exact self s (omega arith) later.0 in
      (
        now.0,
        stream_trans first.delivered rest.delivered _ _ _ first.received rest.received now.1
            later.1,
      )

  -- Through callbacks and reads in any order, if no read has reported DTERR_OVERFLOW and no
  -- overflow is pending at the end, then no byte was lost, doubled or moved: the bytes held at the
  -- start and those of the frames that arrived while receiving was enabled are the bytes that the
  -- reads returned and those still held.
  pub rx_run_exact :
      (self : Canbus F) (steps : List RxStep)
      → let h = rx_run self steps in
        h.overflows ≡ 0
        → h.self.rx_overflow_flag ≡ false
        → h.delivered ++ ring.contents h.self.rx_fifo ≡ ring.contents self.rx_fifo ++ h.received
  rx_run_exact self steps ho hf = (rx_run_exact_from self steps ho hf).1
