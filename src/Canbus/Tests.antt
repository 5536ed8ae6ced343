-- ===== src/Canbus/Tests.antt =====
-- The CAN object at concrete inputs: tests, and the theorems applied.
use dtmc_zephyr.Prelude.{
  ℕ, pos, ◌≡◌, ◌++◌, ◌⊎◌, refl, true, false, Option, none, some, List, [], ◌∷◌, arith, length,
  replicate, is_some,
}
use dtmc_zephyr.Err.{Errno, eagain, eio, negative, leaf, badarg, fail, overflow, timeout}
use dtmc_zephyr.Port.Can.{
  error_active, bus_off, CanFrame, CanEvent, rx_event, tx_event, state_change_event,
}
use dtmc_zephyr.Port.Samples.{Queue, queue_ring, clamping, willing_host, Bus, scripted, dead}
use dtmc_zephyr.Canbus.Object.{Config, Canbus, World, zeroed, zero_err_cnt, zero_stats}
use dtmc_zephyr.Canbus.Callbacks.{
  rx_fifo_push, rx_fifo_pop, check_error_state, rx_callback, state_change_callback, on_event,
  on_events,
}
use dtmc_zephyr.Canbus.Lifecycle.{init, configure, attach}
use dtmc_zephyr.Canbus.Read.{refused, read}
use dtmc_zephyr.Canbus.Write.{make_frame, send_attempts, write_loop, finish, write}
use dtmc_zephyr.Canbus.Delivery.{Delivery, write-Delivery}
use dtmc_zephyr.Canbus.Timeout.{IsStalled, after_sends, write_times_out}
use dtmc_zephyr.Canbus.Stream.{RxStep, event, reads, rx_step, rx_run, rx_run_exact}
use dtmc_zephyr.Canbus.Accounts.{Accounts, rx_run-Accounts}
use dtmc_zephyr.Canbus.Overflow.{IsReadable, overflow_reported_once, unconfigured_write}
use dtmc_zephyr.Canbus.BadState.{Transfer, asks, sends, transfers, no_transfer, bad_state_refuses}
use dtmc_zephyr.Canbus.Session
use dtmc_zephyr.Canbus.Session.{IsSound, session, attach_outcome, session-IsSound}

abbrev config : Config
config = record { txid = 0x123; use_extended_id = false; rx_ring_capacity = pos 4 }

abbrev empty_queue : Queue
empty_queue = record { cap = 4; held = [] }

abbrev idle_bus : Bus
idle_bus = record { sent = []; on = false; answers = [] }

-- A started controller with receiving enabled and a FIFO of 4 bytes.
abbrev ready : Canbus Queue
ready = record (zeroed empty_queue) {
  config = config;
  can_dev = true;
  dev_ready = true;
  dev_started = true;
  rx_enabled = true;
  tx_retry_milliseconds = 100;
  tx_retry_count = 5;
}

abbrev ten_bytes : List ℕ
ten_bytes = 1 ∷ 2 ∷ 3 ∷ 4 ∷ 5 ∷ 6 ∷ 7 ∷ 8 ∷ 9 ∷ 10 ∷ []

abbrev full_frame : List ℕ → ℕ → CanFrame
full_frame bytes n = record { id = 0x123; dlc = n; flags = 0; bytes = bytes }

abbrev at_bus : List (Option Errno × List CanEvent) → World Queue Bus
at_bus answers = record { self = ready; bus = record { sent = []; on = true; answers = answers } }

-- Ten bytes go out in two frames, the second after a timeout.
write_two_frames :
    let out =
      write queue_ring clamping scripted
        (at_bus ((none, []) ∷ (some eagain, []) ∷ []))
        (some ten_bytes)
        (pos 10)
        true in
    (out.dterr ≡ none)
    × (out.out_written ≡ some 10)
    × (out.world.bus.sent
        ≡ full_frame (1 ∷ 2 ∷ 3 ∷ 4 ∷ 5 ∷ 6 ∷ 7 ∷ 8 ∷ []) 8
          ∷ full_frame (9 ∷ 10 ∷ 0 ∷ 0 ∷ 0 ∷ 0 ∷ 0 ∷ 0 ∷ []) 2
          ∷ [])
unfolding write finish write_loop send_attempts make_frame check_error_state on_events
write_two_frames = (refl, refl, refl)

-- A controller that goes bus-off during the first send stops the second.
write_bus_off :
    let out =
      write queue_ring clamping scripted
        (at_bus ((none, state_change_event bus_off zero_err_cnt ∷ []) ∷ []))
        (some ten_bytes)
        (pos 10)
        true in
    (out.dterr ≡ some (leaf fail)) × (out.out_written ≡ some 0) × (length out.world.bus.sent ≡ 1)
unfolding write finish write_loop send_attempts make_frame check_error_state on_events on_event
    state_change_callback
write_bus_off = (refl, refl, refl)

configure_needs_capacity :
    (configure queue_ring willing_host
      (zeroed empty_queue)
      (some (record config { rx_ring_capacity = pos 0 }))).1
    ≡ some (leaf badarg)
unfolding configure
configure_needs_capacity = refl

write-Delivery_example :
    Delivery queue_ring clamping scripted
      (at_bus [])
      ten_bytes
      0
      10
      (write queue_ring clamping scripted (at_bus []) (some ten_bytes) (pos 10) true)
write-Delivery_example =
    write-Delivery queue_ring clamping scripted (at_bus []) ten_bytes 10 (omega arith) (omega arith)
      refl refl

abbrev frame_in : List ℕ → ℕ → RxStep
frame_in bytes n = event (rx_event (some (full_frame bytes n)))

abbrev traffic : List RxStep
traffic =
    frame_in (1 ∷ 2 ∷ 3 ∷ 0 ∷ 0 ∷ 0 ∷ 0 ∷ 0 ∷ []) 3
    ∷ reads (pos 2)
    ∷ frame_in (4 ∷ 5 ∷ 0 ∷ 0 ∷ 0 ∷ 0 ∷ 0 ∷ 0 ∷ []) 2
    ∷ reads (pos 2)
    ∷ []

traffic_delivered :
    let h = rx_run queue_ring clamping scripted ready traffic in
    (h.delivered ≡ 1 ∷ 2 ∷ 3 ∷ 4 ∷ [])
    × (h.self.rx_fifo.held ≡ 5 ∷ [])
    × (h.self.stats.rx_bytes ≡ 9)
unfolding rx_run rx_step on_event rx_callback rx_fifo_push read rx_fifo_pop check_error_state
traffic_delivered = (refl, refl, refl)

rx_run_exact_example :
    let h = rx_run queue_ring clamping scripted ready traffic in
    h.delivered ++ h.self.rx_fifo.held ≡ h.received
unfolding rx_run rx_step on_event rx_callback rx_fifo_push read rx_fifo_pop check_error_state
rx_run_exact_example = rx_run_exact queue_ring clamping scripted ready traffic refl refl

rx_run-Accounts_example :
    Accounts queue_ring clamping scripted ready (rx_run queue_ring clamping scripted ready traffic)
rx_run-Accounts_example =
    rx_run-Accounts queue_ring clamping scripted ready traffic (omega arith) (omega arith)
      (omega arith)

ready-IsReadable : IsReadable ready
ready-IsReadable = record { ready = refl; started = refl; good = refl }

overflow_reported_once_example :
    let pushed = (rx_fifo_push queue_ring clamping ready ten_bytes).0 in
    let first = read queue_ring clamping pushed true true (pos 8) in
    (first.1 ≡ refused (leaf overflow))
    × ((read queue_ring clamping first.0 true true (pos 3)).1
        ≡ record { dterr = none; out_read = some 3; bytes = 1 ∷ 2 ∷ 3 ∷ [] })
overflow_reported_once_example =
    overflow_reported_once queue_ring clamping ready ten_bytes 8 3 ready-IsReadable (omega arith)
      (omega arith)

dead_stalled : IsStalled dead (λ b. Unit {0})
dead_stalled = record {
  times_out = λ b f ms h. refl;
  silent = λ b f ms h. refl;
  stays = λ b f ms h. tt;
}

write_times_out_example :
    write queue_ring clamping dead (at_bus []) (some ten_bytes) (pos 10) true ≡ record {
      world =
          after_sends queue_ring clamping dead 5
            (at_bus [])
            (full_frame (1 ∷ 2 ∷ 3 ∷ 4 ∷ 5 ∷ 6 ∷ 7 ∷ 8 ∷ []) 8);
      dterr = some (leaf timeout);
      out_written = some 0;
    }
unfolding make_frame
write_times_out_example =
    write_times_out queue_ring clamping dead (λ b. Unit {0}) dead_stalled (at_bus []) ten_bytes 10
      tt refl refl (omega arith) (omega arith) refl refl

abbrev fresh_world : World Queue Bus
fresh_world = record { self = record ready { tx_retry_count = 0 }; bus = idle_bus }

unconfigured_write_example :
    let out = write queue_ring clamping scripted fresh_world (some ten_bytes) (pos 10) true in
    (out.dterr ≡ none) × (out.out_written ≡ some 10) × (out.world.bus ≡ idle_bus)
unconfigured_write_example =
    unconfigured_write queue_ring clamping scripted fresh_world ten_bytes 10 refl refl refl

abbrev running_world : World Queue Bus
running_world = at_bus []

attach_outcome_example :
    let (v, e) = attach queue_ring clamping scripted running_world in
    (e ≡ none)
      × (v.bus.on ≡ true)
      × (scripted.device_is_ready v.bus ≡ true)
      × (v.self.dev_ready ≡ true)
      × (v.self.dev_started ≡ true)
      × (v.self.rx_filter_is_installed ≡ true)
      × (v.self.rx_enabled ≡ false)
      × (v.self.rx_overflow_flag ≡ false)
      × (v.self.fifo_dropped_bytes ≡ 0)
      × (v.self.stats ≡ zero_stats)
    ⊎ (is_some e ≡ true) × (v.bus.on ≡ false) × (v.self.dev_started ≡ false)
attach_outcome_example = attach_outcome queue_ring clamping willing_host scripted running_world refl

abbrev calls : List Session.Call
calls =
    Session.configures (some config)
    ∷ Session.attaches
    ∷ Session.enables true
    ∷ Session.interrupts (tx_event (negative eio))
    ∷ Session.writes (some ten_bytes) (pos 10) true
    ∷ Session.detaches
    ∷ Session.disposes
    ∷ []

session-IsSound_example : IsSound scripted (
    session queue_ring clamping willing_host scripted
      (record { self = (init queue_ring willing_host 7 ready).0; bus = idle_bus })
      calls)
session-IsSound_example =
    session-IsSound queue_ring clamping willing_host scripted ready 7 idle_bus calls refl

-- The bus is off, with two bytes in the FIFO.
abbrev off_world : World Queue Bus
off_world = record {
  self = record ready { rx_fifo = record { cap = 4; held = 1 ∷ 2 ∷ [] }; cur_state = bus_off };
  bus = record { sent = []; on = true; answers = [] };
}

abbrev tries : List Transfer
tries = asks 4 ∷ sends ten_bytes 10 ∷ asks 1 ∷ []

bad_state_refuses_example :
    let (v, replies) = transfers queue_ring clamping scripted off_world tries in
    let good =
      on_event queue_ring clamping scripted v.self (state_change_event error_active zero_err_cnt) in
    (replies ≡ replicate 3 no_transfer)
    × (v.bus ≡ off_world.bus)
    × ((read queue_ring clamping good true true (pos 8)).1
        ≡ record { dterr = none; out_read = some 2; bytes = 1 ∷ 2 ∷ [] })
bad_state_refuses_example =
    bad_state_refuses queue_ring clamping scripted off_world tries zero_err_cnt 8
      (record { bad = refl; ready = refl; started = refl; tries = omega arith }) refl
      (omega arith, tt) (omega arith)
