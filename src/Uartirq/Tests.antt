-- ===== src/Uartirq/Tests.antt =====
-- The UART object at concrete inputs: tests, and the theorems applied.
use dtmc_zephyr.Prelude.{
  ℕ, pos, ◌≡◌, ◌++◌, refl, Bool, true, false, ◌&&◌, Option, none, some, List, [], ◌∷◌, arith,
  is_some, if◌then◌else◌,
}
use dtmc_zephyr.Err.{leaf, fail}
use dtmc_zephyr.Port.Samples.{Queue, queue_ring, clamping}
use dtmc_zephyr.Port.Wire.{Wire, wire_driver}
use dtmc_zephyr.Uartirq.Object.{Line, zeroed, zero_stats}
use dtmc_zephyr.Uartirq.Interrupt.{tx, rx_loop, notify, rx, serve, callback}
use dtmc_zephyr.Uartirq.Methods.{no_read, read, enable}
use dtmc_zephyr.Uartirq.Receive.{Outcome, rx_exact}
use dtmc_zephyr.Uartirq.Transmit.{Sent, tx_exact}
use dtmc_zephyr.Uartirq.Loss.{IsLossy, Steps, loss_is_sticky}
use dtmc_zephyr.Uartirq.Loss

-- An object in use, with a receive FIFO of two bytes, and three bytes that wait.
abbrev in_use : Line Queue Wire
in_use = record {
  self = record (zeroed (record { cap = 2; held = [] })) {
    dev = true;
    enabled = true;
    rx_semaphore = some 1;
    rx_fifo_buffer = some 2;
    tx_fifo_buffer = some 2;
    tx_fifo = record { cap = 2; held = 5 ∷ 6 ∷ [] };
  };
  dev = record { waiting = 1 ∷ 2 ∷ 3 ∷ []; out = []; takes = 1 };
}

-- An interrupt fills the FIFO, counts the lost byte, sends one byte, and counts the other.
interrupt_loses :
    let after : Option (Line Queue Wire) = callback queue_ring clamping wire_driver 4 in_use in
    after
    ≡ some (record {
      self = record (in_use.self) {
        posts = 1;
        rx_fifo = record { cap = 2; held = 1 ∷ 2 ∷ [] };
        tx_fifo = record { cap = 2; held = [] };
        stats = record zero_stats {
          irq_count = 1;
          tx_ready_count = 1;
          rx_ready_count = 1;
          rx_dropped = 1;
          tx_dropped = 1;
        };
      };
      dev = record { waiting = []; out = 5 ∷ []; takes = 1 };
    })
unfolding callback serve tx rx rx_loop notify
interrupt_loses = refl

rx_exact_example :
    (v : Line Queue Wire) × (news : Bool) × (rx queue_ring clamping wire_driver 4 in_use ≡ some v)
    × Outcome queue_ring clamping wire_driver in_use.self in_use.dev false v.self v.dev news
    × (v.self.posts ≡ (if news && is_some in_use.self.rx_semaphore then 1 else 0))
rx_exact_example = rx_exact queue_ring clamping wire_driver 4 in_use (omega arith)

tx_exact_example :
    let chunk : List ℕ = 5 ∷ 6 ∷ [] in
    let v = tx queue_ring clamping wire_driver in_use in
    (in_use.self.tx_fifo.held ≡ chunk ++ v.self.tx_fifo.held)
    × Sent queue_ring clamping wire_driver in_use v chunk
tx_exact_example = tx_exact queue_ring clamping wire_driver in_use

-- The object after the loss of a byte.
abbrev lossy : Line Queue Wire
lossy = record in_use {
  self = record (in_use.self) {
    rx_fifo = record { cap = 2; held = 1 ∷ 2 ∷ [] };
    stats = record zero_stats { rx_dropped = 1 };
  };
}

loss_is_sticky_example :
    let v : Line Queue Wire = record lossy {
      dev = record { waiting = 9 ∷ []; out = []; takes = 4 };
    } in
    let again = (enable queue_ring clamping wire_driver v true).0.self in
    (read queue_ring clamping wire_driver v.self true true (pos 2) ≡ (v.self, no_read (leaf fail)))
    × ((read queue_ring clamping wire_driver again true true (pos 2)).1
        ≡ record { dterr = none; bytes = []; out_read = some 0 })
loss_is_sticky_example =
    loss_is_sticky queue_ring clamping wire_driver lossy
      (record lossy { dev = record { waiting = 9 ∷ []; out = []; takes = 4 } }) (pos 2)
      (record {
        enabled = refl;
        dev = refl;
        buffer = refl;
        lost = omega arith;
        counted = omega arith;
      })
      (Loss.device lossy (record { waiting = 9 ∷ []; out = []; takes = 4 }) Loss.stays)
