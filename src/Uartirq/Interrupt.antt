-- ===== src/Uartirq/Interrupt.antt =====
-- dtiox_zephyr_uartirq__callbacks.c and the checks of dtiox_zephyr_uartirq__helpers.c. The receive
-- loop runs on fuel, one unit for each read of the hardware FIFO; `none` says that it ran out.
use dtmc_zephyr.Prelude.{
  ℕ, zero, suc, ◌+◌, ◌-◌, Bool, true, false, ◌&&◌, not, Option, none, some, ltb, ◌==◌, length,
  is_some, if◌then◌else◌,
}
use dtmc_zephyr.Err.{Dterr, leaf, notready, fail}
use dtmc_zephyr.Port.Ring.{RingFifo}
use dtmc_zephyr.Port.Core.{CoreHelper}
use dtmc_zephyr.Port.Uart.{UartDriver}
use dtmc_zephyr.Uartirq.Object.{Stats, Uartirq, Line}

unfoldable pub tx_check : {F : Type 0} → Uartirq F → Option Dterr
tx_check self =
    if not self.enabled
    then some (leaf notready)
    else if not self.dev
    then some (leaf notready)
    else if not (is_some self.tx_fifo_buffer)
    then some (leaf notready)
    else if ltb 0 self.stats.tx_error_count
    then some (leaf fail)
    else if ltb 0 self.stats.tx_dropped
    then some (leaf fail)
    else none

unfoldable pub rx_check : {F : Type 0} → Uartirq F → Option Dterr
rx_check self =
    if not self.enabled
    then some (leaf notready)
    else if not self.dev
    then some (leaf notready)
    else if not (is_some self.rx_fifo_buffer)
    then some (leaf notready)
    else if ltb 0 self.stats.rx_error_count
    then some (leaf fail)
    else if ltb 0 self.stats.rx_dropped
    then some (leaf fail)
    else none

-- What the receive loop leaves, with `any_new_bytes`.
pub record Received (F U : Type 0) : Type 0 where
  pub self : Uartirq F
  pub dev : U
  pub any_new_bytes : Bool

module _ {F U : Type 0} (ring : RingFifo F) (core : CoreHelper) (driver : UartDriver U) where
  -- Up to 32 bytes go from the TX FIFO to the device; what the device does not take is lost.
  unfoldable pub tx : Line F U → Line F U
  tx w =
      let (fifo, buf) = ring.pop w.self.tx_fifo 32 in
      let popped : Uartirq F = record (w.self) { tx_fifo = fifo } in
      let (dev, n_written) = driver.uart_fifo_fill w.dev buf in
      let stats = w.self.stats in
      let failed : Uartirq F = record popped {
        stats = record stats { tx_error_count = core.inc32 stats.tx_error_count };
      } in
      if length buf == 0
      then record { self = popped; dev = driver.uart_irq_tx_disable w.dev }
      else elim n_written [
        | none ↦ record { self = failed; dev = driver.uart_irq_tx_disable dev }
        | some n ↦
            if ltb n (length buf)
            then record {
              self = record popped {
                stats = record stats { tx_dropped = core.add32 stats.tx_dropped (length buf - n) };
              };
              dev = driver.uart_irq_tx_disable dev;
            }
            else record { self = popped; dev = dev }
      ]

  -- `for (;;)` over reads of 64 bytes
  unfoldable pub rx_loop : ℕ → Uartirq F → U → Bool → Option (Received F U)
  rx_loop zero self dev any = none
  rx_loop (suc fuel) self dev any =
      let (read, got) = driver.uart_fifo_read dev 64 in
      let stats = self.stats in
      let failed : Uartirq F = record self {
        stats = record stats { rx_error_count = core.inc32 stats.rx_error_count };
      } in
      elim got [
        | none ↦ some (record { self = failed; dev = read; any_new_bytes = any })
        | some bytes ↦
            let (fifo, written) = ring.push self.rx_fifo bytes in
            let pushed : Uartirq F = record self { rx_fifo = fifo } in
            let short : Uartirq F = record pushed {
              stats = record stats {
                rx_dropped = core.add32 stats.rx_dropped (length bytes - written);
              };
            } in
            let again = rx_loop fuel pushed read true in
            if length bytes == 0
            then some (record { self = self; dev = read; any_new_bytes = any })
            else if ltb written (length bytes)
            then some (record { self = short; dev = read; any_new_bytes = true })
            else again
      ]

  -- After the loop: the semaphore is posted once if any bytes came.
  unfoldable pub notify : Received F U → Line F U
  notify r = record {
    self = record (r.self) {
      posts =
          if r.any_new_bytes && is_some r.self.rx_semaphore then r.self.posts + 1 else r.self.posts;
    };
    dev = r.dev;
  }

  unfoldable pub rx : ℕ → Line F U → Option (Line F U)
  rx fuel w = elim (rx_loop fuel w.self w.dev false) [ none ↦ none | some r ↦ some (notify r) ]

  -- the part of the handler after the guards and the update
  unfoldable pub serve : ℕ → Line F U → Option (Line F U)
  serve fuel w =
      let stats = w.self.stats in
      let counted : Uartirq F = record (w.self) {
        stats = record stats { tx_ready_count = core.inc32 stats.tx_ready_count };
      } in
      let out : Line F U =
        if driver.uart_irq_tx_ready w.dev then tx (record w { self = counted }) else w in
      let arrived : Uartirq F = record (out.self) {
        stats = record (out.self.stats) {
          rx_ready_count = core.inc32 out.self.stats.rx_ready_count;
        };
      } in
      if driver.uart_irq_rx_ready out.dev then rx fuel (record out { self = arrived }) else some out

  -- The interrupt handler, for an object that is not NULL.
  unfoldable pub callback : ℕ → Line F U → Option (Line F U)
  callback fuel w =
      let stats = w.self.stats in
      let counted : Stats = record stats { irq_count = core.inc32 stats.irq_count } in
      let (dev, updated) = driver.uart_irq_update w.dev in
      let failed : Stats = record counted { irq_error_count = core.inc32 stats.irq_error_count } in
      if not w.self.dev
      then some w
      else if not updated
      then some (record { self = record (w.self) { stats = failed }; dev = dev })
      else serve fuel (record { self = record (w.self) { stats = counted }; dev = dev })
