-- ===== src/Uartirq/Loss.antt =====
-- A loss in the receive direction is reported until the object is enabled again.
use dtmc_zephyr.Prelude.{
  ℕ, ℤ, pos_part, take_all, zero, suc, ◌-◌, ◌≤◌, ◌<◌, ◌≡◌, ◌∙◌, ap, Bool, true, false, Option, none,
  some, List, [], arith, length, is_some, if◌then◌else◌, take, Option-cases, Bool-cases, inl, inr,
  subst,
}
use dtmc_zephyr.Err.{leaf, fail}
use dtmc_zephyr.Port.Ring.{RingFifo}
use dtmc_zephyr.Port.Core.{CoreHelper, int32_max}
use dtmc_zephyr.Port.Uart.{UartDriver}
use dtmc_zephyr.Uartirq.Object.{Uartirq, Line}
use dtmc_zephyr.Uartirq.Interrupt.{Received, rx_check, tx, rx_loop, notify, rx, serve, callback}
use dtmc_zephyr.Uartirq.Methods.{no_read, read, write, set_rx_semaphore, enable}

-- An object in use that has lost received bytes.
pub record IsLossy {F : Type 0} (s : Uartirq F) : Type 0 where
  pub enabled : s.enabled ≡ true
  pub dev : s.dev ≡ true
  pub buffer : is_some s.rx_fifo_buffer ≡ true
  pub lost : 0 < s.stats.rx_dropped
  pub counted : s.stats.rx_dropped ≤ int32_max

module _ {F U : Type 0} (ring : RingFifo F) (core : CoreHelper) (driver : UartDriver U) where
  abbrev AllLossy : Option (Received F U) → Type 0
  AllLossy none = Unit {0}
  AllLossy (some r) = IsLossy r.self

  tx-IsLossy : (w : Line F U) → IsLossy w.self → IsLossy (tx ring core driver w).self
  unfolding tx
  tx-IsLossy w h = ground arith

  rx_loop-IsLossy :
      (fuel : ℕ) (s : Uartirq F) (u : U) (any : Bool)
      → IsLossy s
      → AllLossy (rx_loop ring core driver fuel s u any)
  unfolding rx_loop
  rx_loop-IsLossy zero s u any h = tt
  rx_loop-IsLossy (suc fuel) s u any h = elim (Option-cases (driver.uart_fifo_read u 64).1) [
    | inl e ↦ rw (AllLossy, e) (ground arith)
    | inr (bytes, e) ↦
        let pushed : Uartirq F = record s { rx_fifo = (ring.push s.rx_fifo bytes).0 } in
        let lost = length bytes - (ring.push s.rx_fifo bytes).1 in
        let rest = rx_loop-IsLossy fuel pushed (driver.uart_fifo_read u 64).0 true (ground arith) in
        rw (AllLossy, e) (ground (arith, rest, core.add32_clamps s.stats.rx_dropped lost h.counted))
  ]

  rx-IsLossy :
      (fuel : ℕ) (w v : Line F U)
      → IsLossy w.self
      → rx ring core driver fuel w ≡ some v
      → IsLossy v.self
  unfolding rx notify
  rx-IsLossy fuel w v h e =
      let all = rx_loop-IsLossy fuel w.self w.dev false h in
      elim (Option-cases (rx_loop ring core driver fuel w.self w.dev false)) [
        | inl q ↦ ground arith
        | inr (r, q) ↦ let left : IsLossy r.self = subst AllLossy q all in ground (arith, left)
      ]

  serve-IsLossy :
      (fuel : ℕ) (w v : Line F U)
      → IsLossy w.self
      → serve ring core driver fuel w ≡ some v
      → IsLossy v.self
  unfolding serve
  serve-IsLossy fuel w v h e =
      let counted : Uartirq F = record (w.self) {
        stats = record (w.self.stats) { tx_ready_count = core.inc32 w.self.stats.tx_ready_count };
      } in
      let sent = tx-IsLossy (record w { self = counted }) (ground arith) in
      let out : Line F U =
        if driver.uart_irq_tx_ready w.dev
        then tx ring core driver (record w { self = counted })
        else w in
      let after : IsLossy out.self = ground (arith, sent) in
      let arrived : Uartirq F = record (out.self) {
        stats = record (out.self.stats) {
          rx_ready_count = core.inc32 out.self.stats.rx_ready_count;
        };
      } in
      let noted : IsLossy arrived = record {
        enabled = after.enabled;
        dev = after.dev;
        buffer = after.buffer;
        lost = after.lost;
        counted = after.counted;
      } in
      elim (Bool-cases (driver.uart_irq_rx_ready out.dev)) [
        | inl q ↦ rx-IsLossy fuel (record out { self = arrived }) v noted (ground arith)
        | inr q ↦ let same : out ≡ v = ground arith in subst (λ x. IsLossy x.self) same after
      ]

  callback-IsLossy :
      (fuel : ℕ) (w v : Line F U)
      → IsLossy w.self
      → callback ring core driver fuel w ≡ some v
      → IsLossy v.self
  unfolding callback
  callback-IsLossy fuel w v h e =
      let counted : Line F U = record {
        self = record (w.self) {
          stats = record (w.self.stats) { irq_count = core.inc32 w.self.stats.irq_count };
        };
        dev = (driver.uart_irq_update w.dev).0;
      } in
      let noted : IsLossy counted.self = ground arith in
      elim (Bool-cases (driver.uart_irq_update w.dev).1) [
        | inl q ↦ serve-IsLossy fuel counted v noted (ground (arith, h.dev))
        | inr q ↦ ground (arith, h.dev)
      ]

  read-IsLossy :
      (s : Uartirq F) (has_buf has_out : Bool) (n : ℤ)
      → IsLossy s
      → IsLossy (read ring core driver s has_buf has_out n).0
  unfolding read rx_check
  read-IsLossy s has_buf has_out n h = ground arith

  write-IsLossy :
      (w : Line F U) (buf : Option (List ℕ)) (len : ℤ) (has_out : Bool)
      → IsLossy w.self
      → IsLossy (write ring core driver w buf len has_out).0.self
  unfolding write
  write-IsLossy w none len has_out h = h
  write-IsLossy w (some buf) len has_out h = ground arith

  -- What may happen to an object in use: the methods but `enable`, the interrupt, and in between
  -- whatever the hardware does.
  pub data Steps (w : Line F U) : Line F U → Type 0 where
    stays : Steps w w
    reads :
        (v : Line F U) (has_buf has_out : Bool) (n : ℤ)
        → Steps w v
        → Steps w (record v { self = (read ring core driver v.self has_buf has_out n).0 })
    writes :
        (v : Line F U) (buf : Option (List ℕ)) (len : ℤ) (has_out : Bool)
        → Steps w v
        → Steps w (write ring core driver v buf len has_out).0
    sets_rx_semaphore :
        (v : Line F U) (handle : Option ℕ)
        → Steps w v
        → Steps w (record v { self = set_rx_semaphore v.self handle })
    interrupts :
        (fuel : ℕ) (v x : Line F U)
        → Steps w v
        → callback ring core driver fuel v ≡ some x
        → Steps w x
    device : (v : Line F U) (u : U) → Steps w v → Steps w (record v { dev = u })

  Steps-IsLossy : (w v : Line F U) → Steps w v → IsLossy w.self → IsLossy v.self
  unfolding set_rx_semaphore
  Steps-IsLossy w _ stays h = h
  Steps-IsLossy w _ (reads x has_buf has_out n steps) h =
      read-IsLossy x.self has_buf has_out n (Steps-IsLossy w x steps h)
  Steps-IsLossy w _ (writes x buf len has_out steps) h =
      write-IsLossy x buf len has_out (Steps-IsLossy w x steps h)
  Steps-IsLossy w _ (sets_rx_semaphore x handle steps) h =
      let l = Steps-IsLossy w x steps h in ground (arith, l)
  Steps-IsLossy w _ (interrupts fuel x v steps e) h =
      callback-IsLossy fuel x v (Steps-IsLossy w x steps h) e
  Steps-IsLossy w _ (device x u steps) h = Steps-IsLossy w x steps h

  -- Once received bytes are lost, whatever reads, writes, interrupts and events of the hardware
  -- follow: every read fails and takes nothing from the FIFO. Only when the object is enabled again
  -- does a read succeed, and then it finds the FIFO empty.
  pub loss_is_sticky :
      (w v : Line F U) (n : ℤ)
      → IsLossy w.self
      → Steps w v
      → let again = (enable ring core driver v true).0.self in
        (read ring core driver v.self true true n ≡ (v.self, no_read (leaf fail)))
        × ((read ring core driver again true true n).1
            ≡ record { dterr = none; bytes = []; out_read = some 0 })
  unfolding read enable rx_check
  loss_is_sticky w v n h steps =
      let l = Steps-IsLossy w v steps h in
      let fifo = ring.reset v.self.rx_fifo in
      let nothing : (ring.pop fifo (pos_part n)).1 ≡ [] =
        ring.pop_bytes fifo (pos_part n)
        ∙ ap (take (pos_part n)) (ring.reset_contents v.self.rx_fifo)
        ∙ take_all (pos_part n) [] (omega arith) in
      let none_read : length (ring.pop fifo (pos_part n)).1 ≡ 0 = ap length nothing in
      let dev = l.dev in let buffer = l.buffer in (ground (arith, l), ground arith)
