-- ===== src/Uartirq/Transmit.antt =====
-- The transmit interrupt: what becomes of the bytes of the TX FIFO.
use dtmc_zephyr.Prelude.{
  ℕ, ◌-◌, ◌<◌, ◌≡◌, refl, sym, ◌∙◌, ap, none, some, List, [], ◌++◌, arith, ltb, ◌==◌, length, take,
  drop, Bool-cases, Option-cases, inl, inr, ltb→lt, ltb→le, eq_nil_of_length, take_all,
  take-append-drop, subst,
}
use dtmc_zephyr.Port.Ring.{RingFifo}
use dtmc_zephyr.Port.Core.{CoreHelper}
use dtmc_zephyr.Port.Uart.{UartDriver}
use dtmc_zephyr.Uartirq.Object.{Line}
use dtmc_zephyr.Uartirq.Interrupt.{tx}

module _ {F U : Type 0} (ring : RingFifo F) (core : CoreHelper) (driver : UartDriver U) where
  -- What a transmit interrupt does to `chunk`, the next bytes: there are none; or the device answers with
  -- an error; or it takes all; or it takes the first `n`, and the rest is lost and counted.
  pub data Sent (w v : Line F U) (chunk : List ℕ) : Type 0 where
    idle :
        chunk ≡ []
        → driver.sent v.dev ≡ driver.sent w.dev
        → v.self.stats ≡ w.self.stats
        → Sent w v chunk
    broken :
        (driver.uart_fifo_fill w.dev chunk).1 ≡ none
        → v.self.stats
          ≡ record (w.self.stats) { tx_error_count = core.inc32 w.self.stats.tx_error_count }
        → Sent w v chunk
    all_sent :
        (driver.uart_fifo_fill w.dev chunk).1 ≡ some (length chunk)
        → driver.sent v.dev ≡ driver.sent w.dev ++ chunk
        → v.self.stats ≡ w.self.stats
        → Sent w v chunk
    cut_off :
        (n : ℕ)
        → n < length chunk
        → (driver.uart_fifo_fill w.dev chunk).1 ≡ some n
        → driver.sent v.dev ≡ driver.sent w.dev ++ take n chunk
        → v.self.stats ≡ record (w.self.stats) {
          tx_dropped = core.add32 w.self.stats.tx_dropped (length chunk - n);
        }
        → Sent w v chunk

  tx_contents :
      (w : Line F U)
      → ring.contents (tx ring core driver w).self.tx_fifo ≡ drop 32 (ring.contents w.self.tx_fifo)
  unfolding tx
  tx_contents w = ground (arith, ring.pop_contents w.self.tx_fifo 32)

  tx-Sent : (w : Line F U) → Sent w (tx ring core driver w) (ring.pop w.self.tx_fifo 32).1
  unfolding tx
  tx-Sent w =
      let buf = (ring.pop w.self.tx_fifo 32).1 in
      elim (Bool-cases (length buf == 0)) [
        | inl z ↦ rw z (
            idle (eq_nil_of_length buf (ground arith)) (driver.tx_disable_sends_nothing w.dev) refl)
        | inr z ↦ elim (Option-cases (driver.uart_fifo_fill w.dev buf).1) [
          | inl e ↦ rw z (rw e (broken e refl))
          | inr (n, e) ↦
              let fill = driver.fill_sends w.dev buf n e in
              elim (Bool-cases (ltb n (length buf))) [
                | inl c ↦ rw z (
                    rw e (
                      rw c (
                        cut_off n (ltb→lt n (length buf) c) e
                          (driver.tx_disable_sends_nothing (driver.uart_fifo_fill w.dev buf).0
                            ∙ fill.1)
                          refl)))
                | inr c ↦ rw z (
                    rw e (
                      rw c (
                        all_sent (e ∙ ap some (omega (arith, fill.0, ltb→le n (length buf) c)))
                          (fill.1
                            ∙ ap (λ l. driver.sent w.dev ++ l)
                                (take_all n buf (ltb→le n (length buf) c)))
                          refl)))
              ]
        ]
      ]

  -- A transmit interrupt takes the next bytes of the TX FIFO, at most 32, and no others. If there
  -- are none, nothing is sent and nothing counted. Else the device refuses them with an error, and
  -- the error count alone goes up; or it takes them all, the wire gets them in order, and the counts
  -- are as they were; or it takes only the first ones, the wire gets these, and the dropped count
  -- alone goes up, by the number of the rest.
  pub tx_exact :
      (w : Line F U)
      → let chunk = take 32 (ring.contents w.self.tx_fifo) in
        let v = tx ring core driver w in
        (ring.contents w.self.tx_fifo ≡ chunk ++ ring.contents v.self.tx_fifo) × Sent w v chunk
  tx_exact w = (
    sym (take-append-drop 32 (ring.contents w.self.tx_fifo))
        ∙ ap (λ l. take 32 (ring.contents w.self.tx_fifo) ++ l) (sym (tx_contents w)),
    subst (Sent w (tx ring core driver w)) (ring.pop_bytes w.self.tx_fifo 32) (tx-Sent w),
  )
