-- ===== src/Modbus/Busy.antt =====
-- Writes that come while a message waits for the master's poll.
use dtmc_zephyr.Prelude.{
  ℕ, pos, ◌≤◌, ◌<◌, ◌≡◌, refl, sym, ◌∙◌, ap, ap₂, true, false, none, some, Option-cases, inl, inr,
  List, [], ◌∷◌, arith, length, take, length-take, replicate,
}
use dtmc_zephyr.Err.{leaf, busy}
use dtmc_zephyr.Port.Ring.{RingFifo}
use dtmc_zephyr.Port.Modbus.{ModbusProtocol, AllBytes, LockAnswers}
use dtmc_zephyr.Modbus.Object.{ModbusSlave}
use dtmc_zephyr.Modbus.Helpers.{payload, release_lock}
use dtmc_zephyr.Modbus.Methods.{WriteReply, write}
use dtmc_zephyr.Modbus.Session.{IsValid}
use dtmc_zephyr.Modbus.Poll.{IsServing, HasStaged, Shows, ask, write-HasStaged, staged_polled}

module _ {F : Type 0} (ring : RingFifo F) (proto : ModbusProtocol) where
  -- More writes, of a length that each of them gives, with all their replies.
  unfoldable pub writes :
      LockAnswers → ModbusSlave F → List (List ℕ × ℕ) → ModbusSlave F × List WriteReply
  writes lock s [] = (s, [])
  writes lock s ((buf, len) ∷ more) =
      let (t, reply) = write ring proto lock s (some buf) (pos len) true in
      let (u, replies) = writes lock t more in (u, reply ∷ replies)

  -- the reply to a write that comes too early
  abbrev pub too_early : WriteReply
  too_early = record { dterr = some (leaf busy); out_written = some 0 }

  write_refused :
      (lock : LockAnswers) (t : ModbusSlave F) (bytes buf : List ℕ) (len n : ℕ)
      → HasStaged ring proto t bytes len
      → lock.acquire ≡ none
      → let (u, reply) = write ring proto lock t (some buf) (pos n) true in
        HasStaged ring proto u bytes len × (reply ≡ too_early)
  unfolding write release_lock
  write_refused lock t bytes buf len n h got = elim (Option-cases t.tx_staged_buf) [
    | inl e ↦ absurd (ground (arith, e, h.has_buf))
    | inr (staged, e) ↦
        rw (e, h.locked, got, h.pending)
          (
            record {
              pending = refl;
              staged_len = h.staged_len;
              staged = ap (λ b. take len (payload b)) (sym e) ∙ h.staged;
              enabled = h.enabled;
              locked = h.locked;
              has_buf = refl;
              s2m_regs = h.s2m_regs;
            },
            refl,
          )
  ]

  writes_refused :
      (lock : LockAnswers) (t : ModbusSlave F) (bytes : List ℕ) (len : ℕ) (more : List (List ℕ × ℕ))
      → HasStaged ring proto t bytes len
      → lock.acquire ≡ none
      → HasStaged ring proto (writes lock t more).0 bytes len
        × ((writes lock t more).1 ≡ replicate (length more) too_early)
  unfolding writes
  writes_refused lock t bytes len [] h got = (h, refl)
  writes_refused lock t bytes len ((buf, n) ∷ more) h got =
      let one = write_refused lock t bytes buf len n h got in
      let rest =
        writes_refused lock (write ring proto lock t (some buf) (pos n) true).0 bytes len more one.0
          got in
      (rest.0, ap₂ (λ r rs. r ∷ rs) one.1 rest.1)

  -- Take a message that `poll_delivers` is about, and any number of further writes, of any buffers
  -- and lengths that are not negative, before the master polls. Each of them is refused as busy
  -- with 0 in `*out_written`, and the poll still shows the first message, byte for byte, and
  -- nothing after it.
  pub busy_until_polled :
      (lock : LockAnswers) (s : ModbusSlave F) (staged buf : List ℕ) (len m k : ℕ)
      (more : List (List ℕ × ℕ))
      → IsServing lock s
      → IsValid proto s
      → s.tx_staged_pending ≡ false
      → s.tx_staged_buf ≡ some staged
      → 0 < len
      → len ≤ proto.max_blob_bytes
      → len ≤ length buf
      → AllBytes (take len buf)
      → let t = (write ring proto lock s (some buf) (pos len) true).0 in
        let (u, replies) = writes lock t more in
        (replies ≡ replicate (length more) too_early)
        × Shows ring proto (ask ring proto u m) (take len buf) len k
  busy_until_polled lock s staged buf len m k more h v hp hb lo hi hbuf bytes =
      let t = (write ring proto lock s (some buf) (pos len) true).0 in
      let held = write-HasStaged ring proto lock s staged buf len h v hp hb lo hi hbuf in
      let after = writes_refused lock t (take len buf) len more held h.acquired in
      let size : length (take len buf) ≡ len = omega (arith, length-take len buf) in
      (
        after.1,
        staged_polled ring proto (writes lock t more).0 (take len buf) len m k after.0 lo hi size
            bytes,
      )
