-- ===== src/Adc/Sequence.antt =====
-- The numbers of the scans that a reader task delivers, and how it ends.
use dtmc_zephyr.Prelude.{
  ℕ, zero, suc, ◌+◌, ◌%◌, ◌≡◌, refl, sym, ◌∙◌, ap, ap₂, true, Option, none, List, [], ◌∷◌, ◌++◌,
  arith, ltb, length, ◌⊎◌, inl, inr, Option-cases, Bool-cases, append_assoc, append-nil,
  length-append,
}
use dtmc_zephyr.Err.{Dterr}
use dtmc_zephyr.Port.Counter.{CounterDriver, TickSemaphore}
use dtmc_zephyr.Port.Adc.{AdcDriver}
use dtmc_zephyr.Adc.Object.{stopped, Scan, Adc}
use dtmc_zephyr.Adc.Scan.{
  Reader, absent, waiting, ended, Event, alarms, stops, wakes, Running, read_channels, on_tick,
  wake, step, run,
}
use dtmc_zephyr.Adc.Delivery.{configured, tick_fails, tick_scans}

-- `k` sequence numbers from `n` on, and the number after them
abbrev pub numbered : ℕ → ℕ → List ℕ
numbered n zero = []
numbered n (suc k) = n ∷ numbered ((n + 1) % 18446744073709551616) k

abbrev after : ℕ → ℕ → ℕ
after n zero = n
after n (suc k) = after ((n + 1) % 18446744073709551616) k

abbrev pub numbers : List Scan → List ℕ
numbers [] = []
numbers (s ∷ scans) = s.sequence_number ∷ numbers scans

numbers-append : (xs ys : List Scan) → numbers (xs ++ ys) ≡ numbers xs ++ numbers ys
numbers-append [] ys = refl
numbers-append (x ∷ xs) ys = ap (λ l. x.sequence_number ∷ l) (numbers-append xs ys)

numbered-add : (n j k : ℕ) → numbered n (j + k) ≡ numbered n j ++ numbered (after n j) k
numbered-add n zero k = ap (numbered n) (omega arith)
numbered-add n (suc j) k =
    let shape : suc j + k ≡ suc (j + k) = omega arith in
    ap (numbered n) shape ∙ ap (λ l. n ∷ l) (numbered-add ((n + 1) % 18446744073709551616) j k)

after-add : (n j k : ℕ) → after n (j + k) ≡ after (after n j) k
after-add n zero k = let none : 0 + k ≡ k = omega arith in ap (after n) none
after-add n (suc j) k =
    let shape : suc j + k ≡ suc (j + k) = omega arith in
    ap (after n) shape ∙ after-add ((n + 1) % 18446744073709551616) j k

-- Scans that are added at the end, numbered on.
pub record Extends {C S A : Type 0} (s t : Adc C S A) : Type 0 where
  pub new : List Scan
  pub scans : t.scans ≡ s.scans ++ new
  pub numbering : numbers new ≡ numbered s.sequence_number (length new)
  next : t.sequence_number ≡ after s.sequence_number (length new)

module _ {C S A : Type 0} where
  Extends-same :
      (s t : Adc C S A) → t.scans ≡ s.scans → t.sequence_number ≡ s.sequence_number → Extends s t
  Extends-same s t h k = record {
    new = [];
    scans = h ∙ sym (append-nil s.scans);
    numbering = refl;
    next = k;
  }

  Extends-trans : (s t u : Adc C S A) → Extends s t → Extends t u → Extends s u
  Extends-trans s t u h k =
      let size = length-append h.new k.new in
      record {
        new = h.new ++ k.new;
        scans = k.scans ∙ ap (λ l. l ++ k.new) h.scans ∙ append_assoc s.scans h.new k.new;
        numbering =
            numbers-append h.new k.new
            ∙ ap₂ ◌++◌ h.numbering (k.numbering ∙ ap (λ n. numbered n (length k.new)) h.next)
            ∙ sym (numbered-add s.sequence_number (length h.new) (length k.new))
            ∙ ap (numbered s.sequence_number) (sym size);
        next =
            k.next
            ∙ ap (λ n. after n (length k.new)) h.next
            ∙ sym (after-add s.sequence_number (length h.new) (length k.new))
            ∙ ap (after s.sequence_number) (sym size);
      }

module _ {C S A : Type 0} (driver : CounterDriver C) (kernel : TickSemaphore S)
    (adc : AdcDriver A) where
  on_tick-Extends :
      (s : Adc C S A) (answer : Option Dterr) → Extends s (on_tick driver kernel adc s answer).0
  on_tick-Extends s answer =
      let reads = read_channels adc s.adc (configured driver kernel adc s) 0 s.channels in
      elim (Bool-cases reads.complete) [
        | inl h ↦
            let t = tick_scans driver kernel adc s answer reads.channels h refl in
            record { new = _ ∷ []; scans = t.1; numbering = refl; next = t.2 }
        | inr h ↦
            let t = tick_fails driver kernel adc s answer h in
            Extends-same s (on_tick driver kernel adc s answer).0 t.1 t.2
      ]

  wake_cases :
      (s : Adc C S A) (answer : Option Dterr)
      → let t = (wake driver kernel adc s answer).self in
        let taken : Adc C S A = record s { tick_sem = kernel.k_sem_take s.tick_sem } in
        let scanned = (on_tick driver kernel adc taken answer).0 in
        ((t.scans ≡ s.scans) × (t.sequence_number ≡ s.sequence_number))
        ⊎ ((t.scans ≡ scanned.scans) × (t.sequence_number ≡ scanned.sequence_number))
  unfolding wake
  wake_cases s answer =
      let taken : Adc C S A = record s { tick_sem = kernel.k_sem_take s.tick_sem } in
      elim (Bool-cases (ltb 0 (kernel.count s.tick_sem))) [
        | inr q ↦ inl (ground (arith, q))
        | inl q ↦ elim (Bool-cases s.should_pause) [
          | inl p ↦ inl (ground (arith, q, p))
          | inr p ↦ elim (Option-cases (on_tick driver kernel adc taken answer).1) [
            | inl e ↦ inr (ground (arith, q, p, e))
            | inr (x, e) ↦ inr (ground (arith, q, p, e))
          ]
        ]
      ]

  wake-Extends :
      (s : Adc C S A) (answer : Option Dterr) → Extends s (wake driver kernel adc s answer).self
  wake-Extends s answer =
      let t = (wake driver kernel adc s answer).self in
      let taken : Adc C S A = record s { tick_sem = kernel.k_sem_take s.tick_sem } in
      let scanned = (on_tick driver kernel adc taken answer).0 in
      elim (wake_cases s answer) [
        | inl h ↦ Extends-same s t h.0 h.1
        | inr h ↦
            Extends-trans s scanned t
              (Extends-trans s taken scanned (Extends-same s taken refl refl)
                (on_tick-Extends taken answer))
              (Extends-same scanned t h.0 h.1)
      ]

  step_wakes :
      (s : Adc C S A) (r : Reader) (answer : Option Dterr)
      → let t = (step driver kernel adc (record { self = s; reader = r }) (wakes answer)).self in
        let woken = (wake driver kernel adc s answer).self in
        ((t.scans ≡ s.scans) × (t.sequence_number ≡ s.sequence_number))
        ⊎ ((t.scans ≡ woken.scans) × (t.sequence_number ≡ woken.sequence_number))
  unfolding step
  step_wakes s waiting answer = inr (refl, refl)
  step_wakes s absent answer = inl (refl, refl)
  step_wakes s (ended e) answer = inl (refl, refl)

  step-Extends : (w : Running C S A) (e : Event) → Extends w.self (step driver kernel adc w e).self
  unfolding step
  step-Extends w alarms = Extends-same _ _ refl refl
  step-Extends w stops = Extends-same _ _ refl refl
  step-Extends w (wakes answer) = elim (step_wakes w.self w.reader answer) [
    | inl h ↦ Extends-same w.self (step driver kernel adc w (wakes answer)).self h.0 h.1
    | inr h ↦
        let t = (wake driver kernel adc w.self answer).self in
        Extends-trans w.self t (step driver kernel adc w (wakes answer)).self
          (wake-Extends w.self answer)
          (Extends-same t (step driver kernel adc w (wakes answer)).self h.0 h.1)
  ]

  -- Whatever happens to a reader task: the scans that the callback is given have consecutive
  -- sequence numbers, from the object's on, modulo 2^64. None is skipped and none given twice.
  pub scans_numbered :
      (w : Running C S A) (events : List Event)
      → Extends w.self (run driver kernel adc w events).self
  unfolding run
  scans_numbered w [] = Extends-same w.self w.self refl refl
  scans_numbered w (e ∷ events) =
      let next = step driver kernel adc w e in
      Extends-trans w.self next.self (run driver kernel adc next events).self (step-Extends w e)
        (scans_numbered next events)

  -- Events in which the reader's wait does not end.
  abbrev pub NoWakes : List Event → Type 0
  NoWakes [] = Unit {0}
  NoWakes (alarms ∷ events) = NoWakes events
  NoWakes (stops ∷ events) = NoWakes events
  NoWakes (wakes answer ∷ events) = ⊥

  -- A reader that waits and has been asked to stop.
  record IsAsked (w : Running C S A) : Type 0 where
    reader : w.reader ≡ waiting
    asked : w.self.should_pause ≡ true
    tick : kernel.count w.self.tick_sem ≡ 1

  stays-IsAsked :
      (w : Running C S A) (events : List Event)
      → NoWakes events
      → IsAsked w
      → IsAsked (run driver kernel adc w events)
  unfolding run step
  stays-IsAsked w [] n h = h
  stays-IsAsked w (alarms ∷ events) n h =
      stays-IsAsked (step driver kernel adc w alarms) events n
        (record { reader = h.reader; asked = h.asked; tick = kernel.give-count w.self.tick_sem })
  stays-IsAsked w (stops ∷ events) n h =
      stays-IsAsked (step driver kernel adc w stops) events n
        (record { reader = h.reader; asked = refl; tick = kernel.give-count w.self.tick_sem })
  stays-IsAsked w (wakes answer ∷ events) n h = absurd n

  wake_ends :
      (w : Running C S A) (answer : Option Dterr)
      → IsAsked w
      → let t = step driver kernel adc w (wakes answer) in
        (t.reader ≡ ended none) × (t.self.status.state ≡ stopped) × (t.self.scans ≡ w.self.scans)
  unfolding step wake
  wake_ends w answer h = ground (arith, h.reader, h.asked, h.tick)

  -- The request of `deactivate` reaches a reader that waits: whatever alarms come before its wait
  -- ends, it then ends without an error and without another scan, and the status is
  -- DTADC_STATE_STOPPED.
  pub stop_ends :
      (w : Running C S A) (events : List Event) (answer : Option Dterr)
      → w.reader ≡ waiting
      → NoWakes events
      → let before = run driver kernel adc (step driver kernel adc w stops) events in
        let t = step driver kernel adc before (wakes answer) in
        (t.reader ≡ ended none)
        × (t.self.status.state ≡ stopped)
        × (t.self.scans ≡ before.self.scans)
  unfolding step
  stop_ends w events answer h n =
      wake_ends (run driver kernel adc (step driver kernel adc w stops) events) answer (
        stays-IsAsked (step driver kernel adc w stops) events n
          (record { reader = h; asked = refl; tick = kernel.give-count w.self.tick_sem }))
