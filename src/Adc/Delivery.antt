-- ===== src/Adc/Delivery.antt =====
-- What a scan delivers.
use dtmc_zephyr.Prelude.{
  ℕ, ℤ, pos_part, ◌+◌, ◌%◌, ◌≤◌, ◌≡◌, refl, sym, ◌∙◌, ap, true, false, Option, none, some, List, [],
  ◌∷◌, ◌++◌, arith, length, set, take, drop, inl, inr, Option-cases, append_assoc, set-append,
  length-append,
}
use dtmc_zephyr.Err.{Dterr, leaf}
use dtmc_zephyr.Err
use dtmc_zephyr.Port.Counter.{CounterDriver, TickSemaphore}
use dtmc_zephyr.Port.Adc.{AdcDriver}
use dtmc_zephyr.Adc.Object.{ChannelRuntime, Adc}
use dtmc_zephyr.Adc.Scan.{sequence_of, read_channels, stamp, on_tick}

module _ {A : Type 0} (adc : AdcDriver A) where
  -- What reads one after another give, or nothing if one of them fails.
  unfoldable pub values : A → List ChannelRuntime → Option (List ℤ)
  values a [] = some []
  values a (r ∷ rest) =
      let (next, got) = adc.adc_read a (sequence_of r) in
      elim got [
        | none ↦ none
        | some raw ↦ elim (values next rest) [ none ↦ none | some later ↦ some (raw ∷ later) ]
      ]

  read_more :
      (a : A) (r : ChannelRuntime) (rest : List ChannelRuntime) (i : ℕ) (channels : List ℤ)
      (raw : ℤ)
      → (adc.adc_read a (sequence_of r)).1 ≡ some raw
      → read_channels adc a (r ∷ rest) i channels
        ≡ read_channels adc (adc.adc_read a (sequence_of r)).0 rest (i + 1) (set channels i raw)
  unfolding read_channels
  read_more a r rest i channels raw h = ground (arith, h)

  read_stops :
      (a : A) (r : ChannelRuntime) (rest : List ChannelRuntime) (i : ℕ) (channels : List ℤ)
      → (adc.adc_read a (sequence_of r)).1 ≡ none
      → (read_channels adc a (r ∷ rest) i channels).complete ≡ false
  unfolding read_channels
  read_stops a r rest i channels h = ground (arith, h)

  -- The reads store their values from index `i` on, in order.
  read_values :
      (a : A) (rs : List ChannelRuntime) (vs pre channels : List ℤ) (i : ℕ)
      → values a rs ≡ some vs
      → i ≡ length pre
      → length rs ≤ length channels
      → let r = read_channels adc a rs i (pre ++ channels) in
        (r.complete ≡ true) × (r.channels ≡ pre ++ (vs ++ drop (length vs) channels))
  unfolding values read_channels
  read_values a [] [] pre channels i h e l = (refl, refl)
  read_values a [] (v ∷ vs) pre channels i h e l = cc
  read_values a (r ∷ rest) vs pre [] i h e l = absurd (omega arith)
  read_values a (r ∷ rest) vs pre (c ∷ channels) i h e l =
      let next = (adc.adc_read a (sequence_of r)).0 in
      elim (Option-cases (adc.adc_read a (sequence_of r)).1) [
        | inl q ↦ absurd (ground (arith, q))
        | inr (raw, q) ↦ elim (Option-cases (values next rest)) [
          | inl n ↦ absurd (ground (arith, q, n))
          | inr (later, n) ↦
              let whole : raw ∷ later ≡ vs = ground (arith, q, n) in
              let stored : set (pre ++ (c ∷ channels)) i raw ≡ (pre ++ (raw ∷ [])) ++ channels =
                ap (λ j. set (pre ++ (c ∷ channels)) j raw) e
                ∙ set-append pre channels c raw
                ∙ sym (append_assoc pre (raw ∷ []) channels) in
              let ih =
                read_values next rest later (pre ++ (raw ∷ [])) channels (i + 1) n
                  (omega (arith, e, length-append pre (raw ∷ []))) (omega arith) in
              let more = read_more a r rest i (pre ++ (c ∷ channels)) raw q in
              rw (← whole) (
                rw more (
                  rw stored (
                    ih.0,
                    ih.1 ∙ append_assoc pre (raw ∷ []) (later ++ drop (length later) channels),
                  )))
        ]
      ]

  read_fails :
      (a : A) (rs : List ChannelRuntime) (channels : List ℤ) (i : ℕ)
      → values a rs ≡ none
      → (read_channels adc a rs i channels).complete ≡ false
  unfolding values read_channels
  read_fails a [] channels i h = cc
  read_fails a (r ∷ rest) channels i h = elim (Option-cases (adc.adc_read a (sequence_of r)).1) [
    | inl q ↦ read_stops a r rest i channels q
    | inr (raw, q) ↦
        let next = (adc.adc_read a (sequence_of r)).0 in
        elim (Option-cases (values next rest)) [
          | inl n ↦
              rw (read_more a r rest i channels raw q)
                (read_fails next rest (set channels i raw) (i + 1) n)
          | inr (later, n) ↦ absurd (ground (arith, q, n))
        ]
  ]

module _ {C S A : Type 0} (driver : CounterDriver C) (kernel : TickSemaphore S)
    (adc : AdcDriver A) where
  -- What a tick does when the reads give these values, or one fails.
  abbrev pub ScanOutcome :
      Adc C S A → Option Dterr → Adc C S A → Option Dterr → Option (List ℤ) → Type 0
  ScanOutcome s answer t e none =
      (e ≡ some (leaf Err.state)) × (t.scans ≡ s.scans) × (t.sequence_number ≡ s.sequence_number)
  ScanOutcome s answer t e (some vs) =
      (e ≡ answer)
      × (t.scans
          ≡ s.scans
            ++ (record {
              timestamp_ns = (stamp driver kernel adc s).scan_timestamp_ns;
              sequence_number = s.sequence_number;
              channels = vs ++ drop (length vs) s.channels;
            }
                ∷ []))
      × (t.sequence_number ≡ (s.sequence_number + 1) % 18446744073709551616)

  -- the descriptors of the configured channels
  abbrev pub configured : Adc C S A → List ChannelRuntime
  configured s = take (pos_part s.config.channel_count) s.channel_runtime

  pub tick_fails :
      (s : Adc C S A) (answer : Option Dterr)
      → (read_channels adc s.adc (configured s) 0 s.channels).complete ≡ false
      → let (t, e) = on_tick driver kernel adc s answer in
        (e ≡ some (leaf Err.state)) × (t.scans ≡ s.scans) × (t.sequence_number ≡ s.sequence_number)
  unfolding on_tick stamp
  tick_fails s answer h = rw h (refl, refl, refl)

  pub tick_scans :
      (s : Adc C S A) (answer : Option Dterr) (channels : List ℤ)
      → (read_channels adc s.adc (configured s) 0 s.channels).complete ≡ true
      → (read_channels adc s.adc (configured s) 0 s.channels).channels ≡ channels
      → let (t, e) = on_tick driver kernel adc s answer in
        (e ≡ answer)
        × (t.scans
            ≡ s.scans
              ++ (record {
                timestamp_ns = (stamp driver kernel adc s).scan_timestamp_ns;
                sequence_number = s.sequence_number;
                channels = channels;
              }
                  ∷ []))
        × (t.sequence_number ≡ (s.sequence_number + 1) % 18446744073709551616)
  unfolding on_tick stamp
  tick_scans s answer channels h k = rw h (rw k (refl, refl, refl))

  -- With no more channels configured than the object has places: a tick gives the callback exactly
  -- one scan, stamped before the reads, with the next sequence number and the values of all
  -- configured channels in their order, and the answer of the callback is the result; or a read
  -- fails, and then the callback is not called, no sequence number is used, and the result is
  -- DTERR_STATE.
  pub scan_all_or_nothing :
      (s : Adc C S A) (answer : Option Dterr)
      → length (configured s) ≤ length s.channels
      → let (t, e) = on_tick driver kernel adc s answer in
        ScanOutcome s answer t e (values adc s.adc (configured s))
  scan_all_or_nothing s answer h = elim (Option-cases (values adc s.adc (configured s))) [
    | inl q ↦
        rw (ScanOutcome, q)
          (tick_fails s answer (read_fails adc s.adc (configured s) s.channels 0 q))
    | inr (vs, q) ↦
        let reads = read_values adc s.adc (configured s) vs [] s.channels 0 q refl h in
        rw (ScanOutcome, q)
          (tick_scans s answer (vs ++ drop (length vs) s.channels) reads.0 reads.1)
  ]
