-- ===== src/Modbus/Blob.antt =====
-- From the master to the slave: a blob written register by register.
use dtmc_zephyr.Prelude.{
  ℕ, zero, suc, ◌+◌, ◌-◌, ◌≤◌, ◌<◌, ◌≡◌, refl, sym, ◌∙◌, ap, ap₂, true, List, [], ◌∷◌, ◌++◌, arith,
  ltb, length, set, take, replicate, min, ◌||◌, length-append, append_assoc, set-append,
}
use dtmc_zephyr.Port.Ring.{RingFifo}
use dtmc_zephyr.Port.Modbus.{ModbusProtocol}
use dtmc_zephyr.Modbus.Object.{ModbusSlave}
use dtmc_zephyr.Modbus.Helpers.{clamp_len, put_m2s_into_rxfifo}
use dtmc_zephyr.Modbus.Callbacks.{on_command, on_length, on_data}
use dtmc_zephyr.Modbus.Master.{put_reg, put_command, put_length, put_data}

-- Values stored from an index on, one after another.
abbrev pub store : List ℕ → ℕ → List ℕ → List ℕ
store regs i [] = regs
store regs i (r ∷ rs) = store (set regs i r) (i + 1) rs

-- Registers stored into zeros stand in their places, with zeros behind them.
pub store-zeros :
    (pre rs : List ℕ) (k i : ℕ)
    → length rs ≤ k
    → i ≡ length pre
    → store (pre ++ replicate k 0) i rs ≡ pre ++ (rs ++ replicate (k - length rs) 0)
store-zeros pre [] k i h e = ap (λ n. pre ++ replicate n 0) (omega arith)
store-zeros pre (r ∷ rs) zero i h e = absurd (omega arith)
store-zeros pre (r ∷ rs) (suc k) i h e =
    let left : suc k - length (r ∷ rs) ≡ k - length rs = omega arith in
    rw e (
      ap (λ l. store l (length pre + 1) rs)
        (set-append pre (replicate k 0) 0 r ∙ sym (append_assoc pre (r ∷ []) (replicate k 0)))
      ∙ store-zeros (pre ++ (r ∷ [])) rs k (length pre + 1) (omega arith)
          (sym (length-append pre (r ∷ [])))
      ∙ append_assoc pre (r ∷ []) (rs ++ replicate (k - length rs) 0)
      ∙ ap (λ n. pre ++ (r ∷ (rs ++ replicate n 0))) (sym left))

module _ {F : Type 0} (ring : RingFifo F) (proto : ModbusProtocol) where
  -- writes of data registers, from the one with index `i` on
  unfoldable pub put_regs : ModbusSlave F → ℕ → List ℕ → ModbusSlave F
  put_regs s i [] = s
  put_regs s i (r ∷ rs) = put_regs (put_reg ring proto s (proto.m2s_data_reg + i) r) (i + 1) rs

  -- A blob: the command, its length, and its registers.
  abbrev pub send_blob : ModbusSlave F → ℕ → List ℕ → ModbusSlave F
  send_blob s len regs =
      put_regs
        (put_reg ring proto (put_reg ring proto s proto.m2s_cmd_reg proto.put_blob)
          (proto.m2s_cmd_reg + 1) len)
        0 regs

  -- the object with registers stored and counted
  abbrev pub stored : ModbusSlave F → ℕ → List ℕ → ModbusSlave F
  stored s i rs = record s {
    m2s_data_regs = store s.m2s_data_regs i rs;
    m2s_data_regs_written = s.m2s_data_regs_written + length rs;
  }

  on_data_early :
      (s : ModbusSlave F) (i r : ℕ)
      → s.m2s_data_regs_written + 1 < s.m2s_data_regs_expected
      → on_data ring proto s i r ≡ stored s i (r ∷ [])
  unfolding on_data
  on_data_early s i r h = ground arith

  pub on_data_last :
      (s : ModbusSlave F) (i r : ℕ)
      → s.m2s_cmd ≡ proto.put_blob
      → 0 < s.m2s_data_regs_expected
      → s.m2s_data_regs_expected ≤ s.m2s_data_regs_written + 1
      → on_data ring proto s i r ≡ put_m2s_into_rxfifo ring proto (stored s i (r ∷ []))
  unfolding on_data
  on_data_last s i r hc he h = ground arith

  -- The last of the expected registers, and only it, makes the blob go into the FIFO.
  pub put_regs_complete :
      (s : ModbusSlave F) (i r : ℕ) (rs : List ℕ)
      → s.is_callback_processing_enabled ≡ true
      → s.m2s_cmd ≡ proto.put_blob
      → s.m2s_data_regs_written + length (r ∷ rs) ≡ s.m2s_data_regs_expected
      → i + length (r ∷ rs) ≤ proto.max_blob_regs
      → put_regs s i (r ∷ rs) ≡ put_m2s_into_rxfifo ring proto (stored s i (r ∷ rs))
  unfolding put_regs
  put_regs_complete s i r [] he hc hw hi =
      put_data ring proto s i r he (omega arith) ∙ on_data_last s i r hc (omega arith) (omega arith)
  put_regs_complete s i r (q ∷ rs) he hc hw hi =
      let one = put_data ring proto s i r he (omega arith) ∙ on_data_early s i r (omega arith) in
      let count : s.m2s_data_regs_written + 1 + length (q ∷ rs)
          ≡ s.m2s_data_regs_written + length (r ∷ q ∷ rs) =
        omega arith in
      ap (λ t. put_regs t (i + 1) (q ∷ rs)) one
      ∙ put_regs_complete (stored s i (r ∷ [])) (i + 1) q rs he hc (omega arith) (omega arith)
      ∙ ap
          (λ n. put_m2s_into_rxfifo ring proto (record s {
            m2s_data_regs = store s.m2s_data_regs i (r ∷ q ∷ rs);
            m2s_data_regs_written = n;
          }))
          count

  -- the object after the header of a blob
  pub header :
      (s : ModbusSlave F) (len : ℕ)
      → s.is_callback_processing_enabled ≡ true
      → len ≤ proto.max_blob_bytes
      → let t =
          put_reg ring proto
            (put_reg ring proto s proto.m2s_cmd_reg proto.put_blob)
            (proto.m2s_cmd_reg + 1)
            len in
        (t.is_callback_processing_enabled ≡ true)
        × (t.m2s_cmd ≡ proto.put_blob)
        × (t.m2s_len ≡ len)
        × (t.m2s_data_regs ≡ replicate proto.max_blob_regs 0)
        × (t.m2s_data_regs_expected ≡ proto.blob_to_regs len)
        × (t.m2s_data_regs_written ≡ 0)
        × (t.rx_fifo ≡ s.rx_fifo)
        × (t.rx_overflow_pending ≡ s.rx_overflow_pending)
        × (t.stats.rx_dropped ≡ s.stats.rx_dropped)
        × (t.stats.put_blob_count ≡ s.stats.put_blob_count)
  unfolding on_command on_length
  header s len h hi =
      let fits = proto.blob_fits len hi in
      let none_larger : clamp_len proto len ≡ len = ground arith in
      rw (put_command ring proto s proto.put_blob h) (
        rw (put_length ring proto (on_command ring proto s proto.put_blob) len h) (
          ground
            (arith, fits, none_larger, ap proto.blob_to_regs none_larger, proto.commands_differ)))

  -- What the consumption of a blob of `n` bytes does to the FIFO and the counts.
  pub consume :
      (s : ModbusSlave F) (n : ℕ)
      → s.m2s_len ≡ n
      → n ≤ proto.max_blob_bytes
      → let t = put_m2s_into_rxfifo ring proto s in
        let room = ring.room s.rx_fifo in
        (ring.contents t.rx_fifo
          ≡ ring.contents s.rx_fifo
            ++ take (min n room) (proto.unpack_regs_to_bytes s.m2s_data_regs n))
        × (t.rx_overflow_pending ≡ (ltb room n || s.rx_overflow_pending))
        × (t.stats.rx_dropped ≡ s.stats.rx_dropped + (n - room))
        × (t.stats.put_blob_count ≡ s.stats.put_blob_count + 1)
  unfolding put_m2s_into_rxfifo
  consume s n e hi =
      let len : clamp_len proto s.m2s_len ≡ n = ap (clamp_len proto) e ∙ ground arith in
      let bytes = proto.unpack_regs_to_bytes s.m2s_data_regs n in
      let count = ring.push_count s.rx_fifo bytes in
      let size = proto.length-unpack s.m2s_data_regs n in
      let written : (ring.push s.rx_fifo bytes).1 ≡ min n (ring.room s.rx_fifo) =
        omega (arith, count, size) in
      rw len (
        ring.push_contents s.rx_fifo bytes
            ∙ ap (λ k. ring.contents s.rx_fifo ++ take k bytes) written,
        ground (arith, written),
        ground (arith, written),
        refl,
      )

  -- A blob of some bytes that the protocol allows, written as command, length and exactly the
  -- registers of that length, is unpacked once: what fits of its bytes is appended to the receive
  -- FIFO in order, an overflow is noted exactly if something did not fit (or was noted before), the
  -- dropped count grows by the bytes that did not fit, and the blob count by one.
  pub blob_delivered :
      (s : ModbusSlave F) (len : ℕ) (regs : List ℕ)
      → s.is_callback_processing_enabled ≡ true
      → 0 < len
      → len ≤ proto.max_blob_bytes
      → length regs ≡ proto.blob_to_regs len
      → let t = send_blob s len regs in
        let room = ring.room s.rx_fifo in
        let padded = regs ++ replicate (proto.max_blob_regs - length regs) 0 in
        (ring.contents t.rx_fifo
          ≡ ring.contents s.rx_fifo ++ take (min len room) (proto.unpack_regs_to_bytes padded len))
        × (t.rx_overflow_pending ≡ (ltb room len || s.rx_overflow_pending))
        × (t.stats.rx_dropped ≡ s.stats.rx_dropped + (len - room))
        × (t.stats.put_blob_count ≡ s.stats.put_blob_count + 1)
  blob_delivered s len [] he lo hi hr = absurd (omega (arith, proto.blob_needs_regs len lo))
  blob_delivered s len (r ∷ rs) he lo hi hr =
      let b =
        put_reg ring proto (put_reg ring proto s proto.m2s_cmd_reg proto.put_blob)
          (proto.m2s_cmd_reg + 1) len in
      let h = header s len he hi in
      let fits = proto.blob_fits len hi in
      let done = put_regs_complete b 0 r rs h.0 h.1 (omega (arith, h.4, h.5)) (omega arith) in
      let padded = (r ∷ rs) ++ replicate (proto.max_blob_regs - length (r ∷ rs)) 0 in
      let image : store b.m2s_data_regs 0 (r ∷ rs) ≡ padded =
        ap (λ l. store l 0 (r ∷ rs)) h.3
        ∙ store-zeros [] (r ∷ rs) proto.max_blob_regs 0 (omega arith) refl in
      let c = consume (stored b 0 (r ∷ rs)) len h.2 hi in
      rw done (
        c.0
            ∙ ap₂
                (λ f g.
                  ring.contents f
                  ++ take (min len (ring.room f)) (proto.unpack_regs_to_bytes g len))
                h.6 image,
        c.1 ∙ ap₂ (λ f o. ltb (ring.room f) len || o) h.6 h.7,
        c.2 ∙ ap₂ (λ f d. d + (len - ring.room f)) h.6 h.8,
        c.3 ∙ ap (λ n. n + 1) h.9,
      )
