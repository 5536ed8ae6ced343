-- ===== src/Modbus/Again.antt =====
-- Data registers that the master writes after the blob they belong to is complete.
use dtmc_zephyr.Prelude.{
  ℕ, ◌+◌, ◌-◌, ◌≤◌, ◌<◌, ◌≡◌, refl, ◌∙◌, ap, true, List, [], ◌∷◌, ◌++◌, arith, length, set, take,
  replicate, min, subst,
}
use dtmc_zephyr.Port.Ring.{RingFifo}
use dtmc_zephyr.Port.Modbus.{ModbusProtocol}
use dtmc_zephyr.Modbus.Object.{ModbusSlave}
use dtmc_zephyr.Modbus.Helpers.{put_m2s_into_rxfifo}
use dtmc_zephyr.Modbus.Master.{put_reg, put_data}
use dtmc_zephyr.Modbus.Blob.{
  store, store-zeros, stored, put_regs_complete, header, send_blob, on_data_last, consume,
}

-- Some registers, each with its index, written over the ones before.
abbrev pub overwrite : List ℕ → List (ℕ × ℕ) → List ℕ
overwrite regs [] = regs
overwrite regs ((i, r) ∷ ws) = overwrite (set regs i r) ws

module _ {F : Type 0} (ring : RingFifo F) (proto : ModbusProtocol) where
  -- further writes of data registers, each with its index
  unfoldable pub put_again : ModbusSlave F → List (ℕ × ℕ) → ModbusSlave F
  put_again s [] = s
  put_again s ((i, r) ∷ ws) = put_again (put_reg ring proto s (proto.m2s_data_reg + i) r) ws

  -- whether all the indices are those of data registers
  abbrev pub AllIndices : List (ℕ × ℕ) → Type 0
  AllIndices [] = Unit
  AllIndices ((i, r) ∷ ws) = (i < proto.max_blob_regs) × AllIndices ws

  -- An object that holds a complete blob of so many bytes in these registers and has counted so many.
  record IsComplete (s : ModbusSlave F) (len : ℕ) (regs : List ℕ) (count : ℕ) : Type 0 where
    enabled : s.is_callback_processing_enabled ≡ true
    cmd : s.m2s_cmd ≡ proto.put_blob
    len_reg : s.m2s_len ≡ len
    some_expected : 0 < s.m2s_data_regs_expected
    all_written : s.m2s_data_regs_expected ≤ s.m2s_data_regs_written
    held : s.m2s_data_regs ≡ regs
    counted : s.stats.put_blob_count ≡ count

  -- The consumption of a blob leaves it complete, counted once more.
  consume-IsComplete :
      (s : ModbusSlave F) (len : ℕ) (regs : List ℕ) (count : ℕ)
      → IsComplete s len regs count
      → IsComplete (put_m2s_into_rxfifo ring proto s) len regs (count + 1)
  unfolding put_m2s_into_rxfifo
  consume-IsComplete s len regs count h = record {
    enabled = h.enabled;
    cmd = h.cmd;
    len_reg = h.len_reg;
    some_expected = h.some_expected;
    all_written = h.all_written;
    held = h.held;
    counted = ap (λ n. n + 1) h.counted;
  }

  send_blob-IsComplete :
      (s : ModbusSlave F) (len : ℕ) (regs : List ℕ)
      → s.is_callback_processing_enabled ≡ true
      → 0 < len
      → len ≤ proto.max_blob_bytes
      → length regs ≡ proto.blob_to_regs len
      → IsComplete
          (send_blob ring proto s len regs)
          len
          (regs ++ replicate (proto.max_blob_regs - length regs) 0)
          (s.stats.put_blob_count + 1)
  send_blob-IsComplete s len [] he lo hi hr = absurd (omega (arith, proto.blob_needs_regs len lo))
  send_blob-IsComplete s len (r ∷ rs) he lo hi hr =
      let b =
        put_reg ring proto (put_reg ring proto s proto.m2s_cmd_reg proto.put_blob)
          (proto.m2s_cmd_reg + 1) len in
      let h = header ring proto s len he hi in
      let fits = proto.blob_fits len hi in
      let done =
        put_regs_complete ring proto b 0 r rs h.0 h.1 (omega (arith, h.4, h.5)) (omega arith) in
      rw done (
        consume-IsComplete (stored ring proto b 0 (r ∷ rs)) len _ s.stats.put_blob_count (record {
          enabled = h.0;
          cmd = h.1;
          len_reg = h.2;
          some_expected = omega (arith, h.4, hr);
          all_written = omega (arith, h.4, h.5, hr);
          held =
              ap (λ l. store l 0 (r ∷ rs)) h.3
              ∙ store-zeros [] (r ∷ rs) proto.max_blob_regs 0 (omega arith) refl;
          counted = h.9;
        }))

  -- A further register makes the complete blob go into the FIFO.
  put_more :
      (s : ModbusSlave F) (len : ℕ) (regs : List ℕ) (count i r : ℕ)
      → IsComplete s len regs count
      → i < proto.max_blob_regs
      → put_reg ring proto s (proto.m2s_data_reg + i) r
        ≡ put_m2s_into_rxfifo ring proto (stored ring proto s i (r ∷ []))
  put_more s len regs count i r h lt =
      put_data ring proto s i r h.enabled lt
      ∙ on_data_last ring proto s i r h.cmd h.some_expected (omega (arith, h.all_written))

  more-IsComplete :
      (s : ModbusSlave F) (len : ℕ) (regs : List ℕ) (count i r : ℕ)
      → IsComplete s len regs count
      → i < proto.max_blob_regs
      → IsComplete (put_reg ring proto s (proto.m2s_data_reg + i) r) len (set regs i r) (count + 1)
  more-IsComplete s len regs count i r h lt = rw (put_more s len regs count i r h lt) (
      consume-IsComplete (stored ring proto s i (r ∷ [])) len (set regs i r) count (record {
        enabled = h.enabled;
        cmd = h.cmd;
        len_reg = h.len_reg;
        some_expected = h.some_expected;
        all_written = omega (arith, h.all_written);
        held = ap (λ l. set l i r) h.held;
        counted = h.counted;
      }))

  put_again-IsComplete :
      (s : ModbusSlave F) (len : ℕ) (regs : List ℕ) (count : ℕ) (ws : List (ℕ × ℕ))
      → IsComplete s len regs count
      → AllIndices ws
      → IsComplete (put_again s ws) len (overwrite regs ws) (count + length ws)
  unfolding put_again
  put_again-IsComplete s len regs count [] h lt = subst (IsComplete s len regs) (omega arith) h
  put_again-IsComplete s len regs count ((i, r) ∷ ws) h lt =
      let next = put_reg ring proto s (proto.m2s_data_reg + i) r in
      let rest =
        put_again-IsComplete next len (set regs i r) (count + 1) ws
          (more-IsComplete s len regs count i r h lt.0) lt.1 in
      subst (IsComplete (put_again next ws) len (overwrite (set regs i r) ws)) (omega arith) rest

  -- A blob that the protocol allows is written as command, length and exactly the registers of that
  -- length, and then data registers are written again, any of them and any number of times. Each of
  -- these writes delivers the blob once more: the blob count is one more than their number, and the
  -- next such write appends to the FIFO as many bytes as the length says and the FIFO takes, of
  -- what the registers then hold.
  pub blob_repeated :
      (s : ModbusSlave F) (len : ℕ) (regs : List ℕ) (ws : List (ℕ × ℕ)) (i r : ℕ)
      → s.is_callback_processing_enabled ≡ true
      → 0 < len
      → len ≤ proto.max_blob_bytes
      → length regs ≡ proto.blob_to_regs len
      → AllIndices ws
      → i < proto.max_blob_regs
      → let t = put_again (send_blob ring proto s len regs) ws in
        let u = put_reg ring proto t (proto.m2s_data_reg + i) r in
        let padded = regs ++ replicate (proto.max_blob_regs - length regs) 0 in
        let bytes = proto.unpack_regs_to_bytes (set (overwrite padded ws) i r) len in
        (t.stats.put_blob_count ≡ s.stats.put_blob_count + 1 + length ws)
        × (ring.contents u.rx_fifo
            ≡ ring.contents t.rx_fifo ++ take (min len (ring.room t.rx_fifo)) bytes)
  blob_repeated s len regs ws i r he lo hi hr all lt =
      let padded = regs ++ replicate (proto.max_blob_regs - length regs) 0 in
      let n = s.stats.put_blob_count + 1 in
      let t = put_again (send_blob ring proto s len regs) ws in
      let h =
        put_again-IsComplete (send_blob ring proto s len regs) len padded n ws
          (send_blob-IsComplete s len regs he lo hi hr) all in
      let c = consume ring proto (stored ring proto t i (r ∷ [])) len h.len_reg hi in
      (
        h.counted,
        ap (λ u. ring.contents u.rx_fifo)
              (put_more t len (overwrite padded ws) (n + length ws) i r h lt)
            ∙ c.0
            ∙ ap
                (λ g.
                  ring.contents t.rx_fifo
                  ++ take (min len (ring.room t.rx_fifo))
                      (proto.unpack_regs_to_bytes (set g i r) len))
                h.held,
      )
