-- ===== src/Modbus/Tests.antt =====
-- The Modbus slave at concrete inputs: tests, and the theorems applied.
use dtmc_zephyr.Prelude.{
  ℕ, pos, ◌+◌, ◌≡◌, refl, true, false, none, some, List, [], ◌∷◌, ◌++◌, arith, take, replicate,
}
use dtmc_zephyr.Err.{leaf, busy}
use dtmc_zephyr.Port.Registers.{one_byte_regs}
use dtmc_zephyr.Port.Modbus.{LockAnswers}
use dtmc_zephyr.Port.Samples.{Queue, queue_ring}
use dtmc_zephyr.Modbus.Object.{ModbusSlave, zeroed}
use dtmc_zephyr.Modbus.Helpers.{put_m2s_into_rxfifo, put_tx_staged_into_s2m, release_lock}
use dtmc_zephyr.Modbus.Callbacks.{holding_reg_rd, holding_reg_wr, on_command, on_length, on_data}
use dtmc_zephyr.Modbus.Methods.{WriteReply, write, read}
use dtmc_zephyr.Modbus.Session
use dtmc_zephyr.Modbus.Session.{IsValid}
use dtmc_zephyr.Modbus.Master.{put_reg, reg_at, read_regs}
use dtmc_zephyr.Modbus.Poll.{IsServing, ask, poll_delivers}
use dtmc_zephyr.Modbus.Busy.{writes, busy_until_polled}
use dtmc_zephyr.Modbus.Again.{put_again, blob_repeated}
use dtmc_zephyr.Modbus.Blob.{put_regs, send_blob, blob_delivered}

abbrev granted : LockAnswers
granted = record { acquire = none; release = none }

-- A slave that serves the master, with room for six bytes and a staging buffer of four.
abbrev serving : ModbusSlave Queue
serving = record (zeroed (record { cap = 6; held = [] }) 4) {
  is_callback_processing_enabled = true;
  lock_handle = true;
  rx_semaphore = some 1;
  tx_staged_buf = some (replicate 4 0);
}

serving-IsServing : IsServing granted serving
serving-IsServing = record { enabled = refl; locked = refl; acquired = refl; released = refl }

serving-IsValid : IsValid one_byte_regs serving
serving-IsValid = record {
  s2m_len = omega arith;
  tx_staged_len = omega arith;
  expected = omega arith;
  m2s_regs = refl;
  s2m_regs = refl;
  pending = refl;
}

-- A blob of three bytes is in the FIFO when its last register has been written, and a read gives it.
send_three :
    let t = send_blob queue_ring one_byte_regs serving 3 (7 ∷ 8 ∷ 9 ∷ []) in
    (t.rx_fifo.held ≡ 7 ∷ 8 ∷ 9 ∷ [])
    × (t.posts ≡ 1)
    × ((read queue_ring one_byte_regs granted t true true (pos 2)).0.rx_fifo.held ≡ 9 ∷ [])
unfolding put_regs holding_reg_wr on_command on_length on_data put_m2s_into_rxfifo read release_lock
send_three = (refl, refl, refl)

-- A poll with nothing staged says so.
poll_idle : reg_at queue_ring one_byte_regs (ask queue_ring one_byte_regs serving 0) 100 ≡ some 0
unfolding holding_reg_wr holding_reg_rd on_command on_length put_tx_staged_into_s2m
poll_idle = refl

poll_delivers_example :
    let (t, reply) =
      write queue_ring one_byte_regs granted serving (some (1 ∷ 2 ∷ 3 ∷ [])) (pos 3) true in
    let polled = ask queue_ring one_byte_regs t 0 in
    let regs = read_regs queue_ring one_byte_regs polled 0 4 in
    (reply ≡ record { dterr = none; out_written = some 3 })
    × (reg_at queue_ring one_byte_regs polled 100 ≡ some 1)
    × (reg_at queue_ring one_byte_regs polled (100 + 1) ≡ some 3)
    × (one_byte_regs.unpack_regs_to_bytes regs 3 ≡ take 3 (1 ∷ 2 ∷ 3 ∷ []))
    × (reg_at queue_ring one_byte_regs (ask queue_ring one_byte_regs polled 0) 100 ≡ some 0)
poll_delivers_example =
    poll_delivers queue_ring one_byte_regs granted serving (replicate 4 0) (1 ∷ 2 ∷ 3 ∷ []) 3 0 0
      serving-IsServing serving-IsValid refl refl (omega arith) (omega arith) (omega arith)
      (omega arith, (omega arith, (omega arith, tt)))

-- Two more writes come before the poll.
abbrev more : List (List ℕ × ℕ)
more = (4 ∷ 5 ∷ [], 2) ∷ ([], 0) ∷ []

busy_until_polled_example :
    let t =
      (write queue_ring one_byte_regs granted serving (some (1 ∷ 2 ∷ 3 ∷ [])) (pos 3) true).0 in
    let (u, replies) = writes queue_ring one_byte_regs granted t more in
    let polled = ask queue_ring one_byte_regs u 0 in
    let regs = read_regs queue_ring one_byte_regs polled 0 4 in
    let refused : WriteReply = record { dterr = some (leaf busy); out_written = some 0 } in
    (replies ≡ refused ∷ refused ∷ [])
    × ((reg_at queue_ring one_byte_regs polled 100 ≡ some 1)
        × (reg_at queue_ring one_byte_regs polled (100 + 1) ≡ some 3)
        × (one_byte_regs.unpack_regs_to_bytes regs 3 ≡ 1 ∷ 2 ∷ 3 ∷ [])
        × (reg_at queue_ring one_byte_regs (ask queue_ring one_byte_regs polled 0) 100 ≡ some 0))
busy_until_polled_example =
    busy_until_polled queue_ring one_byte_regs granted serving (replicate 4 0) (1 ∷ 2 ∷ 3 ∷ []) 3 0
      0 more serving-IsServing serving-IsValid refl refl (omega arith) (omega arith) (omega arith)
      (omega arith, (omega arith, (omega arith, tt)))

blob_delivered_example :
    let t = send_blob queue_ring one_byte_regs serving 3 (7 ∷ 8 ∷ 9 ∷ []) in
    (t.rx_fifo.held ≡ 7 ∷ 8 ∷ 9 ∷ [])
    × (t.rx_overflow_pending ≡ false)
    × (t.stats.rx_dropped ≡ 0)
    × (t.stats.put_blob_count ≡ 1)
blob_delivered_example =
    blob_delivered queue_ring one_byte_regs serving 3 (7 ∷ 8 ∷ 9 ∷ []) refl (omega arith)
      (omega arith) refl

-- The second register is written twice more.
blob_repeated_example :
    let t =
      put_again queue_ring one_byte_regs
        (send_blob queue_ring one_byte_regs serving 2 (7 ∷ 8 ∷ []))
        ((1, 8) ∷ []) in
    let u = put_reg queue_ring one_byte_regs t (2 + 1) 9 in
    (t.stats.put_blob_count ≡ 0 + 1 + 1) × (u.rx_fifo.held ≡ t.rx_fifo.held ++ (7 ∷ 9 ∷ []))
unfolding put_again put_regs holding_reg_wr on_command on_length on_data put_m2s_into_rxfifo
blob_repeated_example =
    blob_repeated queue_ring one_byte_regs serving 2 (7 ∷ 8 ∷ []) ((1, 8) ∷ []) 1 9 refl
      (omega arith) (omega arith) refl (omega arith, tt) (omega arith)
