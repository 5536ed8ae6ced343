-- ===== src/Modbus/Poll.antt =====
-- From the slave to the master: a staged message and the poll that collects it.
use dtmc_zephyr.Prelude.{
  ℕ, pos, ◌+◌, ◌≤◌, ◌<◌, ◌≡◌, refl, ◌∙◌, ap, true, false, none, some, is_some, List, ◌++◌, arith,
  length, take, drop, take-append, take_all, length-take, subst,
}
use dtmc_zephyr.Port.Ring.{RingFifo}
use dtmc_zephyr.Port.Modbus.{ModbusProtocol, AllBytes, LockAnswers}
use dtmc_zephyr.Modbus.Object.{ModbusSlave}
use dtmc_zephyr.Modbus.Helpers.{clamp_len, payload, release_lock, put_tx_staged_into_s2m}
use dtmc_zephyr.Modbus.Callbacks.{on_command, on_length}
use dtmc_zephyr.Modbus.Methods.{write}
use dtmc_zephyr.Modbus.Session.{IsValid}
use dtmc_zephyr.Modbus.Master.{
  put_reg, reg_at, read_regs, put_command, put_length, read_status, read_length, read_regs_from,
}

-- An object whose callbacks serve the master, with a lock that is granted.
pub record IsServing {F : Type 0} (lock : LockAnswers) (s : ModbusSlave F) : Type 0 where
  pub enabled : s.is_callback_processing_enabled ≡ true
  pub locked : s.lock_handle ≡ true
  pub acquired : lock.acquire ≡ none
  pub released : lock.release ≡ none

module _ {F : Type 0} (ring : RingFifo F) (proto : ModbusProtocol) where
  -- the master's request for data: the command, then a length
  abbrev pub ask : ModbusSlave F → ℕ → ModbusSlave F
  ask s len =
      put_reg ring proto (put_reg ring proto s proto.m2s_cmd_reg proto.give_me_any_data)
        (proto.m2s_cmd_reg + 1) len

  on_command-enabled :
      (s : ModbusSlave F) (reg : ℕ)
      → (on_command ring proto s reg).is_callback_processing_enabled
        ≡ s.is_callback_processing_enabled
  unfolding on_command
  on_command-enabled s reg = refl

  ask_calls :
      (s : ModbusSlave F) (len : ℕ)
      → s.is_callback_processing_enabled ≡ true
      → ask s len ≡ on_length ring proto (on_command ring proto s proto.give_me_any_data) len
  ask_calls s len h =
      ap (λ t. put_reg ring proto t (proto.m2s_cmd_reg + 1) len)
        (put_command ring proto s proto.give_me_any_data h)
      ∙ put_length ring proto (on_command ring proto s proto.give_me_any_data) len
          (on_command-enabled s proto.give_me_any_data ∙ h)

  -- What a poll leaves in the registers when a message is staged.
  ask_staged :
      (s : ModbusSlave F) (m : ℕ)
      → s.is_callback_processing_enabled ≡ true
      → s.tx_staged_pending ≡ true
      → 0 < s.tx_staged_len
      → let t = ask s m in
        let n = clamp_len proto s.tx_staged_len in
        (t.s2m_status ≡ proto.has_data)
        × (t.s2m_len ≡ n)
        × (t.s2m_data_regs
            ≡ proto.pack_bytes_to_regs (take n (payload s.tx_staged_buf)) s.s2m_data_regs)
        × (t.tx_staged_pending ≡ false)
        × (t.is_callback_processing_enabled ≡ true)
  unfolding on_command on_length put_tx_staged_into_s2m
  ask_staged s m h hp hl = rw (ask_calls s m h) (ground arith)

  -- What it leaves there when none is.
  ask_idle :
      (s : ModbusSlave F) (m : ℕ)
      → s.is_callback_processing_enabled ≡ true
      → s.tx_staged_pending ≡ false
      → let t = ask s m in
        (t.s2m_status ≡ proto.no_data) × (t.s2m_len ≡ 0) × (t.is_callback_processing_enabled ≡ true)
  unfolding on_command on_length put_tx_staged_into_s2m
  ask_idle s m h hp = rw (ask_calls s m h) (ground arith)

  -- A write of a message that fits, when none is pending.
  write_stages :
      (lock : LockAnswers) (s : ModbusSlave F) (staged buf : List ℕ) (len : ℕ)
      → IsServing lock s
      → s.tx_staged_pending ≡ false
      → s.tx_staged_buf ≡ some staged
      → 0 < len
      → len ≤ proto.max_blob_bytes
      → let (t, reply) = write ring proto lock s (some buf) (pos len) true in
        (reply ≡ record { dterr = none; out_written = some len })
        × (t.tx_staged_pending ≡ true)
        × (t.tx_staged_len ≡ len)
        × (t.tx_staged_buf ≡ some (take len buf ++ drop len staged))
        × (t.is_callback_processing_enabled ≡ true)
        × (t.s2m_data_regs ≡ s.s2m_data_regs)
        × (t.lock_handle ≡ true)
  unfolding write release_lock
  write_stages lock s staged buf len h hp hb lo hi = ground arith

  -- A message of so many bytes that is staged, in an object whose callbacks serve the master.
  pub record HasStaged (t : ModbusSlave F) (bytes : List ℕ) (len : ℕ) : Type 0 where
    pub pending : t.tx_staged_pending ≡ true
    pub staged_len : t.tx_staged_len ≡ len
    pub staged : take len (payload t.tx_staged_buf) ≡ bytes
    pub enabled : t.is_callback_processing_enabled ≡ true
    pub locked : t.lock_handle ≡ true
    pub has_buf : is_some t.tx_staged_buf ≡ true
    pub s2m_regs : length t.s2m_data_regs ≡ proto.max_blob_regs

  -- what a poll shows of a message of so many bytes, and that the poll after it shows nothing
  abbrev pub Shows : ModbusSlave F → List ℕ → ℕ → ℕ → Type 0
  Shows polled bytes len k =
      let regs = read_regs ring proto polled 0 proto.max_blob_regs in
      (reg_at ring proto polled proto.s2m_status_reg ≡ some proto.has_data)
      × (reg_at ring proto polled (proto.s2m_status_reg + 1) ≡ some len)
      × (proto.unpack_regs_to_bytes regs len ≡ bytes)
      × (reg_at ring proto (ask polled k) proto.s2m_status_reg ≡ some proto.no_data)

  -- A poll shows a message that is staged.
  pub staged_polled :
      (t : ModbusSlave F) (bytes : List ℕ) (len m k : ℕ)
      → HasStaged t bytes len
      → 0 < len
      → len ≤ proto.max_blob_bytes
      → length bytes ≡ len
      → AllBytes bytes
      → Shows (ask t m) bytes len k
  staged_polled t bytes len m k h lo hi size each =
      let p = ask_staged t m h.enabled h.pending (rw h.staged_len lo) in
      let polled = ask t m in
      let idle = ask_idle polled k p.4 p.3 in
      let n : clamp_len proto t.tx_staged_len ≡ len =
        ap (clamp_len proto) h.staged_len ∙ ground arith in
      let regs : polled.s2m_data_regs ≡ proto.pack_bytes_to_regs bytes t.s2m_data_regs =
        p.2
        ∙ ap (λ l. proto.pack_bytes_to_regs l t.s2m_data_regs)
            (ap (λ j. take j (payload t.tx_staged_buf)) n ∙ h.staged) in
      let total : length polled.s2m_data_regs ≡ proto.max_blob_regs =
        ap length regs ∙ proto.length-pack bytes t.s2m_data_regs ∙ h.s2m_regs in
      let seen = read_regs_from ring proto polled 0 proto.max_blob_regs p.4 total (omega arith) in
      let unpacked : proto.unpack_regs_to_bytes polled.s2m_data_regs len ≡ bytes = rw regs (
        subst
          (λ j.
            proto.unpack_regs_to_bytes (proto.pack_bytes_to_regs bytes t.s2m_data_regs) j ≡ bytes)
          size (proto.unpack-pack bytes t.s2m_data_regs h.s2m_regs (omega (arith, size)) each)) in
      (
        read_status ring proto polled p.4 ∙ ap some p.0,
        read_length ring proto polled p.4 ∙ ap some (p.1 ∙ n),
        ap (λ r. proto.unpack_regs_to_bytes r len) seen ∙ unpacked,
        read_status ring proto (ask polled k) idle.2 ∙ ap some idle.0,
      )

  -- A write stages its message.
  pub write-HasStaged :
      (lock : LockAnswers) (s : ModbusSlave F) (staged buf : List ℕ) (len : ℕ)
      → IsServing lock s
      → IsValid proto s
      → s.tx_staged_pending ≡ false
      → s.tx_staged_buf ≡ some staged
      → 0 < len
      → len ≤ proto.max_blob_bytes
      → len ≤ length buf
      → HasStaged (write ring proto lock s (some buf) (pos len) true).0 (take len buf) len
  write-HasStaged lock s staged buf len h v hp hb lo hi hbuf =
      let w = write_stages lock s staged buf len h hp hb lo hi in
      let size : length (take len buf) ≡ len = omega (arith, length-take len buf) in
      record {
        pending = w.1;
        staged_len = w.2;
        staged =
            ap (λ b. take len (payload b)) w.3
            ∙ take-append len (take len buf) (drop len staged) (omega arith)
            ∙ take_all len (take len buf) (omega arith);
        enabled = w.4;
        locked = w.6;
        has_buf = ap is_some w.3;
        s2m_regs = ap length w.5 ∙ v.s2m_regs;
      }

  -- A message of at most DTIOX_MODBUS_MAX_BLOB_BYTES bytes that is written when none is pending is
  -- taken whole. The next poll shows the master that there is data, its length, and registers that
  -- unpack to exactly these bytes; the poll after that shows that there is none.
  pub poll_delivers :
      (lock : LockAnswers) (s : ModbusSlave F) (staged buf : List ℕ) (len m k : ℕ)
      → IsServing lock s
      → IsValid proto s
      → s.tx_staged_pending ≡ false
      → s.tx_staged_buf ≡ some staged
      → 0 < len
      → len ≤ proto.max_blob_bytes
      → len ≤ length buf
      → AllBytes (take len buf)
      → let (t, reply) = write ring proto lock s (some buf) (pos len) true in
        let polled = ask t m in
        let regs = read_regs ring proto polled 0 proto.max_blob_regs in
        (reply ≡ record { dterr = none; out_written = some len })
        × (reg_at ring proto polled proto.s2m_status_reg ≡ some proto.has_data)
        × (reg_at ring proto polled (proto.s2m_status_reg + 1) ≡ some len)
        × (proto.unpack_regs_to_bytes regs len ≡ take len buf)
        × (reg_at ring proto (ask polled k) proto.s2m_status_reg ≡ some proto.no_data)
  poll_delivers lock s staged buf len m k h v hp hb lo hi hbuf bytes =
      let t = (write ring proto lock s (some buf) (pos len) true).0 in
      let w = write_stages lock s staged buf len h hp hb lo hi in
      let held = write-HasStaged lock s staged buf len h v hp hb lo hi hbuf in
      let size : length (take len buf) ≡ len = omega (arith, length-take len buf) in
      let p = staged_polled t (take len buf) len m k held lo hi size bytes in
      (w.0, p.0, p.1, p.2, p.3)
