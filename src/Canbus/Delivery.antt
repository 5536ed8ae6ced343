-- ===== src/Canbus/Delivery.antt =====
-- What `dtiox_zephyr_canbus_write` puts on the bus, a prefix of the caller's bytes, and how its
-- report tells whether that is all of them.
use dtmc_zephyr.Prelude.{
  ℕ, zero, suc, pos, ◌+◌, ◌-◌, ◌/◌, ◌≤◌, ◌<◌, ◌⊎◌, not, ◌&&◌, is_some, if◌then◌else◌, ◌≡◌, refl,
  sym, ◌∙◌, ap, Bool, true, false, none, some, List, [], ◌∷◌, ◌++◌, append_assoc, append-nil, arith,
  ltb, length, take, drop, length-take, length-drop, take-add, drop-drop, dec_lt, ap₂, Bool-cases,
  inl, inr,
}
use dtmc_zephyr.Err.{Rc, success, is_eagain}
use dtmc_zephyr.Port.Ring.{RingFifo}
use dtmc_zephyr.Port.Core.{CoreHelper}
use dtmc_zephyr.Port.Can.{CanFrame, CanDriver}
use dtmc_zephyr.Canbus.Object.{World}
use dtmc_zephyr.Canbus.Callbacks.{check_error_state, on_events}
use dtmc_zephyr.Canbus.Frames
use dtmc_zephyr.Canbus.Frames.{IsFrameOf, AllFramesOf, make_frame-IsFrameOf, payload-make_frame}
use dtmc_zephyr.Canbus.Setup.{send_attempts-SameSetup}
use dtmc_zephyr.Canbus.Write.{
  Attempts, Written, make_frame, send_attempts, write_loop, finish, write,
}

module _ {F B : Type 0} (ring : RingFifo F) (core : CoreHelper) (driver : CanDriver B) where
  -- whether the code after the retry loop goes on to the next chunk
  abbrev is_sent : Attempts F B → Bool
  is_sent out = not (is_some out.dterr) && not (is_eagain out.ret)

  -- What the retry loop has done: it put the frame on the bus once, or never and says so.
  record Tried (w : World F B) (frame : CanFrame) (out : Attempts F B) : Type 0 where
    bus :
        driver.accepted out.world.bus
        ≡ (if is_sent out then driver.accepted w.bus ++ (frame ∷ []) else driver.accepted w.bus)

  send_attempts-Tried :
      (left : ℕ) (w : World F B) (frame : CanFrame) (ret : Rc)
      → (0 < left) ⊎ (is_eagain ret ≡ true)
      → Tried w frame (send_attempts ring core driver left w frame ret)
  unfolding send_attempts
  send_attempts-Tried zero w frame ret (inl h) = absurd (omega arith)
  send_attempts-Tried zero w frame ret (inr h) = ground arith
  send_attempts-Tried (suc left) w frame ret h =
      let s = (check_error_state ring core w.self).0 in
      let reply = driver.can_send w.bus frame s.tx_retry_milliseconds in
      let sent : World F B = record {
        self = on_events ring core driver s reply.2;
        bus = reply.0;
      } in
      ground (
        arith,
        send_attempts-Tried left sent frame reply.1,
        driver.send_accepts w.bus frame s.tx_retry_milliseconds,
        driver.send_refuses w.bus frame s.tx_retry_milliseconds,
        driver.send_result w.bus frame s.tx_retry_milliseconds,
      )

  -- What the chunk loop has done from the byte `total` on: the frames it put on the bus carry the
  -- next `count` bytes, and it ends with all of them or with an error.
  pub record Delivery (w : World F B) (buf : List ℕ) (total len : ℕ) (out : Written F B)
      : Type 0 where
    pub frames : List CanFrame
    pub count : ℕ
    pub bus : driver.accepted out.world.bus ≡ driver.accepted w.bus ++ frames
    pub payload : Frames.payload driver frames ≡ take count (drop total buf)
    pub shape : AllFramesOf driver w.self.config frames
    pub number : length frames ≡ (count + 7) / 8
    pub within : total + count ≤ len
    pub result :
        (is_some out.dterr ≡ true) × (out.out_written ≡ some 0) × (total + count < len)
        ⊎ (out.dterr ≡ none) × (out.out_written ≡ some len) × (total + count ≡ len)

  abbrev chunk_len : ℕ → ℕ → ℕ
  chunk_len total len = if ltb 8 (len - total) then 8 else len - total

  -- the attempts of a round, and the state in which the next one begins
  abbrev round : World F B → List ℕ → ℕ → ℕ → Attempts F B
  round w buf len total =
      let n = chunk_len total len in
      send_attempts ring core driver w.self.tx_retry_count w
        (make_frame driver w.self.config (take n (drop total buf)) n) success

  abbrev after_round : World F B → ℕ → World F B
  after_round sent n = record sent {
    self = record (sent.self) {
      stats = record (sent.self.stats) { tx_bytes = core.add32 sent.self.stats.tx_bytes n };
    };
  }

  write_loop_sent :
      (rounds : ℕ) (w : World F B) (buf : List ℕ) (len total : ℕ)
      → total < len
      → is_sent (round w buf len total) ≡ true
      → write_loop ring core driver (suc rounds) w buf len total
        ≡ write_loop ring core driver rounds
            (after_round (round w buf len total).world (chunk_len total len))
            buf
            len
            (total + chunk_len total len)
  unfolding write_loop
  write_loop_sent rounds w buf len total h e = ground arith

  write_loop_stops :
      (rounds : ℕ) (w : World F B) (buf : List ℕ) (len total : ℕ)
      → total < len
      → is_sent (round w buf len total) ≡ false
      → let out = write_loop ring core driver (suc rounds) w buf len total in
        (is_some out.dterr ≡ true)
        × (out.out_written ≡ some 0)
        × (out.world.bus ≡ (round w buf len total).world.bus)
  unfolding write_loop
  write_loop_stops rounds w buf len total h e = ground arith

  write_loop_ends :
      (rounds : ℕ) (w : World F B) (buf : List ℕ) (len : ℕ)
      → write_loop ring core driver rounds w buf len len
        ≡ record { world = w; dterr = none; out_written = some len }
  unfolding write_loop
  write_loop_ends zero w buf len = refl
  write_loop_ends (suc rounds) w buf len = ground arith

  -- One more frame before those of a delivery.
  prepend :
      (w next : World F B) (buf : List ℕ) (total len n : ℕ) (frame : CanFrame) (out : Written F B)
      → driver.accepted next.bus ≡ driver.accepted w.bus ++ (frame ∷ [])
      → next.self.config ≡ w.self.config
      → IsFrameOf driver w.self.config frame
      → take (driver.can_dlc_to_bytes frame.dlc) frame.bytes ≡ take n (drop total buf)
      → total < len
      → n ≡ chunk_len total len
      → Delivery next buf (total + n) len out
      → Delivery w buf total len out
  prepend w next buf total len n frame out hbus hconf hshape hpay hlt hn d = record {
    frames = frame ∷ d.frames;
    count = n + d.count;
    bus = d.bus ∙ (rw hbus (append_assoc (driver.accepted w.bus) (frame ∷ []) d.frames));
    payload =
        ap₂ ◌++◌ hpay (d.payload ∙ rw (← drop-drop total n buf) refl)
        ∙ sym (take-add n d.count (drop total buf));
    shape = (hshape, rw hconf at d.shape);
    number = ground (arith, d.number, d.within);
    within = omega (arith, d.within);
    result = ground (arith, d.result);
  }

  -- A loop with nothing left to send.
  all_sent :
      (rounds : ℕ) (w : World F B) (buf : List ℕ) (len total : ℕ)
      → total ≡ len
      → Delivery w buf total len (write_loop ring core driver rounds w buf len total)
  all_sent rounds w buf len total e =
      rw (e, write_loop_ends rounds w buf len)
        (record {
          frames = [];
          count = 0;
          bus = sym (append-nil (driver.accepted w.bus));
          payload = refl;
          shape = tt;
          number = refl;
          within = omega arith;
          result = inr (refl, refl, omega arith);
        })

  -- A loop whose next frame did not get through.
  none_sent :
      (rounds : ℕ) (w : World F B) (buf : List ℕ) (len total : ℕ)
      → total < len
      → 0 < w.self.tx_retry_count
      → is_sent (round w buf len total) ≡ false
      → Delivery w buf total len (write_loop ring core driver (suc rounds) w buf len total)
  none_sent rounds w buf len total h hretry e =
      let stop = write_loop_stops rounds w buf len total h e in
      let n = chunk_len total len in
      let tried =
        send_attempts-Tried w.self.tx_retry_count w
          (make_frame driver w.self.config (take n (drop total buf)) n) success (inl hretry) in
      record {
        frames = [];
        count = 0;
        bus =
            ap driver.accepted stop.2
            ∙ (rw e at tried.bus)
            ∙ sym (append-nil (driver.accepted w.bus));
        payload = refl;
        shape = tt;
        number = refl;
        within = omega arith;
        result = inl (stop.0, stop.1, omega arith);
      }

  -- With a round for every byte that is left, and an attempt for every round, the loop delivers.
  write_loop-Delivery :
      (rounds : ℕ) (w : World F B) (buf : List ℕ) (len total : ℕ)
      → len ≤ total + rounds
      → total ≤ len
      → len ≤ length buf
      → 0 < w.self.tx_retry_count
      → Delivery w buf total len (write_loop ring core driver rounds w buf len total)
  write_loop-Delivery zero w buf len total hr hle hbuf hretry =
      all_sent zero w buf len total (omega arith)
  write_loop-Delivery (suc rounds) w buf len total hr hle hbuf hretry = elim (dec_lt total len) [
    | no p ↦ all_sent (suc rounds) w buf len total (omega arith)
    | yes p ↦ elim (Bool-cases (is_sent (round w buf len total))) [
      | inr e ↦ none_sent rounds w buf len total p hretry e
      | inl e ↦
          let n = chunk_len total len in
          let chunk = take n (drop total buf) in
          let frame = make_frame driver w.self.config chunk n in
          let tried = send_attempts-Tried w.self.tx_retry_count w frame success (inl hretry) in
          let setup =
            send_attempts-SameSetup ring core driver w.self.tx_retry_count w frame success in
          let next = after_round (round w buf len total).world n in
          let bound : (0 < n) × (n ≤ 8) × (total + n ≤ len) = ground arith in
          let size : length chunk ≡ n =
            omega (arith, length-take n (drop total buf), length-drop total buf) in
          let pay = payload-make_frame driver w.self.config chunk n size bound.1 in
          rw (write_loop_sent rounds w buf len total p e) (
            prepend w next buf total len n frame _ (rw e at tried.bus) setup.config
              (make_frame-IsFrameOf driver w.self.config chunk n size bound.0 bound.1)
              (sym (append-nil _) ∙ pay ∙ append-nil _) p refl
              (write_loop-Delivery rounds next buf len (total + n) (omega arith) bound.2 hbuf
                (rw setup.tx_retry_count hretry)))
    ]
  ]

  finish-Delivery :
      (w : World F B) (buf : List ℕ) (total len : ℕ) (out : Written F B)
      → Delivery w buf total len out
      → Delivery w buf total len (finish ring core driver out)
  unfolding finish
  finish-Delivery w buf total len out d = record {
    frames = d.frames;
    count = d.count;
    bus = ground (arith, d.bus);
    payload = d.payload;
    shape = d.shape;
    number = d.number;
    within = d.within;
    result = ground (arith, d.result);
  }

  -- A write to a started controller, of at most as many bytes as the buffer has and with at least
  -- one attempt to a frame, puts on the bus frames of the configured sender that carry a prefix of
  -- the buffer, in order, in as few frames as will do, and nothing else; it reports no error and
  -- `len` bytes if the prefix is the `len` bytes, and an error and 0 bytes if it is shorter.
  pub write-Delivery :
      (w : World F B) (buf : List ℕ) (len : ℕ)
      → len ≤ length buf
      → 0 < w.self.tx_retry_count
      → w.self.dev_ready ≡ true
      → w.self.dev_started ≡ true
      → Delivery w buf 0 len (write ring core driver w (some buf) (pos len) true)
  unfolding write
  write-Delivery w buf len hbuf hretry hready hstarted =
      let d = write_loop-Delivery len w buf len 0 (omega arith) (omega arith) hbuf hretry in
      simp (hready, hstarted) (finish-Delivery w buf 0 len _ d)
