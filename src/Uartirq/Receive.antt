-- ===== src/Uartirq/Receive.antt =====
-- The receive interrupt: what becomes of the bytes in the hardware FIFO.
use dtmc_zephyr.Prelude.{
  ℕ, zero, suc, ◌+◌, ◌-◌, ◌≤◌, ◌<◌, ◌≡◌, refl, sym, ◌∙◌, ap, ap₂, Bool, true, false, ◌||◌, ◌&&◌,
  none, some, List, [], ◌∷◌, ◌++◌, arith, ltb, ◌==◌, length, take, drop, length-take, length-drop,
  take-add, drop-drop, append_assoc, take_all, eq_nil_of_length, Bool-cases, Option-cases, ltb→lt,
  ltb→le, inl, inr, append-nil, is_some, if◌then◌else◌, take-append-drop,
}
use dtmc_zephyr.Port.Ring.{RingFifo}
use dtmc_zephyr.Port.Core.{CoreHelper}
use dtmc_zephyr.Port.Uart.{UartDriver}
use dtmc_zephyr.Uartirq.Object.{Stats, Uartirq, Line}
use dtmc_zephyr.Uartirq.Interrupt.{Received, rx_loop, notify, rx}

take-take : (m n : ℕ) (xs : List ℕ) → m ≤ n → take m (take n xs) ≡ take m xs
take-take zero n [] h = refl
take-take zero n (x ∷ xs) h = refl
take-take (suc m) zero xs h = absurd (omega arith)
take-take (suc m) (suc n) [] h = refl
take-take (suc m) (suc n) (x ∷ xs) h = ap (λ ys. x ∷ ys) (take-take m n xs (omega arith))

drop-length : (n : ℕ) (xs : List ℕ) → drop (length (take n xs)) xs ≡ drop n xs
drop-length zero [] = refl
drop-length zero (x ∷ xs) = refl
drop-length (suc n) [] = refl
drop-length (suc n) (x ∷ xs) = drop-length n xs

take-length : (n : ℕ) (xs : List ℕ) → take (length (take n xs)) xs ≡ take n xs
take-length zero [] = refl
take-length zero (x ∷ xs) = refl
take-length (suc n) [] = refl
take-length (suc n) (x ∷ xs) = ap (λ ys. x ∷ ys) (take-length n xs)

module _ {F U : Type 0} (ring : RingFifo F) (core : CoreHelper) (driver : UartDriver U) where
  -- What a receive interrupt does to the bytes that wait: all are kept; or the read after some fails;
  -- or some are kept and the next ones are lost, which is counted. `any` and `news` are
  -- `any_new_bytes` before and after.
  pub data Outcome (s : Uartirq F) (u : U) (any : Bool) (t : Uartirq F) (v : U) (news : Bool)
      : Type 0 where
    drained :
        ring.contents t.rx_fifo ≡ ring.contents s.rx_fifo ++ driver.incoming u
        → driver.incoming v ≡ []
        → t.stats ≡ s.stats
        → news ≡ (any || ltb 0 (length (driver.incoming u)))
        → Outcome s u any t v news
    broken :
        (kept : ℕ) (r : U)
        → kept ≤ length (driver.incoming u)
        → driver.incoming r ≡ drop kept (driver.incoming u)
        → (driver.uart_fifo_read r 64).1 ≡ none
        → v ≡ (driver.uart_fifo_read r 64).0
        → ring.contents t.rx_fifo ≡ ring.contents s.rx_fifo ++ take kept (driver.incoming u)
        → t.stats ≡ record (s.stats) { rx_error_count = core.inc32 s.stats.rx_error_count }
        → news ≡ (any || ltb 0 kept)
        → Outcome s u any t v news
    overflowed :
        (kept lost : ℕ)
        → 0 < lost
        → kept + lost ≤ length (driver.incoming u)
        → ring.contents t.rx_fifo ≡ ring.contents s.rx_fifo ++ take kept (driver.incoming u)
        → driver.incoming v ≡ drop (kept + lost) (driver.incoming u)
        → t.stats ≡ record (s.stats) { rx_dropped = core.add32 s.stats.rx_dropped lost }
        → news ≡ true
        → Outcome s u any t v news

  -- an outcome after one more full read before it
  Outcome-extend :
      (s : Uartirq F) (u : U) (any : Bool) (p : Uartirq F) (read : U) (t : Uartirq F) (v : U)
      (news : Bool) (n : ℕ)
      → ring.contents p.rx_fifo ≡ ring.contents s.rx_fifo ++ take n (driver.incoming u)
      → driver.incoming read ≡ drop n (driver.incoming u)
      → p.stats ≡ s.stats
      → n ≤ length (driver.incoming u)
      → 0 < n
      → Outcome p read true t v news
      → Outcome s u any t v news
  Outcome-extend s u any p read t v news n hc hi hs full pos (drained c e st m) =
      drained
        (c
          ∙ ap₂ ◌++◌ hc hi
          ∙ append_assoc (ring.contents s.rx_fifo) (take n (driver.incoming u))
              (drop n (driver.incoming u))
          ∙ ap (λ l. ring.contents s.rx_fifo ++ l) (take-append-drop n (driver.incoming u)))
        e (st ∙ hs) (ground arith)
  Outcome-extend s u any p read t v news n hc hi hs full pos (broken k r small at bad end c st m) =
      broken (n + k) r (omega (arith, full, length-drop n (driver.incoming u), ap length hi, small))
        (at ∙ ap (drop k) hi ∙ drop-drop n k (driver.incoming u)) bad end
        (c
          ∙ ap₂ (λ l i. l ++ take k i) hc hi
          ∙ append_assoc (ring.contents s.rx_fifo) (take n (driver.incoming u))
              (take k (drop n (driver.incoming u)))
          ∙ ap (λ l. ring.contents s.rx_fifo ++ l) (sym (take-add n k (driver.incoming u))))
        (st ∙ ap {A = Stats} (λ x. record x { rx_error_count = core.inc32 x.rx_error_count }) hs)
        (ground arith)
  Outcome-extend s u any p read t v news n hc hi hs full pos (overflowed k l pl small c e st m) =
      overflowed (n + k) l pl
        (omega (arith, full, length-drop n (driver.incoming u), ap length hi, small))
        (c
          ∙ ap₂ (λ l i. l ++ take k i) hc hi
          ∙ append_assoc (ring.contents s.rx_fifo) (take n (driver.incoming u))
              (take k (drop n (driver.incoming u)))
          ∙ ap (λ l. ring.contents s.rx_fifo ++ l) (sym (take-add n k (driver.incoming u))))
        (e
          ∙ ap (drop (k + l)) hi
          ∙ drop-drop n (k + l) (driver.incoming u)
          ∙ ap (λ j. drop j (driver.incoming u)) (omega arith))
        (st ∙ ap {A = Stats} (λ x. record x { rx_dropped = core.add32 x.rx_dropped l }) hs) m

  -- The loop returns something, with an outcome, and leaves the semaphore alone.
  pub record Ends (fuel : ℕ) (s : Uartirq F) (u : U) (any : Bool) : Type 0 where
    pub result : Received F U
    pub returns : rx_loop ring core driver fuel s u any ≡ some result
    pub outcome : Outcome s u any result.self result.dev result.any_new_bytes
    pub posts : result.self.posts ≡ s.posts
    pub rx_semaphore : result.self.rx_semaphore ≡ s.rx_semaphore

  -- one round, by what the read gives
  round_fails :
      (fuel : ℕ) (s : Uartirq F) (u : U) (any : Bool)
      → (driver.uart_fifo_read u 64).1 ≡ none
      → Ends (suc fuel) s u any
  unfolding rx_loop
  round_fails fuel s u any h = record {
    result = record {
      self = record s {
        stats = record (s.stats) { rx_error_count = core.inc32 s.stats.rx_error_count };
      };
      dev = (driver.uart_fifo_read u 64).0;
      any_new_bytes = any;
    };
    returns = ground arith;
    outcome =
        broken 0 u (omega arith) refl h refl (sym (append-nil (ring.contents s.rx_fifo))) refl
          (ground arith);
    posts = refl;
    rx_semaphore = refl;
  }

  round_empty :
      (fuel : ℕ) (s : Uartirq F) (u : U) (any : Bool) (bytes : List ℕ)
      → (driver.uart_fifo_read u 64).1 ≡ some bytes
      → length bytes ≡ 0
      → Ends (suc fuel) s u any
  unfolding rx_loop
  round_empty fuel s u any bytes h e =
      let taken = driver.read_takes u 64 bytes h in
      let none_wait : driver.incoming u ≡ [] =
        eq_nil_of_length (driver.incoming u)
          (omega (arith, length-take 64 (driver.incoming u), ap length taken.0)) in
      record {
        result = record { self = s; dev = (driver.uart_fifo_read u 64).0; any_new_bytes = any };
        returns = ground arith;
        outcome =
            drained
              (sym (append-nil (ring.contents s.rx_fifo))
                ∙ ap (λ l. ring.contents s.rx_fifo ++ l) (sym none_wait))
              (taken.1 ∙ ap (drop 64) none_wait) refl (ground (arith, none_wait));
        posts = refl;
        rx_semaphore = refl;
      }

  round_overflows :
      (fuel : ℕ) (s : Uartirq F) (u : U) (any : Bool) (bytes : List ℕ)
      → (driver.uart_fifo_read u 64).1 ≡ some bytes
      → (ring.push s.rx_fifo bytes).1 < length bytes
      → Ends (suc fuel) s u any
  unfolding rx_loop
  round_overflows fuel s u any bytes h lt =
      let taken = driver.read_takes u 64 bytes h in
      let kept = (ring.push s.rx_fifo bytes).1 in
      let lost = length bytes - kept in
      let size : length bytes ≤ 64 =
        omega (arith, length-take 64 (driver.incoming u), ap length taken.0) in
      let total : kept + lost ≡ length bytes = omega arith in
      record {
        result = record {
          self = record s {
            rx_fifo = (ring.push s.rx_fifo bytes).0;
            stats = record (s.stats) { rx_dropped = core.add32 s.stats.rx_dropped lost };
          };
          dev = (driver.uart_fifo_read u 64).0;
          any_new_bytes = true;
        };
        returns = ground arith;
        outcome =
            overflowed kept lost (omega arith)
              (omega (arith, total, length-take 64 (driver.incoming u), ap length taken.0))
              (ring.push_contents s.rx_fifo bytes
                ∙ ap (λ l. ring.contents s.rx_fifo ++ l)
                    (ap (take kept) taken.0 ∙ take-take kept 64 (driver.incoming u) (omega arith)))
              (taken.1
                ∙ sym (drop-length 64 (driver.incoming u))
                ∙ ap (λ n. drop n (driver.incoming u)) (sym (total ∙ ap length taken.0)))
              refl refl;
        posts = refl;
        rx_semaphore = refl;
      }

  round_keeps :
      (fuel : ℕ) (s : Uartirq F) (u : U) (any : Bool) (bytes : List ℕ)
      → (driver.uart_fifo_read u 64).1 ≡ some bytes
      → 0 < length bytes
      → length bytes ≤ (ring.push s.rx_fifo bytes).1
      → Ends fuel
          (record s { rx_fifo = (ring.push s.rx_fifo bytes).0 })
          (driver.uart_fifo_read u 64).0
          true
      → Ends (suc fuel) s u any
  unfolding rx_loop
  round_keeps fuel s u any bytes h some_came le rest =
      let taken = driver.read_takes u 64 bytes h in
      let pushed : Uartirq F = record s { rx_fifo = (ring.push s.rx_fifo bytes).0 } in
      let returned = rest.returns in
      let prefix : take 64 (driver.incoming u) ≡ take (length bytes) (driver.incoming u) =
        sym (take-length 64 (driver.incoming u))
        ∙ ap (λ j. take j (driver.incoming u)) (sym (ap length taken.0)) in
      let rest_of : drop 64 (driver.incoming u) ≡ drop (length bytes) (driver.incoming u) =
        sym (drop-length 64 (driver.incoming u))
        ∙ ap (λ j. drop j (driver.incoming u)) (sym (ap length taken.0)) in
      record {
        result = rest.result;
        returns = ground arith;
        outcome =
            Outcome-extend s u any pushed (driver.uart_fifo_read u 64).0 rest.result.self
              rest.result.dev rest.result.any_new_bytes (length bytes)
              (ring.push_contents s.rx_fifo bytes
                ∙ ap (λ l. ring.contents s.rx_fifo ++ l)
                    (take_all (ring.push s.rx_fifo bytes).1 bytes le ∙ taken.0 ∙ prefix))
              (taken.1 ∙ rest_of) refl
              (omega (arith, length-take 64 (driver.incoming u), ap length taken.0)) some_came
              rest.outcome;
        posts = rest.posts;
        rx_semaphore = rest.rx_semaphore;
      }

  -- One read more than there are bytes is enough.
  rx_loop-Ends :
      (fuel : ℕ) (s : Uartirq F) (u : U) (any : Bool)
      → length (driver.incoming u) < fuel
      → Ends fuel s u any
  rx_loop-Ends zero s u any h = absurd (omega arith)
  rx_loop-Ends (suc fuel) s u any h = elim (Option-cases (driver.uart_fifo_read u 64).1) [
    | inl e ↦ round_fails fuel s u any e
    | inr (bytes, e) ↦
        let read = (driver.uart_fifo_read u 64).0 in
        let pushed : Uartirq F = record s { rx_fifo = (ring.push s.rx_fifo bytes).0 } in
        let taken = driver.read_takes u 64 bytes e in
        elim (Bool-cases (length bytes == 0)) [
          | inl q ↦ round_empty fuel s u any bytes e (ground arith)
          | inr q ↦
              let some_came : 0 < length bytes = ground arith in
              let fewer : length (driver.incoming read) < fuel = omega (
                arith,
                length-drop 64 (driver.incoming u),
                ap length taken.1,
                length-take 64 (driver.incoming u),
                ap length taken.0,
              ) in
              elim (Bool-cases (ltb (ring.push s.rx_fifo bytes).1 (length bytes))) [
                | inl o ↦
                    round_overflows fuel s u any bytes e
                      (ltb→lt (ring.push s.rx_fifo bytes).1 (length bytes) o)
                | inr o ↦
                    round_keeps fuel s u any bytes e some_came
                      (ltb→le (ring.push s.rx_fifo bytes).1 (length bytes) o)
                      (rx_loop-Ends fuel pushed read true fewer)
              ]
        ]
  ]

  -- an outcome is not about the posts
  Outcome-posts :
      (s : Uartirq F) (u : U) (any : Bool) (t : Uartirq F) (v : U) (news : Bool) (n : ℕ)
      → Outcome s u any t v news
      → Outcome s u any (record t { posts = n }) v news
  Outcome-posts s u any t v news n (drained c e st m) = drained c e st m
  Outcome-posts s u any t v news n (broken k r a b q e c st m) = broken k r a b q e c st m
  Outcome-posts s u any t v news n (overflowed k l p a c e st m) = overflowed k l p a c e st m

  -- When the loop may make one more read than there are bytes that wait, the receive interrupt ends.
  -- Every byte that waited is then in the FIFO, in order and behind what was there; or a first part
  -- is, the next read of the device gave an error, and the error count alone went up; or a first
  -- part is, the next bytes that waited were taken from the device and are lost, and the dropped
  -- count alone went up, by their number. The semaphore is posted once, exactly if there is one and
  -- new bytes came.
  pub rx_exact :
      (fuel : ℕ) (w : Line F U)
      → length (driver.incoming w.dev) < fuel
      → (v : Line F U) × (news : Bool) × (rx ring core driver fuel w ≡ some v)
        × Outcome w.self w.dev false v.self v.dev news
        × (v.self.posts
            ≡ (if news && is_some w.self.rx_semaphore then w.self.posts + 1 else w.self.posts))
  unfolding rx notify
  rx_exact fuel w h =
      let ends = rx_loop-Ends fuel w.self w.dev false h in
      let r = ends.result in
      let returned = ends.returns in
      (
        notify ring core driver r,
        r.any_new_bytes,
        ground arith,
        Outcome-posts _ _ _ _ _ _ _ ends.outcome,
        ground (arith, ends.posts, ends.rx_semaphore),
      )
