-- ===== src/Sync/Fifo.antt =====
-- What goes into a buffer queue comes out, in order.
use dtmc_zephyr.Prelude.{ℕ, ◌≡◌, ◌≢◌, refl, Bool, true, false, Option, some, List, [], ◌∷◌, ◌++◌}
use dtmc_zephyr.Err.{Rc, success, positive, negative, is_success}
use dtmc_zephyr.Port.Kernel.{TimeoutMillis, MessageQueue}
use dtmc_zephyr.Sync.BufferQueue.{BufferQueue, put, get}

pub success_of : (rc : Rc) → is_success rc ≡ true → rc ≡ success
success_of success h = refl
success_of (positive n) h = cc
success_of (negative e) h = cc

pub no_success : (rc : Rc) → is_success rc ≡ false → rc ≢ success
no_success success h q = cc
no_success (positive n) h q = cc
no_success (negative e) h q = cc

-- a value in a list, if a call was done
abbrev pub if_done : Option Bool → Option ℕ → List ℕ
if_done (some false) (some x) = x ∷ []
if_done _ _ = []

-- A call: a put of a buffer (`none` for NULL) or a get, with a timeout.
pub data Call : Type 0 where
  puts : Option ℕ → ℕ → Call
  gets : ℕ → Call

module _ {Q : Type 0} (kernel : MessageQueue Q) (limits : TimeoutMillis) where
  -- The queue after some calls, the buffers that gets were told to have got, and those that puts
  -- were told to have put.
  unfoldable pub run : BufferQueue Q → List Call → BufferQueue Q × List ℕ × List ℕ
  run self [] = (self, [], [])
  run self (puts b ms ∷ calls) =
      let (next, reply) = put kernel limits self b ms true in
      let (last, got, accepted) = run next calls in
      (last, got, if_done reply.was_timeout b ++ accepted)
  run self (gets ms ∷ calls) =
      let (next, reply, x) = get kernel limits self ms true in
      let (last, got, accepted) = run next calls in
      (last, if_done reply.was_timeout x ++ got, accepted)
