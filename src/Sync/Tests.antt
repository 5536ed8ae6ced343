-- ===== src/Sync/Tests.antt =====
-- The buffer queue and the semaphore at concrete inputs: tests, and the theorems applied.
use dtmc_zephyr.Prelude.{ℕ, ◌+◌, ◌≤◌, ◌≡◌, refl, true, Option, some, false, List, [], ◌∷◌}
use dtmc_zephyr.Port.Kernel.{TimeoutMillis}
use dtmc_zephyr.Port.Samples.{Queue}
use dtmc_zephyr.Port.Objects.{queue_kernel, number_kernel}
use dtmc_zephyr.Sync.BufferQueue.{BufferQueue, put, get, settle}
use dtmc_zephyr.Sync.Semaphore.{Semaphore, post, wait, judge}
use dtmc_zephyr.Sync.Fifo
use dtmc_zephyr.Sync.Units
use dtmc_zephyr.Sync.Units.{waits_bounded}

abbrev limits : TimeoutMillis
limits = record { dttimeout_forever = 4294967295; dttimeout_nowait = 0 }

abbrev two_places : BufferQueue Queue
two_places = record {
  max_count = 2;
  should_overwrite = true;
  msgq = record { cap = 2; held = [] };
  msgq_memory = true;
  is_msgq_initialized = true;
}

abbrev queue_calls : List Fifo.Call
queue_calls = Fifo.puts (some 7) 0 ∷ Fifo.puts (some 8) 0 ∷ Fifo.puts (some 9) 0 ∷ Fifo.gets 0 ∷ []

-- A full queue refuses a buffer, though it was created to overwrite.
third_refused :
    let (last, got, accepted) = Fifo.run queue_kernel limits two_places queue_calls in
    (got ≡ 7 ∷ []) × (last.msgq.held ≡ 8 ∷ []) × (accepted ≡ 7 ∷ 8 ∷ [])
unfolding Fifo.run put get settle
third_refused = (refl, refl, refl)

abbrev one_unit : Option (Semaphore ℕ)
one_unit =
    some (record { is_semaphore_initialized = true; semaphore = 1; count = 1; max_count = 5 })

abbrev semaphore_calls : List Units.Call
semaphore_calls = Units.waits 0 true ∷ Units.waits 0 true ∷ Units.posts ∷ Units.waits 10 false ∷ []

-- The second of two waits is refused, and one after a post is not.
two_through : (Units.run number_kernel limits one_unit semaphore_calls).1 ≡ 2
unfolding Units.run post wait judge
two_through = refl

waits_bounded_example :
    let (last, through, posted) = Units.run number_kernel limits one_unit semaphore_calls in
    through + Units.units number_kernel limits last ≤ 1 + posted
waits_bounded_example = waits_bounded number_kernel limits one_unit semaphore_calls
