-- ===== src/Sync/Semaphore.antt =====
-- dtsemaphore_zephyr.c. A handle is `none` for NULL; the counts given are not negative. `dispose`
-- only frees the memory.
use dtmc_zephyr.Prelude.{ℕ, Bool, true, false, not, Option, none, some, ◌==◌, if◌then◌else◌}
use dtmc_zephyr.Err.{
  Dterr, leaf, argument_null, fail, state, timeout, Rc, negative, eagain, is_success,
}
use dtmc_zephyr.Port.Core.{int32_max}
use dtmc_zephyr.Port.Kernel.{Timeout, forever, no_wait, msec, TimeoutMillis, KernelSemaphore}

-- `dtsemaphore_zephyr_t`
pub record Semaphore (S : Type 0) : Type 0 where
  pub is_semaphore_initialized : Bool
  pub semaphore : S
  pub count : ℕ
  pub max_count : ℕ

-- The error, and `*was_timeout` if that was written.
pub record Waited : Type 0 where
  pub dterr : Option Dterr
  pub was_timeout : Option Bool

unfoldable pub to_timeout : TimeoutMillis → ℕ → Timeout
to_timeout limits ms =
    if ms == limits.dttimeout_forever
    then forever
    else if ms == limits.dttimeout_nowait
    then no_wait
    else msec ms

-- What the kernel's result means; `has_flag` says that `was_timeout` is not NULL.
unfoldable pub judge : Rc → Bool → Waited
judge (negative eagain) true = record { dterr = none; was_timeout = some true }
judge (negative eagain) false = record { dterr = some (leaf timeout); was_timeout = none }
judge (negative e) has_flag = record { dterr = some (leaf fail); was_timeout = none }
judge _ true = record { dterr = none; was_timeout = some false }
judge _ false = record { dterr = none; was_timeout = none }

module _ {S : Type 0} (kernel : KernelSemaphore S) where
  -- The allocation gives memory or an error; the pointer to the handle is not NULL.
  unfoldable pub create : Option Dterr → ℕ → ℕ → Option (Semaphore S) × Option Dterr
  create (some e) initial_count max_count = (none, some e)
  create none initial_count max_count =
      let limit = if max_count == 0 then int32_max else max_count in
      let (sem, err) = kernel.k_sem_init initial_count limit in
      if not (is_success err) then (none, some (leaf fail)) else (
        some (record {
          is_semaphore_initialized = true;
          semaphore = sem;
          count = initial_count;
          max_count = limit;
        }),
        none,
      )

  unfoldable pub post : Option (Semaphore S) → Option (Semaphore S)
  post none = none
  post (some self) = some (
      if self.is_semaphore_initialized
      then record self { semaphore = kernel.k_sem_give self.semaphore }
      else self)

  unfoldable pub wait :
      TimeoutMillis → Option (Semaphore S) → ℕ → Bool → Option (Semaphore S) × Waited
  unfolding to_timeout
  wait limits none ms has_flag =
      (none, record { dterr = some (leaf argument_null); was_timeout = none })
  wait limits (some self) ms has_flag =
      let (sem, err) = kernel.k_sem_take self.semaphore (to_timeout limits ms) in
      if not self.is_semaphore_initialized
      then (some self, record { dterr = some (leaf state); was_timeout = none })
      else (some (record self { semaphore = sem }), judge err has_flag)
