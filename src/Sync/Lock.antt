-- ===== src/Sync/Lock.antt =====
-- dtlock_zephyr.c: a lock over a kernel mutex.
use dtmc_zephyr.Prelude.{ℕ, Bool, true, false, not, Option, none, some, if◌then◌else◌}
use dtmc_zephyr.Err.{Dterr, leaf, nomem, negerror_c}
use dtmc_zephyr.Err
use dtmc_zephyr.Port.Mutex.{KernelMutex, is_owner}

-- `dtlock_zephyr_t`
pub record Lock (M : Type 0) : Type 0 where
  pub mutex : M
  pub is_malloced : Bool
  pub is_mutex_initialized : Bool

module _ {M : Type 0} (kernel : KernelMutex M) where
  -- `has_memory` is whether `malloc` gives memory.
  unfoldable pub create : Bool → Option (Lock M) × Option Dterr
  create false = (none, some (leaf nomem))
  create true = (
    some (record { mutex = kernel.k_mutex_init; is_malloced = true; is_mutex_initialized = true }),
    none,
  )

  -- whether a call of `acquire` by a thread waits
  unfoldable pub waits : Lock M → ℕ → Bool
  waits self t = elim (kernel.owner self.mutex) [
    | none ↦ false
    | some o ↦ if is_owner (some o) t then false else self.is_mutex_initialized
  ]

  -- `acquire` by a thread, when it does not wait
  unfoldable pub acquire : Lock M → ℕ → Lock M × Option Dterr
  acquire self t =
      let (mutex, rc) = kernel.k_mutex_lock self.mutex t in
      if not self.is_mutex_initialized
      then (self, some (leaf Err.state))
      else (record self { mutex = mutex }, negerror_c rc)

  unfoldable pub release : Lock M → ℕ → Lock M × Option Dterr
  release self t =
      let (mutex, rc) = kernel.k_mutex_unlock self.mutex t in
      if not self.is_mutex_initialized
      then (self, none)
      else (record self { mutex = mutex }, negerror_c rc)

  -- What is left of the object, and the mutex before it is cleared; `zeros` is the mutex that `memset`
  -- leaves.
  unfoldable pub dispose : M → Lock M → ℕ → Option (Lock M) × M
  dispose zeros self t =
      let mutex =
        if self.is_mutex_initialized then (kernel.k_mutex_unlock self.mutex t).0 else self.mutex in
      (
        if self.is_malloced
            then none
            else some (record { mutex = zeros; is_malloced = false; is_mutex_initialized = false }),
        mutex,
      )
