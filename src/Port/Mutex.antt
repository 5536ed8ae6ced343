-- ===== src/Port/Mutex.antt =====
-- `struct k_mutex`: a mutex that the thread that holds it can lock again.
use dtmc_zephyr.Prelude.{ℕ, ◌+◌, ◌-◌, ◌<◌, ◌≡◌, Bool, true, false, Option, none, some, ◌==◌}
use dtmc_zephyr.Err.{Rc, success, is_negative}

-- whether a thread is the owner
abbrev pub is_owner : Option ℕ → ℕ → Bool
is_owner none t = false
is_owner (some o) t = o == t

-- The threads have numbers.
pub record KernelMutex (M : Type 0) : Type 0 where
  pub owner : M → Option ℕ
  -- how often the owner has locked it
  pub depth : M → ℕ
  pub k_mutex_init : M
  -- the lock that a thread gets, which waits for it until it is free or its own
  pub k_mutex_lock : M → ℕ → M × Rc
  pub k_mutex_unlock : M → ℕ → M × Rc
  pub init-owner : owner k_mutex_init ≡ none
  pub owned : (m : M) (t : ℕ) → owner m ≡ some t → 0 < depth m
  pub lock_free :
      (m : M) (t : ℕ)
      → owner m ≡ none
      → (owner (k_mutex_lock m t).0 ≡ some t)
        × (depth (k_mutex_lock m t).0 ≡ 1)
        × ((k_mutex_lock m t).1 ≡ success)
  pub lock_again :
      (m : M) (t : ℕ)
      → owner m ≡ some t
      → (owner (k_mutex_lock m t).0 ≡ some t)
        × (depth (k_mutex_lock m t).0 ≡ depth m + 1)
        × ((k_mutex_lock m t).1 ≡ success)
  pub unlock_last :
      (m : M) (t : ℕ)
      → owner m ≡ some t
      → depth m ≡ 1
      → (owner (k_mutex_unlock m t).0 ≡ none) × ((k_mutex_unlock m t).1 ≡ success)
  pub unlock_nested :
      (m : M) (t : ℕ)
      → owner m ≡ some t
      → 1 < depth m
      → (owner (k_mutex_unlock m t).0 ≡ some t)
        × (depth (k_mutex_unlock m t).0 ≡ depth m - 1)
        × ((k_mutex_unlock m t).1 ≡ success)
  pub unlock_refused :
      (m : M) (t : ℕ)
      → is_owner (owner m) t ≡ false
      → (k_mutex_unlock m t).0 ≡ m × (is_negative (k_mutex_unlock m t).1 ≡ true)
