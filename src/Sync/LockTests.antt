-- ===== src/Sync/LockTests.antt =====
-- A mutex that is an owner and a depth, and threads that share a lock over it.
use dtmc_zephyr.Prelude.{
  ℕ, zero, suc, ◌+◌, ◌-◌, ◌<◌, ◌≡◌, refl, true, false, Option, none, some, List, [], ◌∷◌, ◌==◌,
  arith, if◌then◌else◌, is_some,
}
use dtmc_zephyr.Err.{Rc, success, negative, eperm, is_negative}
use dtmc_zephyr.Port.Mutex.{KernelMutex, is_owner}
use dtmc_zephyr.Sync.Lock.{Lock, create, waits, acquire, release}
use dtmc_zephyr.Sync.Exclusion.{Shared, Event, acquires, releases, step, run, mutual_exclusion}

-- An owner, and how often it has locked the mutex again.
pub record Hold : Type 0 where
  pub thread : ℕ
  pub again : ℕ

abbrev pub owner_of : Option Hold → Option ℕ
owner_of none = none
owner_of (some h) = some h.thread

abbrev pub depth_of : Option Hold → ℕ
depth_of none = 0
depth_of (some h) = suc h.again

abbrev pub lock_hold : Option Hold → ℕ → Option Hold × Rc
lock_hold none t = (some (record { thread = t; again = 0 }), success)
lock_hold (some h) t = (some (record { thread = t; again = h.again + 1 }), success)

abbrev pub left_hold : ℕ → ℕ → Option Hold
left_hold t zero = none
left_hold t (suc n) = some (record { thread = t; again = n })

abbrev pub unlock_hold : Option Hold → ℕ → Option Hold × Rc
unlock_hold none t = (none, negative eperm)
unlock_hold (some h) t =
    if h.thread == t then (left_hold t h.again, success) else (some h, negative eperm)

lock_again_hold :
    (m : Option Hold) (t : ℕ)
    → owner_of m ≡ some t
    → (owner_of (lock_hold m t).0 ≡ some t)
      × (depth_of (lock_hold m t).0 ≡ depth_of m + 1)
      × ((lock_hold m t).1 ≡ success)
lock_again_hold none t h = absurd (cc h)
lock_again_hold (some h) t e = (refl, omega arith, refl)

lock_free_hold :
    (m : Option Hold) (t : ℕ)
    → owner_of m ≡ none
    → (owner_of (lock_hold m t).0 ≡ some t)
      × (depth_of (lock_hold m t).0 ≡ 1)
      × ((lock_hold m t).1 ≡ success)
lock_free_hold none t h = (refl, refl, refl)
lock_free_hold (some h) t e = absurd (cc e)

owned_hold : (m : Option Hold) (t : ℕ) → owner_of m ≡ some t → 0 < depth_of m
owned_hold none t h = absurd (cc h)
owned_hold (some h) t e = omega arith

unlock_last_hold :
    (m : Option Hold) (t : ℕ)
    → owner_of m ≡ some t
    → depth_of m ≡ 1
    → (owner_of (unlock_hold m t).0 ≡ none) × ((unlock_hold m t).1 ≡ success)
unlock_last_hold none t h d = absurd (cc h)
unlock_last_hold (some h) t e d = ground arith

unlock_nested_hold :
    (m : Option Hold) (t : ℕ)
    → owner_of m ≡ some t
    → 1 < depth_of m
    → (owner_of (unlock_hold m t).0 ≡ some t)
      × (depth_of (unlock_hold m t).0 ≡ depth_of m - 1)
      × ((unlock_hold m t).1 ≡ success)
unlock_nested_hold none t h d = absurd (cc h)
unlock_nested_hold (some h) t e d = ground arith

unlock_refused_hold :
    (m : Option Hold) (t : ℕ)
    → is_owner (owner_of m) t ≡ false
    → ((unlock_hold m t).0 ≡ m) × (is_negative (unlock_hold m t).1 ≡ true)
unlock_refused_hold none t h = (refl, refl)
unlock_refused_hold (some h) t e = ground arith

abbrev hold_mutex : KernelMutex (Option Hold)
hold_mutex = record {
  owner = owner_of;
  depth = depth_of;
  k_mutex_init = none;
  k_mutex_lock = lock_hold;
  k_mutex_unlock = unlock_hold;
  init-owner = refl;
  owned = owned_hold;
  lock_free = lock_free_hold;
  lock_again = lock_again_hold;
  unlock_last = unlock_last_hold;
  unlock_nested = unlock_nested_hold;
  unlock_refused = unlock_refused_hold;
}

abbrev new_lock : Lock (Option Hold)
new_lock = record { mutex = none; is_malloced = true; is_mutex_initialized = true }

-- Thread 1 acquires it twice, thread 2 waits and releases what it does not hold, and thread 1
-- releases once.
abbrev nested : List Event
nested = acquires 1 ∷ acquires 1 ∷ acquires 2 ∷ releases 2 ∷ releases 1 ∷ []

new_lock_created : create hold_mutex true ≡ (some new_lock, none)
unfolding create
new_lock_created = refl

one_holds : (run hold_mutex (record { lock = new_lock; held = λ t. 0 }) nested).held 1 ≡ 1
unfolding run step acquire release waits
one_holds = refl

abbrev shared : Shared (Option Hold)
shared = run hold_mutex (record { lock = new_lock; held = λ t. 0 }) nested

mutual_exclusion_example :
    (shared.held 2 ≡ 0)
    × (waits hold_mutex shared.lock 2 ≡ true)
    × ((release hold_mutex shared.lock 2).0 ≡ shared.lock)
    × (is_some (release hold_mutex shared.lock 2).1 ≡ true)
mutual_exclusion_example =
    mutual_exclusion hold_mutex new_lock none nested 1 2 new_lock_created (omega (arith, one_holds))
      refl
