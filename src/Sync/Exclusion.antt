-- ===== src/Sync/Exclusion.antt =====
-- Threads that acquire and release one lock, in any order.
use dtmc_zephyr.Prelude.{
  ℕ, ◌+◌, ◌-◌, ◌<◌, ◌≡◌, refl, ◌∙◌, ap, true, false, Option, none, some, List, [], ◌∷◌, ◌==◌, arith,
  ltb, if◌then◌else◌, is_some, Bool-cases, Option-cases, inl, inr,
}
use dtmc_zephyr.Err.{Rc, success, positive, negative, is_negative, Dterr, negerror_c}
use dtmc_zephyr.Port.Mutex.{KernelMutex, is_owner}
use dtmc_zephyr.Sync.Lock.{Lock, create, waits, acquire, release}

pub data Event : Type 0 where
  acquires releases : ℕ → Event

-- The lock, and how often each thread has acquired it without an error and not released it without
-- an error.
pub record Shared (M : Type 0) : Type 0 where
  pub lock : Lock M
  pub held : ℕ → ℕ

abbrev pub more : (ℕ → ℕ) → ℕ → ℕ → ℕ
more held t u = if t == u then held u + 1 else held u

abbrev pub fewer : (ℕ → ℕ) → ℕ → ℕ → ℕ
fewer held t u = if t == u then held u - 1 else held u

-- How often a thread holds a mutex with an owner and a depth.
abbrev pub share : Option ℕ → ℕ → ℕ → ℕ
share none depth t = 0
share (some o) depth t = if o == t then depth else 0

share_owner : (owner : Option ℕ) (depth t : ℕ) → 0 < share owner depth t → owner ≡ some t
share_owner none depth t h = absurd (omega arith)
share_owner (some o) depth t h = ap some (ground arith)

same : (t u : ℕ) → (t == u) ≡ true → t ≡ u
same t u h = ground arith

negative_error : (rc : Rc) → is_negative rc ≡ true → is_some (negerror_c rc) ≡ true
negative_error success h = absurd (cc h)
negative_error (positive n) h = absurd (cc h)
negative_error (negative e) h = refl

is_owner-some : (o : Option ℕ) (t : ℕ) → is_owner o t ≡ true → o ≡ some t
is_owner-some none t h = absurd (cc h)
is_owner-some (some o) t h = ap some (same o t h)

module _ {M : Type 0} (kernel : KernelMutex M) where
  -- A thread that has to wait does nothing; it may try again later.
  unfoldable pub step : Shared M → Event → Shared M
  step s (acquires t) =
      let (lock, e) = acquire kernel s.lock t in
      if waits kernel s.lock t
      then s
      else if is_some e
      then record s { lock = lock }
      else record { lock = lock; held = more s.held t }
  step s (releases t) =
      let (lock, e) = release kernel s.lock t in
      if is_some e then record s { lock = lock } else record { lock = lock; held = fewer s.held t }

  unfoldable pub run : Shared M → List Event → Shared M
  run s [] = s
  run s (e ∷ es) = run (step s e) es

  -- The counts are those of the mutex.
  record IsShared (s : Shared M) : Type 0 where
    initialized : s.lock.is_mutex_initialized ≡ true
    counts : (t : ℕ) → s.held t ≡ share (kernel.owner s.lock.mutex) (kernel.depth s.lock.mutex) t

  acquire-IsShared : (s : Shared M) (t : ℕ) → IsShared s → IsShared (step s (acquires t))
  unfolding step acquire waits
  acquire-IsShared s t i = elim (Option-cases (kernel.owner s.lock.mutex)) [
    | inl free ↦ record {
      initialized = ground (arith, i.initialized, free, kernel.lock_free s.lock.mutex t free);
      counts = λ u.
          ground (arith, i.initialized, i.counts u, free, kernel.lock_free s.lock.mutex t free);
    }
    | inr (o, owned) ↦ elim (Bool-cases (o == t)) [
      | inl mine ↦
          let again = kernel.lock_again s.lock.mutex t (owned ∙ ap some (same o t mine)) in
          record {
            initialized = ground (arith, i.initialized, owned, mine, again);
            counts = λ u. ground (arith, i.initialized, i.counts u, owned, mine, again);
          }
      | inr other ↦ record {
        initialized = ground (arith, i.initialized, owned, other);
        counts = λ u. ground (arith, i.initialized, i.counts u, owned, other);
      }
    ]
  ]

  release-IsShared : (s : Shared M) (t : ℕ) → IsShared s → IsShared (step s (releases t))
  unfolding step release
  release-IsShared s t i = elim (Bool-cases (is_owner (kernel.owner s.lock.mutex) t)) [
    | inr other ↦
        let refused = kernel.unlock_refused s.lock.mutex t other in
        let error = negative_error (kernel.k_mutex_unlock s.lock.mutex t).1 refused.1 in
        record {
          initialized = ground (arith, i.initialized, refused, error);
          counts = λ u. ground (arith, i.initialized, i.counts u, refused, error);
        }
    | inl mine ↦
        let owned = is_owner-some (kernel.owner s.lock.mutex) t mine in
        let positive = kernel.owned s.lock.mutex t owned in
        elim (Bool-cases (ltb 1 (kernel.depth s.lock.mutex))) [
          | inl nested ↦
              let left = kernel.unlock_nested s.lock.mutex t owned (ground arith) in
              record {
                initialized = ground (arith, i.initialized, left);
                counts = λ u. ground (arith, i.initialized, i.counts u, owned, left);
              }
          | inr last ↦
              let one : kernel.depth s.lock.mutex ≡ 1 = ground arith in
              let left = kernel.unlock_last s.lock.mutex t owned one in
              record {
                initialized = ground (arith, i.initialized, left);
                counts = λ u. ground (arith, i.initialized, i.counts u, owned, one, left);
              }
        ]
  ]

  step-IsShared : (s : Shared M) (e : Event) → IsShared s → IsShared (step s e)
  step-IsShared s (acquires t) i = acquire-IsShared s t i
  step-IsShared s (releases t) i = release-IsShared s t i

  run-IsShared : (s : Shared M) (es : List Event) → IsShared s → IsShared (run s es)
  unfolding run
  run-IsShared s [] i = i
  run-IsShared s (e ∷ es) i = run-IsShared (step s e) es (step-IsShared s e i)

  create-IsShared :
      (lock : Lock M) (e : Option Dterr)
      → create kernel true ≡ (some lock, e)
      → IsShared (record { lock = lock; held = λ t. 0 })
  unfolding create
  create-IsShared lock e h = record {
    initialized = ground arith;
    counts = λ u. ground (arith, kernel.init-owner);
  }

  -- A thread that does not own the mutex waits for it, and cannot release it.
  other_thread :
      (lock : Lock M) (t u : ℕ)
      → lock.is_mutex_initialized ≡ true
      → kernel.owner lock.mutex ≡ some t
      → (t == u) ≡ false
      → (waits kernel lock u ≡ true)
        × ((release kernel lock u).0 ≡ lock)
        × (is_some (release kernel lock u).1 ≡ true)
  unfolding waits release
  other_thread lock t u initialized owned other =
      let not_owner : is_owner (kernel.owner lock.mutex) u ≡ false = rw owned other in
      let refused = kernel.unlock_refused lock.mutex u not_owner in
      let error = negative_error (kernel.k_mutex_unlock lock.mutex u).1 refused.1 in
      ground (arith, initialized, owned, other, refused, error)

  -- Threads that acquire and release a new lock, nested or not, in any order and with any mistakes:
  -- while one of them holds it, having acquired it more often than released, no other thread holds
  -- it, and another thread's `acquire` waits, and its `release` gives an error and changes nothing.
  pub mutual_exclusion :
      (lock : Lock M) (e : Option Dterr) (es : List Event) (t u : ℕ)
      → create kernel true ≡ (some lock, e)
      → let s = run (record { lock = lock; held = λ t. 0 }) es in
        0 < s.held t
        → (t == u) ≡ false
        → (s.held u ≡ 0)
          × (waits kernel s.lock u ≡ true)
          × ((release kernel s.lock u).0 ≡ s.lock)
          × (is_some (release kernel s.lock u).1 ≡ true)
  mutual_exclusion lock e es t u h holds other =
      let s = run (record { lock = lock; held = λ t. 0 }) es in
      let i = run-IsShared (record { lock = lock; held = λ t. 0 }) es (create-IsShared lock e h) in
      let depth = kernel.depth s.lock.mutex in
      let owned : kernel.owner s.lock.mutex ≡ some t =
        share_owner (kernel.owner s.lock.mutex) depth t (omega (arith, holds, i.counts t)) in
      let none : share (some t) depth u ≡ 0 = ground (arith, other) in
      let (blocked, same, error) = other_thread s.lock t u i.initialized owned other in
      (i.counts u ∙ ap (λ o. share o depth u) owned ∙ none, blocked, same, error)
