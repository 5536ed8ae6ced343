-- ===== src/Sync/Units.antt =====
-- A semaphore lets through no more waits than it has units.
use dtmc_zephyr.Prelude.{
  ℕ, ◌+◌, ◌≤◌, ◌≡◌, ◌≢◌, refl, Bool, true, false, Option, none, some, List, [], ◌∷◌, arith,
  Bool-cases, inl, inr,
}
use dtmc_zephyr.Err.{
  Dterr, Rc, success, positive, negative, eagain, ebusy, enomsg, einval, eperm, eio, other,
  is_success, is_positive,
}
use dtmc_zephyr.Port.Kernel.{TimeoutMillis, KernelSemaphore}
use dtmc_zephyr.Sync.Semaphore.{Semaphore, judge, to_timeout, post, wait}
use dtmc_zephyr.Sync.Fifo.{success_of, no_success}

-- 1 if a caller is told that it may go on
abbrev pub passed : Option Dterr → Option Bool → ℕ
passed none none = 1
passed none (some false) = 1
passed _ _ = 0

judge_success : (f : Bool) → passed (judge success f).dterr (judge success f).was_timeout ≡ 1
unfolding judge
judge_success true = refl
judge_success false = refl

judge_failure :
    (rc : Rc) (f : Bool)
    → rc ≢ success
    → is_positive rc ≡ false
    → passed (judge rc f).dterr (judge rc f).was_timeout ≡ 0
unfolding judge
judge_failure success f h p = absurd (h refl)
judge_failure (positive n) f h p = cc
judge_failure (negative eagain) true h p = refl
judge_failure (negative eagain) false h p = refl
judge_failure (negative ebusy) f h p = refl
judge_failure (negative enomsg) f h p = refl
judge_failure (negative einval) f h p = refl
judge_failure (negative eperm) f h p = refl
judge_failure (negative eio) f h p = refl
judge_failure (negative (other n)) f h p = refl

-- A call: a post, or a wait with a timeout, where `was_timeout` is not NULL or NULL.
pub data Call : Type 0 where
  posts : Call
  waits : ℕ → Bool → Call

module _ {S : Type 0} (kernel : KernelSemaphore S) (limits : TimeoutMillis) where
  -- the units of a semaphore, none for a NULL handle
  abbrev pub units : Option (Semaphore S) → ℕ
  units none = 0
  units (some self) = kernel.count self.semaphore

  -- The semaphore after some calls, how many waits were let through, and how many posts there were.
  unfoldable pub run : Option (Semaphore S) → List Call → Option (Semaphore S) × ℕ × ℕ
  run handle [] = (handle, 0, 0)
  run handle (posts ∷ calls) =
      let (last, through, posted) = run (post kernel handle) calls in (last, through, posted + 1)
  run handle (waits ms has_flag ∷ calls) =
      let (next, reply) = wait kernel limits handle ms has_flag in
      let (last, through, posted) = run next calls in
      (last, through + passed reply.dterr reply.was_timeout, posted)

  units-post : (handle : Option (Semaphore S)) → units (post kernel handle) ≤ units handle + 1
  unfolding post
  units-post none = omega arith
  units-post (some self) = ground (arith, kernel.give_adds self.semaphore)

  units-wait :
      (handle : Option (Semaphore S)) (ms : ℕ) (has_flag : Bool)
      → let (next, reply) = wait kernel limits handle ms has_flag in
        passed reply.dterr reply.was_timeout + units next ≤ units handle
  unfolding wait
  units-wait none ms has_flag = omega arith
  units-wait (some self) ms has_flag =
      let t = to_timeout limits ms in
      let rc = (kernel.k_sem_take self.semaphore t).1 in
      elim (Bool-cases self.is_semaphore_initialized) [
        | inl i ↦ elim (Bool-cases (is_success rc)) [
          | inl h ↦
              let ok = success_of rc h in
              rw i (
                rw ok
                  (omega (arith, judge_success has_flag, kernel.take_takes self.semaphore t ok)))
          | inr h ↦
              let failed = no_success rc h in
              rw i (
                omega (
                  arith,
                  judge_failure rc has_flag failed (kernel.take_result self.semaphore t),
                  kernel.take_refuses self.semaphore t failed,
                ))
        ]
        | inr i ↦ rw i (omega arith)
      ]

  -- Whatever posts and waits there are, and whatever their timeouts: the waits that are told to go on,
  -- with the units left, are no more than the units at first and the posts.
  pub waits_bounded :
      (handle : Option (Semaphore S)) (calls : List Call)
      → let (last, through, posted) = run handle calls in
        through + units last ≤ units handle + posted
  unfolding run
  waits_bounded handle [] = omega arith
  waits_bounded handle (posts ∷ calls) =
      let rest = waits_bounded (post kernel handle) calls in
      let one = units-post handle in omega arith
  waits_bounded handle (waits ms has_flag ∷ calls) =
      let (next, reply) = wait kernel limits handle ms has_flag in
      let rest = waits_bounded next calls in let one = units-wait handle ms has_flag in omega arith
