-- ===== src/Port/Kernel.antt =====
-- Kernel objects of Zephyr: message queues and semaphores. A blocking call is one step, at the time
-- at which it ends.
use dtmc_zephyr.Prelude.{ℕ, suc, ◌+◌, ◌≤◌, ◌≡◌, ◌≢◌, false, List, [], ◌∷◌, ◌++◌}
use dtmc_zephyr.Err.{Rc, success, is_positive}

-- K_FOREVER, K_NO_WAIT and K_MSEC
pub data Timeout : Type 0 where
  forever no_wait : Timeout
  msec : ℕ → Timeout

-- Constants of dtmc_base: DTTIMEOUT_FOREVER and DTTIMEOUT_NOWAIT, which are only compared.
pub record TimeoutMillis : Type 0 where
  pub dttimeout_forever : ℕ
  pub dttimeout_nowait : ℕ

-- `struct k_msgq` with pointers as its items
pub record MessageQueue (Q : Type 0) : Type 0 where
  pub items : Q → List ℕ
  pub k_msgq_init : ℕ → Q
  pub k_msgq_put : Q → ℕ → Timeout → Q × Rc
  -- the result, and the item that was stored in case of success
  pub k_msgq_get : Q → Timeout → Q × Rc × ℕ
  pub k_msgq_purge : Q → Q
  pub put_accepts :
      (q : Q) (x : ℕ) (t : Timeout)
      → (k_msgq_put q x t).1 ≡ success
      → items (k_msgq_put q x t).0 ≡ items q ++ (x ∷ [])
  pub put_refuses :
      (q : Q) (x : ℕ) (t : Timeout)
      → (k_msgq_put q x t).1 ≢ success
      → items (k_msgq_put q x t).0 ≡ items q
  pub get_accepts :
      (q : Q) (t : Timeout)
      → (k_msgq_get q t).1 ≡ success
      → items q ≡ (k_msgq_get q t).2 ∷ items (k_msgq_get q t).0
  pub get_refuses :
      (q : Q) (t : Timeout) → (k_msgq_get q t).1 ≢ success → items (k_msgq_get q t).0 ≡ items q

-- `struct k_sem`
pub record KernelSemaphore (S : Type 0) : Type 0 where
  pub count : S → ℕ
  pub k_sem_init : ℕ → ℕ → S × Rc
  pub k_sem_give : S → S
  pub k_sem_take : S → Timeout → S × Rc
  pub give_adds : (s : S) → count (k_sem_give s) ≤ count s + 1
  pub take_takes :
      (s : S) (t : Timeout)
      → (k_sem_take s t).1 ≡ success
      → count s ≡ suc (count (k_sem_take s t).0)
  pub take_refuses :
      (s : S) (t : Timeout) → (k_sem_take s t).1 ≢ success → count (k_sem_take s t).0 ≡ count s
  pub take_result : (s : S) (t : Timeout) → is_positive (k_sem_take s t).1 ≡ false
