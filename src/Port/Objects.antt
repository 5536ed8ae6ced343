-- ===== src/Port/Objects.antt =====
-- Concrete kernel objects: a queue without waiting, and a semaphore that is a number.
use dtmc_zephyr.Prelude.{
  ℕ, zero, suc, ◌+◌, ◌≡◌, ◌≢◌, refl, Bool, true, false, List, [], ◌∷◌, ◌++◌, arith, length, ltb,
}
use dtmc_zephyr.Err.{Rc, success, negative, enomsg, ebusy, is_positive}
use dtmc_zephyr.Port.Kernel.{MessageQueue, KernelSemaphore}
use dtmc_zephyr.Port.Samples.{Queue}

abbrev pub put_item : Bool → Queue → ℕ → Queue × Rc
put_item true q x = (record q { held = q.held ++ (x ∷ []) }, success)
put_item false q x = (q, negative enomsg)

abbrev pub get_item : ℕ → List ℕ → Queue × Rc × ℕ
get_item cap [] = (record { cap = cap; held = [] }, negative enomsg, 0)
get_item cap (x ∷ xs) = (record { cap = cap; held = xs }, success, x)

pub put_item_accepts :
    (b : Bool) (q : Queue) (x : ℕ)
    → (put_item b q x).1 ≡ success
    → (put_item b q x).0.held ≡ q.held ++ (x ∷ [])
put_item_accepts true q x h = refl
put_item_accepts false q x h = cc

pub put_item_refuses :
    (b : Bool) (q : Queue) (x : ℕ) → (put_item b q x).1 ≢ success → (put_item b q x).0.held ≡ q.held
put_item_refuses true q x h = absurd (h refl)
put_item_refuses false q x h = refl

pub get_item_accepts :
    (cap : ℕ) (l : List ℕ)
    → (get_item cap l).1 ≡ success
    → l ≡ (get_item cap l).2 ∷ (get_item cap l).0.held
get_item_accepts cap [] h = cc
get_item_accepts cap (x ∷ xs) h = refl

pub get_item_refuses :
    (cap : ℕ) (l : List ℕ) → (get_item cap l).1 ≢ success → (get_item cap l).0.held ≡ l
get_item_refuses cap [] h = refl
get_item_refuses cap (x ∷ xs) h = absurd (h refl)

abbrev pub queue_kernel : MessageQueue Queue
queue_kernel = record {
  items = λ q. q.held;
  k_msgq_init = λ n. record { cap = n; held = [] };
  k_msgq_put = λ q x t. put_item (ltb (length q.held) q.cap) q x;
  k_msgq_get = λ q t. get_item q.cap q.held;
  k_msgq_purge = λ q. record q { held = [] };
  put_accepts = λ q x t. put_item_accepts (ltb (length q.held) q.cap) q x;
  put_refuses = λ q x t. put_item_refuses (ltb (length q.held) q.cap) q x;
  get_accepts = λ q t. get_item_accepts q.cap q.held;
  get_refuses = λ q t. get_item_refuses q.cap q.held;
}

abbrev pub take_unit : ℕ → ℕ × Rc
take_unit zero = (zero, negative ebusy)
take_unit (suc n) = (n, success)

pub take_unit_takes : (n : ℕ) → (take_unit n).1 ≡ success → n ≡ suc (take_unit n).0
take_unit_takes zero h = cc
take_unit_takes (suc n) h = refl

pub take_unit_refuses : (n : ℕ) → (take_unit n).1 ≢ success → (take_unit n).0 ≡ n
take_unit_refuses zero h = refl
take_unit_refuses (suc n) h = absurd (h refl)

pub take_unit_result : (n : ℕ) → is_positive (take_unit n).1 ≡ false
take_unit_result zero = refl
take_unit_result (suc n) = refl

abbrev pub number_kernel : KernelSemaphore ℕ
number_kernel = record {
  count = λ n. n;
  k_sem_init = λ n limit. (n, success);
  k_sem_give = λ n. n + 1;
  k_sem_take = λ n t. take_unit n;
  give_adds = λ n. omega arith;
  take_takes = λ n t. take_unit_takes n;
  take_refuses = λ n t. take_unit_refuses n;
  take_result = λ n t. take_unit_result n;
}
