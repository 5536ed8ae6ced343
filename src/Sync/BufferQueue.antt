-- ===== src/Sync/BufferQueue.antt =====
-- dtbufferqueue_zephyr.c. A buffer is `none` for NULL; `max_count` is not negative.
use dtmc_zephyr.Prelude.{ℕ, Bool, true, false, Option, none, some, ◌==◌, if◌then◌else◌}
use dtmc_zephyr.Err.{
  Dterr, leaf, argument_null, fail, Rc, success, positive, negative, eagain, enomsg,
}
use dtmc_zephyr.Port.Kernel.{Timeout, forever, no_wait, msec, TimeoutMillis, MessageQueue}

-- `dtbufferqueue_t`; `msgq_memory` is whether the memory is there.
pub record BufferQueue (Q : Type 0) : Type 0 where
  pub max_count : ℕ
  pub should_overwrite : Bool
  pub msgq : Q
  pub msgq_memory : Bool
  pub is_msgq_initialized : Bool

-- The error, and `*was_timeout` if that was written.
pub record Reply : Type 0 where
  pub dterr : Option Dterr
  pub was_timeout : Option Bool

-- what the timeout in milliseconds is to the kernel
unfoldable pub to_ticks : TimeoutMillis → ℕ → Timeout
to_ticks limits timeout_millis =
    if timeout_millis == limits.dttimeout_forever
    then forever
    else if timeout_millis == 0
    then no_wait
    else msec timeout_millis

-- a flag that is written if there is somewhere to write it
abbrev pub flag : Bool → Bool → Option Bool
flag false b = none
flag true b = some b

-- What the kernel's result means: a full or empty queue is a timeout, and no error.
unfoldable pub settle : Rc → Bool → Reply
settle success has_flag = record { dterr = none; was_timeout = flag has_flag false }
settle (negative enomsg) has_flag = record { dterr = none; was_timeout = flag has_flag true }
settle (negative eagain) has_flag = record { dterr = none; was_timeout = flag has_flag true }
settle _ has_flag = record { dterr = some (leaf fail); was_timeout = none }

module _ {Q : Type 0} (kernel : MessageQueue Q) where
  -- The two allocations give memory or an error; the pointer to the handle is not NULL.
  unfoldable pub create :
      Option Dterr → Option Dterr → ℕ → Bool → Option (BufferQueue Q) × Option Dterr
  create (some e) alloc_memory max_count should_overwrite = (none, some e)
  create none (some e) max_count should_overwrite = (none, some e)
  create none none max_count should_overwrite =
      let n = if max_count == 0 then 1 else max_count in
      (
        some (record {
          max_count = n;
          should_overwrite = should_overwrite;
          msgq = kernel.k_msgq_init n;
          msgq_memory = true;
          is_msgq_initialized = true;
        }),
        none,
      )

  -- `has_flag` says that `was_timeout` is not NULL.
  unfoldable pub put : TimeoutMillis → BufferQueue Q → Option ℕ → ℕ → Bool → BufferQueue Q × Reply
  unfolding to_ticks
  put limits self none timeout_millis has_flag =
      (self, record { dterr = some (leaf argument_null); was_timeout = none })
  put limits self (some buffer) timeout_millis has_flag =
      let (msgq, ret) = kernel.k_msgq_put self.msgq buffer (to_ticks limits timeout_millis) in
      (record self { msgq = msgq }, settle ret has_flag)

  -- The third part is `*buffer`, if that was written; the pointer to it is not NULL.
  unfoldable pub get : TimeoutMillis → BufferQueue Q → ℕ → Bool → BufferQueue Q × Reply × Option ℕ
  unfolding to_ticks
  get limits self timeout_millis has_flag =
      let (msgq, ret, x) = kernel.k_msgq_get self.msgq (to_ticks limits timeout_millis) in
      (
        record self { msgq = msgq },
        settle ret has_flag,
        elim ret [ success ↦ some x | positive n ↦ none | negative e ↦ none ],
      )

  -- The kernel queue as it is left when the memory is freed; a handle is `none` for NULL.
  unfoldable pub dispose : Option (BufferQueue Q) → Option Q
  dispose none = none
  dispose (some self) =
      some (if self.is_msgq_initialized then kernel.k_msgq_purge self.msgq else self.msgq)
