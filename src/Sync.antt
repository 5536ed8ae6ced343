-- ===== src/Sync.antt =====
-- dtmc_zephyr_library/src/dtbufferqueue_zephyr.c, dtsemaphore_zephyr.c and dtlock_zephyr.c over kernel
-- objects.
pub mod BufferQueue
pub mod Fifo
pub mod Semaphore
pub mod Units
pub mod Lock
pub mod Exclusion
mod Tests
mod LockTests
