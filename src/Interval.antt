-- ===== src/Interval.antt =====
-- dtmc_zephyr_library/src/dtinterval_zephyr_counter.c and dtinterval_zephyr_ktimer.c: a callback
-- once for each period.
pub mod Counter
pub mod Ktimer
pub mod Same
pub mod Pacing
pub mod Pause
mod Tests
