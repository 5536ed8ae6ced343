-- ===== src/Tasker.antt =====
-- dtmc_zephyr_library/src/dttasker_zephyr.c: a task in a thread of its own, which an application
-- starts, asks to stop, and joins.
pub mod Object
pub mod Priority
pub mod Methods
pub mod System
pub mod Invariant
pub mod Running
pub mod Starting
mod Tests
