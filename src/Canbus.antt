-- ===== src/Canbus.antt =====
-- dtmc_zephyr_library/src/dtiox_zephyr_canbus*: a byte stream over CAN frames.
pub mod Object
pub mod Callbacks
pub mod Lifecycle
pub mod Read
pub mod Write
pub mod Setup
pub mod Bus
pub mod Frames
pub mod Delivery
pub mod Timeout
pub mod Stream
pub mod Accounts
pub mod Overflow
pub mod BadState
pub mod Session
mod Tests
