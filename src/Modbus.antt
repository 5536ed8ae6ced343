-- ===== src/Modbus.antt =====
-- dtmc_zephyr_library/src/dtiox_zephyr_modbus_slave*: a byte stream over Modbus registers.
pub mod Object
pub mod Helpers
pub mod Callbacks
pub mod Methods
pub mod Session
pub mod Master
pub mod Poll
pub mod Busy
pub mod Blob
pub mod Again
mod Tests
