-- ===== src/Adc.antt =====
-- dtmc_zephyr_library/src/dtadc_zephyr_saadc.c: scans of several channels, paced by a counter.
pub mod Object
pub mod Config
pub mod Time
pub mod Scan
pub mod Lifecycle
pub mod Valid
pub mod Clock
pub mod Delivery
pub mod Sequence
pub mod Misuse
mod Tests
