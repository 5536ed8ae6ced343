-- ===== src/Gpio.antt =====
-- dtmc_zephyr_library/src/dtgpiopin_zephyr.c: GPIO pins, and the interrupt of a port that calls the
-- callbacks of the pins that it names.
pub mod Object
pub mod Word
pub mod Methods
pub mod Interrupt
pub mod Visits
pub mod Attach
pub mod Owner
pub mod Enable
pub mod Ringing
mod Tests
