-- ===== src/Uartirq.antt =====
-- dtmc_zephyr_library/src/dtiox_zephyr_uartirq*: a byte stream over an interrupt-driven UART.
pub mod Object
pub mod Interrupt
pub mod Methods
pub mod Receive
pub mod Transmit
pub mod Loss
mod Tests
