-- ===== src/Port.antt =====
-- What the sources call and do not contain, as interfaces: `dtringfifo` and the counter macros of
-- `dtcore`, the Zephyr CAN driver and the Zephyr kernel objects. The laws state documented
-- behaviour.
pub mod Ring
pub mod Core
pub mod Can
pub mod Host
pub mod Samples
pub mod Registers
pub mod Modbus
pub mod Serial
pub mod Uart
pub mod Events
pub mod Adc
pub mod Counter
pub mod Gpio
pub mod Ticks
pub mod Kernel
pub mod Objects
pub mod Wire
pub mod Mutex
pub mod Sensor
