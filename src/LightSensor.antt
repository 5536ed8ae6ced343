-- ===== src/LightSensor.antt =====
-- dtmc_zephyr_library/src/dtlightsensor_zephyr.c: a light sensor over the Zephyr sensor driver.
pub mod Object
pub mod Methods
mod Tests
