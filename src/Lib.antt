-- ===== src/Lib.antt =====
-- The Zephyr backends of dtmc_zephyr: the byte streams over CAN, Modbus and UART, the buffer queue,
-- the semaphore and the lock, the interval timers, the ADC with its reader task, the tasker, the
-- GPIO pins, and the light sensor. A model of the objects in dtmc_zephyr_library/src, and what they
-- promise to an application.
--
-- Parts:
-- - Prelude: numbers, lists and tests that all parts share.
-- - Err: `dterr_t` as a chain of codes, errno values and results of driver calls.
-- - Port: what the sources call and do not contain, as interfaces with laws (the ring FIFO and
--   counters of dtcore, the Zephyr CAN and UART drivers, kernel queues, semaphores and mutexes, the
--   register protocol of dtmc_base, the counter, timer, ADC, GPIO, sensor and event drivers, memory
--   and registration), and concrete instances of them (Port/Samples, Port/Registers, Port/Wire,
--   Port/Objects, Port/Ticks).
-- - Canbus: dtmc_zephyr_library/src/dtiox_zephyr_canbus.c, ..._callbacks.c, ..._helpers.c and
--   ..._internals.h. `Canbus` is `dtiox_zephyr_canbus_t`; a `World` is the object with the driver.
--   Canbus/Callbacks has the callbacks and the FIFO helpers, Canbus/Lifecycle create, init,
--   configure, attach, detach, enable and dispose, Canbus/Read and Canbus/Write the two streams.
--   The functions have the names of the C functions without the prefix dtiox_zephyr_canbus_.
-- - Modbus: dtmc_zephyr_library/src/dtiox_zephyr_modbus_slave.c, ...__callbacks.c, ...__helpers.c
--   and ...__internals.h. `ModbusSlave` is `dtiox_zephyr_modbus_slave_t`; Modbus/Callbacks has the
--   register callbacks, Modbus/Helpers the moves between FIFO and registers, Modbus/Methods the
--   methods.
-- - Uartirq: dtmc_zephyr_library/src/dtiox_zephyr_uartirq.c, ...__callbacks.c, ...__helpers.c and
--   ...__internals.h. `Uartirq` is `dtiox_zephyr_uartirq_t`; a `Line` is the object with the
--   driver. Uartirq/Interrupt has the handler and the checks, Uartirq/Methods the methods.
-- - Sync: dtmc_zephyr_library/src/dtbufferqueue_zephyr.c, dtsemaphore_zephyr.c and dtlock_zephyr.c.
--   Sync/BufferQueue, Sync/Semaphore and Sync/Lock have the functions over kernel objects,
--   Sync/Fifo, Sync/Units and Sync/Exclusion the sequences of calls.
-- - Interval: dtmc_zephyr_library/src/dtinterval_zephyr_counter.c and dtinterval_zephyr_ktimer.c,
--   in Interval/Counter and Interval/Ktimer. `start` blocks, so an object has a phase, and a run is
--   a list of events: the interrupt, a call of `pause`, the end of the wait, and the return of the
--   callback.
-- - Adc: dtmc_zephyr_library/src/dtadc_zephyr_saadc.c. Adc/Config has the defaults and the check of
--   a configuration, Adc/Time the timestamps, Adc/Scan the tick, the reader task and its interrupt,
--   Adc/Lifecycle the methods.
-- - Tasker: dtmc_zephyr_library/src/dttasker_zephyr.c. Tasker/Methods has the functions, with
--   `start` and `join` as the part up to their wait and the part after it; Tasker/System lets an
--   application thread and the thread of the task call them in any order.
-- - Gpio: dtmc_zephyr_library/src/dtgpiopin_zephyr.c. Gpio/Object has the pins, the states of the
--   ports and the store of both, Gpio/Methods the methods, Gpio/Interrupt the interrupt of a port,
--   with the bit operations of its loop in Gpio/Word.
-- - LightSensor: dtmc_zephyr_library/src/dtlightsensor_zephyr.c. LightSensor/Methods has the
--   methods, and the gains as the sensor has them.
--
-- The application calls `read` and `write`; the driver calls the callbacks from interrupts, in
-- between. A sequence of both is a list of calls, and a theorem about all lists is about all
-- interleavings of whole calls. During a CAN write the driver also answers each send with the
-- callbacks that ran in it. Interleavings inside one callback are not modelled. A method that
-- blocks is two steps, and what other threads and interrupts do while it waits are steps in
-- between; a list of events is then any schedule, and an event that cannot happen in a state
-- changes nothing. The exit of the thread of a task (set_info, READY, task_exited and EXITED in
-- dttasker_zephyr.c) is one such step, and one application thread calls start and join.
--
-- Loops: the retry loop of a CAN write is bounded by `tx_retry_count` in the source and by the same
-- number here. Its outer loop runs on fuel, the length of the buffer, which is enough since every
-- round sends at least one byte. The receive loop of the UART interrupt, which has no bound in the
-- source, runs on fuel; one unit more than there are bytes that wait is enough, since each read
-- that does not end the loop takes at least one of them. The loop of the GPIO interrupt runs on
-- fuel, the length of its word, since each turn clears a bit. The register loops of a master are
-- over lists.
--
-- Numbers: CAN counters go through the clamping additions of dtcore, which are an interface. The
-- counters of the Modbus object are plain `int32_t` sums, which are kept without their overflow.
-- Targets of alarms are kept modulo 2^32, and timestamps and sequence numbers modulo 2^64. Lengths
-- that may be negative are integers, all else are natural numbers.
--
-- Not modelled: the CoAP and BLE portals, the runtime and CPU ports; texts of messages, of
-- concat_format and of to_string, NULL object handles, the time that a send takes (its timeout is a
-- number given to the driver), and the lock of the Modbus object beyond the answers of acquiring
-- and releasing it.
pub mod Prelude
pub mod Err
pub mod Port
pub mod Canbus
pub mod Modbus
pub mod Uartirq
pub mod Sync
pub mod Interval
pub mod Adc
pub mod Tasker
pub mod Gpio
pub mod LightSensor
