-- ===== src/Tasker/Running.antt =====
-- What the calls do while the entry point runs, and when a task counts as joined.
use dtmc_zephyr.Tasker.Object.{Tasker}
use dtmc_zephyr.Tasker.System.{System}
