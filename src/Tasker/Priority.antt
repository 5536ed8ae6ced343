-- ===== src/Tasker/Priority.antt =====
-- `dttasker_priority_enum_to_native_number`
use dtmc_zephyr.Prelude.{ℕ}
use dtmc_zephyr.Err.{Dterr, leaf, badarg}

-- DTTASKER_PRIORITY_…, and all other values
pub data Priority : Type 0 where
  default_for_situation : Priority
  background_lowest background_low background_medium background_high background_highest : Priority
  normal_lowest normal_low normal_medium normal_high normal_highest : Priority
  urgent_lowest urgent_low urgent_medium urgent_high urgent_highest : Priority
  other_priority : ℕ → Priority

-- The number, or an error.
pub data Native : Type 0 where
  number : ℕ → Native
  unknown : Dterr → Native

unfoldable pub native_number : Priority → Native
native_number default_for_situation = number 8
native_number background_lowest = number 14
native_number background_low = number 13
native_number background_medium = number 12
native_number background_high = number 11
native_number background_highest = number 10
native_number normal_lowest = number 9
native_number normal_low = number 8
native_number normal_medium = number 7
native_number normal_high = number 6
native_number normal_highest = number 5
native_number urgent_lowest = number 4
native_number urgent_low = number 3
native_number urgent_medium = number 2
native_number urgent_high = number 1
native_number urgent_highest = number 0
native_number (other_priority n) = unknown (leaf badarg)
