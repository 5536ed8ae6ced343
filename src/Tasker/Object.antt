-- ===== src/Tasker/Object.antt =====
-- `dttasker_t` and its parts.
use dtmc_zephyr.Prelude.{ℕ, Bool, Option, List}
use dtmc_zephyr.Err.{Dterr}
use dtmc_zephyr.Tasker.Priority.{Priority}

-- The statuses of a task, and the one that zeros mean.
pub data Status : Type 0 where
  unset initialized running stopped : Status

-- `dttasker_info_t`, as far as the sources set it
pub record Info : Type 0 where
  pub status : Status
  pub dterr : Option Dterr
  pub name : List ℕ

-- `dttasker_config_t`; the entry point is not NULL if `has_entry_point`, and the info callback is not
-- NULL if `has_info_callback`.
pub record Config : Type 0 where
  pub name : Option (List ℕ)
  pub priority : Priority
  pub stack_size : ℕ
  pub has_entry_point : Bool
  pub entry_point_arg : Option ℕ
  pub has_info_callback : Bool

-- `dttasker_t`. `infos` are the calls of the info callback, oldest first; `stacks` counts the stacks
-- that are allocated and not freed.
pub record Tasker (E : Type 0) : Type 0 where
  pub model_number : ℕ
  pub name : List ℕ
  pub config : Config
  pub event : E
  pub info : Info
  pub is_stack_malloced : Bool
  pub stack_area : Bool
  pub stop_requested : Bool
  pub task_exited : Bool
  pub task_created : Bool
  pub task_joined : Bool
  pub guid : List ℕ
  pub infos : List Info
  pub stacks : ℕ
