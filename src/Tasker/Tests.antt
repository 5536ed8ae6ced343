-- ===== src/Tasker/Tests.antt =====
-- A task with an event group that holds two bits, and the theorems applied to it.
use dtmc_zephyr.Prelude.{
  ℕ, ◌≡◌, ◌++◌, refl, Bool, true, false, ◌||◌, Option, none, some, List, [], ◌∷◌, ◌==◌,
}
use dtmc_zephyr.Err.{Dterr, leaf, fail}
use dtmc_zephyr.Port.Events.{EventFlags}
use dtmc_zephyr.Tasker.Priority.{native_number, normal_medium}
use dtmc_zephyr.Tasker.Object.{initialized, Info, Config, Tasker}
use dtmc_zephyr.Tasker.Methods.{CreateAnswers, start, ready_bit}
use dtmc_zephyr.Tasker.System.{
  free, starting, inside, Event, starts, stops, joins, wakes, times_out, readies, exits,
  begin_start, fresh, step, run,
}
use dtmc_zephyr.Tasker.Starting.{start_ends, start_hangs}

has_bit : List ℕ → ℕ → Bool
has_bit [] i = false
has_bit (b ∷ bits) i = b == i || has_bit bits i

bits : EventFlags (List ℕ)
unfolding has_bit
bits = record {
  is_set = has_bit;
  k_event_init = [];
  k_event_clear = λ e. [];
  k_event_post = λ e i. i ∷ e;
  init-is_set = λ i. refl;
  clear-is_set = λ e i. refl;
  post-is_set = λ e i j. refl;
}

abbrev quiet : Info → Option Dterr
quiet info = none

abbrev answers : CreateAnswers
answers = record {
  validate_priority = λ p. none;
  alloc = none;
  set_vtable = λ m. none;
  guid_of = λ name. name;
}

abbrev config : Config
config = record {
  name = some (7 ∷ 8 ∷ []);
  priority = normal_medium;
  stack_size = 512;
  has_entry_point = true;
  entry_point_arg = some 3;
  has_info_callback = true;
}

-- The object that `create` gives.
abbrev task : Tasker (List ℕ)
task = record {
  model_number = 4;
  name = 7 ∷ 8 ∷ [];
  config = config;
  event = [];
  info = record { status = initialized; dterr = none; name = [] };
  is_stack_malloced = false;
  stack_area = false;
  stop_requested = false;
  task_exited = false;
  task_created = false;
  task_joined = false;
  guid = 7 ∷ 8 ∷ [];
  infos = record { status = initialized; dterr = none; name = 7 ∷ 8 ∷ [] } ∷ [];
  stacks = 0;
}

-- The task runs, gets a request to stop, returns, and is joined.
abbrev whole_life : List Event
whole_life = starts true ∷ readies ∷ wakes ∷ stops ∷ joins true ∷ exits none ∷ wakes ∷ []

-- The task runs, and the application waits for it.
abbrev in_start : List Event
in_start = starts true ∷ []

abbrev in_join : List Event
in_join = starts true ∷ readies ∷ wakes ∷ joins true ∷ []

waits_in_start :
    let w = run bits quiet (fresh task) in_start in
    (w.caller ≡ starting) × (w.thread ≡ inside) × (has_bit w.self.event ready_bit ≡ false)
unfolding run step fresh start begin_start native_number bits has_bit
waits_in_start = (refl, refl, refl)

start_ends_example :
    let t =
      run bits quiet
        (run bits quiet (fresh task) in_start)
        (exits (some (leaf fail)) ∷ (times_out ∷ stops ∷ []) ++ wakes ∷ []) in
    (t.caller ≡ free) × (t.last ≡ some (none, none))
start_ends_example =
    start_ends bits quiet (run bits quiet (fresh task) in_start) (exits (some (leaf fail)))
      (times_out ∷ stops ∷ []) waits_in_start.0 waits_in_start.1 tt tt

start_hangs_example :
    (run bits quiet (run bits quiet (fresh task) in_start) (exits none ∷ stops ∷ wakes ∷ [])).caller
    ≡ starting
unfolding bits
start_hangs_example =
    start_hangs bits quiet (run bits quiet (fresh task) in_start) (stops ∷ wakes ∷ [])
      waits_in_start.0 waits_in_start.1 waits_in_start.2
