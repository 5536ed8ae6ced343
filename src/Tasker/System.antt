-- ===== src/Tasker/System.antt =====
-- An application thread that calls the methods, and the thread of the task, in any interleaving of
-- the calls and of the parts of those that wait.
use dtmc_zephyr.Prelude.{Bool, Option, none, some, List, [], ◌∷◌, if◌then◌else◌}
use dtmc_zephyr.Err.{Dterr}
use dtmc_zephyr.Port.Events.{EventFlags}
use dtmc_zephyr.Tasker.Object.{Info, Tasker}
use dtmc_zephyr.Tasker.Methods.{
  Begun, returns, waits, start, ready, finish, stop, join, join_ends, ready_bit, exited_bit,
}

-- The application is free, in the wait of `start`, or in the wait of `join`.
pub data Caller : Type 0 where
  free starting : Caller
  joining : Bool → Caller

-- There is no thread, the entry point runs in it, or it has ended.
pub data Thread : Type 0 where
  absent inside over : Thread

-- `last` is what the last call of `start` or `join` returned.
pub record System (E : Type 0) : Type 0 where
  pub self : Tasker E
  pub caller : Caller
  pub thread : Thread
  pub last : Option (Option Dterr × Option Bool)

pub data Event : Type 0 where
  starts : Bool → Event
  stops : Event
  joins : Bool → Event
  -- the wait of the application ends: its bit is set, or `join` has timed out
  wakes times_out : Event
  -- The entry point calls `ready`; it returns, and the thread ends, which is one step: its end
  -- (set_info, READY, task_exited, EXITED) is not taken apart.
  readies : Event
  exits : Option Dterr → Event

module _ {E : Type 0} where
  -- A new object that no call has been made for.
  unfoldable pub fresh : Tasker E → System E
  fresh self = record { self = self; caller = free; thread = absent; last = none }

  unfoldable pub begin_start : System E → Tasker E × Begun → System E
  begin_start w (self, waits) = record w { self = self; caller = starting; thread = inside }
  begin_start w (self, returns e f) = record w { self = self; last = some (e, f) }

  unfoldable pub begin_join : System E → Bool → Tasker E × Begun → System E
  begin_join w has_flag (self, waits) = record w { self = self; caller = joining has_flag }
  begin_join w has_flag (self, returns e f) = record w { self = self; last = some (e, f) }

  unfoldable pub end_join : System E → Tasker E × Option Dterr × Option Bool → System E
  end_join w (self, e, f) = record w { self = self; caller = free; last = some (e, f) }

module _ {E : Type 0} (events : EventFlags E) (answer : Info → Option Dterr) where
  -- An event that cannot happen changes nothing.
  unfoldable pub step : System E → Event → System E
  unfolding begin_start begin_join end_join
  step w (starts has_stack) = elim w.caller [
    | free ↦ begin_start w (start events w.self has_stack)
    | starting ↦ w
    | joining f ↦ w
  ]
  step w stops = record w { self = stop events w.self }
  step w (joins has_flag) = elim w.caller [
    | free ↦ begin_join w has_flag (join events w.self has_flag)
    | starting ↦ w
    | joining f ↦ w
  ]
  step w wakes = elim w.caller [
    | free ↦ w
    | starting ↦
        if events.is_set w.self.event ready_bit
        then record w { caller = free; last = some (none, none) }
        else w
    | joining f ↦
        if events.is_set w.self.event exited_bit then end_join w (join_ends events w.self f) else w
  ]
  step w times_out = elim w.caller [
    | free ↦ w
    | starting ↦ w
    | joining f ↦ end_join w (join_ends events w.self f)
  ]
  step w readies = elim w.thread [
    | inside ↦ record w { self = (ready events answer w.self).0 }
    | absent ↦ w
    | over ↦ w
  ]
  step w (exits dterr) = elim w.thread [
    | inside ↦ record w { self = finish events answer w.self dterr; thread = over }
    | absent ↦ w
    | over ↦ w
  ]

  unfoldable pub run : System E → List Event → System E
  run w [] = w
  run w (e ∷ more) = run (step w e) more
