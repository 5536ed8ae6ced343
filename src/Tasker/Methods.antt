-- ===== src/Tasker/Methods.antt =====
-- The functions of dttasker_zephyr.c that do not block, and the parts of those that do: `start` and
-- `join` up to their waits and after them.
use dtmc_zephyr.Prelude.{
  ℕ, ◌+◌, ◌-◌, Bool, true, false, not, ◌&&◌, ◌||◌, Option, none, some, List, [], ◌∷◌, ◌++◌, leb,
  length, take, if◌then◌else◌,
}
use dtmc_zephyr.Err.{Dterr, leaf, wrap, argument_null, badconfig, fail, nomem, timeout, or_else}
use dtmc_zephyr.Err
use dtmc_zephyr.Port.Events.{EventFlags}
use dtmc_zephyr.Tasker.Priority.{Priority, number, unknown, native_number}
use dtmc_zephyr.Tasker.Object.{unset, initialized, running, stopped, Info, Config, Tasker}

-- DTTASKER_EVENT_READY_BIT and DTTASKER_EVENT_EXITED_BIT
abbrev pub ready_bit : ℕ
ready_bit = 0

abbrev pub exited_bit : ℕ
exited_bit = 1

-- What the calls of `create` answer, and the guid of a name.
pub record CreateAnswers : Type 0 where
  pub validate_priority : Priority → Option Dterr
  pub alloc : Option Dterr
  pub set_vtable : ℕ → Option Dterr
  pub guid_of : List ℕ → List ℕ

-- What the wait of `start` or `join` becomes: a result, or a wait.
pub data Begun : Type 0 where
  returns : Option Dterr → Option Bool → Begun
  waits : Begun

-- a flag that is written if there is somewhere to write it
abbrev pub flag : Bool → Bool → Option Bool
flag false b = none
flag true b = some b

module _ {E : Type 0} (events : EventFlags E) where
  -- `answer` is what the info callback answers.
  unfoldable pub set_info : (Info → Option Dterr) → Tasker E → Info → Tasker E × Option Dterr
  set_info answer self info =
      let shown : Info = record info { name = take 31 self.name } in
      if self.config.has_info_callback
      then (record self { info = info; infos = self.infos ++ (shown ∷ []) }, answer shown)
      else (record self { info = info }, none)

  unfoldable pub get_info : Tasker E → Info
  get_info self = record (self.info) { name = take 31 self.name }

  -- The object that `create` builds, before the events are set up.
  unfoldable pub built : ℕ → Config → List ℕ → List ℕ → Tasker E
  built model config name guid = record {
    model_number = model;
    name = name;
    config = config;
    event = events.k_event_init;
    info = record { status = unset; dterr = none; name = [] };
    is_stack_malloced = false;
    stack_area = false;
    stop_requested = false;
    task_exited = false;
    task_created = false;
    task_joined = false;
    guid = guid;
    infos = [];
    stacks = 0;
  }

  -- `config` is `none` for NULL; the pointer to the handle is not NULL.
  unfoldable pub create :
      (Info → Option Dterr) → CreateAnswers → ℕ → Option Config → Option (Tasker E) × Option Dterr
  unfolding built set_info
  create answer answers model none = (none, some (leaf argument_null))
  create answer answers model (some config) = elim config.name [
    | none ↦ (none, some (leaf argument_null))
    | some name ↦
        let fresh = built model config name (answers.guid_of name) in
        let (told, e) =
          set_info answer fresh (record { status = initialized; dterr = none; name = [] }) in
        elim (answers.validate_priority config.priority) [
          | some x ↦ (none, some x)
          | none ↦
              if leb 32 (length name)
              then (none, some (leaf badconfig))
              else elim (or_else answers.alloc (answers.set_vtable model)) [
                | some x ↦ (none, some x)
                | none ↦ elim e [ some x ↦ (none, some x) | none ↦ (some told, none) ]
              ]
        ]
  ]

  unfoldable pub set_entry_point : Tasker E → Bool → Option ℕ → Tasker E
  set_entry_point self has_entry_point arg = record self {
    config = record (self.config) { has_entry_point = has_entry_point; entry_point_arg = arg };
  }

  -- `start` up to its wait: the thread exists if it waits. `has_stack` is whether `k_malloc` gives
  -- the stack.
  unfoldable pub start : Tasker E → Bool → Tasker E × Begun
  start self has_stack =
      let cleared : Tasker E = record self {
        event = events.k_event_clear self.event;
        stop_requested = false;
        task_exited = false;
        task_joined = false;
        task_created = false;
      } in
      let stacked : Tasker E = record cleared {
        stack_area = true;
        is_stack_malloced = true;
        stacks = self.stacks + 1;
      } in
      if not self.config.has_entry_point
      then (self, returns (some (wrap fail (leaf argument_null))) none)
      else if self.task_created && not self.task_exited
      then (self, returns (some (wrap fail (leaf Err.state))) none)
      else if not has_stack
      then (record cleared { stack_area = false }, returns (some (wrap fail (leaf nomem))) none)
      else elim (native_number self.config.priority) [
        | unknown e ↦ (stacked, returns (some (wrap fail e)) none)
        | number n ↦ (record stacked { task_created = true }, waits)
      ]

  -- called in the task
  unfoldable pub ready : (Info → Option Dterr) → Tasker E → Tasker E × Option Dterr
  unfolding set_info
  ready answer self =
      let (told, e) = set_info answer self (record { status = running; dterr = none; name = [] }) in
      elim e [
        | some x ↦ (told, some x)
        | none ↦ (record told { event = events.k_event_post told.event ready_bit }, none)
      ]

  -- `dttasker__thread_inception_function` after the entry point has returned `dterr`
  unfoldable pub finish : (Info → Option Dterr) → Tasker E → Option Dterr → Tasker E
  unfolding set_info
  finish answer self dterr =
      let (told, e) =
        set_info answer self (record { status = stopped; dterr = dterr; name = [] }) in
      let woken : E = elim dterr [
        | none ↦ told.event
        | some x ↦
            if events.is_set told.event ready_bit
            then told.event
            else events.k_event_post told.event ready_bit
      ] in
      record told { task_exited = true; event = events.k_event_post woken exited_bit }

  unfoldable pub stop : Tasker E → Tasker E
  stop self = record self { stop_requested = true }

  -- `has_out` says that `should_stop` is not NULL.
  unfoldable pub poll : Tasker E → Bool → Option Bool × Option Dterr
  poll self false = (none, some (leaf argument_null))
  poll self true = (some self.stop_requested, none)

  -- the thread is joined
  unfoldable pub joined : Tasker E → Tasker E
  joined self = record self { task_joined = true; task_created = false }

  -- `join` up to its wait; `has_flag` says that `was_timeout` is not NULL.
  unfoldable pub join : Tasker E → Bool → Tasker E × Begun
  unfolding joined
  join self has_flag =
      if not self.task_created || self.task_joined
      then (self, returns none (flag has_flag false))
      else if self.task_exited
      then (joined self, returns none (flag has_flag false))
      else (self, waits)

  -- `join` after its wait
  unfoldable pub join_ends : Tasker E → Bool → Tasker E × Option Dterr × Option Bool
  unfolding joined
  join_ends self has_flag =
      if events.is_set self.event exited_bit
      then (joined self, none, flag has_flag false)
      else (self, if has_flag then none else some (leaf timeout), flag has_flag true)

  -- How many stacks are left when the object is freed.
  unfoldable pub dispose : Tasker E → ℕ
  dispose self = if self.is_stack_malloced && self.stack_area then self.stacks - 1 else self.stacks
