-- ===== src/Tasker/Invariant.antt =====
-- What holds of a task between any two calls, by the state of its thread.
use dtmc_zephyr.Prelude.{
  ℕ, ◌≡◌, refl, sym, subst, Bool, true, false, not, ◌&&◌, Option, none, some, List, [], ◌∷◌, arith,
  Bool-cases, ◌⊎◌, inl, inr,
}
use dtmc_zephyr.Err.{Dterr}
use dtmc_zephyr.Port.Events.{EventFlags}
use dtmc_zephyr.Tasker.Priority.{Priority, Native, number, unknown, native_number}
use dtmc_zephyr.Tasker.Object.{Info, Tasker}
use dtmc_zephyr.Tasker.Methods.{
  Begun, returns, waits, set_info, start, ready, finish, stop, join, join_ends, joined, ready_bit,
  exited_bit,
}
use dtmc_zephyr.Tasker.System.{
  Caller, free, starting, joining, Thread, absent, inside, over, System, Event, starts, stops,
  joins, wakes, times_out, readies, exits, begin_start, begin_join, end_join, step, run,
}

-- an error, and no wait
abbrev pub is_refused : Begun → Bool
is_refused (returns (some e) none) = true
is_refused (returns (some e) (some f)) = false
is_refused (returns none f) = false
is_refused waits = false

native_value : (n : Native) → ((e : Dterr) × (n ≡ unknown e)) ⊎ ((k : ℕ) × (n ≡ number k))
native_value (number k) = inr (k, refl)
native_value (unknown e) = inl (e, refl)

native_cases :
    (p : Priority)
    → ((e : Dterr) × (native_number p ≡ unknown e)) ⊎ ((n : ℕ) × (native_number p ≡ number n))
native_cases p = native_value (native_number p)

module _ {E : Type 0} (events : EventFlags E) where
  abbrev pub Sound : Thread → Tasker E → Caller → Type 0
  Sound absent self caller =
      (self.task_created ≡ false) × (self.task_joined ≡ false) × (caller ≡ free)
  Sound inside self caller =
      (self.task_created ≡ true)
      × (self.task_exited ≡ false)
      × (self.task_joined ≡ false)
      × (events.is_set self.event exited_bit ≡ false)
  Sound over self caller =
      (self.task_created ≡ false)
      ⊎ ((self.task_created ≡ true) × (self.task_exited ≡ true) × (self.task_joined ≡ false))

  abbrev pub IsSound : System E → Type 0
  IsSound w = Sound w.thread w.self w.caller

  -- What `start` does, by its outcome.
  pub start_cases :
      (self : Tasker E) (has_stack : Bool)
      → (let (t, b) = start events self has_stack in (t ≡ self) × (is_refused b ≡ true))
        ⊎ ((self.task_created && not self.task_exited ≡ false)
            × (let (t, b) = start events self has_stack in
                (t.task_joined ≡ false)
                × (t.task_exited ≡ false)
                × (events.is_set t.event exited_bit ≡ false)
                × (((t.task_created ≡ true) × (b ≡ waits))
                    ⊎ ((t.task_created ≡ false) × (is_refused b ≡ true)))))
  unfolding start
  start_cases self has_stack = elim (Bool-cases self.config.has_entry_point) [
    | inr h ↦ inl (ground (arith, h))
    | inl h ↦ elim (Bool-cases (self.task_created && not self.task_exited)) [
      | inl r ↦ inl (ground (arith, h, r))
      | inr r ↦ elim (Bool-cases has_stack) [
        | inr m ↦ inr (r, ground (arith, h, r, m, events.clear-is_set self.event exited_bit))
        | inl m ↦ elim (native_cases self.config.priority) [
          | inl (e, n) ↦
              inr (r, ground (arith, h, r, m, n, events.clear-is_set self.event exited_bit))
          | inr (k, n) ↦
              inr (r, ground (arith, h, r, m, n, events.clear-is_set self.event exited_bit))
        ]
      ]
    ]
  ]

  refused-Sound :
      (w : System E) (t : Tasker E) (b : Begun)
      → t ≡ w.self
      → is_refused b ≡ true
      → IsSound w
      → IsSound (begin_start w (t, b))
  unfolding begin_start
  refused-Sound w t waits h r s = absurd (cc r)
  refused-Sound w t (returns e f) h r s = subst (λ x. Sound w.thread x w.caller) (sym h) s

  -- the flags are cleared, and there is a thread if there is a wait
  Began : Tasker E → Begun → Type 0
  Began t b =
      (t.task_joined ≡ false)
      × (t.task_exited ≡ false)
      × (events.is_set t.event exited_bit ≡ false)
      × (((t.task_created ≡ true) × (b ≡ waits))
          ⊎ ((t.task_created ≡ false) × (is_refused b ≡ true)))

  failed-Sound :
      (thread : Thread) (old t : Tasker E) (caller : Caller)
      → Sound thread old caller
      → caller ≡ free
      → (old.task_created && not old.task_exited) ≡ false
      → t.task_created ≡ false
      → t.task_joined ≡ false
      → Sound thread t caller
  failed-Sound absent old t caller s f r c j = (c, j, f)
  failed-Sound inside old t caller s f r c j = absurd (ground (arith, s, r))
  failed-Sound over old t caller s f r c j = inl c

  begin_start-Sound :
      (w : System E) (t : Tasker E) (b : Begun)
      → w.caller ≡ free
      → IsSound w
      → (w.self.task_created && not w.self.task_exited) ≡ false
      → Began t b
      → IsSound (begin_start w (t, b))
  unfolding begin_start Began
  begin_start-Sound w t waits f s r h = elim (h.3) [
    | inl g ↦ (g.0, h.1, h.0, h.2)
    | inr g ↦ absurd (cc g.1)
  ]
  begin_start-Sound w t (returns e x) f s r h = elim (h.3) [
    | inl g ↦ absurd (cc g.1)
    | inr g ↦ failed-Sound w.thread w.self t w.caller s f r g.0 h.0
  ]

  start-Sound :
      (w : System E) (has_stack : Bool)
      → w.caller ≡ free
      → IsSound w
      → IsSound (begin_start w (start events w.self has_stack))
  unfolding Began
  start-Sound w has_stack f s =
      let (t, b) = start events w.self has_stack in
      elim (start_cases w.self has_stack) [
        | inl h ↦ refused-Sound w t b h.0 h.1 s
        | inr h ↦ begin_start-Sound w t b f s h.0 h.1
      ]

  abbrev state : Tasker E → Caller → Thread → Option (Option Dterr × Option Bool) → System E
  state self caller thread last = record {
    self = self;
    caller = caller;
    thread = thread;
    last = last;
  }

  join-Sound :
      (self : Tasker E) (thread : Thread) (last : Option (Option Dterr × Option Bool))
      (has_flag : Bool)
      → Sound thread self free
      → IsSound (begin_join (state self free thread last) has_flag (join events self has_flag))
  unfolding begin_join join joined
  join-Sound self absent last has_flag s = ground (arith, s)
  join-Sound self inside last has_flag s = ground (arith, s)
  join-Sound self over last has_flag s = ground (arith, s)

  join_ends-Sound :
      (self : Tasker E) (thread : Thread) (last : Option (Option Dterr × Option Bool))
      (has_flag : Bool)
      → Sound thread self (joining has_flag)
      → IsSound
          (end_join (state self (joining has_flag) thread last) (join_ends events self has_flag))
  unfolding end_join join_ends joined
  join_ends-Sound self absent last has_flag s = absurd (cc s.2)
  join_ends-Sound self inside last has_flag s = ground (arith, s)
  join_ends-Sound self over last has_flag s = ground (arith, s)

  ready-Sound :
      (answer : Info → Option Dterr) (self : Tasker E) (caller : Caller)
      → Sound inside self caller
      → Sound inside (ready events answer self).0 caller
  unfolding ready set_info
  ready-Sound answer self caller s = ground (arith, s, events.post-is_set self.event 0 exited_bit)

  finish-Sound :
      (answer : Info → Option Dterr) (self : Tasker E) (dterr : Option Dterr) (caller : Caller)
      → Sound inside self caller
      → Sound over (finish events answer self dterr) caller
  unfolding finish set_info
  finish-Sound answer self dterr caller s = ground (arith, s)

  -- a step that ends or keeps a wait of the application
  free-Sound :
      (thread : Thread) (self : Tasker E) (caller : Caller)
      → Sound thread self caller
      → Sound thread self free
  free-Sound absent self caller s = (s.0, s.1, refl)
  free-Sound inside self caller s = s
  free-Sound over self caller s = s

  stop-Sound :
      (thread : Thread) (self : Tasker E) (caller : Caller)
      → Sound thread self caller
      → Sound thread (stop events self) caller
  unfolding stop
  stop-Sound absent self caller s = s
  stop-Sound inside self caller s = s
  stop-Sound over self caller s = s

  module _ (answer : Info → Option Dterr) where
    step-Sound :
        (self : Tasker E) (caller : Caller) (thread : Thread)
        (last : Option (Option Dterr × Option Bool)) (e : Event)
        → Sound thread self caller
        → IsSound (step events answer (state self caller thread last) e)
    unfolding step
    step-Sound self free t l (starts k) s = start-Sound (state self free t l) k refl s
    step-Sound self starting t l (starts k) s = s
    step-Sound self (joining f) t l (starts k) s = s
    step-Sound self c t l stops s = stop-Sound t self c s
    step-Sound self free t l (joins f) s = join-Sound self t l f s
    step-Sound self starting t l (joins f) s = s
    step-Sound self (joining g) t l (joins f) s = s
    step-Sound self free t l wakes s = s
    step-Sound self starting t l wakes s = elim (Bool-cases (events.is_set self.event ready_bit)) [
      | inl h ↦ rw h (free-Sound t self starting s)
      | inr h ↦ rw h (s)
    ]
    step-Sound self (joining g) t l wakes s =
        elim (Bool-cases (events.is_set self.event exited_bit)) [
          | inl h ↦ rw h (join_ends-Sound self t l g s)
          | inr h ↦ rw h (s)
        ]
    step-Sound self free t l times_out s = s
    step-Sound self starting t l times_out s = s
    step-Sound self (joining g) t l times_out s = join_ends-Sound self t l g s
    step-Sound self c inside l readies s = ready-Sound answer self c s
    step-Sound self c absent l readies s = s
    step-Sound self c over l readies s = s
    step-Sound self c inside l (exits d) s = finish-Sound answer self d c s
    step-Sound self c absent l (exits d) s = s
    step-Sound self c over l (exits d) s = s

    -- Sequences of events keep it.
    pub run-Sound : (w : System E) (es : List Event) → IsSound w → IsSound (run events answer w es)
    unfolding run
    run-Sound w [] s = s
    run-Sound w (e ∷ es) s =
        run-Sound (step events answer w e) es (step-Sound w.self w.caller w.thread w.last e s)
