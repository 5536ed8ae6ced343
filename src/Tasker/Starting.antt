-- ===== src/Tasker/Starting.antt =====
-- When the wait of `start` ends.
use dtmc_zephyr.Prelude.{
  ◌≡◌, refl, ◌∙◌, ap, ap₂, Bool, true, false, Option, none, some, List, [], ◌∷◌, ◌++◌, arith,
}
use dtmc_zephyr.Err.{Dterr}
use dtmc_zephyr.Port.Events.{EventFlags}
use dtmc_zephyr.Tasker.Object.{Info, Tasker}
use dtmc_zephyr.Tasker.Methods.{set_info, ready, finish, stop, ready_bit, exited_bit}
use dtmc_zephyr.Tasker.System.{
  free, starting, Thread, absent, inside, over, System, Event, starts, stops, joins, wakes,
  times_out, readies, exits, step, run,
}

-- Events of other threads than the one that waits.
abbrev pub Others : List Event → Type 0
Others [] = Unit {0}
Others (starts b ∷ es) = ⊥
Others (joins b ∷ es) = ⊥
Others (wakes ∷ es) = ⊥
Others (stops ∷ es) = Others es
Others (times_out ∷ es) = Others es
Others (readies ∷ es) = Others es
Others (exits d ∷ es) = Others es

module _ {E : Type 0} (events : EventFlags E) (answer : Info → Option Dterr) where
  abbrev begun : Tasker E → Thread → Option (Option Dterr × Option Bool) → System E
  begun self thread last = record { self = self; caller = starting; thread = thread; last = last }

  run-append :
      (w : System E) (xs ys : List Event)
      → run events answer w (xs ++ ys) ≡ run events answer (run events answer w xs) ys
  unfolding run
  run-append w [] ys = refl
  run-append w (x ∷ xs) ys = run-append (step events answer w x) xs ys

  -- a post of any bit keeps the others
  ready-ready :
      (self : Tasker E)
      → events.is_set self.event ready_bit ≡ true
      → events.is_set (ready events answer self).0.event ready_bit ≡ true
  unfolding ready set_info
  ready-ready self r = ground (arith, r, events.post-is_set self.event ready_bit ready_bit)

  finish-ready :
      (self : Tasker E) (d : Option Dterr)
      → events.is_set self.event ready_bit ≡ true
      → events.is_set (finish events answer self d).event ready_bit ≡ true
  unfolding finish set_info
  finish-ready self d r = ground (arith, r, events.post-is_set self.event exited_bit ready_bit)

  stays_ready :
      (self : Tasker E) (thread : Thread) (last : Option (Option Dterr × Option Bool))
      (es : List Event)
      → Others es
      → events.is_set self.event ready_bit ≡ true
      → let t = run events answer (begun self thread last) es in
        (t.caller ≡ starting) × (events.is_set t.self.event ready_bit ≡ true)
  unfolding run step stop
  stays_ready self t l [] o r = (refl, r)
  stays_ready self t l (starts b ∷ es) o r = absurd o
  stays_ready self t l (joins b ∷ es) o r = absurd o
  stays_ready self t l (wakes ∷ es) o r = absurd o
  stays_ready self t l (stops ∷ es) o r = stays_ready (stop events self) t l es o r
  stays_ready self t l (times_out ∷ es) o r = stays_ready self t l es o r
  stays_ready self inside l (readies ∷ es) o r =
      stays_ready (ready events answer self).0 inside l es o (ready-ready self r)
  stays_ready self absent l (readies ∷ es) o r = stays_ready self absent l es o r
  stays_ready self over l (readies ∷ es) o r = stays_ready self over l es o r
  stays_ready self inside l (exits d ∷ es) o r =
      stays_ready (finish events answer self d) over l es o (finish-ready self d r)
  stays_ready self absent l (exits d ∷ es) o r = stays_ready self absent l es o r
  stays_ready self over l (exits d ∷ es) o r = stays_ready self over l es o r

  -- What ends the wait: a `ready` whose info callback gives no error, or a return with an error.
  abbrev pub Signals : Tasker E → Event → Type 0
  Signals self readies = (ready events answer self).1 ≡ none
  Signals self (exits (some x)) = Unit {0}
  Signals self (exits none) = ⊥
  Signals self (starts b) = ⊥
  Signals self (joins b) = ⊥
  Signals self wakes = ⊥
  Signals self stops = ⊥
  Signals self times_out = ⊥

  ready-posts :
      (self : Tasker E)
      → (ready events answer self).1 ≡ none
      → events.is_set (ready events answer self).0.event ready_bit ≡ true
  unfolding ready set_info
  ready-posts self h = ground (arith, h, events.post-is_set self.event ready_bit ready_bit)

  finish-posts :
      (self : Tasker E) (x : Dterr)
      → events.is_set (finish events answer self (some x)).event ready_bit ≡ true
  unfolding finish set_info
  finish-posts self x = ground (
    arith,
    events.post-is_set self.event exited_bit ready_bit,
    events.post-is_set self.event ready_bit ready_bit,
    events.post-is_set (events.k_event_post self.event ready_bit) exited_bit ready_bit,
  )

  signal_stays :
      (self : Tasker E) (last : Option (Option Dterr × Option Bool)) (e : Event) (es : List Event)
      → Signals self e
      → Others es
      → let t = run events answer (begun self inside last) (e ∷ es) in
        (t.caller ≡ starting) × (events.is_set t.self.event ready_bit ≡ true)
  unfolding run step
  signal_stays self l readies es h o =
      stays_ready (ready events answer self).0 inside l es o (ready-posts self h)
  signal_stays self l (exits (some x)) es h o =
      stays_ready (finish events answer self (some x)) over l es o (finish-posts self x)
  signal_stays self l (exits none) es h o = absurd h
  signal_stays self l (starts b) es h o = absurd h
  signal_stays self l (joins b) es h o = absurd h
  signal_stays self l wakes es h o = absurd h
  signal_stays self l stops es h o = absurd h
  signal_stays self l times_out es h o = absurd h

  wake_ends :
      (w : System E)
      → w.caller ≡ starting
      → events.is_set w.self.event ready_bit ≡ true
      → let t = run events answer w (wakes ∷ []) in
        (t.caller ≡ free) × (t.last ≡ some (none, none)) × (t.thread ≡ w.thread)
  unfolding run step
  wake_ends w c r = ground (arith, c, r)

  -- the record, with two fields known
  begun_whole :
      (w : System E) (thread : Thread)
      → w.caller ≡ starting
      → w.thread ≡ thread
      → w ≡ begun w.self thread w.last
  begun_whole w thread c t =
      ap₂ (λ c t. record { self = w.self; caller = c; thread = t; last = w.last }) c t

  -- A thread waits in `start` and the entry point runs: once the entry point calls `ready`, with an
  -- info callback that gives no error, or returns an error, whatever happens before the waiting
  -- thread is scheduled, its wait ends, and `start` returns without an error in both cases.
  pub start_ends :
      (w : System E) (e : Event) (es : List Event)
      → w.caller ≡ starting
      → w.thread ≡ inside
      → Signals w.self e
      → Others es
      → let t = run events answer w (e ∷ es ++ wakes ∷ []) in
        (t.caller ≡ free) × (t.last ≡ some (none, none))
  start_ends w e es c i h o =
      let u = begun w.self inside w.last in
      let before = run events answer u (e ∷ es) in
      let s = signal_stays w.self w.last e es h o in
      let ends = wake_ends before s.0 s.1 in
      let same : run events answer w (e ∷ es ++ wakes ∷ [])
          ≡ run events answer before (wakes ∷ []) =
        ap (λ x. run events answer x (e ∷ es ++ wakes ∷ [])) (begun_whole w inside c i)
        ∙ run-append u (e ∷ es) (wakes ∷ []) in
      rw same (ends.0, ends.1)

  still_waits :
      (self : Tasker E) (last : Option (Option Dterr × Option Bool)) (es : List Event)
      → events.is_set self.event ready_bit ≡ false
      → (run events answer (begun self over last) es).caller ≡ starting
  unfolding run step stop
  still_waits self l [] r = refl
  still_waits self l (starts b ∷ es) r = still_waits self l es r
  still_waits self l (joins b ∷ es) r = still_waits self l es r
  still_waits self l (wakes ∷ es) r =
      let same : step events answer (begun self over l) wakes ≡ begun self over l = rw r in
      ap (λ t. (run events answer t es).caller) same ∙ still_waits self l es r
  still_waits self l (stops ∷ es) r = still_waits (stop events self) l es r
  still_waits self l (times_out ∷ es) r = still_waits self l es r
  still_waits self l (readies ∷ es) r = still_waits self l es r
  still_waits self l (exits d ∷ es) r = still_waits self l es r

  finish-quiet :
      (self : Tasker E)
      → events.is_set self.event ready_bit ≡ false
      → events.is_set (finish events answer self none).event ready_bit ≡ false
  unfolding finish set_info
  finish-quiet self r = ground (arith, r, events.post-is_set self.event exited_bit ready_bit)

  -- A thread waits in `start`: if the entry point returns without an error and without having
  -- called `ready`, `start` never returns, whatever happens afterwards.
  pub start_hangs :
      (w : System E) (es : List Event)
      → w.caller ≡ starting
      → w.thread ≡ inside
      → events.is_set w.self.event ready_bit ≡ false
      → (run events answer w (exits none ∷ es)).caller ≡ starting
  unfolding run step
  start_hangs w es c i r =
      ap (λ x. (run events answer x (exits none ∷ es)).caller) (begun_whole w inside c i)
      ∙ still_waits (finish events answer w.self none) w.last es (finish-quiet w.self r)
