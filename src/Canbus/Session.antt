-- ===== src/Canbus/Session.antt =====
-- The life of a CAN object: what attachment leaves behind, and what holds after any calls.
use dtmc_zephyr.Prelude.{
  ℕ, ℤ, ◌≡◌, refl, ◌⊎◌, Bool, true, false, ◌&&◌, ◌||◌, not, Option, none, some, List, [], ◌∷◌,
  arith, is_some,
}
use dtmc_zephyr.Port.Ring.{RingFifo}
use dtmc_zephyr.Port.Core.{CoreHelper}
use dtmc_zephyr.Port.Host.{Host}
use dtmc_zephyr.Port.Can.{CanEvent, CanDriver}
use dtmc_zephyr.Canbus.Object.{Config, Canbus, World, zero_stats}
use dtmc_zephyr.Canbus.Callbacks.{rx_fifo_pop, check_error_state, on_event}
use dtmc_zephyr.Canbus.Lifecycle.{
  init, configure, set_rx_semaphore, attach, detach, dispose, enable,
}
use dtmc_zephyr.Canbus.Read.{read}
use dtmc_zephyr.Canbus.Write.{write}
use dtmc_zephyr.Canbus.Bus.{write-bus}
use dtmc_zephyr.Canbus.Setup.{SameSetup, on_event-SameSetup, write-SameSetup}

-- A call of the object's methods, or a callback.
pub data Call : Type 0 where
  configures : Option Config → Call
  sets_rx_semaphore : Option ℕ → Call
  attaches : Call
  detaches : Call
  disposes : Call
  enables : Bool → Call
  reads : Bool → Bool → ℤ → Call
  writes : Option (List ℕ) → ℤ → Bool → Call
  interrupts : CanEvent → Call

-- The object knows whether the controller runs, and one that runs is a device that is attached,
-- found ready by the object and ready in fact; so is one with a filter.
pub record IsSound {F B : Type 0} (driver : CanDriver B) (w : World F B) : Type 0 where
  pub known : driver.running w.bus ≡ w.self.dev_started
  pub started :
      (not w.self.dev_started || w.self.can_dev && w.self.dev_ready && driver.device_is_ready w.bus)
      ≡ true
  pub filtered :
      (not w.self.rx_filter_is_installed
        || w.self.can_dev && w.self.dev_ready && driver.device_is_ready w.bus)
      ≡ true

module _ {F B : Type 0} (ring : RingFifo F) (core : CoreHelper) (host : Host)
    (driver : CanDriver B) where
  unfoldable pub call : World F B → Call → World F B
  call w (configures cfg) = record w { self = (configure ring host w.self cfg).0 }
  call w (sets_rx_semaphore handle) = record w { self = set_rx_semaphore w.self handle }
  call w attaches = (attach ring core driver w).0
  call w detaches = detach ring core driver w
  call w disposes = dispose ring core driver w
  call w (enables on) = record w { self = (enable ring core w.self on).0 }
  call w (reads has_buf has_out n) = record w { self = (read ring core w.self has_buf has_out n).0 }
  call w (writes buf len has_out) = (write ring core driver w buf len has_out).world
  call w (interrupts e) = record w { self = on_event ring core driver w.self e }

  -- Where the object knows whether the controller runs, an attachment that succeeds leaves a
  -- controller of a ready device that runs, with its filter installed, a closed gate and clear
  -- counters; one that fails leaves a controller that does not run.
  pub attach_outcome :
      (w : World F B)
      → driver.running w.bus ≡ w.self.dev_started
      → let (v, e) = attach ring core driver w in
        (e ≡ none)
          × (driver.running v.bus ≡ true)
          × (driver.device_is_ready v.bus ≡ true)
          × (v.self.dev_ready ≡ true)
          × (v.self.dev_started ≡ true)
          × (v.self.rx_filter_is_installed ≡ true)
          × (v.self.rx_enabled ≡ false)
          × (v.self.rx_overflow_flag ≡ false)
          × (v.self.fifo_dropped_bytes ≡ 0)
          × (v.self.stats ≡ zero_stats)
        ⊎ (is_some e ≡ true) × (driver.running v.bus ≡ false) × (v.self.dev_started ≡ false)
  unfolding attach
  attach_outcome w known =
      let b = (driver.can_start w.bus).0 in
      let f = (driver.can_add_rx_filter b).0 in
      ground (
        arith,
        known,
        driver.start_runs w.bus,
        driver.start_fails w.bus,
        driver.start-ready w.bus,
        driver.filter-running b,
        driver.filter-ready b,
        driver.stop_stops w.bus,
        driver.stop_stops b,
        driver.stop_stops f,
      )

  attach-IsSound : (w : World F B) → IsSound driver w → IsSound driver (attach ring core driver w).0
  unfolding attach
  attach-IsSound w h =
      let b = (driver.can_start w.bus).0 in
      let f = (driver.can_add_rx_filter b).0 in
      ground (
        arith,
        h.known,
        h.started,
        h.filtered,
        driver.start_runs w.bus,
        driver.start_fails w.bus,
        driver.start-ready w.bus,
        driver.filter-running b,
        driver.filter-ready b,
        driver.stop_stops w.bus,
        driver.stop_stops b,
        driver.stop_stops f,
        driver.stop-ready w.bus,
        driver.stop-ready b,
        driver.stop-ready f,
      )

  detach-IsSound : (w : World F B) → IsSound driver w → IsSound driver (detach ring core driver w)
  unfolding detach
  detach-IsSound w h =
      let u = driver.can_remove_rx_filter w.bus w.self.rx_filter_id in
      ground (
        arith,
        h.known,
        h.started,
        h.filtered,
        driver.unfilter-running w.bus w.self.rx_filter_id,
        driver.unfilter-ready w.bus w.self.rx_filter_id,
        driver.stop_stops w.bus,
        driver.stop_stops u,
        driver.stop-ready w.bus,
        driver.stop-ready u,
      )

  dispose-IsSound : (w : World F B) → IsSound driver w → IsSound driver (dispose ring core driver w)
  unfolding dispose
  dispose-IsSound w h =
      let u = driver.can_remove_rx_filter w.bus w.self.rx_filter_id in
      ground (
        arith,
        h.known,
        h.started,
        h.filtered,
        driver.unfilter-running w.bus w.self.rx_filter_id,
        driver.unfilter-ready w.bus w.self.rx_filter_id,
        driver.stop_stops w.bus,
        driver.stop_stops u,
        driver.stop-ready w.bus,
        driver.stop-ready u,
      )

  -- What keeps the fields of the setup and these two facts of the controller keeps soundness.
  same-IsSound :
      (w v : World F B)
      → SameSetup w.self v.self
      → driver.running v.bus ≡ driver.running w.bus
      → driver.device_is_ready v.bus ≡ driver.device_is_ready w.bus
      → IsSound driver w
      → IsSound driver v
  same-IsSound w v k runs ready h = ground (
    arith, k.can_dev, k.dev_ready, k.dev_started, k.rx_filter, runs, ready, h.known, h.started,
    h.filtered,
  )

  configure-IsSound :
      (w : World F B) (cfg : Option Config)
      → IsSound driver w
      → IsSound driver (record w { self = (configure ring host w.self cfg).0 })
  unfolding configure
  configure-IsSound w none h = h
  configure-IsSound w (some cfg) h = ground (arith, h.known, h.started, h.filtered)

  enable-IsSound :
      (w : World F B) (on : Bool)
      → IsSound driver w
      → IsSound driver (record w { self = (enable ring core w.self on).0 })
  unfolding enable
  enable-IsSound w on h = ground (arith, h.known, h.started, h.filtered)

  read-IsSound :
      (w : World F B) (has_buf has_out : Bool) (n : ℤ)
      → IsSound driver w
      → IsSound driver (record w { self = (read ring core w.self has_buf has_out n).0 })
  unfolding read rx_fifo_pop check_error_state
  read-IsSound w has_buf has_out n h = ground (arith, h.known, h.started, h.filtered)

  call-IsSound : (w : World F B) (c : Call) → IsSound driver w → IsSound driver (call w c)
  unfolding call set_rx_semaphore
  call-IsSound w (configures cfg) h = configure-IsSound w cfg h
  call-IsSound w (sets_rx_semaphore handle) h = ground (arith, h.known, h.started, h.filtered)
  call-IsSound w attaches h = attach-IsSound w h
  call-IsSound w detaches h = detach-IsSound w h
  call-IsSound w disposes h = dispose-IsSound w h
  call-IsSound w (enables on) h = enable-IsSound w on h
  call-IsSound w (reads has_buf has_out n) h = read-IsSound w has_buf has_out n h
  call-IsSound w (writes buf len has_out) h =
      same-IsSound w _ (write-SameSetup ring core driver w buf len has_out)
        (write-bus ring core driver driver.running driver.send-running w buf len has_out)
        (write-bus ring core driver driver.device_is_ready driver.send-ready w buf len has_out) h
  call-IsSound w (interrupts e) h =
      same-IsSound w _ (on_event-SameSetup ring core driver w.self e) refl refl h

  -- the calls of a session, one after another
  unfoldable pub session : World F B → List Call → World F B
  session w [] = w
  session w (c ∷ calls) = session (call w c) calls

  session-IsSound_from :
      (w : World F B) (calls : List Call) → IsSound driver w → IsSound driver (session w calls)
  unfolding session
  session-IsSound_from w [] h = h
  session-IsSound_from w (c ∷ calls) h = session-IsSound_from (call w c) calls (call-IsSound w c h)

  init-IsSound :
      (s : Canbus F) (model : ℕ) (bus : B)
      → driver.running bus ≡ false
      → IsSound driver (record { self = (init ring host model s).0; bus = bus })
  unfolding init
  init-IsSound s model bus off = ground (arith, off)

  -- Take a controller that does not run when the object is initialised. Whatever methods are then
  -- called, `dispose` included, and whatever callbacks run, in any order and with any answers of
  -- the driver, the controller runs exactly if the object counts it as started; if it runs, or if
  -- the object counts a filter as installed, the object is attached to a device that it found
  -- ready and that is ready.
  pub session-IsSound :
      (s : Canbus F) (model : ℕ) (bus : B) (calls : List Call)
      → driver.running bus ≡ false
      → IsSound driver (session (record { self = (init ring host model s).0; bus = bus }) calls)
  session-IsSound s model bus calls off =
      session-IsSound_from _ calls (init-IsSound s model bus off)
