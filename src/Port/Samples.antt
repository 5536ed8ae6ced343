-- ===== src/Port/Samples.antt =====
-- Concrete instances of the interfaces, which show that their laws can be met.
use dtmc_zephyr.Prelude.{
  ℕ, Bool, ◌+◌, ◌-◌, ◌≡◌, ◌≢◌, refl, min, true, false, Option, none, some, List, [], ◌∷◌, ◌++◌,
  length, take, drop,
}
use dtmc_zephyr.Err.{Errno, eagain, Rc, success, negative, is_positive, is_negative}
use dtmc_zephyr.Port.Ring.{RingFifo}
use dtmc_zephyr.Port.Core.{CoreHelper, int32_max}
use dtmc_zephyr.Port.Host.{Host}
use dtmc_zephyr.Port.Can.{error_active, CanFrame, CanEvent, CanDriver}

-- A queue that holds at most `cap` bytes.
pub record Queue : Type 0 where
  pub cap : ℕ
  pub held : List ℕ

abbrev pub queue_ring : RingFifo Queue
queue_ring = record {
  contents = λ q. q.held;
  room = λ q. q.cap - length q.held;
  blank = record { cap = 0; held = [] };
  init = λ q. (q, none);
  configure = λ q n. (record { cap = n; held = [] }, none);
  push = λ q bytes. (
    record q { held = q.held ++ take (min (length bytes) (q.cap - length q.held)) bytes },
    min (length bytes) (q.cap - length q.held),
  );
  pop = λ q n. (record q { held = drop n q.held }, take n q.held);
  reset = λ q. record q { held = [] };
  push_count = λ q bytes. refl;
  push_contents = λ q bytes. refl;
  pop_bytes = λ q n. refl;
  pop_contents = λ q n. refl;
  reset_contents = λ q. refl;
}

abbrev pub clamping : CoreHelper
clamping = record {
  add32 = λ a b. min (a + b) int32_max;
  inc32 = λ a. min (a + 1) int32_max;
  add32_clamps = λ a b h. refl;
  inc32_clamps = λ a h. refl;
}

abbrev pub willing_host : Host
willing_host = record {
  has_memory = true;
  dtiox_set_vtable = λ n. none;
  dtobject_set_vtable = λ n. none;
  dtbuffer_create = λ n. none;
}

-- A bus that is started or not, with the answers that it will give to sends, and those that it accepted.
pub record Bus : Type 0 where
  pub sent : List CanFrame
  pub on : Bool
  pub answers : List (Option Errno × List CanEvent)

abbrev pub to_rc : Option Errno → Rc
to_rc none = success
to_rc (some e) = negative e

-- The answer to a send: the next one, success when there are no more.
abbrev pub answer : List (Option Errno × List CanEvent) → Option Errno × List CanEvent
answer [] = (none, [])
answer (a ∷ more) = a

abbrev pub later : List (Option Errno × List CanEvent) → List (Option Errno × List CanEvent)
later [] = []
later (a ∷ more) = more

abbrev pub add_if : Option Errno → List CanFrame → CanFrame → List CanFrame
add_if none frames f = frames ++ (f ∷ [])
add_if (some e) frames f = frames

pub add_if_accepts :
    (o : Option Errno) (fs : List CanFrame) (f : CanFrame)
    → to_rc o ≡ success
    → add_if o fs f ≡ fs ++ (f ∷ [])
add_if_accepts none fs f h = refl
add_if_accepts (some e) fs f h = cc

pub add_if_refuses :
    (o : Option Errno) (fs : List CanFrame) (f : CanFrame) → to_rc o ≢ success → add_if o fs f ≡ fs
add_if_refuses none fs f h = absurd (h refl)
add_if_refuses (some e) fs f h = refl

pub to_rc_result : (o : Option Errno) → is_positive (to_rc o) ≡ false
to_rc_result none = refl
to_rc_result (some e) = refl

pub success_is_not_negative : {X : Type 0} → is_negative success ≡ true → X
success_is_not_negative h = cc

abbrev pub scripted : CanDriver Bus
scripted = record {
  accepted = λ b. b.sent;
  running = λ b. b.on;
  can_send = λ b f ms. (
    record b { sent = add_if (answer b.answers).0 b.sent f; answers = later b.answers },
    to_rc (answer b.answers).0,
    (answer b.answers).1,
  );
  can_bytes_to_dlc = λ n. n;
  can_dlc_to_bytes = λ n. n;
  frame_ide = 1;
  device_is_ready = λ b. true;
  can_start = λ b. (record b { on = true }, success);
  can_stop = λ b. record b { on = false };
  can_get_state = λ b state cnt. (success, error_active, cnt);
  can_add_rx_filter = λ b. (b, success);
  can_remove_rx_filter = λ b n. b;
  dlc_exact = λ n h. refl;
  start_runs = λ b h. refl;
  start_fails = λ b h. success_is_not_negative h;
  stop_stops = λ b. refl;
  send-running = λ b f ms. refl;
  filter-running = λ b. refl;
  unfilter-running = λ b id. refl;
  start-ready = λ b. refl;
  stop-ready = λ b. refl;
  send-ready = λ b f ms. refl;
  filter-ready = λ b. refl;
  unfilter-ready = λ b id. refl;
  send_accepts = λ b f ms. add_if_accepts (answer b.answers).0 b.sent f;
  send_refuses = λ b f ms. add_if_refuses (answer b.answers).0 b.sent f;
  send_result = λ b f ms. to_rc_result (answer b.answers).0;
}

pub eagain_is_no_success : {X : Type 0} → negative eagain ≡ success → X
eagain_is_no_success h = cc

-- A bus on which every send times out.
abbrev pub dead : CanDriver Bus
dead = record {
  accepted = λ b. b.sent;
  running = λ b. b.on;
  can_send = λ b f ms. (b, negative eagain, []);
  can_bytes_to_dlc = λ n. n;
  can_dlc_to_bytes = λ n. n;
  frame_ide = 1;
  device_is_ready = λ b. true;
  can_start = λ b. (record b { on = true }, success);
  can_stop = λ b. record b { on = false };
  can_get_state = λ b state cnt. (success, error_active, cnt);
  can_add_rx_filter = λ b. (b, success);
  can_remove_rx_filter = λ b n. b;
  dlc_exact = λ n h. refl;
  start_runs = λ b h. refl;
  start_fails = λ b h. success_is_not_negative h;
  stop_stops = λ b. refl;
  send-running = λ b f ms. refl;
  filter-running = λ b. refl;
  unfilter-running = λ b id. refl;
  start-ready = λ b. refl;
  stop-ready = λ b. refl;
  send-ready = λ b f ms. refl;
  filter-ready = λ b. refl;
  unfilter-ready = λ b id. refl;
  send_accepts = λ b f ms h. eagain_is_no_success h;
  send_refuses = λ b f ms h. refl;
  send_result = λ b f ms. refl;
}
