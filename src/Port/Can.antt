-- ===== src/Port/Can.antt =====
-- The Zephyr CAN driver. A send blocks until the frame is queued or the time is over, and the
-- callbacks that run meanwhile are its last result, in their order.
use dtmc_zephyr.Prelude.{ℕ, ◌≤◌, ◌≡◌, ◌≢◌, Bool, true, false, List, [], ◌∷◌, ◌++◌, Option}
use dtmc_zephyr.Err.{Rc, success, is_positive, is_negative}

-- `enum can_state`: the states that the sources name, and the rest.
pub data CanState : Type 0 where
  error_active error_warning error_passive bus_off stopped : CanState
  unknown : ℕ → CanState

-- `struct can_bus_err_cnt`
pub record CanBusErrCnt : Type 0 where
  pub tx_err_cnt : ℕ
  pub rx_err_cnt : ℕ

-- `struct can_frame`; `bytes` is its array of 8 bytes.
pub record CanFrame : Type 0 where
  pub id : ℕ
  pub dlc : ℕ
  pub flags : ℕ
  pub bytes : List ℕ

-- A call of one of the three callbacks, with its arguments (a frame pointer may be NULL).
pub data CanEvent : Type 0 where
  rx_event : Option CanFrame → CanEvent
  tx_event : Rc → CanEvent
  state_change_event : CanState → CanBusErrCnt → CanEvent

pub record CanDriver (B : Type 0) : Type 0 where
  -- the frames that the bus has accepted, oldest first
  pub accepted : B → List CanFrame
  -- whether the controller is started
  pub running : B → Bool
  -- `can_send` of a frame with a timeout in milliseconds
  pub can_send : B → CanFrame → ℕ → B × Rc × List CanEvent
  pub can_bytes_to_dlc : ℕ → ℕ
  pub can_dlc_to_bytes : ℕ → ℕ
  -- CAN_FRAME_IDE
  pub frame_ide : ℕ
  pub device_is_ready : B → Bool
  pub can_start : B → B × Rc
  pub can_stop : B → B
  -- the result, and what the out pointers point to afterwards
  pub can_get_state : B → CanState → CanBusErrCnt → Rc × CanState × CanBusErrCnt
  -- the id of a new catch-all filter, or an error
  pub can_add_rx_filter : B → B × Rc
  pub can_remove_rx_filter : B → ℕ → B
  -- the documented behaviour
  pub dlc_exact : (n : ℕ) → n ≤ 8 → can_dlc_to_bytes (can_bytes_to_dlc n) ≡ n
  pub send_accepts :
      (b : B) (f : CanFrame) (ms : ℕ)
      → (can_send b f ms).1 ≡ success
      → accepted (can_send b f ms).0 ≡ accepted b ++ (f ∷ [])
  pub send_refuses :
      (b : B) (f : CanFrame) (ms : ℕ)
      → (can_send b f ms).1 ≢ success
      → accepted (can_send b f ms).0 ≡ accepted b
  -- a start that fails changes nothing, and a device that is ready stays so
  pub start_runs : (b : B) → is_negative (can_start b).1 ≡ false → running (can_start b).0 ≡ true
  pub start_fails :
      (b : B) → is_negative (can_start b).1 ≡ true → running (can_start b).0 ≡ running b
  pub stop_stops : (b : B) → running (can_stop b) ≡ false
  pub send-running : (b : B) (f : CanFrame) (ms : ℕ) → running (can_send b f ms).0 ≡ running b
  pub filter-running : (b : B) → running (can_add_rx_filter b).0 ≡ running b
  pub unfilter-running : (b : B) (id : ℕ) → running (can_remove_rx_filter b id) ≡ running b
  pub start-ready : (b : B) → device_is_ready (can_start b).0 ≡ device_is_ready b
  pub stop-ready : (b : B) → device_is_ready (can_stop b) ≡ device_is_ready b
  pub send-ready :
      (b : B) (f : CanFrame) (ms : ℕ) → device_is_ready (can_send b f ms).0 ≡ device_is_ready b
  pub filter-ready : (b : B) → device_is_ready (can_add_rx_filter b).0 ≡ device_is_ready b
  pub unfilter-ready :
      (b : B) (id : ℕ) → device_is_ready (can_remove_rx_filter b id) ≡ device_is_ready b
  pub send_result : (b : B) (f : CanFrame) (ms : ℕ) → is_positive (can_send b f ms).1 ≡ false
