-- ===== src/Touch/State.antt =====
-- The state of src/TouchController.cpp: a record for each sensor, and its two expectations.
use hardware.Base.{ℕ, Bool, true, false, List, replicate}
use hardware.Config.{num_touch_sensors}
use hardware.EventQueue.{Env}

pub record TouchSensorState : Type 0 where
  pub active : Bool
  pub current_touched : Bool
  pub debounced_touched : Bool
  pub last_reported_touched : Bool
  pub last_change_time : ℕ

pub record ExpectState : Type 0 where
  pub active : Bool
  pub command_id : ℕ

-- `has_event_queue` is `m_eventQueue != nullptr`: the firmware has one queue, which the operations
-- take as an argument.
pub record TouchController : Type 0 where
  pub has_event_queue : Bool
  pub sensors : List TouchSensorState
  pub expect_down : List ExpectState
  pub expect_up : List ExpectState
  pub last_poll_time : ℕ
  pub active_sensor_count : ℕ

abbrev pub idle_sensor : TouchSensorState
idle_sensor = record {
  active = false;
  current_touched = false;
  debounced_touched = false;
  last_reported_touched = false;
  last_change_time = 0;
}

-- No expectation: also what `clearExpectDown` and a report leave.
abbrev pub no_expectation : Env → ExpectState
no_expectation env = record { active = false; command_id = env.no_command_id }

-- The constructor.
unfoldable pub construct : Env → TouchController
construct env = record {
  has_event_queue = false;
  sensors = replicate num_touch_sensors idle_sensor;
  expect_down = replicate num_touch_sensors (no_expectation env);
  expect_up = replicate num_touch_sensors (no_expectation env);
  last_poll_time = 0;
  active_sensor_count = 0;
}

unfoldable pub set_event_queue : TouchController → TouchController
set_event_queue t = record t { has_event_queue = true }
