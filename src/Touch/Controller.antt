-- ===== src/Touch/Controller.antt =====
-- The public methods of src/TouchController.cpp. `millis()` is an argument for each call of it.
use hardware.Base.{
  ℕ, zero, suc, ◌+◌, Bool, true, false, not, List, [], ◌∷◌, ◌++◌, ltb, leb, if◌then◌else◌, get_or,
  set,
}
use hardware.Base.Words.{sub32, add8}
use hardware.Config.{
  num_touch_sensors, touch_poll_interval_ms, sensor_i2c_addresses, cap1188_reg_calibration_active,
  cs1_bit_mask,
}
use hardware.EventQueue.{EventQueue, Env}
use hardware.Touch.State.{TouchSensorState, TouchController, idle_sensor, no_expectation}
use hardware.Touch.Letters.{index_to_letter}
use hardware.Touch.I2c.{Wire, write_register, init_sensor, recover_i2c_bus}
use hardware.Touch.Poll.{poll_sensors, debounce_from}

-- The element of an array that every operation reads after its bounds check.
abbrev pub sensor_at : TouchController → ℕ → TouchSensorState
sensor_at t i = get_or t.sensors i idle_sensor

unfoldable pub set_expect_down : TouchController → ℕ → ℕ → TouchController
set_expect_down t i command_id = if leb num_touch_sensors i then t else record t {
  expect_down = set t.expect_down i (record { active = true; command_id = command_id });
}

unfoldable pub set_expect_up : TouchController → ℕ → ℕ → TouchController
set_expect_up t i command_id = if leb num_touch_sensors i then t else record t {
  expect_up = set t.expect_up i (record { active = true; command_id = command_id });
}

unfoldable pub clear_expect_down : Env → TouchController → ℕ → TouchController
clear_expect_down env t i =
    if leb num_touch_sensors i
    then t
    else record t { expect_down = set t.expect_down i (no_expectation env) }

unfoldable pub clear_expect_up : Env → TouchController → ℕ → TouchController
clear_expect_up env t i =
    if leb num_touch_sensors i
    then t
    else record t { expect_up = set t.expect_up i (no_expectation env) }

unfoldable pub is_sensor_active : TouchController → ℕ → Bool
is_sensor_active t i = if leb num_touch_sensors i then false else (sensor_at t i).active

unfoldable pub is_touched : TouchController → ℕ → Bool
is_touched t i = if leb num_touch_sensors i then false else (sensor_at t i).debounced_touched

-- The loop of `buildActiveSensorList` from sensor `i` on: `out` is buffer[0..pos), `break` returns.
unfoldable pub list_from : ℕ → List TouchSensorState → ℕ → List ℕ → ℕ → Bool → List ℕ
list_from size [] i out pos first = out
list_from size (s ∷ ss) i out pos first =
    let needed = if first then 2 else 3 in
    let out' = (if first then out else out ++ (b',' ∷ [])) ++ (index_to_letter i ∷ []) in
    let pos' = if first then pos + 1 else pos + 2 in
    let added = list_from size ss (i + 1) out' pos' false in
    let skipped = list_from size ss (i + 1) out pos first in
    if s.active then (if ltb size (pos + needed) then out else added) else skipped

-- What the buffer holds afterwards as a C string; a buffer of no bytes is left alone.
unfoldable pub build_active_sensor_list : TouchController → ℕ → List ℕ
build_active_sensor_list t size = if leb size 0 then [] else list_from size t.sensors 0 [] 0 true

module _ (w : Wire) where
  open w use {Bus}

  unfoldable pub recalibrate : TouchController → ℕ → Bus → Bool × Bus
  recalibrate t i bus =
      let (done, bus₁) =
        write_register w (get_or sensor_i2c_addresses i 0) cap1188_reg_calibration_active
          cs1_bit_mask bus in
      if leb num_touch_sensors i
      then (false, bus)
      else (if not (sensor_at t i).active then (false, bus) else (done, bus₁))

  -- for (i = 0; i < NUM_TOUCH_SENSORS; i++) if (m_sensors[i].active) recalibrate(i)
  unfoldable pub recalibrate_from : ℕ → TouchController → ℕ → Bus → Bus
  unfolding recalibrate
  recalibrate_from zero t i bus = bus
  recalibrate_from (suc n) t i bus =
      recalibrate_from n t (i + 1) (if (sensor_at t i).active then (recalibrate t i bus).1 else bus)

  unfoldable pub recalibrate_all_sensors : TouchController → Bus → Bus
  unfolding recalibrate_from
  recalibrate_all_sensors t bus = recalibrate_from num_touch_sensors t 0 bus

  -- The loop of `begin` over the sensors: the sensors, the number found, the bus.
  unfoldable pub init_sensors :
      List ℕ → List TouchSensorState → ℕ → Bus → List TouchSensorState × ℕ × Bus
  init_sensors [] ss n bus = (ss, n, bus)
  init_sensors (a ∷ addresses) [] n bus = ([], n, bus)
  init_sensors (address ∷ addresses) (s ∷ ss) n bus =
      let (found, bus₁) = init_sensor w address bus in
      let (ss', n', bus₂) = init_sensors addresses ss (if found then add8 n 1 else n) bus₁ in
      (record idle_sensor { active = found } ∷ ss', n', bus₂)

  -- Wire.begin(); Wire.setClock(I2C_CLOCK_SPEED); recoverI2CBus(); then the sensors
  unfoldable pub begin : TouchController → Bus → Bool × TouchController × Bus
  begin t bus =
      let ready = recover_i2c_bus w 100000 (w.set_clock 100000 (w.start bus)) in
      let (ss, n, bus₁) = init_sensors sensor_i2c_addresses t.sensors 0 ready in
      (ltb 0 n, record t { sensors = ss; active_sensor_count = n }, bus₁)

  -- `now`, `poll_time` and `debounce_time` are what the three calls of `millis()` return.
  unfoldable pub tick :
      Env → ℕ → ℕ → ℕ → TouchController → EventQueue → Bus → TouchController × EventQueue × Bus
  tick env now poll_time debounce_time t q bus =
      let (ss, bus₁) = poll_sensors w poll_time sensor_i2c_addresses t.sensors bus in
      let d = debounce_from env t.has_event_queue debounce_time 0 ss t.expect_down t.expect_up q in
      if ltb (sub32 now t.last_poll_time) touch_poll_interval_ms then (t, q, bus) else (
        record t {
          sensors = d.sensors;
          expect_down = d.expect_down;
          expect_up = d.expect_up;
          last_poll_time = now;
        },
        d.queue,
        bus₁,
      )
