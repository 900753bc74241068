-- ===== src/Touch/Poll.antt =====
-- `pollSensors` and `processDebounce` of src/TouchController.cpp. Each loop is a recursion on the
-- arrays that it walks; `i` is the loop's index.
use hardware.Base.{ℕ, ◌+◌, Bool, not, List, [], ◌∷◌, leb, bool_eq, if◌then◌else◌}
use hardware.Base.Words.{sub32}
use hardware.Config.{debounce_ms}
use hardware.EventQueue.{EventQueue, Env}
use hardware.EventQueue.Emit.{
  queue_touched_down, queue_touched_up, queue_touch_down, queue_touch_up,
}
use hardware.Touch.State.{TouchSensorState, ExpectState, no_expectation}
use hardware.Touch.Letters.{index_to_letter}
use hardware.Touch.I2c.{Wire, read_raw_touch}

-- The raw state changes to `touched`: note the time.
unfoldable pub observe : ℕ → Bool → TouchSensorState → TouchSensorState
observe now touched s =
    if bool_eq touched s.current_touched
    then s
    else record s { current_touched = touched; last_change_time = now }

module _ (w : Wire) where
  open w use {Bus}

  unfoldable pub poll_sensors :
      ℕ → List ℕ → List TouchSensorState → Bus → List TouchSensorState × Bus
  poll_sensors now [] ss bus = (ss, bus)
  poll_sensors now (a ∷ addresses) [] bus = ([], bus)
  poll_sensors now (address ∷ addresses) (s ∷ ss) bus =
      let (touched, bus₁) = read_raw_touch w address bus in
      let s' = if s.active then observe now touched s else s in
      let (ss', bus₂) = poll_sensors now addresses ss (if s.active then bus₁ else bus) in
      (s' ∷ ss', bus₂)

-- One sensor with its expectations, and the queue.
pub record Slot : Type 0 where
  pub sensor : TouchSensorState
  pub down : ExpectState
  pub up : ExpectState
  pub queue : EventQueue

module _ (env : Env) where
  -- A change that has not been reported yet: the event, and the expectation that it uses up.
  unfoldable pub emit_touch : ℕ → Slot → Slot
  emit_touch i x =
      let letter = index_to_letter i in
      if x.sensor.debounced_touched
      then (if x.down.active
          then record x {
            queue = (queue_touched_down x.queue letter x.down.command_id).1;
            down = no_expectation env;
          }
          else record x { queue = (queue_touch_down env x.queue letter).1 })
      else (if x.up.active
          then record x {
            queue = (queue_touched_up x.queue letter x.up.command_id).1;
            up = no_expectation env;
          }
          else record x { queue = (queue_touch_up env x.queue letter).1 })

  -- The body of the loop of `processDebounce`, for the sensor with index `i`.
  unfoldable pub debounce_one : Bool → ℕ → ℕ → Slot → Slot
  debounce_one has_event_queue now i x =
      let s = x.sensor in
      let settled = record s { debounced_touched = s.current_touched } in
      let reported = record settled { last_reported_touched = s.current_touched } in
      if not s.active
      then x
      else if not (leb debounce_ms (sub32 now s.last_change_time))
      then x
      else if bool_eq s.current_touched s.debounced_touched
      then x
      else if bool_eq s.current_touched s.last_reported_touched
      then record x { sensor = settled }
      else if has_event_queue
      then emit_touch i (record x { sensor = reported })
      else record x { sensor = reported }

  -- The arrays after the loop, and the queue.
  pub record Debounced : Type 0 where
    pub sensors : List TouchSensorState
    pub expect_down : List ExpectState
    pub expect_up : List ExpectState
    pub queue : EventQueue

  unfoldable pub debounce_from :
      Bool
      → ℕ
      → ℕ
      → List TouchSensorState
      → List ExpectState
      → List ExpectState
      → EventQueue
      → Debounced
  debounce_from has now i (s ∷ ss) (d ∷ ds) (u ∷ us) q =
      let x = debounce_one has now i (record { sensor = s; down = d; up = u; queue = q }) in
      let rest = debounce_from has now (i + 1) ss ds us x.queue in
      record {
        sensors = x.sensor ∷ rest.sensors;
        expect_down = x.down ∷ rest.expect_down;
        expect_up = x.up ∷ rest.expect_up;
        queue = rest.queue;
      }
  debounce_from has now i ss ds us q = record {
    sensors = ss;
    expect_down = ds;
    expect_up = us;
    queue = q;
  }
