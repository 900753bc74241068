-- ===== src/EventQueue/Emit.antt =====
-- The emission methods of src/EventQueue.cpp: each builds one event and enqueues it. `queue_scan_done`
-- enqueues two.
use hardware.Base.{
  ℕ, ◌+◌, ◌-◌, ◌/◌, ◌%◌, Bool, true, false, List, [], ◌∷◌, ◌++◌, ltb, if◌then◌else◌,
}
use hardware.Base.Words.{codes}
use hardware.EventQueue.{
  EventType, ack, done, err, touch_down, touch_up, touched_down, touched_up, scanned, recalibrated,
  scan_result, scan_done, info, Event, EventQueue, Env, strncpy, enqueue,
}

-- An event with a position and an identifier, and no text.
abbrev plain_event : EventType → ℕ → ℕ → Event
plain_event type position command_id = record {
  type = type;
  action = [];
  position = position;
  command_id = command_id;
  extra = [];
  valid = true;
}

-- The array `action` has 12 bytes.
abbrev action_event : EventType → List ℕ → ℕ → ℕ → Event
action_event type action position command_id = record {
  type = type;
  action = strncpy action 11;
  position = position;
  command_id = command_id;
  extra = [];
  valid = true;
}

-- The array `extra` has 52 bytes.
abbrev extra_event : EventType → List ℕ → ℕ → Event
extra_event type extra command_id = record {
  type = type;
  action = [];
  position = 0;
  command_id = command_id;
  extra = strncpy extra 51;
  valid = true;
}

abbrev pub ack_event : List ℕ → ℕ → ℕ → Event
ack_event = action_event ack

abbrev pub done_event : List ℕ → ℕ → ℕ → Event
done_event = action_event done

abbrev pub error_event : List ℕ → ℕ → Event
error_event = extra_event err

abbrev pub scanned_event : List ℕ → ℕ → Event
scanned_event = extra_event scanned

abbrev pub touched_down_event : ℕ → ℕ → Event
touched_down_event = plain_event touched_down

abbrev pub touched_up_event : ℕ → ℕ → Event
touched_up_event = plain_event touched_up

abbrev pub recalibrated_event : ℕ → ℕ → Event
recalibrated_event = plain_event recalibrated

abbrev pub info_event : ℕ → Event
info_event = plain_event info 0

-- Upper-case hexadecimal digits, as `%X` prints them.
hex_digit : ℕ → ℕ
hex_digit d = if ltb d 10 then b'0' + d else b'A' + (d - 10)

-- snprintf(extra, sizeof(extra), "0x%02X", address)
pub hex_byte : ℕ → List ℕ
unfolding hex_digit
hex_byte address = codes "0x" ++ (hex_digit (address / 16) ∷ hex_digit (address % 16) ∷ [])

module _ (env : Env) where
  abbrev pub touch_down_event : ℕ → Event
  touch_down_event position = plain_event touch_down position env.no_command_id

  abbrev pub touch_up_event : ℕ → Event
  touch_up_event position = plain_event touch_up position env.no_command_id

  abbrev pub scan_done_event : Event
  scan_done_event = plain_event scan_done 0 env.no_command_id

  abbrev pub scan_result_event : ℕ → Event
  unfolding hex_byte
  scan_result_event address = extra_event scan_result (hex_byte address) env.no_command_id

unfoldable pub queue_ack : EventQueue → List ℕ → ℕ → ℕ → Bool × EventQueue
queue_ack q action position command_id = enqueue q (ack_event action position command_id)

unfoldable pub queue_done : EventQueue → List ℕ → ℕ → ℕ → Bool × EventQueue
queue_done q action position command_id = enqueue q (done_event action position command_id)

unfoldable pub queue_error : EventQueue → List ℕ → ℕ → Bool × EventQueue
queue_error q reason command_id = enqueue q (error_event reason command_id)

unfoldable pub queue_scanned : EventQueue → List ℕ → ℕ → Bool × EventQueue
queue_scanned q sensor_list command_id = enqueue q (scanned_event sensor_list command_id)

unfoldable pub queue_touched_down : EventQueue → ℕ → ℕ → Bool × EventQueue
queue_touched_down q position command_id = enqueue q (touched_down_event position command_id)

unfoldable pub queue_touched_up : EventQueue → ℕ → ℕ → Bool × EventQueue
queue_touched_up q position command_id = enqueue q (touched_up_event position command_id)

unfoldable pub queue_recalibrated : EventQueue → ℕ → ℕ → Bool × EventQueue
queue_recalibrated q position command_id = enqueue q (recalibrated_event position command_id)

unfoldable pub queue_info : EventQueue → ℕ → Bool × EventQueue
queue_info q command_id = enqueue q (info_event command_id)

module _ (env : Env) where
  unfoldable pub queue_touch_down : EventQueue → ℕ → Bool × EventQueue
  queue_touch_down q position = enqueue q (touch_down_event env position)

  unfoldable pub queue_touch_up : EventQueue → ℕ → Bool × EventQueue
  queue_touch_up q position = enqueue q (touch_up_event env position)

  unfoldable pub queue_scan_result : EventQueue → ℕ → Bool × EventQueue
  queue_scan_result q address = enqueue q (scan_result_event env address)

  unfoldable pub queue_scan_done : EventQueue → ℕ → Bool × EventQueue
  unfolding queue_done
  queue_scan_done q command_id =
      let (first, q') = enqueue q (scan_done_event env) in
      if first then queue_done q' (codes "SCAN") 0 command_id else (false, q')
