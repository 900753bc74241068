-- ===== src/Command/Execute.antt =====
-- `executeCommand`, `executeInstant` and `queueCommand` of src/CommandController.cpp.
use hardware.Base.{
  ℕ, ◌+◌, Bool, true, false, not, Option, none, some, List, [], ◌∷◌, if◌then◌else◌, get_or,
}
use hardware.Base.Words.{codes}
use hardware.EventQueue.Emit.{queue_recalibrated, queue_info}
use hardware.Touch.Controller.{recalibrate, set_expect_down, set_expect_up}
use hardware.Led.Controller
use hardware.Led.Update
use hardware.Command.Actions.{
  CommandAction, show, hide, blink, stop_blink, expect_down, expect_up, recalibrate_all, success,
  scan, sequence_completed, info, ping, action_to_string, action_is_long_running,
}
use hardware.Command.Actions
use hardware.Command.Parse.{ParsedCommand, command_id_of}
use hardware.Command.Machine.{
  Parts, Machine, QueuedCommand, no_command, millis, millis_in_range, ack, error, put_command,
}

module _ (p : Parts) where
  -- The common end of the LED commands: ACK with the position, or the error.
  abbrev pub answer : Bool → ParsedCommand → Machine p → Machine p
  answer done cmd m =
      let id = command_id_of p.env p.lexer cmd in
      if done
      then ack p (action_to_string cmd.action) cmd.position id m
      else error p (codes "command_failed") id m

  unfoldable pub recalibrate_one : ParsedCommand → Machine p → Machine p
  recalibrate_one cmd m =
      let id = command_id_of p.env p.lexer cmd in
      let (done, bus) = recalibrate p.wire m.touch cmd.position_index m.bus in
      let m₁ = answer done cmd (record m { bus = bus }) in
      if done then record m₁ { events = (queue_recalibrated m₁.events cmd.position id).1 } else m₁

  -- The `switch` of `executeInstant`.
  unfoldable pub instant : CommandAction → ParsedCommand → Machine p → Machine p
  instant show cmd m =
      let (done, led) = Controller.show p.pixels m.led cmd.position_index in
      answer done cmd (record m { led = led })
  instant hide cmd m =
      let (done, led) = Controller.hide p.pixels m.led cmd.position_index in
      answer done cmd (record m { led = led })
  instant blink cmd m =
      let (now, m₁) = millis_in_range p cmd.position_index m in
      let (done, led) = Controller.blink p.pixels now m.led cmd.position_index in
      answer done cmd (record m₁ { led = led })
  instant stop_blink cmd m =
      let (done, led) = Controller.stop_blink p.pixels m.led cmd.position_index in
      answer done cmd (record m { led = led })
  instant Actions.recalibrate cmd m =
      if m.has_touch
      then recalibrate_one cmd m
      else error p (codes "no_touch_controller") (command_id_of p.env p.lexer cmd) m
  instant expect_down cmd m =
      let id = command_id_of p.env p.lexer cmd in
      if m.has_touch
      then ack p (action_to_string cmd.action) cmd.position id
          (record m { touch = set_expect_down m.touch cmd.position_index id })
      else error p (codes "no_touch_controller") id m
  instant expect_up cmd m =
      let id = command_id_of p.env p.lexer cmd in
      if m.has_touch
      then ack p (action_to_string cmd.action) cmd.position id
          (record m { touch = set_expect_up m.touch cmd.position_index id })
      else error p (codes "no_touch_controller") id m
  instant info cmd m = record m {
    events = (queue_info m.events (command_id_of p.env p.lexer cmd)).1;
  }
  instant ping cmd m = ack p (codes "PING") 0 (command_id_of p.env p.lexer cmd) m
  instant _ cmd m = error p (codes "unknown_action") (command_id_of p.env p.lexer cmd) m

  unfoldable pub execute_instant : ParsedCommand → Machine p → Machine p
  execute_instant cmd m = instant cmd.action cmd m

  -- The first slot that is not active.
  unfoldable pub first_free : List QueuedCommand → ℕ → Option ℕ
  first_free [] i = none
  first_free (qc ∷ qcs) i = if qc.active then first_free qcs (i + 1) else some i

  -- What `queueCommand` does once the slot `i` holds the command.
  unfoldable pub start_command : CommandAction → ℕ → ParsedCommand → Machine p → Bool × Machine p
  start_command success i cmd m =
      let id = command_id_of p.env p.lexer cmd in
      let (now, m₁) = millis_in_range p cmd.position_index m in
      let led = (Controller.success p.pixels now m.led cmd.position_index).1 in
      (true, ack p (action_to_string cmd.action) cmd.position id (record m₁ { led = led }))
  start_command scan i cmd m =
      let id = command_id_of p.env p.lexer cmd in
      if m.has_touch then (true, ack p (action_to_string cmd.action) 0 id m) else (
        false,
        put_command p i (record (get_or m.commands i no_command) { active = false })
            (error p (codes "no_touch_controller") id m),
      )
  start_command recalibrate_all i cmd m =
      let id = command_id_of p.env p.lexer cmd in
      if m.has_touch then (true, ack p (action_to_string cmd.action) 0 id m) else (
        false,
        put_command p i (record (get_or m.commands i no_command) { active = false })
            (error p (codes "no_touch_controller") id m),
      )
  start_command sequence_completed i cmd m =
      let id = command_id_of p.env p.lexer cmd in
      let (now, m₁) = millis p m in
      let led = Update.start_sequence_completed_animation p.pixels now m.led in
      (true, ack p (action_to_string cmd.action) 0 id (record m₁ { led = led }))
  start_command _ i cmd m = (true, m)

  -- The slot as `queueCommand` fills it.
  abbrev pub queued : ParsedCommand → ℕ → QueuedCommand
  queued cmd now = record {
    command = cmd;
    active = true;
    start_time = now;
    state = 0;
    scan_address = 0;
  }

  unfoldable pub queue_command : ParsedCommand → Machine p → Bool × Machine p
  queue_command cmd m = elim (first_free m.commands 0) [
    | none ↦ (false, m)
    | some i ↦
        let (now, m₁) = millis p m in
        start_command cmd.action i cmd (put_command p i (queued cmd now) m₁)
  ]

  unfoldable pub execute_command : ParsedCommand → Machine p → Machine p
  execute_command cmd m =
      let id = command_id_of p.env p.lexer cmd in
      let (taken, m₁) = queue_command cmd m in
      if action_is_long_running cmd.action
      then (if not taken then error p (codes "busy") id m₁ else m₁)
      else execute_instant cmd m
