-- ===== src/Command/Expected.antt =====
-- The events that each command of src/CommandController.cpp is answered with.
use hardware.Base.{ℕ, String, Bool, false, not, ◌||◌, List, [], ◌∷◌, ◌++◌, ltb, if◌then◌else◌}
use hardware.Base.Words.{codes}
use hardware.EventQueue.{Event}
use hardware.EventQueue.Emit.{ack_event, error_event, recalibrated_event, info_event}
use hardware.Touch.Controller.{recalibrate}
use hardware.Command.Actions.{
  CommandAction, show, hide, blink, stop_blink, expect_down, expect_up, recalibrate_all, success,
  scan, sequence_completed, info, ping, invalid, action_to_string, action_is_long_running,
}
use hardware.Command.Actions
use hardware.Command.Parse.{ParsedCommand, command_id_of}
use hardware.Command.Machine.{Parts, Machine, QueuedCommand}

-- Is there an entry that is free?
abbrev pub some_free : List QueuedCommand → Bool
some_free [] = false
some_free (qc ∷ qcs) = not qc.active || some_free qcs

module _ (p : Parts) where
  unfoldable pub acked : ParsedCommand → ℕ → Event
  acked cmd position =
      ack_event (action_to_string cmd.action) position (command_id_of p.env p.lexer cmd)

  unfoldable pub failed : String → ParsedCommand → Event
  failed reason cmd = error_event (codes reason) (command_id_of p.env p.lexer cmd)

  -- ACK if it is done, and else the error.
  unfoldable pub done_or_failed : Bool → ParsedCommand → List Event
  unfolding acked failed
  done_or_failed done cmd =
      if done then acked cmd cmd.position ∷ [] else failed "command_failed" cmd ∷ []

  -- The answers to an action that needs the touch controller.
  unfoldable pub with_touch : Bool → ParsedCommand → List Event → List Event
  unfolding failed
  with_touch has_touch cmd es = if has_touch then es else failed "no_touch_controller" cmd ∷ []

  -- What the host hears of an instant command.
  unfoldable pub instant_answers : CommandAction → ParsedCommand → Machine p → List Event
  unfolding acked failed done_or_failed with_touch
  instant_answers show cmd m = done_or_failed (ltb cmd.position_index 25) cmd
  instant_answers hide cmd m = done_or_failed (ltb cmd.position_index 25) cmd
  instant_answers blink cmd m = done_or_failed (ltb cmd.position_index 25) cmd
  instant_answers stop_blink cmd m = done_or_failed (ltb cmd.position_index 25) cmd
  instant_answers Actions.recalibrate cmd m =
      let done = (recalibrate p.wire m.touch cmd.position_index m.bus).0 in
      with_touch m.has_touch cmd (
        done_or_failed done cmd
        ++ (if done
            then recalibrated_event cmd.position (command_id_of p.env p.lexer cmd) ∷ []
            else []))
  instant_answers expect_down cmd m = with_touch m.has_touch cmd (acked cmd cmd.position ∷ [])
  instant_answers expect_up cmd m = with_touch m.has_touch cmd (acked cmd cmd.position ∷ [])
  instant_answers info cmd m = info_event (command_id_of p.env p.lexer cmd) ∷ []
  instant_answers ping cmd m = ack_event (codes "PING") 0 (command_id_of p.env p.lexer cmd) ∷ []
  instant_answers _ cmd m = failed "unknown_action" cmd ∷ []

  -- What it hears when a command for later comes, by whether a place is free: without a touch controller
  -- a scan or a recalibration of all has two errors.
  unfoldable pub queued_answers : CommandAction → ParsedCommand → Bool → List Event
  unfolding acked failed
  queued_answers success cmd has_touch = acked cmd cmd.position ∷ []
  queued_answers sequence_completed cmd has_touch = acked cmd 0 ∷ []
  queued_answers scan cmd has_touch =
      if has_touch
      then acked cmd 0 ∷ []
      else failed "no_touch_controller" cmd ∷ failed "busy" cmd ∷ []
  queued_answers recalibrate_all cmd has_touch =
      if has_touch
      then acked cmd 0 ∷ []
      else failed "no_touch_controller" cmd ∷ failed "busy" cmd ∷ []
  queued_answers _ cmd has_touch = []

  unfoldable pub answers : ParsedCommand → Machine p → List Event
  unfolding acked failed instant_answers queued_answers
  answers cmd m =
      if action_is_long_running cmd.action
      then (if some_free m.commands
          then queued_answers cmd.action cmd m.has_touch
          else failed "busy" cmd ∷ [])
      else instant_answers cmd.action cmd m
