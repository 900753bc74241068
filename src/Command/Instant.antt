-- ===== src/Command/Instant.antt =====
-- The instant commands of src/CommandController.cpp, each with its answers.
use hardware.Base.{refl, Bool, true, false, [], ◌∷◌, ◌++◌, if◌then◌else◌}
use hardware.Base.Words.{codes}
use hardware.EventQueue.Emit.{
  ack_event, recalibrated_event, info_event, queue_ack, queue_error, queue_recalibrated, queue_info,
}
use hardware.Touch.Controller.{recalibrate, set_expect_down, set_expect_up}
use hardware.Led.Controller
use hardware.Led.Positions.{
  positions-show, positions-hide, positions-blink, positions-stop_blink, refuse_out_of_range,
}
use hardware.Led.Invariant as Led
use hardware.Command.Actions.{
  CommandAction, show, hide, blink, stop_blink, expect_down, expect_up, recalibrate_all, success,
  scan, sequence_completed, info, ping, invalid, action_to_string, action_is_long_running,
}
use hardware.Command.Actions
use hardware.Command.Parse.{ParsedCommand, command_id_of}
use hardware.Command.Machine.{Parts, Machine, millis_in_range, error}
use hardware.Command.Execute.{answer, recalibrate_one, instant}
use hardware.Command.Steps.{IsValid, Step, Step-trans, Step-enqueue, Step-if}
use hardware.Command.Expected.{acked, failed, done_or_failed, with_touch, instant_answers}
use hardware.Command.Changes.{
  answer-Step, in_range, led-Step, millis_in_range-Step, set_expect_down-Step, set_expect_up-Step,
  bus-Step,
}

module _ (p : Parts) where
  -- After a recalibration comes its event, if it is done.
  recalibrated-Step :
      (done : Bool) (cmd : ParsedCommand) (m : Machine p)
      → IsValid p m
      → let m₁ = answer p done cmd m in
        Step p m
          (if done
            then record m₁ {
              events =
                  (queue_recalibrated m₁.events cmd.position (command_id_of p.env p.lexer cmd)).1;
            }
            else m₁)
          (done_or_failed p done cmd
            ++ (if done
                then recalibrated_event cmd.position (command_id_of p.env p.lexer cmd) ∷ []
                else []))
  unfolding done_or_failed queue_recalibrated
  recalibrated-Step true cmd m v =
      let said = answer-Step p true cmd m v in
      Step-trans p said (
        Step-enqueue p (answer p true cmd m)
          (recalibrated_event cmd.position (command_id_of p.env p.lexer cmd)) said.valid refl)
  recalibrated-Step false cmd m v = answer-Step p false cmd m v

  recalibrate_one-Step :
      (cmd : ParsedCommand) (m : Machine p)
      → IsValid p m
      → let done = (recalibrate p.wire m.touch cmd.position_index m.bus).0 in
        Step p m (recalibrate_one p cmd m) (
          done_or_failed p done cmd
          ++ (if done
              then recalibrated_event cmd.position (command_id_of p.env p.lexer cmd) ∷ []
              else []))
  unfolding recalibrate_one
  recalibrate_one-Step cmd m v =
      let (done, bus) = recalibrate p.wire m.touch cmd.position_index m.bus in
      let moved = bus-Step p m bus v in
      Step-trans p moved (recalibrated-Step done cmd (record m { bus = bus }) moved.valid)

  pub no_touch-Step :
      (cmd : ParsedCommand) (m : Machine p)
      → IsValid p m
      → Step p m
          (error p (codes "no_touch_controller") (command_id_of p.env p.lexer cmd) m)
          (failed p "no_touch_controller" cmd ∷ [])
  unfolding failed queue_error
  no_touch-Step cmd m v = Step-enqueue p m (failed p "no_touch_controller" cmd) v refl

  unknown-Step :
      (cmd : ParsedCommand) (m : Machine p)
      → IsValid p m
      → Step p m
          (error p (codes "unknown_action") (command_id_of p.env p.lexer cmd) m)
          (failed p "unknown_action" cmd ∷ [])
  unfolding failed queue_error
  unknown-Step cmd m v = Step-enqueue p m (failed p "unknown_action" cmd) v refl

  pub instant-Step :
      (a : CommandAction) (cmd : ParsedCommand) (m : Machine p)
      → IsValid p m
      → Step p m (instant p a cmd m) (instant_answers p a cmd m)
  unfolding instant instant_answers with_touch Led.call acked queue_ack queue_info
  instant-Step show cmd m v =
      let i = cmd.position_index in
      led-Step p cmd m (Controller.show p.pixels m.led i) v
        (Led.call-IsValid p.pixels (Led.shows i) m.led v.led)
        (in_range p i m.led (Controller.show p.pixels m.led i)
          (λ h. (positions-show p.pixels m.led i h).0)
          (λ h. (refuse_out_of_range p.pixels m.led i 0 h).0))
  instant-Step hide cmd m v =
      let i = cmd.position_index in
      led-Step p cmd m (Controller.hide p.pixels m.led i) v
        (Led.call-IsValid p.pixels (Led.hides i) m.led v.led)
        (in_range p i m.led (Controller.hide p.pixels m.led i)
          (λ h. (positions-hide p.pixels m.led i h).0)
          (λ h. (refuse_out_of_range p.pixels m.led i 0 h).1))
  instant-Step blink cmd m v =
      let i = cmd.position_index in
      let (now, m₁) = millis_in_range p i m in
      let looked = millis_in_range-Step p i m v in
      Step-trans p looked (
        led-Step p cmd m₁ (Controller.blink p.pixels now m.led i) looked.valid
          (Led.call-IsValid p.pixels (Led.blinks now i) m.led v.led)
          (in_range p i m.led (Controller.blink p.pixels now m.led i)
            (λ h. (positions-blink p.pixels m.led i h now).0)
            (λ h. (refuse_out_of_range p.pixels m.led i now h).2)))
  instant-Step stop_blink cmd m v =
      let i = cmd.position_index in
      led-Step p cmd m (Controller.stop_blink p.pixels m.led i) v
        (Led.call-IsValid p.pixels (Led.stops_blink i) m.led v.led)
        (in_range p i m.led (Controller.stop_blink p.pixels m.led i)
          (λ h. (positions-stop_blink p.pixels m.led i h).0)
          (λ h. (refuse_out_of_range p.pixels m.led i 0 h).3))
  instant-Step Actions.recalibrate cmd m v =
      Step-if p m.has_touch (recalibrate_one-Step cmd m v) (no_touch-Step cmd m v)
  instant-Step expect_down cmd m v =
      let id = command_id_of p.env p.lexer cmd in
      let noted = set_expect_down-Step p m cmd.position_index id v in
      Step-if p m.has_touch
        (Step-trans p noted (
          Step-enqueue p (record m { touch = set_expect_down m.touch cmd.position_index id })
            (acked p cmd cmd.position) noted.valid refl))
        (no_touch-Step cmd m v)
  instant-Step expect_up cmd m v =
      let id = command_id_of p.env p.lexer cmd in
      let noted = set_expect_up-Step p m cmd.position_index id v in
      Step-if p m.has_touch
        (Step-trans p noted (
          Step-enqueue p (record m { touch = set_expect_up m.touch cmd.position_index id })
            (acked p cmd cmd.position) noted.valid refl))
        (no_touch-Step cmd m v)
  instant-Step info cmd m v = Step-enqueue p m (info_event (command_id_of p.env p.lexer cmd)) v refl
  instant-Step ping cmd m v =
      Step-enqueue p m (ack_event (codes "PING") 0 (command_id_of p.env p.lexer cmd)) v refl
  instant-Step invalid cmd m v = unknown-Step cmd m v
  instant-Step success cmd m v = unknown-Step cmd m v
  instant-Step scan cmd m v = unknown-Step cmd m v
  instant-Step recalibrate_all cmd m v = unknown-Step cmd m v
  instant-Step sequence_completed cmd m v = unknown-Step cmd m v
