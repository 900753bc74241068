-- ===== src/Command/Ticks.antt =====
-- One tick of the long-running commands of src/CommandController.cpp: which of them end, and with which
-- events.
use hardware.Base.{
  ℕ, zero, suc, ◌+◌, ◌≡◌, refl, Bool, true, false, not, List, [], ◌∷◌, ◌++◌, ltb, leb,
  if◌then◌else◌, get_or,
}
use hardware.Base.Words.{codes, add8}
use hardware.EventQueue.{Event, enqueue}
use hardware.EventQueue.Emit.{
  done_event, scanned_event, recalibrated_event, queue_done, queue_scanned, queue_recalibrated,
}
use hardware.Touch.Controller.{recalibrate, build_active_sensor_list}
use hardware.Led.Controller
use hardware.Led.Update
use hardware.Command.Actions.{
  CommandAction, show, hide, blink, stop_blink, expect_down, expect_up, recalibrate_all, success,
  scan, sequence_completed, info, ping, invalid,
}
use hardware.Command.Actions
use hardware.Command.Parse.{command_id_of}
use hardware.Command.Machine.{Parts, Machine, QueuedCommand, no_command}
use hardware.Command.Tick.{retire, recalibrate_some, tick_action, tick_command, tick_from, tick}
use hardware.Command.Steps.{
  IsValid, Step, Step-trans, Step-if, Step-silent, Step-enqueue, Step-put_command,
}
use hardware.Command.Changes.{bus-Step}

module _ (p : Parts) where
  -- The events of an entry of the command queue in one tick.
  unfoldable pub tick_events : CommandAction → QueuedCommand → Machine p → List Event
  tick_events success qc m =
      if Controller.is_animation_complete p.pixels m.led qc.command.position_index
      then done_event (codes "SUCCESS") qc.command.position (command_id_of p.env p.lexer qc.command)
        ∷ []
      else []
  tick_events scan qc m =
      if m.has_touch
      then scanned_event (build_active_sensor_list m.touch 52)
          (command_id_of p.env p.lexer qc.command)
        ∷ []
      else []
  tick_events recalibrate_all qc m =
      if m.has_touch
      then (if leb 25 (recalibrate_some p 5 qc.scan_address m).0
          then recalibrated_event 0 (command_id_of p.env p.lexer qc.command) ∷ []
          else [])
      else []
  tick_events sequence_completed qc m =
      if Update.is_sequence_completed_animation_complete p.pixels m.led
      then done_event (codes "SEQUENCE_COMPLETED") 0 (command_id_of p.env p.lexer qc.command) ∷ []
      else []
  tick_events _ qc m = []

  recalibrate_some-Step :
      (rounds address : ℕ) (m : Machine p)
      → IsValid p m
      → Step p m (recalibrate_some p rounds address m).1 []
  unfolding recalibrate_some
  recalibrate_some-Step zero address m v = Step-silent p m v refl refl
  recalibrate_some-Step (suc rounds) address m v =
      let bus = (recalibrate p.wire m.touch address m.bus).1 in
      let one = bus-Step p m bus v in
      let rest = recalibrate_some-Step rounds (add8 address 1) (record m { bus = bus }) one.valid in
      either (ltb address 25) (recalibrate_some p rounds (add8 address 1) (record m { bus = bus }))
        (address, m) (Step-trans p one rest) (Step-silent p m v refl refl)
    where
      either :
          (b : Bool) (x y : ℕ × Machine p)
          → Step p m x.1 []
          → Step p m y.1 []
          → Step p m (if b then x else y).1 []
      either true x y h k = h
      either false x y h k = k

  -- An event, and the end of the command.
  retire-Step :
      (i : ℕ) (qc : QueuedCommand) (e : Event) (m : Machine p)
      → IsValid p m
      → e.valid ≡ true
      → Step p m (retire p i qc (record m { events = (enqueue m.events e).1 })) (e ∷ [])
  retire-Step i qc e m v l =
      let said = Step-enqueue p m e v l in
      Step-trans p said (
        Step-put_command p (record m { events = (enqueue m.events e).1 }) i
          (record qc { active = false }) said.valid)

  retire_if-Step :
      (b : Bool) (i : ℕ) (qc : QueuedCommand) (e : Event) (m : Machine p)
      → IsValid p m
      → e.valid ≡ true
      → Step p m
          (retire p i qc (if b then record m { events = (enqueue m.events e).1 } else m))
          (if b then e ∷ [] else [])
  retire_if-Step true i qc e m v l = retire-Step i qc e m v l
  retire_if-Step false i qc e m v l = Step-put_command p m i (record qc { active = false }) v

  -- Every entry ticks as its action says: a SUCCESS or SEQUENCE_COMPLETED ends with DONE once its
  -- animation is complete, a scan at once with the active sensors, a recalibration of all when it has
  -- reached the last sensor.
  pub tick_action-events :
      (a : CommandAction) (i : ℕ) (qc : QueuedCommand) (m : Machine p)
      → IsValid p m
      → Step p m (tick_action p a i qc m) (tick_events a qc m)
  unfolding tick_action tick_events queue_done queue_scanned queue_recalibrated
  tick_action-events success i qc m v =
      Step-if p (Controller.is_animation_complete p.pixels m.led qc.command.position_index)
        (retire-Step i qc
          (done_event (codes "SUCCESS") qc.command.position
            (command_id_of p.env p.lexer qc.command))
          m v refl)
        (Step-silent p m v refl refl)
  tick_action-events sequence_completed i qc m v =
      Step-if p (Update.is_sequence_completed_animation_complete p.pixels m.led)
        (retire-Step i qc
          (done_event (codes "SEQUENCE_COMPLETED") 0 (command_id_of p.env p.lexer qc.command)) m v
          refl)
        (Step-silent p m v refl refl)
  tick_action-events scan i qc m v =
      retire_if-Step m.has_touch i qc
        (scanned_event (build_active_sensor_list m.touch 52)
          (command_id_of p.env p.lexer qc.command))
        m v refl
  tick_action-events recalibrate_all i qc m v =
      let (reached, m₁) = recalibrate_some p 5 qc.scan_address m in
      let qc' : QueuedCommand = record qc { scan_address = reached } in
      let worked = recalibrate_some-Step 5 qc.scan_address m v in
      Step-if p m.has_touch
        (Step-if p (leb 25 reached)
          (Step-trans p worked (
            retire-Step i qc' (recalibrated_event 0 (command_id_of p.env p.lexer qc.command)) m₁
              worked.valid refl))
          (Step-trans p worked (Step-put_command p m₁ i qc' worked.valid)))
        (Step-put_command p m i (record qc { active = false }) v)
  tick_action-events invalid i qc m v = Step-put_command p m i (record qc { active = false }) v
  tick_action-events show i qc m v = Step-put_command p m i (record qc { active = false }) v
  tick_action-events hide i qc m v = Step-put_command p m i (record qc { active = false }) v
  tick_action-events blink i qc m v = Step-put_command p m i (record qc { active = false }) v
  tick_action-events stop_blink i qc m v = Step-put_command p m i (record qc { active = false }) v
  tick_action-events expect_down i qc m v = Step-put_command p m i (record qc { active = false }) v
  tick_action-events expect_up i qc m v = Step-put_command p m i (record qc { active = false }) v
  tick_action-events Actions.recalibrate i qc m v =
      Step-put_command p m i (record qc { active = false }) v
  tick_action-events info i qc m v = Step-put_command p m i (record qc { active = false }) v
  tick_action-events ping i qc m v = Step-put_command p m i (record qc { active = false }) v

  -- A tick of the executor keeps the machine valid and reads no serial bytes.
  tick_command-Step :
      (i : ℕ) (m : Machine p) → IsValid p m → (es : List Event) × Step p m (tick_command p i m) es
  unfolding tick_command
  tick_command-Step i m v =
      let qc = get_or m.commands i no_command in
      (
        (if not qc.active then [] else tick_events qc.command.action qc m),
        Step-if p (not qc.active) (Step-silent p m v refl refl)
            (tick_action-events qc.command.action i qc m v),
      )

  tick_from-Step :
      (rounds i : ℕ) (m : Machine p)
      → IsValid p m
      → (es : List Event) × Step p m (tick_from p rounds i m) es
  unfolding tick_from
  tick_from-Step zero i m v = ([], Step-silent p m v refl refl)
  tick_from-Step (suc rounds) i m v =
      let active = (get_or m.commands i no_command).active in
      let (es, one) = tick_command-Step i m v in
      let now : Step p m (if active then tick_command p i m else m) (if active then es else []) =
        Step-if p active one (Step-silent p m v refl refl) in
      let (fs, rest) =
        tick_from-Step rounds (i + 1) (if active then tick_command p i m else m) now.valid in
      ((if active then es else []) ++ fs, Step-trans p now rest)

  pub tick-Step : (m : Machine p) → IsValid p m → (es : List Event) × Step p m (tick p m) es
  unfolding tick
  tick-Step m v = tick_from-Step 8 0 m v
