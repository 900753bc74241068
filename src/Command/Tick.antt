-- ===== src/Command/Tick.antt =====
-- `begin`, `tick`, `processCompletedLines` and `injectCommand` of src/CommandController.cpp.
use hardware.Base.{
  ℕ, zero, suc, ◌+◌, Bool, true, false, not, ◌&&◌, Option, none, some, List, [], ◌∷◌, if◌then◌else◌,
  get_or, ltb, leb, length, ◌==◌, drop,
}
use hardware.Base.Words.{codes, add8}
use hardware.Config.{num_touch_sensors, command_queue_size}
use hardware.EventQueue.Emit.{queue_recalibrated, queue_scanned}
use hardware.Touch.Controller.{recalibrate, build_active_sensor_list}
use hardware.Led.Controller
use hardware.Led.Update
use hardware.Command.Actions.{CommandAction, success, scan, recalibrate_all, sequence_completed}
use hardware.Command.Parse.{
  Parsed, accepted, rejected, parse_line, has_prefix, command_id_of, deref,
}
use hardware.Command.Rx.{begin_rx, extract_line}
use hardware.Command.Machine.{Parts, Machine, QueuedCommand, no_command, done, error, put_command}
use hardware.Command.Execute.{execute_command}

-- for (i = 0; i < COMMAND_QUEUE_SIZE; i++) m_commandQueue[i].active = false
unfoldable pub deactivate : List QueuedCommand → List QueuedCommand
deactivate [] = []
deactivate (qc ∷ qcs) = record qc { active = false } ∷ deactivate qcs

all_active : List QueuedCommand → Bool
all_active [] = true
all_active (qc ∷ qcs) = qc.active && all_active qcs

module _ (p : Parts) where
  unfoldable pub begin : Machine p → Machine p
  unfolding deactivate
  begin m = record m { rx = begin_rx m.rx; commands = deactivate m.commands }

  unfoldable pub is_queue_full : Machine p → Bool
  unfolding all_active
  is_queue_full m = all_active m.commands

  -- qc.active = false
  abbrev pub retire : ℕ → QueuedCommand → Machine p → Machine p
  retire i qc m = put_command p i (record qc { active = false }) m

  -- for (i = 0; i < SENSORS_PER_TICK && scanAddress < NUM_TOUCH_SENSORS; i++): the sensor reached, and
  -- the state.
  unfoldable pub recalibrate_some : ℕ → ℕ → Machine p → ℕ × Machine p
  recalibrate_some zero scan_address m = (scan_address, m)
  recalibrate_some (suc rounds) scan_address m =
      let bus = (recalibrate p.wire m.touch scan_address m.bus).1 in
      let rest = recalibrate_some rounds (add8 scan_address 1) (record m { bus = bus }) in
      if ltb scan_address num_touch_sensors then rest else (scan_address, m)

  -- The `switch` of `tickCommand` for the entry `qc` in slot `i`.
  unfoldable pub tick_action : CommandAction → ℕ → QueuedCommand → Machine p → Machine p
  tick_action success i qc m =
      let id = command_id_of p.env p.lexer qc.command in
      if Controller.is_animation_complete p.pixels m.led qc.command.position_index
      then retire i qc (done p (codes "SUCCESS") qc.command.position id m)
      else m
  tick_action scan i qc m =
      let id = command_id_of p.env p.lexer qc.command in
      let sensors = build_active_sensor_list m.touch 52 in
      let m₁ =
        if m.has_touch then record m { events = (queue_scanned m.events sensors id).1 } else m in
      retire i qc m₁
  tick_action recalibrate_all i qc m =
      let id = command_id_of p.env p.lexer qc.command in
      let (reached, m₁) = recalibrate_some 5 qc.scan_address m in
      let qc' = record qc { scan_address = reached } in
      if m.has_touch
      then (if leb num_touch_sensors reached
          then retire i qc' (record m₁ { events = (queue_recalibrated m₁.events 0 id).1 })
          else put_command p i qc' m₁)
      else retire i qc m
  tick_action sequence_completed i qc m =
      let id = command_id_of p.env p.lexer qc.command in
      if Update.is_sequence_completed_animation_complete p.pixels m.led
      then retire i qc (done p (codes "SEQUENCE_COMPLETED") 0 id m)
      else m
  tick_action _ i qc m = retire i qc m

  unfoldable pub tick_command : ℕ → Machine p → Machine p
  tick_command i m =
      let qc = get_or m.commands i no_command in
      if not qc.active then m else tick_action qc.command.action i qc m

  -- for (i = 0; i < COMMAND_QUEUE_SIZE; i++) if (active) tickCommand
  unfoldable pub tick_from : ℕ → ℕ → Machine p → Machine p
  tick_from zero i m = m
  tick_from (suc rounds) i m =
      tick_from rounds (i + 1)
        (if (get_or m.commands i no_command).active then tick_command i m else m)

  unfoldable pub tick : Machine p → Machine p
  tick m = tick_from command_queue_size 0 m

  -- What follows `parseLine`: an error is queued, a command executed.
  unfoldable pub run_parsed : Parsed → Machine p → Machine p
  run_parsed (accepted cmd) m = execute_command p cmd m
  run_parsed (rejected reason id) m = error p reason id m

  -- A line has at most as many tokens as characters. `none` means that the parser did not end.
  unfoldable pub run_line : List ℕ → Machine p → Option (Machine p)
  run_line line m = elim (parse_line p.env p.lexer (length line + 1) line) [
    | none ↦ none
    | some parsed ↦ some (run_parsed parsed m)
  ]

  -- The body of the loop of `processCompletedLines` after `extractLine` has returned true.
  unfoldable pub process_line : Machine p → Option (Machine p)
  process_line m =
      let line = p.lexer.skip_whitespace m.rx.line in
      let run = run_line line m in
      if m.rx.overflow
      then some (
          error p (codes "line_too_long") p.env.no_command_id
            (record m { rx = record m.rx { overflow = false } }))
      else (if deref line == 0 then some m else run)

  -- while (extractLine()): each round frees a slot of the ring, so 128 rounds are enough. `none` means
  -- that a loop did not end.
  unfoldable pub process_completed_lines : ℕ → Machine p → Option (Machine p)
  process_completed_lines zero m = none
  process_completed_lines (suc fuel) m =
      let (found, rx) = extract_line m.rx in
      let m₁ = record m { rx = rx } in
      elim found [
        | false ↦ some m₁
        | true ↦ elim (process_line m₁) [ none ↦ none | some m₂ ↦ process_completed_lines fuel m₂ ]
      ]

  -- The prefix "PI> " is dropped; a null line is an empty one here.
  unfoldable pub inject_command : List ℕ → Machine p → Option (Machine p)
  inject_command line m =
      let rest = if has_prefix (codes "PI> ") line then drop 4 line else line in
      if deref line == 0 then some m else run_line rest m
