-- ===== src/Tests/Command.antt =====
-- The command controller at concrete states.
use hardware.Base.{
  List, ℕ, get_or, set, ap, get_or-replicate, some, true, ◌≡◌, refl, false, [], ◌∷◌, ◌++◌,
  replicate, arith,
}
use hardware.Base.Words.{codes}
use hardware.Command.Rx.{Rx, poll_serial}
use hardware.Tests.State.{waiting, waiting-IsValid}
use hardware.Command.Rx.{extract_line}
use hardware.Command.Machine.{Machine, QueuedCommand, no_command}
use hardware.Command.Tick.{tick_command, tick}
use hardware.Command.Recalibration.{recalibrate_all-five_ticks}
use hardware.Touch.State.{TouchSensorState, idle_sensor, construct}
use hardware.Touch.Controller.{recalibrate_all_sensors}
use hardware.Command.LastWords.{is_over, last_words, sensor_after}
use hardware.Command.Endings.{tick_command_ends}
use hardware.Command.Steps as Steps
use hardware.EventQueue.{send_event}
use hardware.EventQueue.Emit.{scanned_event, ack_event, done_event, queue_ack, queue_recalibrated}
use hardware.Command.AckLine.{sent_name, line_end, send_event-action_to_string}
use hardware.Command.Actions.{recalibrate_all, show, scan, action_to_string}
use hardware.Command.Parse.{Parsed, accepted, ParsedCommand, parse_line}
use hardware.Command.Lines.{extract, extracted}
use hardware.Command.Extract.{extract_line_refines}
use hardware.Command.WellFormed.{Sound, parse_line-Sound}
use hardware.Command.RoundTrip.{command_of, parse_line-command_line}
use hardware.Command.Execute.{queued, execute_command}
use hardware.Command.Expected.{answers}
use hardware.Command.Steps.{Step}
use hardware.Command.Answers.{execute_command-answers}
use hardware.Touch.Letters.{letter_to_index}
use hardware.Tests.Parts.{env, wire, lexer, lexer_laws, parts}
use hardware.Tests.State.{silent, machine, machine-IsValid}
use hardware.Command.Ring.{IsValid, bytes, offer_all, poll_serial_refines}

poll_serial_refines_example :
    (bytes (poll_serial waiting (codes "HOW")) ≡ offer_all (bytes waiting) (codes "HOW"))
    × IsValid (poll_serial waiting (codes "HOW"))
poll_serial_refines_example = poll_serial_refines (codes "HOW") waiting waiting-IsValid

-- The line that the waiting byte begins.
abbrev received : Rx
received = record {
  buffer = (codes "HOW A\n" ++ replicate 121 0) ++ (b'S' ∷ []);
  head = 6;
  tail = 127;
  line = [];
  line_index = 0;
  overflow = false;
}

received-IsValid : IsValid received
received-IsValid = record {
  slots = refl;
  head_in = omega arith;
  tail_in = omega arith;
  index_in = omega arith;
  index_at = refl;
}

extract_line_refines_example :
    let (found, r') = extract_line received in
    (extracted found r' ≡ extract (bytes received)) × IsValid r'
extract_line_refines_example = extract_line_refines received received-IsValid

-- What that line is.
shown_line : (extract (codes "SHOW A\n")).line ≡ codes "SHOW A"
shown_line = refl

parse_line-command_line_example :
    (parse_line env lexer 20 (codes "SHOW c #12")
      ≡ some (accepted (command_of env lexer lexer_laws show b'c' b'1' (codes "2"))))
    × (parse_line env lexer 20 (codes "PI> SHOW c #12")
        ≡ some (accepted (command_of env lexer lexer_laws show b'c' b'1' (codes "2"))))
unfolding action_to_string letter_to_index
parse_line-command_line_example =
    parse_line-command_line env lexer lexer_laws b'c' b'1' (codes "2") (omega arith) (omega arith)
      (omega arith, omega arith) ((omega arith, omega arith), tt) 20 show (λ e. ground (arith, e))
      (omega arith)

abbrev show_e : ParsedCommand
show_e = record {
  action = show;
  has_position = true;
  position = b'E';
  position_index = 4;
  has_id = true;
  id = 7;
  valid = true;
}

execute_command-answers_example :
    Step parts machine (execute_command parts show_e machine) (answers parts show_e machine)
execute_command-answers_example = execute_command-answers parts show_e machine machine-IsValid

-- A scan that has been acknowledged.
abbrev scanning : QueuedCommand
scanning = record {
  command = record show_e { action = scan; has_position = false; position = 0 };
  active = true;
  start_time = 10;
  state = 0;
  scan_address = 0;
}

-- Sensors C and E answer, and the scan is the first command in the queue.
abbrev answering : TouchSensorState
answering = record idle_sensor { active = true }

abbrev found : List TouchSensorState
found = set (set (replicate 25 idle_sensor) 2 answering) 4 answering

abbrev scan_waits : Machine parts
scan_waits = record machine {
  commands = scanning ∷ replicate 7 no_command;
  touch = record machine.touch { sensors = found };
}

scan_waits-IsValid : Steps.IsValid parts scan_waits
unfolding construct
scan_waits-IsValid = record {
  rx = machine-IsValid.rx;
  led = machine-IsValid.led;
  events = machine-IsValid.events;
  linked = refl;
  commands = refl;
}

tick_command_ends_example :
    Step parts scan_waits (tick_command parts 0 scan_waits) (scanned_event (codes "C,E") 7 ∷ [])
    × ((tick_command parts 0 scan_waits).commands
        ≡ record scanning { active = false } ∷ replicate 7 no_command)
unfolding construct is_over last_words sensor_after
tick_command_ends_example = tick_command_ends parts 0 scan_waits scan_waits-IsValid (omega arith)

send_event-action_to_string_example :
    (send_event env (ack_event (action_to_string recalibrate_all) 0 3)
      ≡ codes "ARDUINO> ACK " ++ (sent_name recalibrate_all ++ line_end env 0 3))
    × (send_event env (done_event (action_to_string recalibrate_all) 0 3)
        ≡ codes "ARDUINO> DONE " ++ (sent_name recalibrate_all ++ line_end env 0 3))
send_event-action_to_string_example = send_event-action_to_string env recalibrate_all 0 3

abbrev everything : ParsedCommand
everything = record show_e { action = recalibrate_all; has_position = false; position = 0 }

all_free : (k : ℕ) → (get_or machine.commands k no_command).active ≡ false
unfolding construct
all_free k = ap (λ (qc : QueuedCommand). qc.active) (get_or-replicate 8 no_command k)

recalibrate_all-five_ticks_example :
    let begun = execute_command parts everything machine in
    let four = tick parts (tick parts (tick parts (tick parts begun))) in
    (begun.events ≡ (queue_ack silent (codes "RECALIBRATE_ALL") 0 7).1)
    × (four.events ≡ begun.events)
    × (tick parts four ≡ record machine {
      bus = recalibrate_all_sensors wire machine.touch 0;
      calls = 1;
      commands =
          set
            (replicate 8 no_command)
            0
            (record (queued parts everything 0) { active = false; scan_address = 25 });
      events = (queue_recalibrated begun.events 0 7).1;
    })
unfolding construct
recalibrate_all-five_ticks_example =
    recalibrate_all-five_ticks parts everything machine refl all_free refl

parse_line-Sound_example :
    (parsed : Parsed) × (parse_line env lexer 20 (codes "PI> SHOW ? #12") ≡ some parsed)
    × Sound env lexer parsed
parse_line-Sound_example =
    parse_line-Sound env lexer lexer_laws 20 (codes "PI> SHOW ? #12") (omega arith)
