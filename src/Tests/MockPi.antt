-- ===== src/Tests/MockPi.antt =====
-- The Mock Pi at concrete inputs.
use hardware.Base.{
  ℕ, zero, suc, ◌<◌, ◌≡◌, ◌≢◌, refl, sym, subst, get_or, false, none, some, List, [], ◌∷◌, ◌++◌,
  map, replicate, take, inr, arith, ltb,
}
use hardware.Base.Words.{codes, sub32}
use hardware.Command.Actions.{expect_down, action_to_string}
use hardware.Command.Execute.{execute_command}
use hardware.EventQueue.{send_event}
use hardware.EventQueue.Emit.{ack_event, done_event}
use hardware.Touch.Letters.{letter_to_index}
use hardware.MockPi.State.{
  MockPi, World, single, simultaneous, sequence_simple, sequence_simultaneous, two_hand_sequence,
  record_playback, step_show, two_hand_show, recording, SequenceStep, blank_step, world_millis,
}
use hardware.MockPi.Start.{to_upper, is_position, start_sequence_simple, start_two_hand_sequence}
use hardware.MockPi.Spec.{start_sequence_simultaneous, parse_simultaneous_spec}
use hardware.MockPi.Touch.{poll_touch_state}
use hardware.MockPi.Feed.{read_event}
use hardware.MockPi.Update.{update_state_machine, send_command_with_pos}
use hardware.MockPi.Letters.{letters}
use hardware.MockPi.Sequence.{shown_steps, start_sequence_simple-letters}
use hardware.MockPi.TwoHand.{start_two_hand_sequence-letters, start_endless, IsOther}
use hardware.MockPi.Groups.{one, group}
use hardware.MockPi.SpecTrip.{start_sequence_simultaneous-print_spec}
use hardware.MockPi.SpecFits.{Fits, parse_simultaneous_spec-Fits}
use hardware.MockPi.Polling.{Polled, poll_touch_state-Records}
use hardware.MockPi.Feeding.{bare, read_event-send_event, read_event_error}
use hardware.MockPi.Obeyed.{command, send_command_with_pos-executes}
use hardware.MockPi.Follows.{Follows}
use hardware.MockPi.Cases.{update_state_machine-Follows}
use hardware.Tests.Parts.{env, parts, lexer_laws}
use hardware.Tests.State.{machine, machine-IsValid}
use hardware.Tests.World.{decimal_laws, unseen, unseen_laws, mock_pi, mock_pi-Shaped, world}

abbrev letters_text : List ℕ
letters_text = codes "Ab, c!z"

start_sequence_simple-letters_example :
    let found = take 25 (letters letters_text) in
    (w' : World parts) × (start_sequence_simple unseen 20 letters_text world ≡ some w')
    × (shown_steps w'.pi ≡ map (λ c. (single, c ∷ [])) found)
    × (w'.pi.state ≡ step_show)
    × (w'.pi.program ≡ sequence_simple)
    × (w'.pi.current_step ≡ 0)
    × (w'.sent ≡ [])
start_sequence_simple-letters_example =
    start_sequence_simple-letters unseen unseen_laws 20 letters_text world (omega arith)
      (omega arith) (omega arith) (omega arith) mock_pi-Shaped

start_two_hand_sequence-letters_example :
    (w' : World parts) × (start_two_hand_sequence unseen 20 (codes "ABCDEFG") world ≡ some w')
    × (w'.pi.two_hand_positions ≡ codes "ABCDEFG")
    × (w'.pi.two_hand_count ≡ 7)
    × (w'.pi.state ≡ two_hand_show)
    × (w'.pi.program ≡ two_hand_sequence)
    × (w'.pi.two_hand_current ≡ 0)
    × (w'.sent ≡ [])
start_two_hand_sequence-letters_example =
    start_two_hand_sequence-letters unseen unseen_laws 20 (codes "ABCDEFG") world (omega arith)
      (omega arith) (omega arith) (omega arith)

start_sequence_simultaneous-print_spec_example :
    (w' : World parts) × (start_sequence_simultaneous unseen 9 (codes "A,(C+D+E),B") world
      ≡ some w')
    × (shown_steps w'.pi
        ≡ (single, codes "A") ∷ (simultaneous, codes "CDE") ∷ (single, codes "B") ∷ [])
    × (w'.pi.state ≡ step_show)
    × (w'.pi.program ≡ sequence_simultaneous)
    × (w'.pi.current_step ≡ 0)
    × (w'.sent ≡ [])
start_sequence_simultaneous-print_spec_example =
    start_sequence_simultaneous-print_spec unseen unseen_laws 9 (one b'A')
      (group b'C' (codes "DE") ∷ one b'B' ∷ []) world (omega arith) (omega arith) (omega arith)
      (omega arith) mock_pi-Shaped

-- An unfinished group, and more letters than a group may have.
parse_simultaneous_spec-Fits_example :
    (pi' : MockPi) × (parse_simultaneous_spec 30 (codes "(A+B+C+D+E+F),x (g") mock_pi
      ≡ some (ltb 0 pi'.step_count, pi'))
    × Fits pi'
parse_simultaneous_spec-Fits_example =
    parse_simultaneous_spec-Fits 30 (codes "(A+B+C+D+E+F),x (g") mock_pi (omega arith)
      mock_pi-Shaped

read_event-send_event_example :
    (read_event env.no_command_id
        (send_event (bare env) (ack_event (codes "RECALIBRATE_ALL") b'C' 1042))
      ≡ record { event_type = codes "ACK"; position = b'C'; id = 1042 })
    × (read_event env.no_command_id
          (send_event (bare env) (done_event (codes "RECALIBRATE_ALL") b'C' 1042))
        ≡ record { event_type = codes "DONE"; position = b'C'; id = 1042 })
read_event-send_event_example =
    read_event-send_event env decimal_laws b'R' (codes "ECALIBRATE_ALL") b'C' 1042 (ground arith)
      (inr (omega arith, omega arith)) (omega arith)

read_event_error_example :
    read_event env.no_command_id (codes "ARDUINO> ERR busy #7")
    ≡ record { event_type = codes "ERR"; position = b'B'; id = env.no_command_id }
read_event_error_example =
    read_event_error env.no_command_id b'b' b'u' (codes "sy #7") (omega arith) (omega arith) refl
      (omega arith)

-- A step of two positions, at its start.
abbrev pair : SequenceStep
pair = record blank_step {
  type = simultaneous;
  position_count = 2;
  positions = codes "CD" ++ (0 ∷ 0 ∷ 0 ∷ []);
}

abbrev showing : World parts
unfolding mock_pi
showing = record world {
  pi = record mock_pi {
    program = sequence_simultaneous;
    state = step_show;
    steps = pair ∷ replicate 24 blank_step;
    step_count = 1;
  };
}

update_state_machine-Follows_example :
    let (now, w₁) = world_millis parts showing in
    Follows unseen step_show now
      (sub32 now showing.pi.state_start_time)
      w₁
      (update_state_machine unseen showing)
unfolding showing
update_state_machine-Follows_example =
    update_state_machine-Follows unseen unseen_laws lexer_laws showing refl machine-IsValid

send_command_with_pos-executes_example :
    let m =
      execute_command parts (command parts lexer_laws decimal_laws expect_down b'C' 1000) machine in
    send_command_with_pos parts (action_to_string expect_down) b'C' world
    ≡ some (record world {
      pi = record mock_pi { command_id = 1001; last_action_time = m.clock m.calls };
      machine = record m { calls = suc m.calls };
      sent = codes "EXPECT_DOWN C #1000" ∷ [];
    })
unfolding action_to_string letter_to_index mock_pi
send_command_with_pos-executes_example =
    send_command_with_pos-executes parts lexer_laws decimal_laws expect_down b'C' world
      (λ e. ground (arith, e)) (λ e. ground (arith, e)) (omega arith) (omega arith) refl
      (omega arith)

-- Recording, with C noted and no sensor touched any more.
abbrev recording_c : World parts
unfolding mock_pi
recording_c = record world {
  pi = record mock_pi {
    program = record_playback;
    state = recording;
    recorded_sequence = codes "C";
    recorded_count = 1;
    previous_touched = 4;
    currently_touched = 4;
  };
}

poll_touch_state-Records_example :
    Polled unseen unseen_laws (codes "C") recording_c (poll_touch_state unseen recording_c)
unfolding recording_c
poll_touch_state-Records_example =
    poll_touch_state-Records unseen unseen_laws recording_c (codes "C") refl refl (λ h. omega arith)
      (record { holds = refl; count = refl; room = omega arith; distinct = (refl, tt) })

-- A text of 256 blanks.
abbrev blanks : List ℕ
blanks = replicate 256 b' '

get_or-blanks : (n k : ℕ) → k < n → ◌≡◌ {A = ℕ} (get_or (replicate n b' ') k 0) b' '
get_or-blanks zero k h = absurd (omega arith)
get_or-blanks (suc n) zero h = refl
get_or-blanks (suc n) (suc k) h = get_or-blanks n k (omega arith)

blanks-IsOther : (k : ℕ) → k < 256 → IsOther blanks k
blanks-IsOther k h =
    let e : ◌≡◌ {A = ℕ} (get_or (replicate 256 b' ') k 0) b' ' = get_or-blanks 256 k h in
    subst (λ c. (c ≢ 0) × (is_position (to_upper c) ≡ false)) (sym e) (omega arith, refl)

start_endless_example :
    (start_sequence_simple unseen 1000 blanks world ≡ none)
    × (start_two_hand_sequence unseen 1000 blanks world ≡ none)
start_endless_example = start_endless unseen 1000 blanks world blanks-IsOther
