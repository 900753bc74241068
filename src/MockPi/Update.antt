-- ===== src/MockPi/Update.antt =====
-- `update`, `updateStateMachine` and the sending of commands of src/MockPiPrograms.cpp.
use Prim.Native.Nat.{bit_and}
use hardware.Base.{
  ℕ, ◌-◌, ◌/◌, Bool, true, false, not, ◌&&◌, Option, some, List, [], ◌∷◌, ◌++◌, ltb, leb, ◌==◌,
  if◌then◌else◌, take,
}
use hardware.Base.Words.{add8, add32, sub32, codes}
use hardware.Command.Machine.{Parts, millis}
use hardware.Command.Tick.{inject_command}
use hardware.MockPi.State.{
  mock_pi_step_timeout_ms, mock_pi_simultaneous_window_ms, mock_pi_inter_step_delay_ms,
  MockPiProgram, no_program, record_playback, StepType, single, simultaneous, MockPiState, idle,
  step_show, step_expect_down, step_wait_touch, step_success, step_expect_up, step_wait_release,
  step_hide, step_next, sequence_complete, two_hand_show, two_hand_expect_down, two_hand_wait_touch,
  two_hand_success, two_hand_final_cleanup, recording, ◌>>=◌, World, put_pi, world_millis, Unseen,
}
use hardware.MockPi.Start.{is_none}
use hardware.MockPi.Touch.{step_positions, two_hand_position, poll_touch_state}

abbrev pub is_simultaneous : StepType → Bool
is_simultaneous simultaneous = true
is_simultaneous single = false

abbrev pub is_record_playback : MockPiProgram → Bool
is_record_playback record_playback = true
is_record_playback _ = false

module _ (p : Parts) where
  -- snprintf(buf, 32, "%s %c #%lu", action, pos, id)
  abbrev pub line_with_pos : List ℕ → ℕ → ℕ → List ℕ
  line_with_pos action pos id = take 31 (action ++ (b' ' ∷ pos ∷ b' ' ∷ b'#' ∷ p.env.decimal id))

  -- snprintf(buf, 32, "SEQUENCE_COMPLETED #%lu", id)
  abbrev pub line_completed : ℕ → List ℕ
  line_completed id = take 31 (codes "SEQUENCE_COMPLETED #" ++ p.env.decimal id)

  unfoldable pub send_command : List ℕ → World p → Option (World p)
  send_command cmd w = do
    machine ← if w.pi.has_command then inject_command p cmd w.machine else some w.machine
    let (now, machine') = millis p machine
    some (record w {
      pi = record w.pi { last_action_time = now };
      machine = machine';
      sent = w.sent ++ (cmd ∷ []);
    })

  -- m_commandId++
  abbrev pub next_id : World p → World p
  next_id w = put_pi p (record w.pi { command_id = add32 w.pi.command_id 1 }) w

  unfoldable pub send_command_with_pos : List ℕ → ℕ → World p → Option (World p)
  send_command_with_pos action pos w =
      send_command (line_with_pos action pos w.pi.command_id) (next_id w)

  -- for (i = 0; i < step.positionCount; i++) sendCommandWithPos(action, step.positions[i])
  unfoldable pub send_all : List ℕ → List ℕ → World p → Option (World p)
  send_all action [] w = some w
  send_all action (pos ∷ positions) w =
      send_command_with_pos action pos w >>= λ w'. send_all action positions w'

module _ {p : Parts} (u : Unseen p) where
  -- The positions of the step on which the state machine works.
  abbrev pub positions_now : World p → List ℕ
  positions_now w = step_positions (u.current_step_data w.pi)

  -- The action for each position of the step, and then the next state.
  unfoldable pub send_and_go : List ℕ → List ℕ → MockPiState → World p → Option (World p)
  unfolding send_all
  send_and_go action positions next w = do
    w' ← send_all p action positions w
    some (u.transition_to next w')

  -- The same once the delay between steps is over.
  abbrev pub when_due : ℕ → Option (World p) → World p → Option (World p)
  when_due elapsed act w = if leb mock_pi_inter_step_delay_ms elapsed then act else some w

  -- m_stepTouchedMask = 0; m_firstTouchTime = 0;
  abbrev pub clear_touches : World p → World p
  clear_touches w = put_pi p (record w.pi { step_touched_mask = 0; first_touch_time = 0 }) w

  -- step.type == SIMULTANEOUS && m_firstTouchTime > 0, the window is over, and not all have been touched
  abbrev pub window_expired : ℕ → World p → Bool
  window_expired now w =
      is_simultaneous (u.current_step_data w.pi).type
      && (ltb 0 w.pi.first_touch_time
          && (ltb mock_pi_simultaneous_window_ms (sub32 now w.pi.first_touch_time)
              && not (u.all_step_positions_touched w.pi)))

  unfoldable pub wait_touch : ℕ → ℕ → World p → Option (World p)
  unfolding send_and_go
  wait_touch now elapsed w =
      if leb mock_pi_step_timeout_ms elapsed
      then some (u.transition_to step_show w)
      else if window_expired now w
      then send_and_go (codes "HIDE") (positions_now w) step_show (clear_touches w)
      else if u.all_step_positions_touched w.pi
      then some (u.transition_to step_success w)
      else some w

  unfoldable pub wait_release : ℕ → World p → World p
  wait_release elapsed w =
      if leb (mock_pi_step_timeout_ms / 2) elapsed
      then u.transition_to step_hide w
      else if u.all_step_positions_released w.pi
      then u.transition_to step_hide w
      else w

  -- m_currentStep++; m_stepTouchedMask = 0; ...
  unfoldable pub go_to_next : World p → World p
  go_to_next w =
      let pi = record w.pi { current_step = add8 w.pi.current_step 1; step_touched_mask = 0 } in
      u.transition_to (if leb pi.step_count pi.current_step then sequence_complete else step_show)
        (put_pi p pi w)

  unfoldable pub complete : World p → Option (World p)
  complete w = do
    w' ← send_command p (line_completed p w.pi.command_id) (next_id p w)
    if is_record_playback w'.pi.program
        then some (
            u.transition_to recording
              (put_pi p (record w'.pi { recorded_count = 0; recorded_sequence = [] }) w'))
        else some (u.transition_to idle (put_pi p (record w'.pi { program = no_program }) w'))

  unfoldable pub show_two_hand : World p → Option (World p)
  show_two_hand w =
      if ltb w.pi.two_hand_current w.pi.two_hand_count
      then (send_command_with_pos p (codes "SHOW") (two_hand_position w.pi) w >>= λ w'.
          some (u.transition_to two_hand_expect_down w'))
      else some (
          u.transition_to two_hand_final_cleanup (
            put_pi p
              (record w.pi {
                two_hand_cleanup_index =
                    if leb 1 w.pi.two_hand_count then w.pi.two_hand_count - 1 else 0;
              })
              w))

  unfoldable pub wait_two_hand : ℕ → World p → World p
  wait_two_hand elapsed w =
      if leb mock_pi_step_timeout_ms elapsed
      then u.transition_to two_hand_show w
      else if bit_and w.pi.step_touched_mask (u.pos_to_bit (two_hand_position w.pi)) == 0
      then w
      else u.transition_to two_hand_success w

  -- The `switch` of `updateStateMachine`; the states of the last clause stand in its part that is cut off.
  unfoldable pub run_case : MockPiState → ℕ → ℕ → World p → Option (World p)
  unfolding send_and_go wait_touch wait_release go_to_next complete show_two_hand wait_two_hand
  run_case idle now elapsed w = some w
  run_case step_show now elapsed w = send_and_go (codes "SHOW") (positions_now w) step_expect_down w
  run_case step_expect_down now elapsed w =
      when_due elapsed
        (send_and_go (codes "EXPECT_DOWN") (positions_now w) step_wait_touch (clear_touches w)) w
  run_case step_wait_touch now elapsed w = wait_touch now elapsed w
  run_case step_success now elapsed w =
      when_due elapsed (send_and_go (codes "SUCCESS") (positions_now w) step_expect_up w) w
  run_case step_expect_up now elapsed w =
      when_due elapsed (send_and_go (codes "EXPECT_UP") (positions_now w) step_wait_release w) w
  run_case step_wait_release now elapsed w = some (wait_release elapsed w)
  run_case step_hide now elapsed w =
      when_due elapsed (send_and_go (codes "HIDE") (positions_now w) step_next w) w
  run_case step_next now elapsed w = when_due elapsed (some (go_to_next w)) w
  run_case sequence_complete now elapsed w = when_due elapsed (complete w) w
  run_case two_hand_show now elapsed w = show_two_hand w
  run_case two_hand_expect_down now elapsed w =
      when_due elapsed
        (send_command_with_pos p (codes "EXPECT_DOWN") (two_hand_position w.pi)
            (put_pi p (record w.pi { step_touched_mask = 0 }) w)
          >>= λ w'. some (u.transition_to two_hand_wait_touch w'))
        w
  run_case two_hand_wait_touch now elapsed w = some (wait_two_hand elapsed w)
  run_case state now elapsed w = u.run_state state now elapsed w

  unfoldable pub update_state_machine : World p → Option (World p)
  unfolding run_case
  update_state_machine w =
      let (now, w₁) = world_millis p w in
      run_case w.pi.state now (sub32 now w.pi.state_start_time) w₁

  unfoldable pub update : World p → Option (World p)
  unfolding update_state_machine poll_touch_state
  update w = if is_none w.pi.program then some w else update_state_machine (poll_touch_state u w)
