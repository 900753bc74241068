-- ===== src/Tests/Pace.antt =====
-- A step of the Mock Pi at concrete times.
use hardware.Base.{ℕ, suc, ◌+◌, ◌≡◌, refl, false, some, List, [], ◌∷◌, ◌++◌, replicate, arith}
use hardware.Base.Words.{codes}
use hardware.Command.Steps.{IsValid}
use hardware.Touch.State.{construct}
use hardware.MockPi.State.{
  World, MockPiState, simultaneous, sequence_simultaneous, step_show, step_expect_down,
  step_wait_touch, step_success, step_expect_up, step_wait_release, step_hide, step_next,
  SequenceStep, blank_step,
}
use hardware.MockPi.Update.{update_state_machine, send_all, send_command_with_pos, send_command}
use hardware.MockPi.Sending.{calls-IsValid}
use hardware.MockPi.Protocol.{Between, Prompt, Turns, over, turn}
use hardware.MockPi.Pace.{step_plays}
use hardware.Tests.Parts.{parts, lexer_laws}
use hardware.Tests.State.{machine, machine-IsValid}
use hardware.Tests.World.{unseen, unseen_laws, mock_pi, world}

-- A group of two positions, at the start of its step, without a command controller.
abbrev pair : SequenceStep
pair = record blank_step {
  type = simultaneous;
  position_count = 2;
  positions = codes "CD" ++ (0 ∷ 0 ∷ 0 ∷ []);
}

abbrev start : World parts
unfolding mock_pi
start = record world {
  pi = record mock_pi {
    has_command = false;
    program = sequence_simultaneous;
    state = step_show;
    steps = pair ∷ replicate 24 blank_step;
    step_count = 1;
  };
}

-- Twenty calls of the clock later the player has touched both positions, and holds neither.
abbrev later : World parts → World parts
later w = record w {
  pi = record w.pi { step_touched_mask = 12; currently_touched = 0 };
  machine = record w.machine { calls = w.machine.calls + 20 };
}

later-Between : (w : World parts) → IsValid parts w.machine → Between unseen w (later w)
later-Between w v = record {
  state = refl;
  steps = refl;
  current_step = refl;
  command_id = refl;
  sent = refl;
  valid = calls-IsValid parts w.machine (w.machine.calls + 20) v;
}

-- The world at a state, with its start, the time of the last command, the identifier, the touches, the
-- calls of the clock, and the commands sent.
abbrev at : MockPiState → ℕ → ℕ → ℕ → ℕ → ℕ → List (List ℕ) → World parts
unfolding start
at state start_time action_time id mask calls sent = record {
  pi = record start.pi {
    state = state;
    state_start_time = start_time;
    last_action_time = action_time;
    command_id = id;
    step_touched_mask = mask;
  };
  machine = record machine { calls = calls };
  sent = sent;
}

one_turn :
    (w w' w'' : World parts) (n : ℕ)
    → IsValid parts w.machine
    → Prompt unseen (later w)
    → update_state_machine unseen (later w) ≡ some w'
    → Turns unseen n w' w''
    → Turns unseen (suc n) w w''
one_turn w w' w'' n v q e t = turn w (later w) w' w'' (later-Between w v) q e t

IsValid-at : (n : ℕ) → IsValid parts (record machine { calls = n })
IsValid-at n = calls-IsValid parts machine n machine-IsValid

abbrev shown : World parts
unfolding at
shown = at step_expect_down 230 220 1002 12 24 (codes "SHOW C #1000" ∷ codes "SHOW D #1001" ∷ [])

abbrev expecting : World parts
unfolding at
expecting = at step_wait_touch 470 460 1004 0 48 (
    codes "SHOW C #1000"
    ∷ codes "SHOW D #1001"
    ∷ codes "EXPECT_DOWN C #1002"
    ∷ codes "EXPECT_DOWN D #1003"
    ∷ [])

abbrev touched : World parts
unfolding at
touched = at step_success 690 460 1004 12 70 (
    codes "SHOW C #1000"
    ∷ codes "SHOW D #1001"
    ∷ codes "EXPECT_DOWN C #1002"
    ∷ codes "EXPECT_DOWN D #1003"
    ∷ [])

abbrev praised : World parts
unfolding at
praised = at step_expect_up 930 920 1006 12 94 (
    codes "SHOW C #1000"
    ∷ codes "SHOW D #1001"
    ∷ codes "EXPECT_DOWN C #1002"
    ∷ codes "EXPECT_DOWN D #1003"
    ∷ codes "SUCCESS C #1004"
    ∷ codes "SUCCESS D #1005"
    ∷ [])

abbrev releasing : World parts
unfolding at
releasing = at step_wait_release 1170 1160 1008 12 118 (
    codes "SHOW C #1000"
    ∷ codes "SHOW D #1001"
    ∷ codes "EXPECT_DOWN C #1002"
    ∷ codes "EXPECT_DOWN D #1003"
    ∷ codes "SUCCESS C #1004"
    ∷ codes "SUCCESS D #1005"
    ∷ codes "EXPECT_UP C #1006"
    ∷ codes "EXPECT_UP D #1007"
    ∷ [])

abbrev released : World parts
unfolding at
released = at step_hide 1390 1160 1008 12 140 (
    codes "SHOW C #1000"
    ∷ codes "SHOW D #1001"
    ∷ codes "EXPECT_DOWN C #1002"
    ∷ codes "EXPECT_DOWN D #1003"
    ∷ codes "SUCCESS C #1004"
    ∷ codes "SUCCESS D #1005"
    ∷ codes "EXPECT_UP C #1006"
    ∷ codes "EXPECT_UP D #1007"
    ∷ [])

abbrev hidden : World parts
unfolding at
hidden = at step_next 1630 1620 1010 12 164 (
    codes "SHOW C #1000"
    ∷ codes "SHOW D #1001"
    ∷ codes "EXPECT_DOWN C #1002"
    ∷ codes "EXPECT_DOWN D #1003"
    ∷ codes "SUCCESS C #1004"
    ∷ codes "SUCCESS D #1005"
    ∷ codes "EXPECT_UP C #1006"
    ∷ codes "EXPECT_UP D #1007"
    ∷ codes "HIDE C #1008"
    ∷ codes "HIDE D #1009"
    ∷ [])

shown_lem : update_state_machine unseen (later start) ≡ some shown
unfolding at start mock_pi construct update_state_machine send_all send_command_with_pos
    send_command shown
shown_lem = refl

expecting_lem : update_state_machine unseen (later shown) ≡ some expecting
unfolding at start mock_pi construct update_state_machine send_all send_command_with_pos
    send_command expecting shown
expecting_lem = refl

touched_lem : update_state_machine unseen (later expecting) ≡ some touched
unfolding at start mock_pi construct update_state_machine send_all send_command_with_pos
    send_command touched expecting
touched_lem = refl

praised_lem : update_state_machine unseen (later touched) ≡ some praised
unfolding at start mock_pi construct update_state_machine send_all send_command_with_pos
    send_command praised touched
praised_lem = refl

releasing_lem : update_state_machine unseen (later praised) ≡ some releasing
unfolding at start mock_pi construct update_state_machine send_all send_command_with_pos
    send_command releasing praised
releasing_lem = refl

released_lem : update_state_machine unseen (later releasing) ≡ some released
unfolding at start mock_pi construct update_state_machine send_all send_command_with_pos
    send_command released releasing
released_lem = refl

hidden_lem : update_state_machine unseen (later released) ≡ some hidden
unfolding at start mock_pi construct update_state_machine send_all send_command_with_pos
    send_command hidden released
hidden_lem = refl

seven-Turns : Turns unseen 7 start hidden
unfolding at start mock_pi construct shown expecting touched praised releasing released hidden
seven-Turns =
    one_turn start shown hidden 6 (IsValid-at 0)
      (record { due = omega arith; in_time = omega arith; ready = refl }) shown_lem
      (one_turn shown expecting hidden 5 (IsValid-at 24)
        (record { due = omega arith; in_time = omega arith; ready = refl }) expecting_lem
        (one_turn expecting touched hidden 4 (IsValid-at 48)
          (record { due = omega arith; in_time = omega arith; ready = refl }) touched_lem
          (one_turn touched praised hidden 3 (IsValid-at 70)
            (record { due = omega arith; in_time = omega arith; ready = refl }) praised_lem
            (one_turn praised releasing hidden 2 (IsValid-at 94)
              (record { due = omega arith; in_time = omega arith; ready = refl }) releasing_lem
              (one_turn releasing released hidden 1 (IsValid-at 118)
                (record { due = omega arith; in_time = omega arith; ready = refl }) released_lem
                (one_turn released hidden hidden 0 (IsValid-at 140)
                  (record { due = omega arith; in_time = omega arith; ready = refl }) hidden_lem
                  (over hidden)))))))

step_plays_example :
    (hidden.pi.state ≡ step_next)
    × (hidden.pi.current_step ≡ 0)
    × (hidden.sent
        ≡ codes "SHOW C #1000"
          ∷ codes "SHOW D #1001"
          ∷ codes "EXPECT_DOWN C #1002"
          ∷ codes "EXPECT_DOWN D #1003"
          ∷ codes "SUCCESS C #1004"
          ∷ codes "SUCCESS D #1005"
          ∷ codes "EXPECT_UP C #1006"
          ∷ codes "EXPECT_UP D #1007"
          ∷ codes "HIDE C #1008"
          ∷ codes "HIDE D #1009"
          ∷ [])
unfolding start mock_pi
step_plays_example = step_plays unseen unseen_laws lexer_laws start hidden refl seven-Turns
