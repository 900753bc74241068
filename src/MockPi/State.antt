-- ===== src/MockPi/State.antt =====
-- include/MockPiPrograms.h: the programs, the steps of a sequence, the states, the members of
-- `MockPiPrograms`, and the methods of it that are not in the readable sources.
use hardware.Base.{ℕ, suc, ◌+◌, ◌<◌, ◌≡◌, Bool, Option, none, some, List, [], ◌∷◌, get_or}
use hardware.Command.Machine.{Parts, Machine, millis}

abbrev pub max_sequence_length : ℕ
max_sequence_length = 25

abbrev pub max_group_size : ℕ
max_group_size = 5

abbrev pub mock_pi_step_timeout_ms : ℕ
mock_pi_step_timeout_ms = 10000

abbrev pub mock_pi_simultaneous_window_ms : ℕ
mock_pi_simultaneous_window_ms = 500

abbrev pub mock_pi_inter_step_delay_ms : ℕ
mock_pi_inter_step_delay_ms = 100

pub data MockPiProgram : Type 0 where
  no_program sequence_simple sequence_simultaneous record_playback two_hand_sequence : MockPiProgram

pub data StepType : Type 0 where
  single simultaneous : StepType

pub data MockPiState : Type 0 where
  idle step_show step_expect_down step_wait_touch step_success step_expect_up : MockPiState
  step_wait_release step_hide step_next sequence_complete : MockPiState
  two_hand_show two_hand_expect_down two_hand_wait_touch two_hand_success : MockPiState
  two_hand_blink_old two_hand_expect_up_old two_hand_wait_release : MockPiState
  two_hand_stop_blink_hide two_hand_next two_hand_final_cleanup : MockPiState
  recording recording_idle_check playback : MockPiState

pub record SequenceStep : Type 0 where
  pub type : StepType
  pub position_count : ℕ
  pub positions : List ℕ
  pub touched_mask : ℕ
  pub first_touch_time : ℕ

-- What a read out of the array's bounds would give.
abbrev pub blank_step : SequenceStep
blank_step = record {
  type = single;
  position_count = 0;
  positions = 0 ∷ 0 ∷ 0 ∷ 0 ∷ 0 ∷ [];
  touched_mask = 0;
  first_touch_time = 0;
}

-- `has_touch` and `has_command` are `m_touchController != nullptr` and `m_commandController != nullptr`.
-- The two arrays of characters are the C strings that they hold.
pub record MockPi : Type 0 where
  pub has_touch : Bool
  pub has_command : Bool
  pub program : MockPiProgram
  pub state : MockPiState
  pub verbose : Bool
  pub steps : List SequenceStep
  pub step_count : ℕ
  pub current_step : ℕ
  pub state_start_time : ℕ
  pub last_action_time : ℕ
  pub command_id : ℕ
  pub previous_touched : ℕ
  pub currently_touched : ℕ
  pub step_touched_mask : ℕ
  pub first_touch_time : ℕ
  pub recorded_sequence : List ℕ
  pub recorded_count : ℕ
  pub last_touch_time : ℕ
  pub two_hand_positions : List ℕ
  pub two_hand_count : ℕ
  pub two_hand_current : ℕ
  pub two_hand_cleanup_index : ℕ
  pub waiting_for_ack : Bool
  pub pending_commands : ℕ

infixl 5 ◌>>=◌
abbrev pub ◌>>=◌ {ℓ κ} : {A : Type ℓ} {B : Type κ} → Option A → (A → Option B) → Option B
none >>= f = none
some a >>= f = f a

module _ (p : Parts) where
  -- The Mock Pi beside the machine that it drives, and the commands that it has printed as "PI> ...".
  pub record World : Type 0 where
    pub pi : MockPi
    pub machine : Machine p
    pub sent : List (List ℕ)

  abbrev pub put_pi : MockPi → World → World
  put_pi pi w = record w { pi = pi }

  -- The value of a call of `millis()`, and the world after it.
  abbrev pub world_millis : World → ℕ × World
  world_millis w = let (now, machine) = millis p w.machine in (now, record w { machine = machine })

  -- The methods that are cut off. `run_state` has the cases of `updateStateMachine` from
  -- TWO_HAND_SUCCESS on, given `now` and `elapsed`; `none` means that a loop did not end.
  pub record Unseen : Type 0 where
    pub transition_to : MockPiState → World → World
    pub current_step_data : MockPi → SequenceStep
    pub pos_to_bit : ℕ → ℕ
    pub index_to_letter : ℕ → ℕ
    pub all_step_positions_touched : MockPi → Bool
    pub all_step_positions_released : MockPi → Bool
    pub process_event : List ℕ → ℕ → ℕ → World → World
    pub run_state : MockPiState → ℕ → ℕ → World → Option World

  -- The state changes and its time starts at a call of `millis()`; the step is the one that
  -- `m_currentStep` counts; the letters are those of the positions.
  pub record UnseenLaws (u : Unseen) : Type 0 where
    pub transition :
        (s : MockPiState) (w : World)
        → u.transition_to s w ≡ record w {
          pi = record w.pi { state = s; state_start_time = w.machine.clock w.machine.calls };
          machine = record w.machine { calls = suc w.machine.calls };
        }
    pub step_data :
        (pi : MockPi) → u.current_step_data pi ≡ get_or pi.steps pi.current_step blank_step
    pub letter : (i : ℕ) → i < 25 → u.index_to_letter i ≡ b'A' + i
