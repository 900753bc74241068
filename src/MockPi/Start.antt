-- ===== src/MockPi/Start.antt =====
-- The construction of the Mock Pi, and the methods of src/MockPiPrograms.cpp that start and stop a program, but
-- for the parser of `startSequenceSimultaneous` (MockPi/Spec).
-- An empty string stands for a null pointer too: both are refused alike.
use hardware.Base.{
  ℕ, zero, suc, ◌-◌, Bool, true, false, not, ◌&&◌, ◌||◌, Option, none, some, List, [], ◌∷◌, ◌++◌,
  leb, ◌==◌, if◌then◌else◌, get_or, set, take,
}
use hardware.Base.Words.{add8}
use hardware.Command.Machine.{Parts}
use hardware.Command.Parse.{deref}
use hardware.MockPi.State.{
  max_sequence_length, MockPiProgram, no_program, sequence_simple, record_playback,
  two_hand_sequence, single, MockPiState, idle, step_show, two_hand_show, recording, SequenceStep,
  blank_step, MockPi, ◌>>=◌, World, put_pi, world_millis, Unseen,
}

-- The constructor; the steps are what the memory holds.
unfoldable pub construct : List SequenceStep → MockPi
construct steps = record {
  has_touch = false;
  has_command = false;
  program = no_program;
  state = idle;
  verbose = true;
  steps = steps;
  step_count = 0;
  current_step = 0;
  state_start_time = 0;
  last_action_time = 0;
  command_id = 1000;
  previous_touched = 0;
  currently_touched = 0;
  step_touched_mask = 0;
  first_touch_time = 0;
  recorded_sequence = [];
  recorded_count = 0;
  last_touch_time = 0;
  two_hand_positions = [];
  two_hand_count = 0;
  two_hand_current = 0;
  two_hand_cleanup_index = 0;
  waiting_for_ack = false;
  pending_commands = 0;
}

unfoldable pub begin : MockPi → MockPi
begin pi = record pi {
  program = no_program;
  state = idle;
  previous_touched = 0;
  currently_touched = 0;
  step_touched_mask = 0;
  recorded_count = 0;
  command_id = 1000;
}

unfoldable pub stop : MockPi → MockPi
stop pi = record pi {
  program = no_program;
  state = idle;
  step_touched_mask = 0;
  currently_touched = 0;
  previous_touched = 0;
}

abbrev pub set_touch_controller : MockPi → MockPi
set_touch_controller pi = record pi { has_touch = true }

abbrev pub set_command_controller : MockPi → MockPi
set_command_controller pi = record pi { has_command = true }

abbrev pub set_verbose : Bool → MockPi → MockPi
set_verbose verbose pi = record pi { verbose = verbose }

abbrev pub is_none : MockPiProgram → Bool
is_none no_program = true
is_none _ = false

abbrev pub is_idle : MockPiState → Bool
is_idle idle = true
is_idle _ = false

unfoldable pub is_running : MockPi → Bool
is_running pi = not (is_none pi.program) && not (is_idle pi.state)

-- if (c >= 'a' && c <= 'y') c -= 32
abbrev pub to_upper : ℕ → ℕ
to_upper c = if leb b'a' c && leb c b'y' then c - 32 else c

abbrev pub is_position : ℕ → Bool
is_position c = leb b'A' c && leb c b'Y'

-- The step of one position that is written to m_steps[m_stepCount].
abbrev pub add_single : ℕ → MockPi → MockPi
add_single c pi =
    let old = get_or pi.steps pi.step_count blank_step in
    record pi {
      steps = set pi.steps pi.step_count (record old {
        type = single;
        position_count = 1;
        positions = set old.positions 0 c;
        touched_mask = 0;
        first_touch_time = 0;
      });
      step_count = add8 pi.step_count 1;
    }

-- m_twoHandPositions[m_twoHandCount++] = c
abbrev pub add_two_hand : ℕ → MockPi → MockPi
add_two_hand c pi = record pi {
  two_hand_positions = take pi.two_hand_count pi.two_hand_positions ++ (c ∷ []);
  two_hand_count = add8 pi.two_hand_count 1;
}

-- m_twoHandPositions[m_twoHandCount] = '\0'
abbrev pub ended_two_hand : MockPi → MockPi
ended_two_hand pi = record pi { two_hand_positions = take pi.two_hand_count pi.two_hand_positions }

-- The loop over the positions, whose index is a `uint8_t`: two methods have it, with their own count and
-- their own way to add a letter. `none` means that the fuel ran out.
unfoldable pub read_letters :
    (MockPi → ℕ) → (ℕ → MockPi → MockPi) → ℕ → List ℕ → ℕ → MockPi → Option MockPi
read_letters count add zero positions i pi = none
read_letters count add (suc fuel) positions i pi =
    let c = to_upper (get_or positions i 0) in
    elim (get_or positions i 0 == 0 || leb max_sequence_length (count pi)) [
      | true ↦ some pi
      | false ↦
          read_letters count add fuel positions (add8 i 1) (if is_position c then add c pi else pi)
    ]

abbrev pub simple_steps : ℕ → List ℕ → MockPi → Option MockPi
simple_steps fuel positions pi = read_letters (λ pi. pi.step_count) add_single fuel positions 0 pi

abbrev pub two_hand_letters : ℕ → List ℕ → MockPi → Option MockPi
two_hand_letters fuel positions pi =
    read_letters (λ pi. pi.two_hand_count) add_two_hand fuel positions 0 pi

module _ {p : Parts} (u : Unseen p) where
  unfoldable pub start_sequence_simple : ℕ → List ℕ → World p → Option (World p)
  start_sequence_simple fuel positions w = if deref positions == 0 then some w else do
    pi ← simple_steps fuel positions (record w.pi { step_count = 0 })
    if pi.step_count == 0
        then some (put_pi p pi w)
        else some (
            u.transition_to step_show (
              put_pi p
                (record pi {
                  program = sequence_simple;
                  current_step = 0;
                  step_touched_mask = 0;
                  previous_touched = 0;
                })
                w))

  unfoldable pub start_two_hand_sequence : ℕ → List ℕ → World p → Option (World p)
  start_two_hand_sequence fuel positions w = if deref positions == 0 then some w else do
    read ← two_hand_letters fuel positions (record w.pi { two_hand_count = 0 })
    let pi = ended_two_hand read
    if pi.two_hand_count == 0
        then some (put_pi p pi w)
        else some (
            u.transition_to two_hand_show (
              put_pi p
                (record pi {
                  program = two_hand_sequence;
                  two_hand_current = 0;
                  step_touched_mask = 0;
                  previous_touched = 0;
                })
                w))

  unfoldable pub start_record_playback : World p → World p
  start_record_playback w =
      let (now, w₁) = world_millis p w in
      u.transition_to recording (
        put_pi p
          (record w₁.pi {
            program = record_playback;
            recorded_count = 0;
            recorded_sequence = [];
            previous_touched = 0;
            currently_touched = 0;
            last_touch_time = now;
          })
          w₁)
