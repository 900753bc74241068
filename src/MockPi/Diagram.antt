-- ===== src/MockPi/Diagram.antt =====
-- The transitions of the state machine of src/MockPiPrograms.cpp: which state may follow which, when,
-- and with which command.
use Prim.Native.Nat.{bit_and}
use hardware.Base.{ℕ, ◌-◌, leb, if◌then◌else◌, [], ◌∷◌, ◌≤◌, ◌<◌, ◌≡◌, ◌≢◌, Bool, true, false, List}
use hardware.Base.Words.{codes, add8, add32, sub32}
use hardware.Command.Machine.{Parts}
use hardware.MockPi.Touch.{step_positions, two_hand_position}
use hardware.MockPi.Update.{line_with_pos, line_completed}
use hardware.MockPi.Sending.{lines_of, ids_after}
use hardware.MockPi.State.{
  no_program, record_playback, simultaneous, MockPiState, idle, step_show, step_expect_down,
  step_wait_touch, step_success, step_expect_up, step_wait_release, step_hide, step_next,
  sequence_complete, two_hand_show, two_hand_expect_down, two_hand_wait_touch, two_hand_success,
  two_hand_final_cleanup, recording, MockPi, Unseen,
}

-- The states whose case can be read.
abbrev pub is_readable : MockPiState → Bool
is_readable idle = true
is_readable step_show = true
is_readable step_expect_down = true
is_readable step_wait_touch = true
is_readable step_success = true
is_readable step_expect_up = true
is_readable step_wait_release = true
is_readable step_hide = true
is_readable step_next = true
is_readable sequence_complete = true
is_readable two_hand_show = true
is_readable two_hand_expect_down = true
is_readable two_hand_wait_touch = true
is_readable _ = false

-- What an edge sends: an action for each position of the step, one for the position of the two-hand
-- sequence, or the end of the sequence.
pub data Says : Type 0 where
  nothing completed : Says
  for_step for_hand : List ℕ → Says

module _ {p : Parts} (u : Unseen p) (pi : MockPi) (now elapsed : ℕ) where
  pub data Edge : MockPiState → Says → MockPiState → Type 0 where
    show : Edge step_show (for_step (codes "SHOW")) step_expect_down
    expect : 100 ≤ elapsed → Edge step_expect_down (for_step (codes "EXPECT_DOWN")) step_wait_touch
    retry : 10000 ≤ elapsed → Edge step_wait_touch nothing step_show
    expire :
        elapsed < 10000
        → (u.current_step_data pi).type ≡ simultaneous
        → 0 < pi.first_touch_time
        → 500 < sub32 now pi.first_touch_time
        → u.all_step_positions_touched pi ≡ false
        → Edge step_wait_touch (for_step (codes "HIDE")) step_show
    touched :
        elapsed < 10000
        → u.all_step_positions_touched pi ≡ true
        → Edge step_wait_touch nothing step_success
    succeed : 100 ≤ elapsed → Edge step_success (for_step (codes "SUCCESS")) step_expect_up
    release : 100 ≤ elapsed → Edge step_expect_up (for_step (codes "EXPECT_UP")) step_wait_release
    late : 5000 ≤ elapsed → Edge step_wait_release nothing step_hide
    released :
        elapsed < 5000
        → u.all_step_positions_released pi ≡ true
        → Edge step_wait_release nothing step_hide
    hide : 100 ≤ elapsed → Edge step_hide (for_step (codes "HIDE")) step_next
    another :
        100 ≤ elapsed → add8 pi.current_step 1 < pi.step_count → Edge step_next nothing step_show
    last :
        100 ≤ elapsed
        → pi.step_count ≤ add8 pi.current_step 1
        → Edge step_next nothing sequence_complete
    record_again :
        100 ≤ elapsed → pi.program ≡ record_playback → Edge sequence_complete completed recording
    finish : 100 ≤ elapsed → pi.program ≢ record_playback → Edge sequence_complete completed idle
    show_hand :
        pi.two_hand_current < pi.two_hand_count
        → Edge two_hand_show (for_hand (codes "SHOW")) two_hand_expect_down
    clean_up :
        pi.two_hand_count ≤ pi.two_hand_current → Edge two_hand_show nothing two_hand_final_cleanup
    expect_hand :
        100 ≤ elapsed
        → Edge two_hand_expect_down (for_hand (codes "EXPECT_DOWN")) two_hand_wait_touch
    retry_hand : 10000 ≤ elapsed → Edge two_hand_wait_touch nothing two_hand_show
    touched_hand :
        elapsed < 10000
        → bit_and pi.step_touched_mask (u.pos_to_bit (two_hand_position pi)) ≢ 0
        → Edge two_hand_wait_touch nothing two_hand_success

  -- What an edge changes, but for the state, the times and the identifier.
  abbrev pub change : {s s' : MockPiState} {says : Says} → Edge s says s' → MockPi
  change (expect _) = record pi { step_touched_mask = 0; first_touch_time = 0 }
  change (expire _ _ _ _ _) = record pi { step_touched_mask = 0; first_touch_time = 0 }
  change (another _ _) = record pi { current_step = add8 pi.current_step 1; step_touched_mask = 0 }
  change (last _ _) = record pi { current_step = add8 pi.current_step 1; step_touched_mask = 0 }
  change (record_again _ _) = record pi { recorded_count = 0; recorded_sequence = [] }
  change (finish _ _) = record pi { program = no_program }
  change (clean_up _) = record pi {
    two_hand_cleanup_index = if leb 1 pi.two_hand_count then pi.two_hand_count - 1 else 0;
  }
  change (expect_hand _) = record pi { step_touched_mask = 0 }
  change _ = pi

  -- The lines that are sent, and the next identifier.
  abbrev pub said : Says → List (List ℕ)
  said nothing = []
  said completed = line_completed p pi.command_id ∷ []
  said (for_step action) = lines_of p action (step_positions (u.current_step_data pi)) pi.command_id
  said (for_hand action) = line_with_pos p action (two_hand_position pi) pi.command_id ∷ []

  abbrev pub id_after : Says → ℕ
  id_after nothing = pi.command_id
  id_after completed = add32 pi.command_id 1
  id_after (for_step action) = ids_after (step_positions (u.current_step_data pi)) pi.command_id
  id_after (for_hand action) = add32 pi.command_id 1
