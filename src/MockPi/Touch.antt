-- ===== src/MockPi/Touch.antt =====
-- `pollTouchState`, `onTouchDown` and `onTouchUp` of src/MockPiPrograms.cpp.
use Prim.Native.Nat.{bit_or}
use hardware.Base.{
  ℕ, zero, suc, ◌+◌, ◌/◌, ◌%◌, ◌^◌, Bool, true, false, not, ◌&&◌, List, [], ◌∷◌, ◌++◌, ltb, ◌==◌,
  if◌then◌else◌, get_or, take,
}
use hardware.Base.Words.{add8}
use hardware.Config.{num_touch_sensors}
use hardware.Touch.State.{TouchController}
use hardware.Touch.Controller.{is_touched}
use hardware.Command.Machine.{Parts}
use hardware.MockPi.State.{
  max_sequence_length, MockPiState, recording, recording_idle_check, step_wait_touch,
  two_hand_wait_touch, SequenceStep, MockPi, World, put_pi, world_millis, Unseen,
}

-- (mask & (1UL << i)) != 0, by shifting the mask
abbrev pub bit_at : ℕ → ℕ → Bool
bit_at mask zero = mask % 2 == 1
bit_at mask (suc i) = bit_at (mask / 2) i

-- The first loop of `pollTouchState`, from sensor `i` on. A bit is set once, so `|=` adds it.
unfoldable pub touched_from : ℕ → TouchController → ℕ → ℕ → ℕ
touched_from zero t i mask = mask
touched_from (suc rounds) t i mask =
    touched_from rounds t (i + 1) (if is_touched t i then mask + 2 ^ i else mask)

-- The loops over the recorded positions and over those of a step.
abbrev pub contains : ℕ → List ℕ → Bool
contains c [] = false
contains c (d ∷ ds) = let rest = contains c ds in if d == c then true else rest

-- The positions of a step, and those recorded.
abbrev pub step_positions : SequenceStep → List ℕ
step_positions step = take step.position_count step.positions

abbrev pub recorded : MockPi → List ℕ
recorded pi = take pi.recorded_count pi.recorded_sequence

-- m_twoHandPositions[m_twoHandCurrent]
abbrev pub two_hand_position : MockPi → ℕ
two_hand_position pi = get_or pi.two_hand_positions pi.two_hand_current 0

-- m_recordedSequence[m_recordedCount++] = position, if it is new and there is room
abbrev pub record_position : ℕ → MockPi → MockPi
record_position position pi =
    if not (contains position (recorded pi)) && ltb pi.recorded_count max_sequence_length
    then record pi {
      recorded_sequence = recorded pi ++ (position ∷ []);
      recorded_count = add8 pi.recorded_count 1;
    }
    else pi

module _ {p : Parts} (u : Unseen p) where
  -- The part of `onTouchDown` that depends on the state. Its first call of `millis()` has been made.
  unfoldable pub touched_in : MockPiState → ℕ → World p → World p
  touched_in recording position w = put_pi p (record_position position w.pi) w
  touched_in recording_idle_check position w =
      u.transition_to recording (put_pi p (record_position position w.pi) w)
  touched_in step_wait_touch position w =
      let mask = bit_or w.pi.step_touched_mask (u.pos_to_bit position) in
      let (now, w₁) = world_millis p w in
      if contains position (step_positions (u.current_step_data w.pi))
      then (if w.pi.first_touch_time == 0
          then put_pi p (record w.pi { step_touched_mask = mask; first_touch_time = now }) w₁
          else put_pi p (record w.pi { step_touched_mask = mask }) w)
      else w
  touched_in two_hand_wait_touch position w =
      let mask = bit_or w.pi.step_touched_mask (u.pos_to_bit position) in
      if ltb w.pi.two_hand_current w.pi.two_hand_count && (position == two_hand_position w.pi)
      then put_pi p (record w.pi { step_touched_mask = mask }) w
      else w
  touched_in _ position w = w

  unfoldable pub on_touch_down : ℕ → World p → World p
  unfolding touched_in
  on_touch_down position w =
      let (now, w₁) = world_millis p w in
      touched_in w.pi.state position (put_pi p (record w.pi { last_touch_time = now }) w₁)

  abbrev pub is_recording : MockPiState → Bool
  is_recording recording = true
  is_recording _ = false

  unfoldable pub on_touch_up : ℕ → World p → World p
  on_touch_up position w =
      if is_recording w.pi.state && (w.pi.currently_touched == 0)
      then u.transition_to recording_idle_check w
      else w

  -- One round of the second loop: `justPressed` has the bits of `new` that `previous` lacks, and
  -- `justReleased` those of `previous` that `new` lacks.
  unfoldable pub edge_at : ℕ → ℕ → ℕ → World p → World p
  unfolding on_touch_down on_touch_up
  edge_at new previous i w =
      let w₁ =
        if bit_at new i && not (bit_at previous i)
        then on_touch_down (u.index_to_letter i) w
        else w in
      if bit_at previous i && not (bit_at new i) then on_touch_up (u.index_to_letter i) w₁ else w₁

  unfoldable pub edges_from : ℕ → ℕ → ℕ → ℕ → World p → World p
  unfolding edge_at
  edges_from zero new previous i w = w
  edges_from (suc rounds) new previous i w =
      edges_from rounds new previous (i + 1) (edge_at new previous i w)

  unfoldable pub poll_touch_state : World p → World p
  unfolding touched_from edges_from
  poll_touch_state w =
      let new = touched_from num_touch_sensors w.machine.touch 0 0 in
      let w₁ = edges_from num_touch_sensors new w.pi.previous_touched 0 w in
      if not w.pi.has_touch
      then w
      else put_pi p (record w₁.pi { previous_touched = new; currently_touched = new }) w₁
