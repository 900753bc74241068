-- ===== src/MockPi/Spec.antt =====
-- `parseSimultaneousSpec` and `startSequenceSimultaneous` of src/MockPiPrograms.cpp.
use hardware.Base.{
  ℕ, zero, suc, Bool, true, false, ◌||◌, Option, none, some, List, [], ◌∷◌, ltb, leb, not, ◌==◌,
  if◌then◌else◌, get_or, set,
}
use hardware.Base.Words.{add8}
use hardware.Command.Machine.{Parts}
use hardware.Command.Parse.{deref}
use hardware.Command.LexerLaws.{drop_while}
use hardware.MockPi.State.{
  max_sequence_length, max_group_size, sequence_simultaneous, StepType, single, simultaneous,
  step_show, SequenceStep, blank_step, MockPi, ◌>>=◌, World, put_pi, Unseen,
}
use hardware.MockPi.Start.{to_upper, is_position}

-- step.positions[step.positionCount++] = c
abbrev pub add_position : ℕ → SequenceStep → SequenceStep
add_position c step = record step {
  positions = set step.positions step.position_count c;
  position_count = add8 step.position_count 1;
}

-- One letter of a step, which other characters leave alone.
abbrev pub take_letter : ℕ → SequenceStep → SequenceStep
take_letter c step =
    let letter = to_upper c in if is_position letter then add_position letter step else step

-- The loop inside a parenthesis, from the pointer on: the step and the pointer afterwards. A blank or a
-- plus sign is a round of its inner loop, which the tests for the end follow.
unfoldable pub parse_group : List ℕ → SequenceStep → SequenceStep × List ℕ
parse_group [] step = (step, [])
parse_group (c ∷ rest) step =
    let skipped = c == b'+' || c == b' ' in
    let more = parse_group rest (if skipped then step else take_letter c step) in
    if c == b')' || leb max_group_size step.position_count then (step, c ∷ rest) else more

-- if (*p == ')') p++
abbrev pub close_group : List ℕ → List ℕ
close_group [] = []
close_group (c ∷ rest) = if c == b')' then rest else c ∷ rest

-- The step before its positions are read.
abbrev pub open_step : StepType → SequenceStep → SequenceStep
open_step type old = record old {
  type = type;
  position_count = 0;
  touched_mask = 0;
  first_touch_time = 0;
}

-- One step, at a character that is no separator: the step and the pointer afterwards.
unfoldable pub parse_step : ℕ → List ℕ → SequenceStep → SequenceStep × List ℕ
unfolding parse_group
parse_step c rest old =
    let (group, after) = parse_group rest (open_step simultaneous old) in
    if c == b'(' then (group, close_group after) else (
      (let letter = to_upper c in
          if is_position letter
          then record (open_step single old) {
            positions = set old.positions 0 letter;
            position_count = 1;
          }
          else open_step single old),
      rest,
    )

-- while (*p == ' ' || *p == ',' || *p == '\t')
abbrev pub is_separator : ℕ → Bool
is_separator c = c == b' ' || (c == b',' || c == 9)

-- m_steps[m_stepCount] = step; if (step.positionCount > 0) m_stepCount++;
abbrev pub put_step : SequenceStep → MockPi → MockPi
put_step step pi = record pi {
  steps = set pi.steps pi.step_count step;
  step_count = if ltb 0 step.position_count then add8 pi.step_count 1 else pi.step_count;
}

-- The loop over the steps. `none` means that the fuel ran out.
unfoldable pub parse_steps : ℕ → List ℕ → MockPi → Option MockPi
parse_steps zero spec pi = none
parse_steps (suc fuel) spec pi = elim (deref spec == 0 || leb max_sequence_length pi.step_count) [
  | true ↦ some pi
  | false ↦ elim (drop_while is_separator spec) [
    | [] ↦ some pi
    | c ∷ rest ↦
        parse_steps fuel (parse_step c rest (get_or pi.steps pi.step_count blank_step)).1
          (put_step (parse_step c rest (get_or pi.steps pi.step_count blank_step)).0 pi)
  ]
]

-- The answer and the Mock Pi.
unfoldable pub parse_simultaneous_spec : ℕ → List ℕ → MockPi → Option (Bool × MockPi)
parse_simultaneous_spec fuel spec pi = do
  pi' ← parse_steps fuel spec (record pi { step_count = 0 })
  some (ltb 0 pi'.step_count, pi')

module _ {p : Parts} (u : Unseen p) where
  unfoldable pub start_sequence_simultaneous : ℕ → List ℕ → World p → Option (World p)
  start_sequence_simultaneous fuel spec w = if deref spec == 0 then some w else do
    (found, pi) ← parse_simultaneous_spec fuel spec w.pi
    if not found
        then some (put_pi p pi w)
        else some (
            u.transition_to step_show (
              put_pi p
                (record pi {
                  program = sequence_simultaneous;
                  current_step = 0;
                  step_touched_mask = 0;
                  previous_touched = 0;
                })
                w))
