-- ===== src/Tests/World.antt =====
-- A Mock Pi beside a machine, with concrete functions for its methods that are cut off.
use Prim.Native.Nat.{bit_and}
use hardware.Base.{
  ℕ, suc, ◌+◌, ◌-◌, ◌^◌, ◌<◌, ◌≡◌, refl, Bool, true, not, ◌&&◌, some, List, [], ◌∷◌, ◌==◌,
  replicate, get_or, arith,
}
use hardware.MockPi.State.{SequenceStep, blank_step, MockPi, World, Unseen, UnseenLaws}
use hardware.MockPi.Touch.{step_positions}
use hardware.MockPi.Start.{construct, begin, set_touch_controller, set_command_controller}
use hardware.MockPi.Sequence.{Shaped}
use hardware.MockPi.Decimal.{DecimalLaws}
use hardware.Command.RoundTrip.{value}
use hardware.Tests.Decimal.{decimal, digits-IsDigit, value-digits, length-digits, digits_present}
use hardware.Tests.Parts.{env, parts}
use hardware.Tests.State.{machine}

pub names : (n : ℕ) → n < 2 ^ 32 → value 0 (decimal n) ≡ n
names n h = value-digits 10 n (omega arith)

abbrev pub decimal_laws : DecimalLaws env
decimal_laws = record {
  digits = digits-IsDigit 10;
  names = names;
  present = digits_present 9;
  short = λ n h. length-digits 10 n;
}

-- The letter's place in the mask.
abbrev pos_to_bit : ℕ → ℕ
pos_to_bit c = 2 ^ (c - b'A')

-- Are all these letters in a mask, or none of them?
abbrev all_in : ℕ → List ℕ → Bool
all_in mask [] = true
all_in mask (c ∷ cs) = not (bit_and mask (pos_to_bit c) == 0) && all_in mask cs

abbrev none_in : ℕ → List ℕ → Bool
none_in mask [] = true
none_in mask (c ∷ cs) = (bit_and mask (pos_to_bit c) == 0) && none_in mask cs

abbrev step_of : MockPi → SequenceStep
step_of pi = get_or pi.steps pi.current_step blank_step

abbrev pub unseen : Unseen parts
unseen = record {
  transition_to = λ s w. record w {
    pi = record w.pi { state = s; state_start_time = w.machine.clock w.machine.calls };
    machine = record w.machine { calls = suc w.machine.calls };
  };
  current_step_data = step_of;
  pos_to_bit = pos_to_bit;
  index_to_letter = λ i. b'A' + i;
  all_step_positions_touched = λ pi. all_in pi.step_touched_mask (step_positions (step_of pi));
  all_step_positions_released = λ pi. none_in pi.currently_touched (step_positions (step_of pi));
  process_event = λ event_type position id w. w;
  run_state = λ s now elapsed w. some w;
}

abbrev pub unseen_laws : UnseenLaws parts unseen
unseen_laws = record { transition = λ s w. refl; step_data = λ pi. refl; letter = λ i h. refl }

-- The Mock Pi after `begin`, linked to the controllers.
unfoldable pub mock_pi : MockPi
unfolding construct begin
mock_pi =
    set_command_controller (set_touch_controller (begin (construct (replicate 25 blank_step))))

pub mock_pi-Shaped : Shaped mock_pi
unfolding mock_pi
mock_pi-Shaped = record { steps = refl; groups = omega arith }

abbrev pub world : World parts
world = record { pi = mock_pi; machine = machine; sent = [] }
