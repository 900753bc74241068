-- ===== src/Firmware/Mocked.antt =====
-- src/main.cpp as it is configured, with ENABLE_MOCK_PI and program 4: `setup` starts the Mock Pi, and
-- `loop` ends with its `update`.
use hardware.Base.{ℕ, true, Option, none, some, List, [], ◌∷◌, ◌++◌}
use hardware.Base.Words.{codes}
use hardware.Command.Machine.{Parts}
use hardware.MockPi.State.{MockPi, ◌>>=◌, World, Unseen}
use hardware.MockPi.Start as Start
use hardware.MockPi.Start.{
  set_touch_controller, set_command_controller, set_verbose, start_two_hand_sequence,
}
use hardware.MockPi.Update as Update
use hardware.Firmware.{loop, setup}

abbrev pub mock_pi_two_hand_sequence : List ℕ
mock_pi_two_hand_sequence = codes "ABCDEFG"

-- mockPi.begin(); and the links to the controllers
unfoldable pub link : MockPi → MockPi
link pi = set_verbose true (set_command_controller (set_touch_controller (Start.begin pi)))

module _ {p : Parts} (u : Unseen p) where
  -- The bytes sent, and the world. The loop over the letters has a round for each and one more.
  unfoldable pub setup_mocked : World p → Option (List ℕ × World p)
  unfolding link
  setup_mocked w = do
    let (out, machine) = setup p w.machine
    w' ←
        start_two_hand_sequence u 8 mock_pi_two_hand_sequence
          (record w { pi = link w.pi; machine = machine })
    some (out, w')

  -- Steps 1 to 6, which inject nothing, and step 7.
  unfoldable pub loop_mocked : List ℕ → World p → Option (List ℕ × World p)
  loop_mocked received w = do
    (out, machine) ← loop p received [] w.machine
    w' ← Update.update u (record w { machine = machine })
    some (out, w')

  unfoldable pub rounds_mocked : List (List ℕ) → World p → Option (List ℕ × World p)
  rounds_mocked [] w = some ([], w)
  rounds_mocked (received ∷ inputs) w = elim (loop_mocked received w) [
    | none ↦ none
    | some (out, w₁) ↦ elim (rounds_mocked inputs w₁) [
      | none ↦ none
      | some (more, w₂) ↦ some (out ++ more, w₂)
    ]
  ]
