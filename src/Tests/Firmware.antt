-- ===== src/Tests/Firmware.antt =====
-- The main loop at a concrete state and concrete inputs.
use hardware.Base.{ℕ, ◌≡◌, some, List, [], ◌∷◌}
use hardware.Base.Words.{codes}
use hardware.Command.Machine.{Machine}
use hardware.Command.Steps.{IsValid}
use hardware.MockPi.State.{two_hand_show, World}
use hardware.Firmware.{setup}
use hardware.Firmware.Mocked.{setup_mocked}
use hardware.Firmware.Played.{first_position, PlaysUntil, setup_mocked-PlaysUntil}
use hardware.MockPi.Course.{course}
use hardware.Firmware.Rounds.{rounds, setup-rounds_end}
use hardware.Tests.Parts.{parts, lexer_laws}
use hardware.Tests.World.{unseen, unseen_laws, world}
use hardware.Tests.State.{machine, machine-Sized}

-- Half a command, the rest of it with a line of the Mock Pi, and silence.
abbrev inputs : List (List ℕ × List (List ℕ))
inputs = (codes "SHOW A", []) ∷ (codes " #1\n", codes "PI> BLINK C #2" ∷ []) ∷ ([], []) ∷ []

setup-rounds_end_example :
    (out : List ℕ) × (m' : Machine parts) × (rounds parts inputs (setup parts machine).1
      ≡ some (out, m'))
    × IsValid parts m'
setup-rounds_end_example = setup-rounds_end parts lexer_laws machine inputs machine-Sized

-- Half a command, the rest of it, and silence.
abbrev received : List (List ℕ)
received = codes "SHOW A" ∷ codes " #1\n" ∷ [] ∷ []

setup_mocked-PlaysUntil_example :
    (out : List ℕ) × (w₁ : World parts) × (setup_mocked unseen world ≡ some (out, w₁))
    × (w₁.pi.state ≡ two_hand_show)
    × (course w₁.pi ≡ first_position)
    × PlaysUntil unseen received w₁
setup_mocked-PlaysUntil_example =
    setup_mocked-PlaysUntil unseen unseen_laws lexer_laws world received machine-Sized
