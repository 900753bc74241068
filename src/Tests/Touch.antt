-- ===== src/Tests/Touch.antt =====
-- The touch controller at concrete states.
use hardware.Base.{
  ◌+◌, ◌≡◌, ◌<◌, ◌⊎◌, refl, true, false, List, [], ◌∷◌, ◌++◌, replicate, take, map, set, get_or,
  arith,
}
use hardware.EventQueue.{EventQueue, blank}
use hardware.EventQueue.Fifo.{IsValid, contents}
use hardware.Touch.State.{
  TouchSensorState, ExpectState, TouchController, construct, idle_sensor, no_expectation,
}
use hardware.Touch.Letters.{letter_to_index, index_to_letter, letter_to_index-index_to_letter}
use hardware.Touch.Poll.{debounce_from}
use hardware.Touch.Reports.{reports, debounce_from-reports}
use hardware.Touch.Debounce.{settle, all_used, debounce_from_state}
use hardware.Touch.Controller.{set_expect_down}
use hardware.Touch.Expectations.{Sized, Said, set_expect_down-answer}
use hardware.EventQueue.Emit.{touched_down_event}
use hardware.Touch.History.{Round, log, Alternates, log-Alternates}
use hardware.Tests.Parts.{env}

abbrev empty : EventQueue
empty = record { queue = replicate 16 blank; head = 0; tail = 0; count = 0 }

empty-IsValid : IsValid empty
empty-IsValid = record {
  slots = refl;
  tail_in = omega arith;
  count_in = omega arith;
  head_at = refl;
  live = tt;
}

-- Touched since time 100, not reported yet.
abbrev pressed : TouchSensorState
pressed = record {
  active = true;
  current_touched = true;
  debounced_touched = false;
  last_reported_touched = false;
  last_change_time = 100;
}

abbrev waiting : ExpectState
waiting = record { active = true; command_id = 9 }

abbrev nothing : ExpectState
nothing = record { active = false; command_id = 0 }

debounce_from-reports_example :
    let d =
      debounce_from env true 130 0
        (pressed ∷ pressed ∷ [])
        (waiting ∷ nothing ∷ [])
        (nothing ∷ nothing ∷ [])
        empty in
    (contents d.queue
      ≡ take 16 (
          contents empty
          ++ reports env 130 0
              (pressed ∷ pressed ∷ [])
              (waiting ∷ nothing ∷ [])
              (nothing ∷ nothing ∷ [])))
    × IsValid d.queue
debounce_from-reports_example =
    debounce_from-reports env 130 0 (pressed ∷ pressed ∷ []) (waiting ∷ nothing ∷ [])
      (nothing ∷ nothing ∷ []) empty-IsValid

debounce_from_state_example :
    let d = debounce_from env true 130 0 (pressed ∷ []) (waiting ∷ []) (nothing ∷ []) empty in
    (d.sensors ≡ map (settle 130) (pressed ∷ []))
    × (d.expect_down ≡ all_used env true 130 (pressed ∷ []) (waiting ∷ []))
    × (d.expect_up ≡ all_used env false 130 (pressed ∷ []) (nothing ∷ []))
debounce_from_state_example =
    debounce_from_state env 130 0 (pressed ∷ []) (waiting ∷ []) (nothing ∷ []) empty refl refl

abbrev rounds : List Round
rounds =
    record { touched = true; poll_time = 120; debounce_time = 130; down = waiting; up = nothing }
    ∷ record { touched = false; poll_time = 140; debounce_time = 141; down = nothing; up = nothing }
    ∷ record { touched = false; poll_time = 150; debounce_time = 170; down = nothing; up = nothing }
    ∷ []

log-Alternates_example : Alternates 3 false (log env empty 3 pressed rounds)
log-Alternates_example = log-Alternates env 3 pressed rounds empty-IsValid refl refl

letter_to_index-index_to_letter_example :
    (letter_to_index (index_to_letter 4) ≡ 4)
    × ((letter_to_index b'c' ≡ 255)
        ⊎ ((letter_to_index b'c' < 25)
            × ((index_to_letter (letter_to_index b'c') ≡ b'c')
                ⊎ (index_to_letter (letter_to_index b'c') + 32 ≡ b'c'))))
letter_to_index-index_to_letter_example = letter_to_index-index_to_letter 4 b'c' (omega arith)

-- Sensor C has been touched.
abbrev touched_c : TouchController
unfolding construct
touched_c = record (construct env) { sensors = set (replicate 25 idle_sensor) 2 pressed }

touched_c-Sized : Sized env touched_c
unfolding construct
touched_c-Sized = record { sensors = refl; downs = refl; ups = refl }

set_expect_down-answer_example :
    let t' = set_expect_down touched_c 2 9 in
    let d = debounce_from env true 130 0 t'.sensors t'.expect_down t'.expect_up empty in
    Said env 130 2 t' empty (touched_down_event b'C' 9 ∷ [])
    × (get_or d.expect_down 2 (no_expectation env) ≡ no_expectation env)
unfolding construct index_to_letter
set_expect_down-answer_example =
    set_expect_down-answer env 130 2 9 touched_c touched_c-Sized (omega arith) empty-IsValid
