-- ===== src/Tests/Led.antt =====
-- The LED controller at concrete states.
use hardware.Base.{◌++◌, ℕ, ◌+◌, ◌-◌, ◌^◌, ◌≡◌, ◌≤◌, refl, true, false, List, [], ◌∷◌, arith}
use hardware.Led.State.{get_mapping}
use hardware.Led.Strip.{set_led, set_led_if, light_region}
use hardware.Led.Update.{
  advance, update, for_from, animate_one, update_animation, update_blinking, blink_one, push_leds,
  render_position,
}
use hardware.Led.Controller.{
  clear_if_lit, clear_before_success, begin, show, success, is_animation_complete,
}
use hardware.Led.Invariant.{
  call, shows, succeeds, updates as at_time, IsValid, run, run-begin-IsValid,
}
use hardware.Led.Watch.{clock_at, last_time}
use hardware.Led.Timing.{updates, success_takes_400_ms, success_completes}
use hardware.Led.State.{mapping_at}
use hardware.Led.Controller.{data_at}
use hardware.Led.Strip.{LedController}
use hardware.Led.Pixels.{pixel_at}
use hardware.Led.Shows.{look}
use hardware.Led.Truth.{pixel_at-run}
use hardware.Led.Update.{
  start_sequence_completed_animation, is_sequence_completed_animation_complete,
}
use hardware.Led.Celebration.{celebration_takes_1200_ms, celebration_completes}
use hardware.Tests.Parts.{pixels, pixel_laws}
use hardware.Tests.State.{all_dark}

run-begin-IsValid_example :
    IsValid pixels
      (run pixels (shows 2 ∷ succeeds 100 3 ∷ at_time 180 ∷ []) (begin pixels all_dark))
run-begin-IsValid_example =
    run-begin-IsValid pixels (shows 2 ∷ succeeds 100 3 ∷ at_time 180 ∷ []) all_dark

-- The clock passes 2 ^ 32 while the region grows.
abbrev beats : List ℕ
beats = (2 ^ 32 + 79) ∷ (2 ^ 32 + 159) ∷ (2 ^ 32 + 239) ∷ (2 ^ 32 + 319) ∷ (2 ^ 32 + 399) ∷ []

success_completes_example :
    is_animation_complete pixels
      (updates pixels
        (beats ++ (0 ∷ 90 ∷ []))
        (success pixels (clock_at (2 ^ 32 - 1)) all_dark 3).1)
      3
    ≡ true
success_completes_example =
    success_completes pixels all_dark 3 (2 ^ 32 - 1) beats refl refl (omega arith) (0 ∷ 90 ∷ [])
      (omega arith) (omega arith)

success_takes_400_ms_example : 2 ^ 32 - 1 + 400 ≤ last_time (2 ^ 32 - 1) beats
success_takes_400_ms_example =
    success_takes_400_ms pixels all_dark 3 (2 ^ 32 - 1) beats refl refl (omega arith) (omega arith)
      (success_completes pixels all_dark 3 (2 ^ 32 - 1) beats refl refl (omega arith) []
        (omega arith) (omega arith))

-- An expansion that has reached its first step: the LED beside the centre.
abbrev later : LedController pixels
later = run pixels (shows 2 ∷ succeeds 100 3 ∷ at_time 180 ∷ []) (begin pixels all_dark)

later_idle : later.sequence_anim_active ≡ false
unfolding run call begin show success update get_mapping clear_if_lit clear_before_success set_led
    for_from animate_one update_animation update_blinking blink_one push_leds render_position
    advance light_region set_led_if
later_idle = refl

pixel_at-run_example :
    pixel_at pixels pixel_laws later (mapping_at 3).strip 178
    ≡ look pixels pixel_laws (data_at pixels later 3) 1
pixel_at-run_example =
    pixel_at-run pixels pixel_laws (shows 2 ∷ succeeds 100 3 ∷ at_time 180 ∷ []) all_dark 3 178
      later_idle (omega arith) (omega arith)

-- The clock passes 2 ^ 32 while the celebration runs.
abbrev looks : List ℕ
looks =
    (2 ^ 32 + 149)
    ∷ (2 ^ 32 + 299)
    ∷ (2 ^ 32 + 449)
    ∷ (2 ^ 32 + 599)
    ∷ (2 ^ 32 + 749)
    ∷ (2 ^ 32 + 899)
    ∷ (2 ^ 32 + 1049)
    ∷ (2 ^ 32 + 1199)
    ∷ []

celebration_completes_example :
    is_sequence_completed_animation_complete pixels (
      updates pixels
        (looks ++ (0 ∷ 90 ∷ []))
        (start_sequence_completed_animation pixels (clock_at (2 ^ 32 - 1)) all_dark))
    ≡ true
celebration_completes_example =
    celebration_completes pixels all_dark (2 ^ 32 - 1) looks (0 ∷ 90 ∷ []) (omega arith)
      (omega arith)

celebration_takes_1200_ms_example : 2 ^ 32 - 1 + 1200 ≤ last_time (2 ^ 32 - 1) looks
celebration_takes_1200_ms_example =
    celebration_takes_1200_ms pixels all_dark (2 ^ 32 - 1) looks (omega arith)
      (celebration_completes pixels all_dark (2 ^ 32 - 1) looks [] (omega arith) (omega arith))
