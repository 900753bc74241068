-- ===== src/MockPi/Guards.antt =====
-- When no edge of the diagram of src/MockPiPrograms.cpp is open.
use Prim.Native.Nat.{bit_and}
use hardware.Base.{ℕ, ◌<◌, ◌≡◌, ◌≢◌, ◌⊎◌, inl, inr, refl, Bool, true, false, arith}
use hardware.Base.Words.{sub32}
use hardware.Command.Machine.{Parts}
use hardware.MockPi.State.{
  MockPiProgram, no_program, sequence_simple, sequence_simultaneous, record_playback,
  two_hand_sequence, simultaneous, single, StepType, MockPiState, step_expect_down, step_wait_touch,
  step_success, step_expect_up, step_wait_release, step_hide, step_next, sequence_complete,
  two_hand_expect_down, two_hand_wait_touch, MockPi, World, Unseen,
}
use hardware.MockPi.Touch.{two_hand_position}
use hardware.MockPi.Update.{is_record_playback, is_simultaneous, window_expired}
use hardware.MockPi.Diagram

pub program-cases :
    (q : MockPiProgram)
    → ((q ≡ record_playback) × (is_record_playback q ≡ true))
      ⊎ ((q ≢ record_playback) × (is_record_playback q ≡ false))
program-cases record_playback = inl (refl, refl)
program-cases no_program = inr (λ e. cc, refl)
program-cases sequence_simple = inr (λ e. cc, refl)
program-cases sequence_simultaneous = inr (λ e. cc, refl)
program-cases two_hand_sequence = inr (λ e. cc, refl)

simultaneous_lem : (t : StepType) → is_simultaneous t ≡ true → t ≡ simultaneous
simultaneous_lem simultaneous h = refl
simultaneous_lem single h = cc

-- The states whose edges wait for the delay between steps.
abbrev pub is_due : MockPiState → Bool
is_due step_expect_down = true
is_due step_success = true
is_due step_expect_up = true
is_due step_hide = true
is_due step_next = true
is_due sequence_complete = true
is_due two_hand_expect_down = true
is_due _ = false

module _ {p : Parts} (u : Unseen p) where
  pub window_expired-true :
      (now : ℕ) (w : World p)
      → window_expired u now w ≡ true
      → ((u.current_step_data w.pi).type ≡ simultaneous)
        × (0 < w.pi.first_touch_time)
        × (500 < sub32 now w.pi.first_touch_time)
        × (u.all_step_positions_touched w.pi ≡ false)
  window_expired-true now w h = (
    simultaneous_lem (u.current_step_data w.pi).type (ground (arith, h)),
    ground (arith, h),
    ground (arith, h),
    ground (arith, h),
  )

module _ {p : Parts} (u : Unseen p) {now elapsed : ℕ} where
  pub no_early :
      {s s' : MockPiState} {pi : MockPi} {says : Diagram.Says}
      → is_due s ≡ true
      → elapsed < 100
      → ¬ Diagram.Edge u pi now elapsed s says s'
  no_early d h Diagram.show = cc
  no_early d h (Diagram.expect g) = omega arith
  no_early d h (Diagram.retry g) = cc
  no_early d h (Diagram.expire g _ _ _ _) = cc
  no_early d h (Diagram.touched g _) = cc
  no_early d h (Diagram.succeed g) = omega arith
  no_early d h (Diagram.release g) = omega arith
  no_early d h (Diagram.late g) = cc
  no_early d h (Diagram.released g _) = cc
  no_early d h (Diagram.hide g) = omega arith
  no_early d h (Diagram.another g _) = omega arith
  no_early d h (Diagram.last g _) = omega arith
  no_early d h (Diagram.record_again g _) = omega arith
  no_early d h (Diagram.finish g _) = omega arith
  no_early d h (Diagram.show_hand g) = cc
  no_early d h (Diagram.clean_up g) = cc
  no_early d h (Diagram.expect_hand g) = omega arith
  no_early d h (Diagram.retry_hand g) = cc
  no_early d h (Diagram.touched_hand g _) = cc

  pub no_touch :
      (w : World p) {s' : MockPiState} {says : Diagram.Says}
      → elapsed < 10000
      → window_expired u now w ≡ false
      → u.all_step_positions_touched w.pi ≡ false
      → ¬ Diagram.Edge u w.pi now elapsed step_wait_touch says s'
  no_touch w h g t (Diagram.retry l) = omega arith
  no_touch w h g t (Diagram.expire l a b c d) = ground (arith, g, a)
  no_touch w h g t (Diagram.touched l a) = cc

  pub no_release :
      {s' : MockPiState} {pi : MockPi} {says : Diagram.Says}
      → elapsed < 5000
      → u.all_step_positions_released pi ≡ false
      → ¬ Diagram.Edge u pi now elapsed step_wait_release says s'
  no_release h t (Diagram.late l) = omega arith
  no_release h t (Diagram.released l a) = cc

  pub no_hand :
      {s' : MockPiState} {pi : MockPi} {says : Diagram.Says}
      → elapsed < 10000
      → bit_and pi.step_touched_mask (u.pos_to_bit (two_hand_position pi)) ≡ 0
      → ¬ Diagram.Edge u pi now elapsed two_hand_wait_touch says s'
  no_hand h t (Diagram.retry_hand l) = omega arith
  no_hand h t (Diagram.touched_hand l a) = a t
