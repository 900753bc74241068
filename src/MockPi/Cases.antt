-- ===== src/MockPi/Cases.antt =====
-- `updateStateMachine` of src/MockPiPrograms.cpp against the diagram of its transitions.
use Prim.Native.Nat.{bit_and}
use hardware.Base.{
  ℕ, suc, ◌-◌, ◌≤◌, ◌≡◌, refl, ap, ◌∙◌, Bool, true, some, [], ltb, leb, leb→le, ◌==◌, ==_iff,
  if◌then◌else◌, Bool-cases, inl, inr, arith,
}
use hardware.Base.Words.{codes, add8, add32, sub32}
use hardware.Command.LexerLaws.{LexerLaws}
use hardware.Command.Machine.{Parts}
use hardware.Command.Steps.{IsValid}
use hardware.MockPi.State.{
  no_program, MockPiState, idle, step_show, step_expect_down, step_wait_touch, step_success,
  step_expect_up, step_wait_release, step_hide, step_next, sequence_complete, two_hand_show,
  two_hand_expect_down, two_hand_wait_touch, two_hand_success, two_hand_final_cleanup, recording,
  MockPi, World, put_pi, world_millis, Unseen, UnseenLaws,
}
use hardware.MockPi.Touch.{two_hand_position}
use hardware.MockPi.Update.{
  line_completed, is_record_playback, positions_now, window_expired, wait_touch, wait_release,
  go_to_next, complete, show_two_hand, wait_two_hand, run_case, update_state_machine,
}
use hardware.MockPi.Sending.{send_command-Sent, calls-IsValid}
use hardware.MockPi.Diagram
use hardware.MockPi.Diagram.{is_readable}
use hardware.MockPi.Guards.{
  program-cases, no_early, window_expired-true, no_touch, no_release, no_hand,
}
use hardware.MockPi.Follows.{
  stays, moves, Follows, Settled-transition, go-Settled, all-Settled, hand-Settled, due-Follows,
}

module _ {p : Parts} (u : Unseen p) (laws : UnseenLaws p u) (lexer : LexerLaws p.lexer)
    (now elapsed : ℕ) where
  touch-Follows :
      (w : World p)
      → IsValid p w.machine
      → Follows u step_wait_touch now elapsed w (wait_touch u now elapsed w)
  unfolding wait_touch
  touch-Follows w v =
      let pi₁ : MockPi = record w.pi { step_touched_mask = 0; first_touch_time = 0 } in
      let (w₁, e, s) =
        all-Settled u laws lexer (codes "HIDE") (positions_now u w) step_show pi₁ w v in
      elim (Bool-cases (leb 10000 elapsed)) [
        | inl late ↦ rw late (
          u.transition_to step_show w,
          refl,
          moves Diagram.nothing step_show (Diagram.retry (leb→le _ _ late))
              (go-Settled u laws lexer step_show w.pi w v),
        )
        | inr early ↦ elim (Bool-cases (window_expired u now w)) [
          | inl expired ↦
              let (a, b, c, d) = window_expired-true u now w expired in
              rw (early, expired)
                (
                  w₁,
                  e,
                  moves (Diagram.for_step (codes "HIDE")) step_show
                      (Diagram.expire (ground arith) a b c d) s,
                )
          | inr open_yet ↦ elim (Bool-cases (u.all_step_positions_touched w.pi)) [
            | inl all ↦
                rw (early, open_yet, all)
                  (
                    u.transition_to step_success w,
                    refl,
                    moves Diagram.nothing step_success (Diagram.touched (ground arith) all)
                        (go-Settled u laws lexer step_success w.pi w v),
                  )
            | inr some_left ↦
                rw (early, open_yet, some_left)
                  (w, refl, stays (λ says s'. no_touch u w (ground arith) open_yet some_left) refl)
          ]
        ]
      ]

  release-Follows :
      (w : World p)
      → IsValid p w.machine
      → Follows u step_wait_release now elapsed w (some (wait_release u elapsed w))
  unfolding wait_release
  release-Follows w v =
      let gone = go-Settled u laws lexer step_hide w.pi w v in
      elim (Bool-cases (leb 5000 elapsed)) [
        | inl late ↦ rw late (
          u.transition_to step_hide w,
          refl,
          moves Diagram.nothing step_hide (Diagram.late (leb→le _ _ late)) gone,
        )
        | inr early ↦ elim (Bool-cases (u.all_step_positions_released w.pi)) [
          | inl all ↦
              rw (early, all)
                (
                  u.transition_to step_hide w,
                  refl,
                  moves Diagram.nothing step_hide (Diagram.released (ground arith) all) gone,
                )
          | inr some_left ↦
              rw (early, some_left)
                (w, refl, stays (λ says s'. no_release u (ground arith) some_left) refl)
        ]
      ]

  next-Follows :
      (w : World p)
      → IsValid p w.machine
      → 100 ≤ elapsed
      → Follows u step_next now elapsed w (some (go_to_next u w))
  unfolding go_to_next
  next-Follows w v h =
      let current = add8 w.pi.current_step 1 in
      let pi₁ : MockPi = record w.pi { current_step = current; step_touched_mask = 0 } in
      let go = λ (b : Bool).
        some (u.transition_to (if b then sequence_complete else step_show) (put_pi p pi₁ w)) in
      elim (Bool-cases (leb w.pi.step_count current)) [
        | inl over ↦ (
          u.transition_to sequence_complete (put_pi p pi₁ w),
          ap go over,
          moves Diagram.nothing sequence_complete (Diagram.last h (leb→le _ _ over))
              (go-Settled u laws lexer sequence_complete pi₁ w v),
        )
        | inr more ↦ (
          u.transition_to step_show (put_pi p pi₁ w),
          ap go more,
          moves Diagram.nothing step_show (Diagram.another h (ground arith))
              (go-Settled u laws lexer step_show pi₁ w v),
        )
      ]

  complete-Follows :
      (w : World p)
      → IsValid p w.machine
      → 100 ≤ elapsed
      → Follows u sequence_complete now elapsed w (complete u w)
  unfolding complete
  complete-Follows w v h =
      let id = w.pi.command_id in
      let (w₁, e, s) = send_command-Sent p lexer (line_completed p id) (add32 id 1) w v in
      let same : w₁.pi.program ≡ w.pi.program = ap (λ (pi : MockPi). pi.program) s.pi in
      let forget = λ (pi : MockPi). record pi { recorded_count = 0; recorded_sequence = [] } in
      let end = λ (pi : MockPi). record pi { program = no_program } in
      elim (program-cases w.pi.program) [
        | inl (playing, test) ↦
            rw (e, ap is_record_playback same ∙ test)
              (
                u.transition_to recording (put_pi p (forget w₁.pi) w₁),
                refl,
                moves Diagram.completed recording (Diagram.record_again h playing) (
                    Settled-transition u laws lexer recording (forget w.pi) w
                      (put_pi p (forget w₁.pi) w₁)
                      (record {
                        time = s.time;
                        pi = ap forget s.pi;
                        sent = s.sent;
                        valid = s.valid;
                      })),
              )
        | inr (other, test) ↦
            rw (e, ap is_record_playback same ∙ test)
              (
                u.transition_to idle (put_pi p (end w₁.pi) w₁),
                refl,
                moves Diagram.completed idle (Diagram.finish h other) (
                    Settled-transition u laws lexer idle (end w.pi) w (put_pi p (end w₁.pi) w₁)
                      (record { time = s.time; pi = ap end s.pi; sent = s.sent; valid = s.valid })),
              )
      ]

  show_two_hand-Follows :
      (w : World p)
      → IsValid p w.machine
      → Follows u two_hand_show now elapsed w (show_two_hand u w)
  unfolding show_two_hand
  show_two_hand-Follows w v =
      let (w₁, e, s) =
        hand-Settled u laws lexer (codes "SHOW") (two_hand_position w.pi) two_hand_expect_down w.pi
          w v in
      let pi₁ : MockPi = record w.pi {
        two_hand_cleanup_index = if leb 1 w.pi.two_hand_count then w.pi.two_hand_count - 1 else 0;
      } in
      elim (Bool-cases (ltb w.pi.two_hand_current w.pi.two_hand_count)) [
        | inl left ↦ rw left (
          w₁,
          e,
          moves (Diagram.for_hand (codes "SHOW")) two_hand_expect_down
              (Diagram.show_hand (ground arith)) s,
        )
        | inr over ↦ rw over (
          u.transition_to two_hand_final_cleanup (put_pi p pi₁ w),
          refl,
          moves Diagram.nothing two_hand_final_cleanup (Diagram.clean_up (ground arith))
              (go-Settled u laws lexer two_hand_final_cleanup pi₁ w v),
        )
      ]

  wait_two_hand-Follows :
      (w : World p)
      → IsValid p w.machine
      → Follows u two_hand_wait_touch now elapsed w (some (wait_two_hand u elapsed w))
  unfolding wait_two_hand
  wait_two_hand-Follows w v =
      let hit = bit_and w.pi.step_touched_mask (u.pos_to_bit (two_hand_position w.pi)) in
      elim (Bool-cases (leb 10000 elapsed)) [
        | inl late ↦ rw late (
          u.transition_to two_hand_show w,
          refl,
          moves Diagram.nothing two_hand_show (Diagram.retry_hand (leb→le _ _ late))
              (go-Settled u laws lexer two_hand_show w.pi w v),
        )
        | inr early ↦ elim (Bool-cases (hit == 0)) [
          | inl none_yet ↦
              rw (early, none_yet)
                (
                  w,
                  refl,
                  stays (λ says s'. no_hand u (ground arith) ((==_iff hit 0).0 none_yet)) refl,
                )
          | inr touched ↦
              rw (early, touched)
                (
                  u.transition_to two_hand_success w,
                  refl,
                  moves Diagram.nothing two_hand_success
                      (Diagram.touched_hand (ground arith) (ground (arith, touched)))
                      (go-Settled u laws lexer two_hand_success w.pi w v),
                )
        ]
      ]

  -- Each case that can be read ends, and follows the diagram.
  run_case-Follows :
      (s : MockPiState) (w : World p)
      → is_readable s ≡ true
      → IsValid p w.machine
      → Follows u s now elapsed w (run_case u s now elapsed w)
  unfolding run_case
  run_case-Follows idle w h v = (w, refl, stays (λ says s' e. elim e [ ]) refl)
  run_case-Follows step_show w h v =
      let (w', e, s) =
        all-Settled u laws lexer (codes "SHOW") (positions_now u w) step_expect_down w.pi w v in
      (w', e, moves (Diagram.for_step (codes "SHOW")) step_expect_down Diagram.show s)
  run_case-Follows step_expect_down w h v =
      let pi₁ : MockPi = record w.pi { step_touched_mask = 0; first_touch_time = 0 } in
      let (w', e, s) =
        all-Settled u laws lexer (codes "EXPECT_DOWN") (positions_now u w) step_wait_touch pi₁ w
          v in
      due-Follows u laws lexer step_expect_down now elapsed w _ (λ says s'. no_early u refl)
        (λ due. (
          w',
          e,
          moves (Diagram.for_step (codes "EXPECT_DOWN")) step_wait_touch (Diagram.expect due) s,
        ))
  run_case-Follows step_wait_touch w h v = touch-Follows w v
  run_case-Follows step_success w h v =
      let (w', e, s) =
        all-Settled u laws lexer (codes "SUCCESS") (positions_now u w) step_expect_up w.pi w v in
      due-Follows u laws lexer step_success now elapsed w _ (λ says s'. no_early u refl)
        (λ due. (
          w',
          e,
          moves (Diagram.for_step (codes "SUCCESS")) step_expect_up (Diagram.succeed due) s,
        ))
  run_case-Follows step_expect_up w h v =
      let (w', e, s) =
        all-Settled u laws lexer (codes "EXPECT_UP") (positions_now u w) step_wait_release w.pi w
          v in
      due-Follows u laws lexer step_expect_up now elapsed w _ (λ says s'. no_early u refl)
        (λ due. (
          w',
          e,
          moves (Diagram.for_step (codes "EXPECT_UP")) step_wait_release (Diagram.release due) s,
        ))
  run_case-Follows step_wait_release w h v = release-Follows w v
  run_case-Follows step_hide w h v =
      let (w', e, s) =
        all-Settled u laws lexer (codes "HIDE") (positions_now u w) step_next w.pi w v in
      due-Follows u laws lexer step_hide now elapsed w _ (λ says s'. no_early u refl)
        (λ due. (w', e, moves (Diagram.for_step (codes "HIDE")) step_next (Diagram.hide due) s))
  run_case-Follows step_next w h v =
      due-Follows u laws lexer step_next now elapsed w _ (λ says s'. no_early u refl)
        (next-Follows w v)
  run_case-Follows sequence_complete w h v =
      due-Follows u laws lexer sequence_complete now elapsed w _ (λ says s'. no_early u refl)
        (complete-Follows w v)
  run_case-Follows two_hand_show w h v = show_two_hand-Follows w v
  run_case-Follows two_hand_expect_down w h v =
      let pi₁ : MockPi = record w.pi { step_touched_mask = 0 } in
      let (w', e, s) =
        hand-Settled u laws lexer (codes "EXPECT_DOWN") (two_hand_position w.pi) two_hand_wait_touch
          pi₁ w v in
      due-Follows u laws lexer two_hand_expect_down now elapsed w _ (λ says s'. no_early u refl)
        (λ due. (
          w',
          e,
          moves (Diagram.for_hand (codes "EXPECT_DOWN")) two_hand_wait_touch
              (Diagram.expect_hand due) s,
        ))
  run_case-Follows two_hand_wait_touch w h v = wait_two_hand-Follows w v
  run_case-Follows _ w h v = cc

module _ {p : Parts} (u : Unseen p) (laws : UnseenLaws p u) (lexer : LexerLaws p.lexer) where
  -- In a state whose case can be read, with a valid machine and `transitionTo` as its name says, a call of
  -- `updateStateMachine` ends. If no edge of the diagram is open at that time it only reads the clock. Else
  -- it goes along an open edge: the next state, the members that this edge changes and no others but the
  -- times, the commands of the edge for the positions of the step with consecutive identifiers, and a valid
  -- machine.
  pub update_state_machine-Follows :
      (w : World p)
      → is_readable w.pi.state ≡ true
      → IsValid p w.machine
      → let (now, w₁) = world_millis p w in
        Follows u w.pi.state now (sub32 now w.pi.state_start_time) w₁ (update_state_machine u w)
  unfolding update_state_machine
  update_state_machine-Follows w h v =
      let (now, w₁) = world_millis p w in
      run_case-Follows u laws lexer now (sub32 now w.pi.state_start_time) w.pi.state w₁ h
        (calls-IsValid p w.machine (suc w.machine.calls) v)
