-- ===== src/MockPi/Valid.antt =====
-- `pollTouchState` of src/MockPiPrograms.cpp keeps the machine that it reads valid.
use hardware.Base.{
  ℕ, zero, suc, ◌+◌, sym, subst, Bool, true, false, not, ◌&&◌, ltb, ◌==◌, if◌then◌else◌,
}
use hardware.Command.Machine.{Parts}
use hardware.Command.Steps.{IsValid}
use hardware.MockPi.State.{
  MockPiState, recording, recording_idle_check, step_wait_touch, two_hand_wait_touch, World,
  world_millis, Unseen, UnseenLaws,
}
use hardware.MockPi.Touch.{
  bit_at, contains, step_positions, two_hand_position, touched_from, touched_in, is_recording,
  on_touch_down, on_touch_up, edge_at, edges_from, poll_touch_state,
}
use hardware.MockPi.Sending.{calls-IsValid}

module _ {p : Parts} (u : Unseen p) (laws : UnseenLaws p u) where
  IsValid-if :
      (b : Bool) (x y : World p)
      → IsValid p x.machine
      → IsValid p y.machine
      → IsValid p (if b then x else y).machine
  IsValid-if true x y v w = v
  IsValid-if false x y v w = w

  transition-IsValid :
      (s : MockPiState) (w : World p)
      → IsValid p w.machine
      → IsValid p (u.transition_to s w).machine
  transition-IsValid s w v =
      subst (λ (x : World p). IsValid p x.machine) (sym (laws.transition s w))
        (calls-IsValid p w.machine (suc w.machine.calls) v)

  millis-IsValid : (w : World p) → IsValid p w.machine → IsValid p (world_millis p w).1.machine
  millis-IsValid w v = calls-IsValid p w.machine (suc w.machine.calls) v

  touched_in-IsValid :
      (s : MockPiState) (c : ℕ) (w : World p)
      → IsValid p w.machine
      → IsValid p (touched_in u s c w).machine
  unfolding touched_in
  touched_in-IsValid recording c w v = v
  touched_in-IsValid recording_idle_check c w v = transition-IsValid recording _ v
  touched_in-IsValid step_wait_touch c w v =
      IsValid-if (contains c (step_positions (u.current_step_data w.pi))) _ _
        (IsValid-if (w.pi.first_touch_time == 0) _ _ (millis-IsValid w v) v) v
  touched_in-IsValid two_hand_wait_touch c w v =
      IsValid-if (ltb w.pi.two_hand_current w.pi.two_hand_count && (c == two_hand_position w.pi)) _
        _ v v
  touched_in-IsValid _ c w v = v

  edge_at-IsValid :
      (new previous i : ℕ) (w : World p)
      → IsValid p w.machine
      → IsValid p (edge_at u new previous i w).machine
  unfolding edge_at on_touch_down on_touch_up
  edge_at-IsValid new previous i w v =
      let c = u.index_to_letter i in
      let w₁ = if bit_at new i && not (bit_at previous i) then on_touch_down u c w else w in
      let v₁ : IsValid p w₁.machine =
        IsValid-if (bit_at new i && not (bit_at previous i)) _ _
          (touched_in-IsValid w.pi.state c _ (millis-IsValid w v)) v in
      IsValid-if (bit_at previous i && not (bit_at new i)) _ _
        (IsValid-if (is_recording u w₁.pi.state && (w₁.pi.currently_touched == 0)) _ _
          (transition-IsValid recording_idle_check w₁ v₁) v₁)
        v₁

  edges_from-IsValid :
      (n new previous i : ℕ) (w : World p)
      → IsValid p w.machine
      → IsValid p (edges_from u n new previous i w).machine
  unfolding edges_from
  edges_from-IsValid zero new previous i w v = v
  edges_from-IsValid (suc n) new previous i w v =
      edges_from-IsValid n new previous (i + 1) (edge_at u new previous i w)
        (edge_at-IsValid new previous i w v)

  pub poll_touch_state-IsValid :
      (w : World p) → IsValid p w.machine → IsValid p (poll_touch_state u w).machine
  unfolding poll_touch_state
  poll_touch_state-IsValid w v =
      IsValid-if (not w.pi.has_touch) _ _ v
        (edges_from-IsValid 25 (touched_from 25 w.machine.touch 0 0) w.pi.previous_touched 0 w v)
