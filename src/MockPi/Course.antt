-- ===== src/MockPi/Course.antt =====
-- `update` of src/MockPiPrograms.cpp while the two-hand program waits for its position.
use hardware.Base.{
  ℕ, zero, suc, ◌+◌, ◌<◌, ◌≡◌, ◌⊎◌, refl, sym, ap, ◌∙◌, subst, Bool, true, false, not, ◌&&◌, some,
  List, ltb, ◌==◌, if◌then◌else◌, inl, inr, arith,
}
use hardware.Command.LexerLaws.{LexerLaws}
use hardware.Command.Machine.{Parts}
use hardware.Command.Steps.{IsValid}
use hardware.MockPi.State.{
  MockPiState, two_hand_show, two_hand_expect_down, two_hand_wait_touch, two_hand_success,
  two_hand_sequence, MockPiProgram, MockPi, World, put_pi, world_millis, Unseen, UnseenLaws,
}
use hardware.MockPi.State as State
use hardware.MockPi.Start.{is_none}
use hardware.MockPi.Touch.{
  bit_at, two_hand_position, touched_from, touched_in, is_recording, on_touch_down, on_touch_up,
  edge_at, edges_from, poll_touch_state,
}
use hardware.MockPi.Update.{update}
use hardware.MockPi.Sending.{calls-IsValid}
use hardware.MockPi.Diagram.{Edge, Says, is_readable, change}
use hardware.MockPi.Diagram as Diagram
use hardware.MockPi.Follows.{Outcome, stays, moves}
use hardware.MockPi.Cases.{update_state_machine-Follows}
use hardware.MockPi.Valid.{poll_touch_state-IsValid}

-- The states before the position has been touched.
abbrev pub is_waiting : MockPiState → Bool
is_waiting two_hand_show = true
is_waiting two_hand_expect_down = true
is_waiting two_hand_wait_touch = true
is_waiting _ = false

-- The program, and its place in it.
pub record Course : Type 0 where
  pub program : MockPiProgram
  pub positions : List ℕ
  pub count : ℕ
  pub current : ℕ

abbrev pub course : MockPi → Course
course pi = record {
  program = pi.program;
  positions = pi.two_hand_positions;
  count = pi.two_hand_count;
  current = pi.two_hand_current;
}

waiting_readable : (s : MockPiState) → is_waiting s ≡ true → is_readable s ≡ true
waiting_readable two_hand_show h = refl
waiting_readable two_hand_expect_down h = refl
waiting_readable two_hand_wait_touch h = refl
waiting_readable _ h = cc

module _ {p : Parts} (u : Unseen p) (c : Course) where
  -- The program waits for the position at its place.
  pub record Waits (pi : MockPi) : Type 0 where
    pub waiting : is_waiting pi.state ≡ true
    pub course_kept : course pi ≡ c

  Waits-if : (b : Bool) (x y : World p) → Waits x.pi → Waits y.pi → Waits (if b then x else y).pi
  Waits-if true x y v w = v
  Waits-if false x y v w = w

  waiting_not_recording : (s : MockPiState) → is_waiting s ≡ true → is_recording u s ≡ false
  waiting_not_recording two_hand_show h = refl
  waiting_not_recording two_hand_expect_down h = refl
  waiting_not_recording two_hand_wait_touch h = refl
  waiting_not_recording _ h = cc

  touched_in-Waits :
      (s : MockPiState) (letter : ℕ) (w : World p)
      → is_waiting s ≡ true
      → Waits w.pi
      → Waits (touched_in u s letter w).pi
  unfolding touched_in
  touched_in-Waits two_hand_show letter w h v = v
  touched_in-Waits two_hand_expect_down letter w h v = v
  touched_in-Waits two_hand_wait_touch letter w h v =
      Waits-if (ltb w.pi.two_hand_current w.pi.two_hand_count && (letter == two_hand_position w.pi))
        _ _ (record { waiting = v.waiting; course_kept = v.course_kept }) v
  touched_in-Waits _ letter w h v = cc

  edge_at-Waits :
      (new previous i : ℕ) (w : World p) → Waits w.pi → Waits (edge_at u new previous i w).pi
  unfolding edge_at on_touch_down on_touch_up
  edge_at-Waits new previous i w v =
      let letter = u.index_to_letter i in
      let w₁ = if bit_at new i && not (bit_at previous i) then on_touch_down u letter w else w in
      let v₁ : Waits w₁.pi =
        Waits-if (bit_at new i && not (bit_at previous i)) _ _
          (touched_in-Waits w.pi.state letter _ v.waiting
            (record { waiting = v.waiting; course_kept = v.course_kept }))
          v in
      let quiet : on_touch_up u letter w₁ ≡ w₁ =
        ap
          (λ (b : Bool).
            if b && (w₁.pi.currently_touched == 0)
            then u.transition_to State.recording_idle_check w₁
            else w₁)
          (waiting_not_recording w₁.pi.state v₁.waiting) in
      Waits-if (bit_at previous i && not (bit_at new i)) _ _
        (subst (λ (x : World p). Waits x.pi) (sym quiet) v₁) v₁

  edges_from-Waits :
      (n new previous i : ℕ) (w : World p) → Waits w.pi → Waits (edges_from u n new previous i w).pi
  unfolding edges_from
  edges_from-Waits zero new previous i w v = v
  edges_from-Waits (suc n) new previous i w v =
      edges_from-Waits n new previous (i + 1) (edge_at u new previous i w)
        (edge_at-Waits new previous i w v)

  poll_touch_state-Waits : (w : World p) → Waits w.pi → Waits (poll_touch_state u w).pi
  unfolding poll_touch_state
  poll_touch_state-Waits w v =
      let v₁ =
        edges_from-Waits 25 (touched_from 25 w.machine.touch 0 0) w.pi.previous_touched 0 w v in
      Waits-if (not w.pi.has_touch) _ _ v
        (record { waiting = v₁.waiting; course_kept = v₁.course_kept })

  -- Along an edge from one of these states the program stays in them, or the position has been touched.
  unfoldable pub Goes : MockPiState → Type 0
  Goes s = (is_waiting s ≡ true) ⊎ (s ≡ two_hand_success)

  edge-Goes :
      (pi : MockPi) (now elapsed : ℕ) {s s' : MockPiState} {says : Says}
      → (e : Edge u pi now elapsed s says s') → is_waiting s ≡ true
      → pi.two_hand_current < pi.two_hand_count
      → Goes s' × (course (change u pi now elapsed e) ≡ course pi)
  unfolding Goes
  edge-Goes pi now elapsed (Diagram.show_hand l) h more = (inl refl, refl)
  edge-Goes pi now elapsed (Diagram.clean_up l) h more = absurd (omega arith)
  edge-Goes pi now elapsed (Diagram.expect_hand l) h more = (inl refl, refl)
  edge-Goes pi now elapsed (Diagram.retry_hand l) h more = (inl refl, refl)
  edge-Goes pi now elapsed (Diagram.touched_hand l k) h more = (inr refl, refl)
  edge-Goes pi now elapsed _ h more = cc

  -- After an update: the machine is valid, and the program is where it was, and waits or has been touched.
  pub record Played (w : World p) : Type 0 where
    pub valid : IsValid p w.machine
    pub goes : Goes w.pi.state
    pub course_kept : course w.pi ≡ c

  module _ (laws : UnseenLaws p u) (lexer : LexerLaws p.lexer) where
    Outcome-Played :
        {s : MockPiState} {now elapsed : ℕ} (x y : World p)
        → s ≡ x.pi.state
        → IsValid p x.machine
        → Waits x.pi
        → c.current < c.count
        → Outcome u s now elapsed x y
        → Played y
    unfolding Goes
    Outcome-Played x y e v w l (stays closed same) =
        subst Played (sym same)
          (record { valid = v; goes = inl w.waiting; course_kept = w.course_kept })
    Outcome-Played {s} {now} {elapsed} x y e v w l (moves says s' edge t) =
        let here = subst (λ b. is_waiting b ≡ true) (sym e) w.waiting in
        let more = subst (λ (k : Course). k.current < k.count) (sym w.course_kept) l in
        let (goes, kept) = edge-Goes x.pi now elapsed edge here more in
        record {
          valid = t.valid;
          goes = subst Goes (sym (ap (λ (pi : MockPi). pi.state) t.pi)) goes;
          course_kept = ap course t.pi ∙ (kept ∙ w.course_kept);
        }

    -- `update`, with a program that waits for its position.
    pub update-Played :
        (w : World p)
        → IsValid p w.machine
        → Waits w.pi
        → c.program ≡ two_hand_sequence
        → c.current < c.count
        → (w' : World p) × (update u w ≡ some w') × Played w'
    unfolding update
    update-Played w v waits runs l =
        let on : is_none w.pi.program ≡ false =
          ap is_none (ap (λ (k : Course). k.program) waits.course_kept ∙ runs) in
        let polled = poll_touch_state u w in
        let v₁ = poll_touch_state-IsValid u laws w v in
        let waits₁ = poll_touch_state-Waits w waits in
        let (w', e, o) =
          update_state_machine-Follows u laws lexer polled
            (waiting_readable polled.pi.state waits₁.waiting) v₁ in
        (
          w',
          rw (on, e) refl,
          Outcome-Played (world_millis p polled).1 w' refl
              (calls-IsValid p polled.machine (suc polled.machine.calls) v₁) waits₁ l o,
        )
