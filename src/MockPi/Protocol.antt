-- ===== src/MockPi/Protocol.antt =====
-- A step of a sequence as src/MockPiPrograms.cpp plays it, when the player and the clock keep pace.
use hardware.Base.{
  ℕ, zero, suc, ◌≤◌, ◌<◌, ◌≡◌, refl, ap, ◌∙◌, Bool, true, some, List, [], ◌++◌, arith,
}
use hardware.Base.Words.{codes, sub32}
use hardware.Command.Machine.{Parts}
use hardware.Command.Steps.{IsValid}
use hardware.MockPi.State.{
  MockPiState, step_show, step_expect_down, step_wait_touch, step_success, step_expect_up,
  step_wait_release, step_hide, step_next, MockPi, World, world_millis, Unseen,
}
use hardware.MockPi.Touch.{step_positions}
use hardware.MockPi.Update.{update_state_machine}
use hardware.MockPi.Sending.{lines_of, ids_after}
use hardware.MockPi.Diagram
use hardware.MockPi.Follows.{Settled, Outcome, stays, moves}

-- The state that comes next in a step, and how many come before its end.
abbrev pub following : MockPiState → MockPiState
following step_show = step_expect_down
following step_expect_down = step_wait_touch
following step_wait_touch = step_success
following step_success = step_expect_up
following step_expect_up = step_wait_release
following step_wait_release = step_hide
following _ = step_next

abbrev pub left : MockPiState → ℕ
left step_show = 7
left step_expect_down = 6
left step_wait_touch = 5
left step_success = 4
left step_expect_up = 3
left step_wait_release = 2
left step_hide = 1
left _ = 0

-- What a state sends as it is left for the next.
abbrev pub says : MockPiState → Diagram.Says
says step_show = Diagram.for_step (codes "SHOW")
says step_expect_down = Diagram.for_step (codes "EXPECT_DOWN")
says step_success = Diagram.for_step (codes "SUCCESS")
says step_expect_up = Diagram.for_step (codes "EXPECT_UP")
says step_hide = Diagram.for_step (codes "HIDE")
says _ = Diagram.nothing

module _ {p : Parts} (u : Unseen p) where
  -- Has the player done what the state waits for?
  abbrev pub is_ready : MockPiState → MockPi → Bool
  is_ready step_wait_touch pi = u.all_step_positions_touched pi
  is_ready step_wait_release pi = u.all_step_positions_released pi
  is_ready _ pi = true

  -- The delay between steps is over, no time-out is, and the player has done it.
  pub record Prompt (w : World p) : Type 0 where
    pub due : 100 ≤ sub32 (world_millis p w).0 w.pi.state_start_time
    pub in_time : sub32 (world_millis p w).0 w.pi.state_start_time < 5000
    pub ready : is_ready w.pi.state w.pi ≡ true

  -- What the rest of the firmware and the polling of the sensors leave alone.
  pub record Between (w w' : World p) : Type 0 where
    pub state : w'.pi.state ≡ w.pi.state
    pub steps : w'.pi.steps ≡ w.pi.steps
    pub current_step : w'.pi.current_step ≡ w.pi.current_step
    pub command_id : w'.pi.command_id ≡ w.pi.command_id
    pub sent : w'.sent ≡ w.sent
    pub valid : IsValid p w'.machine

  -- Calls of `updateStateMachine`, each prompt, with anything else between them.
  pub data Turns : ℕ → World p → World p → Type 0 where
    over : (w : World p) → Turns zero w w
    turn :
        {n : ℕ} (w w₁ w₂ w₃ : World p)
        → Between w w₁
        → Prompt w₁
        → update_state_machine u w₁ ≡ some w₂
        → Turns n w₂ w₃
        → Turns (suc n) w w₃

  -- The lines of a step at the given positions, from a state on, and the identifiers.
  abbrev pub lines : Diagram.Says → List ℕ → ℕ → List (List ℕ)
  lines (Diagram.for_step action) positions id = lines_of p action positions id
  lines _ positions id = []

  abbrev pub id_from : Diagram.Says → List ℕ → ℕ → ℕ
  id_from (Diagram.for_step action) positions id = ids_after positions id
  id_from _ positions id = id

  abbrev pub story : ℕ → MockPiState → List ℕ → ℕ → List (List ℕ)
  story zero s positions id = []
  story (suc n) s positions id =
      lines (says s) positions id ++ story n (following s) positions (id_from (says s) positions id)

  -- Which edge a prompt state takes.
  pub record Turned (s : MockPiState) (w w' : World p) : Type 0 where
    pub state : w'.pi.state ≡ following s
    pub steps : w'.pi.steps ≡ w.pi.steps
    pub current_step : w'.pi.current_step ≡ w.pi.current_step
    pub command_id :
        w'.pi.command_id
        ≡ id_from (says s) (step_positions (u.current_step_data w.pi)) w.pi.command_id
    pub sent :
        w'.sent
        ≡ w.sent ++ lines (says s) (step_positions (u.current_step_data w.pi)) w.pi.command_id
    pub valid : IsValid p w'.machine

  Settled-Turned :
      (s : MockPiState) (changed : MockPi) (w w' : World p)
      → changed.steps ≡ w.pi.steps
      → changed.current_step ≡ w.pi.current_step
      → Settled u
          (following s)
          changed
          (lines (says s) (step_positions (u.current_step_data w.pi)) w.pi.command_id)
          (id_from (says s) (step_positions (u.current_step_data w.pi)) w.pi.command_id)
          w
          w'
      → Turned s w w'
  Settled-Turned s changed w w' e f t = record {
    state = ap (λ (pi : MockPi). pi.state) t.pi;
    steps = ap (λ (pi : MockPi). pi.steps) t.pi ∙ e;
    current_step = ap (λ (pi : MockPi). pi.current_step) t.pi ∙ f;
    command_id = ap (λ (pi : MockPi). pi.command_id) t.pi;
    sent = t.sent;
    valid = t.valid;
  }

  module _ (now elapsed : ℕ) (due : 100 ≤ elapsed) (in_time : elapsed < 5000) where
    edge-Turned :
        (s : MockPiState) (said : Diagram.Says) (s' : MockPiState) (w w' : World p)
        (e : Diagram.Edge u w.pi now elapsed s said s')
        → 0 < left s
        → is_ready s w.pi ≡ true
        → Settled u s'
            (Diagram.change u w.pi now elapsed e)
            (Diagram.said u w.pi now elapsed said)
            (Diagram.id_after u w.pi now elapsed said)
            w
            w'
        → Turned s w w'
    edge-Turned s said s' w w' Diagram.show l r t = Settled-Turned step_show w.pi w w' refl refl t
    edge-Turned s said s' w w' (Diagram.expect g) l r t =
        Settled-Turned step_expect_down
          (record w.pi { step_touched_mask = 0; first_touch_time = 0 }) w w' refl refl t
    edge-Turned s said s' w w' (Diagram.touched g a) l r t =
        Settled-Turned step_wait_touch w.pi w w' refl refl t
    edge-Turned s said s' w w' (Diagram.succeed g) l r t =
        Settled-Turned step_success w.pi w w' refl refl t
    edge-Turned s said s' w w' (Diagram.release g) l r t =
        Settled-Turned step_expect_up w.pi w w' refl refl t
    edge-Turned s said s' w w' (Diagram.released g a) l r t =
        Settled-Turned step_wait_release w.pi w w' refl refl t
    edge-Turned s said s' w w' (Diagram.hide g) l r t =
        Settled-Turned step_hide w.pi w w' refl refl t
    edge-Turned s said s' w w' (Diagram.retry g) l r t = absurd (omega arith)
    edge-Turned s said s' w w' (Diagram.late g) l r t = absurd (omega arith)
    edge-Turned s said s' w w' (Diagram.expire g a b c d) l r t = cc
    edge-Turned s said s' w w' (Diagram.another g a) l r t = absurd (omega arith)
    edge-Turned s said s' w w' (Diagram.last g a) l r t = absurd (omega arith)
    edge-Turned s said s' w w' (Diagram.record_again g a) l r t = absurd (omega arith)
    edge-Turned s said s' w w' (Diagram.finish g a) l r t = absurd (omega arith)
    edge-Turned s said s' w w' (Diagram.show_hand g) l r t = absurd (omega arith)
    edge-Turned s said s' w w' (Diagram.clean_up g) l r t = absurd (omega arith)
    edge-Turned s said s' w w' (Diagram.expect_hand g) l r t = absurd (omega arith)
    edge-Turned s said s' w w' (Diagram.retry_hand g) l r t = absurd (omega arith)
    edge-Turned s said s' w w' (Diagram.touched_hand g a) l r t = absurd (omega arith)

    -- A prompt state has an open edge.
    open_edge :
        (s : MockPiState) (pi : MockPi)
        → 0 < left s
        → is_ready s pi ≡ true
        → Diagram.Edge u pi now elapsed s (says s) (following s)
    open_edge step_show pi l r = Diagram.show
    open_edge step_expect_down pi l r = Diagram.expect due
    open_edge step_wait_touch pi l r = Diagram.touched (omega arith) r
    open_edge step_success pi l r = Diagram.succeed due
    open_edge step_expect_up pi l r = Diagram.release due
    open_edge step_wait_release pi l r = Diagram.released in_time r
    open_edge step_hide pi l r = Diagram.hide due
    open_edge _ pi l r = absurd (omega arith)

    pub Outcome-Turned :
        (s : MockPiState) (w w' : World p)
        → 0 < left s
        → is_ready s w.pi ≡ true
        → Outcome u s now elapsed w w'
        → Turned s w w'
    Outcome-Turned s w w' l r (stays none_open e) =
        absurd (none_open (says s) (following s) (open_edge s w.pi l r))
    Outcome-Turned s w w' l r (moves said s' e t) = edge-Turned s said s' w w' e l r t

  pub left-following : (s : MockPiState) → 0 < left s → left s ≡ suc (left (following s))
  left-following step_show l = refl
  left-following step_expect_down l = refl
  left-following step_wait_touch l = refl
  left-following step_success l = refl
  left-following step_expect_up l = refl
  left-following step_wait_release l = refl
  left-following step_hide l = refl
  left-following _ l = absurd (omega arith)

  pub left-readable : (s : MockPiState) → 0 < left s → Diagram.is_readable s ≡ true
  left-readable step_show l = refl
  left-readable step_expect_down l = refl
  left-readable step_wait_touch l = refl
  left-readable step_success l = refl
  left-readable step_expect_up l = refl
  left-readable step_wait_release l = refl
  left-readable step_hide l = refl
  left-readable _ l = absurd (omega arith)
