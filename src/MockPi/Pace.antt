-- ===== src/MockPi/Pace.antt =====
-- What src/MockPiPrograms.cpp sends for one step of a sequence, when the player and the clock keep pace.
use hardware.Base.{
  ℕ, zero, suc, ◌≤◌, ◌<◌, ◌≡◌, refl, sym, ap, ap₂, ◌∙◌, subst, some, List, ◌++◌, append-nil,
  append_assoc, get_or, arith,
}
use hardware.Base.Words.{codes, sub32}
use hardware.Command.LexerLaws.{LexerLaws}
use hardware.Command.Machine.{Parts}
use hardware.MockPi.State.{
  MockPiState, step_show, step_next, MockPi, blank_step, SequenceStep, World, world_millis, Unseen,
  UnseenLaws,
}
use hardware.MockPi.Touch.{step_positions}
use hardware.MockPi.Update.{update_state_machine}
use hardware.MockPi.Sending.{lines_of, ids_after}
use hardware.MockPi.Cases.{update_state_machine-Follows}
use hardware.MockPi.Protocol.{
  following, left, says, lines, id_from, story, Prompt, Between, Turns, over, turn, Turned,
  Outcome-Turned, left-following, left-readable,
}

-- The positions of the step that m_currentStep counts.
abbrev pub planned : MockPi → List ℕ
planned pi = step_positions (get_or pi.steps pi.current_step blank_step)

some_inj {ℓ} : {A : Type ℓ} {a b : A} → some a ≡ some b → a ≡ b
some_inj e = cc

module _ {p : Parts} (u : Unseen p) (laws : UnseenLaws p u) (lexer : LexerLaws p.lexer) where
  turn-Turned :
      (s : MockPiState) (w w₁ w₂ : World p)
      → w.pi.state ≡ s
      → 0 < left s
      → Between u w w₁
      → Prompt u w₁
      → update_state_machine u w₁ ≡ some w₂
      → Turned u s w₁ w₂
  turn-Turned s w w₁ w₂ hs l b q e =
      let there : w₁.pi.state ≡ s = b.state ∙ hs in
      let l₁ : 0 < left w₁.pi.state = rw there l in
      let (w', e', o) =
        update_state_machine-Follows u laws lexer w₁ (left-readable u w₁.pi.state l₁) b.valid in
      let now = (world_millis p w₁).0 in
      let t =
        Outcome-Turned u now (sub32 now w₁.pi.state_start_time) q.due q.in_time w₁.pi.state
          (world_millis p w₁).1 w' l₁ q.ready o in
      let t' : Turned u w₁.pi.state w₁ w' = record {
        state = t.state;
        steps = t.steps;
        current_step = t.current_step;
        command_id = t.command_id;
        sent = t.sent;
        valid = t.valid;
      } in
      subst (λ x. Turned u x w₁ w₂) there
        (subst (λ x. Turned u w₁.pi.state w₁ x) (some_inj (sym e' ∙ e)) t')

  -- The state after so many turns.
  abbrev after : ℕ → MockPiState → MockPiState
  after zero s = s
  after (suc n) s = after n (following s)

  record Told (n : ℕ) (s : MockPiState) (positions : List ℕ) (id : ℕ) (w w' : World p)
      : Type 0 where
    state : w'.pi.state ≡ after n s
    current_step : w'.pi.current_step ≡ w.pi.current_step
    sent : w'.sent ≡ w.sent ++ story u n s positions id

  Turns-Told :
      (n : ℕ) (s : MockPiState) (positions : List ℕ) (id : ℕ) (w w' : World p)
      → w.pi.state ≡ s
      → planned w.pi ≡ positions
      → w.pi.command_id ≡ id
      → n ≤ left s
      → Turns u n w w'
      → Told n s positions id w w'
  Turns-Told zero s positions id w w' hs hp hi l (over _) = record {
    state = hs;
    current_step = refl;
    sent = sym (append-nil w.sent);
  }
  Turns-Told (suc n) s positions id w w' hs hp hi l (turn _ w₁ w₂ _ b q e rest) =
      let l₀ : 0 < left s = omega arith in
      let t = turn-Turned s w w₁ w₂ hs l₀ b q e in
      let plan = λ (ss : List SequenceStep) (i : ℕ). step_positions (get_or ss i blank_step) in
      let here : planned w₁.pi ≡ positions = ap₂ plan b.steps b.current_step ∙ hp in
      let read : step_positions (u.current_step_data w₁.pi) ≡ positions =
        ap step_positions (laws.step_data w₁.pi) ∙ here in
      let same : w₁.pi.command_id ≡ id = b.command_id ∙ hi in
      let ids : w₂.pi.command_id ≡ id_from u (says s) positions id =
        t.command_id ∙ ap₂ (id_from u (says s)) read same in
      let more =
        Turns-Told n (following s) positions (id_from u (says s) positions id) w₂ w' t.state
          (ap₂ plan t.steps t.current_step ∙ here) ids (omega (arith, left-following u s l₀))
          rest in
      let first : w₂.sent ≡ w.sent ++ lines u (says s) positions id =
        t.sent ∙ ap₂ (λ (a b : List (List ℕ)). a ++ b) b.sent (ap₂ (lines u (says s)) read same) in
      record {
        state = more.state;
        current_step = more.current_step ∙ (t.current_step ∙ b.current_step);
        sent =
            more.sent
            ∙ (ap (λ l. l ++ story u n (following s) positions (id_from u (says s) positions id))
                  first
                ∙ append_assoc w.sent (lines u (says s) positions id)
                    (story u n (following s) positions (id_from u (says s) positions id)));
      }

  -- A step of a sequence, in STEP_SHOW: after seven calls of `updateStateMachine`, each of which comes
  -- between 100 ms and 5 s after the one before it has changed the state and finds touched, and later
  -- released, what the step waits for, the Mock Pi is in STEP_NEXT of the same step. Whatever else happens
  -- to the machine between the calls, it has sent for every position of the step, in its order,
  -- SHOW, then EXPECT_DOWN, SUCCESS, EXPECT_UP and HIDE, with consecutive identifiers.
  pub step_plays :
      (w w' : World p)
      → w.pi.state ≡ step_show
      → Turns u 7 w w'
      → let positions = planned w.pi in
        let next = ids_after positions in
        let id = w.pi.command_id in
        (w'.pi.state ≡ step_next)
        × (w'.pi.current_step ≡ w.pi.current_step)
        × (w'.sent
            ≡ w.sent
              ++ (lines_of p (codes "SHOW") positions id
                  ++ (lines_of p (codes "EXPECT_DOWN") positions (next id)
                      ++ (lines_of p (codes "SUCCESS") positions (next (next id))
                          ++ (lines_of p (codes "EXPECT_UP") positions (next (next (next id)))
                              ++ lines_of p
                                  (codes "HIDE")
                                  positions
                                  (next (next (next (next id)))))))))
  step_plays w w' hs turns =
      let t =
        Turns-Told 7 step_show (planned w.pi) w.pi.command_id w w' hs refl refl (omega arith)
          turns in
      (t.state, t.current_step, t.sent ∙ simp (append-nil))
