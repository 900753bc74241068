-- ===== src/MockPi/Follows.antt =====
-- Every case of `updateStateMachine` in src/MockPiPrograms.cpp that can be read follows the diagram.
use hardware.Base.{
  ℕ, suc, ◌≤◌, ◌<◌, ◌≡◌, refl, sym, ap, Option, some, List, [], ◌∷◌, ◌++◌, append-nil, leb, leb→le,
  if◌then◌else◌, Bool-cases, inl, inr, arith,
}
use hardware.Base.Words.{add32}
use hardware.Command.LexerLaws.{LexerLaws}
use hardware.Command.Machine.{Parts}
use hardware.Command.Steps.{IsValid}
use hardware.MockPi.State.{MockPiState, MockPi, World, put_pi, ◌>>=◌, Unseen, UnseenLaws}
use hardware.MockPi.Update.{line_with_pos, send_command_with_pos, send_and_go}
use hardware.MockPi.Sending.{
  lines_of, ids_after, Sent, send_command-Sent, send_all-Sent, calls-IsValid,
}
use hardware.MockPi.Diagram.{Says, Edge, change, said, id_after}

module _ {p : Parts} (u : Unseen p) where
  -- A world that has gone to a state: what the Mock Pi was to be, the lines sent, the next identifier.
  pub record Settled (next : MockPiState) (changed : MockPi) (lines : List (List ℕ)) (id : ℕ)
      (w w' : World p) : Type 0 where
    pub start : ℕ
    pub action : ℕ
    pub pi : w'.pi ≡ record changed {
      state = next;
      state_start_time = start;
      last_action_time = action;
      command_id = id;
    }
    pub sent : w'.sent ≡ w.sent ++ lines
    pub valid : IsValid p w'.machine

  -- One case of the state machine: it stays as it is when no edge is open, and else goes along one.
  pub data Outcome (s : MockPiState) (now elapsed : ℕ) (w w' : World p) : Type 0 where
    stays :
        ((says : Says) (s' : MockPiState) → ¬ Edge u w.pi now elapsed s says s')
        → w' ≡ w
        → Outcome s now elapsed w w'
    moves :
        (says : Says) (s' : MockPiState) (e : Edge u w.pi now elapsed s says s')
        → Settled s'
            (change u w.pi now elapsed e)
            (said u w.pi now elapsed says)
            (id_after u w.pi now elapsed says)
            w
            w'
        → Outcome s now elapsed w w'

  -- It ends, and so.
  abbrev pub Follows : MockPiState → ℕ → ℕ → World p → Option (World p) → Type 0
  Follows s now elapsed w o = (w' : World p) × (o ≡ some w') × Outcome s now elapsed w w'

  module _ (laws : UnseenLaws p u) (lexer : LexerLaws p.lexer) where
    pub Settled-transition :
        {lines : List (List ℕ)} {id : ℕ} (next : MockPiState) (pi : MockPi) (w w' : World p)
        → Sent p lines id (put_pi p pi w) w'
        → Settled next pi lines id w (u.transition_to next w')
    Settled-transition {lines} {id} next pi w w' s =
        let start = w'.machine.clock w'.machine.calls in
        let arrived = λ (old : MockPi). record old { state = next; state_start_time = start } in
        rw (laws.transition next w') (record {
          start = start;
          action = s.time;
          pi = ap arrived s.pi;
          sent = s.sent;
          valid = calls-IsValid p w'.machine (suc w'.machine.calls) s.valid;
        })

    -- A change of state alone.
    pub go-Settled :
        (next : MockPiState) (pi : MockPi) (w : World p)
        → IsValid p w.machine
        → Settled next pi [] pi.command_id w (u.transition_to next (put_pi p pi w))
    go-Settled next pi w v = Settled-transition next pi w (put_pi p pi w) (record {
      time = pi.last_action_time;
      pi = refl;
      sent = sym (append-nil w.sent);
      valid = v;
    })

    -- An action for each position of a step.
    pub all-Settled :
        (action positions : List ℕ) (next : MockPiState) (pi : MockPi) (w : World p)
        → IsValid p w.machine
        → (w' : World p) × (send_and_go u action positions next (put_pi p pi w) ≡ some w')
          × Settled next pi
              (lines_of p action positions pi.command_id)
              (ids_after positions pi.command_id)
              w
              w'
    unfolding send_and_go
    all-Settled action positions next pi w v =
        let (w₁, e, s) = send_all-Sent p lexer action positions (put_pi p pi w) v in
        (u.transition_to next w₁, rw e refl, Settled-transition next pi w w₁ s)

    -- An action for the position of the two-hand sequence.
    pub hand-Settled :
        (action : List ℕ) (pos : ℕ) (next : MockPiState) (pi : MockPi) (w : World p)
        → IsValid p w.machine
        → (w' : World p) × ((send_command_with_pos p action pos (put_pi p pi w) >>= λ w'.
              some (u.transition_to next w'))
            ≡ some w')
          × Settled next pi
              (line_with_pos p action pos pi.command_id ∷ [])
              (add32 pi.command_id 1)
              w
              w'
    unfolding send_command_with_pos
    hand-Settled action pos next pi w v =
        let (w₁, e, s) =
          send_command-Sent p lexer (line_with_pos p action pos pi.command_id)
            (add32 pi.command_id 1) (put_pi p pi w) v in
        (u.transition_to next w₁, rw e refl, Settled-transition next pi w w₁ s)

    -- A case that waits for the delay between steps.
    pub due-Follows :
        (s : MockPiState) (now elapsed : ℕ) (w : World p) (act : Option (World p))
        → ((says : Says) (s' : MockPiState) → elapsed < 100 → ¬ Edge u w.pi now elapsed s says s')
        → (100 ≤ elapsed → Follows s now elapsed w act)
        → Follows s now elapsed w (if leb 100 elapsed then act else some w)
    due-Follows s now elapsed w act early due = elim (Bool-cases (leb 100 elapsed)) [
      | inl h ↦ rw h (due (leb→le _ _ h))
      | inr h ↦ rw h (w, refl, stays (λ says s'. early says s' (ground arith)) refl)
    ]
