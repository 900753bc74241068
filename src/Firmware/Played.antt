-- ===== src/Firmware/Played.antt =====
-- `setup` and the rounds of `loop` of src/main.cpp with the Mock Pi of program 4.
use hardware.Base.{
  ℕ, ◌≡◌, ◌≢◌, ◌⊎◌, inl, inr, ap, true, refl, sym, subst, some, List, [], ◌∷◌, ◌++◌, All, arith,
}
use hardware.Command.LexerLaws.{LexerLaws}
use hardware.Command.Machine.{Parts}
use hardware.Command.Steps.{IsValid}
use hardware.MockPi.State.{
  two_hand_sequence, two_hand_show, two_hand_success, World, Unseen, UnseenLaws,
}
use hardware.MockPi.Sending.{calls-IsValid}
use hardware.MockPi.TwoHand.{start_two_hand_sequence-Started}
use hardware.MockPi.Course.{Course, course, is_waiting, Waits, Played, Goes, update-Played}
use hardware.Firmware.{setup}
use hardware.Firmware.Rounds.{Sized, setup-IsValid, loop_ends}
use hardware.Firmware.Mocked.{
  mock_pi_two_hand_sequence, link, setup_mocked, loop_mocked, rounds_mocked,
}

-- The course of the configured sequence, at its first position.
abbrev pub first_position : Course
first_position = record {
  program = two_hand_sequence;
  positions = mock_pi_two_hand_sequence;
  count = 7;
  current = 0;
}

module _ {p : Parts} (u : Unseen p) where
  -- Rounds for the first of these inputs have ended: for all of them, and the program waits; or up to the
  -- round in which its position has been touched.
  pub record PlaysUntil (inputs : List (List ℕ)) (w : World p) : Type 0 where
    pub done : List (List ℕ)
    pub rest : List (List ℕ)
    pub split : inputs ≡ done ++ rest
    pub out : List ℕ
    pub world : World p
    pub ended : rounds_mocked u done w ≡ some (out, world)
    pub valid : IsValid p world.machine
    pub course_kept : course world.pi ≡ first_position
    pub until :
        ((rest ≡ []) × (is_waiting world.pi.state ≡ true)) ⊎ (world.pi.state ≡ two_hand_success)

  module _ (laws : UnseenLaws p u) (lexer : LexerLaws p.lexer) where
    loop_mocked-Played :
        (received : List ℕ) (w : World p)
        → IsValid p w.machine
        → Waits u first_position w.pi
        → (out : List ℕ) × (w' : World p) × (loop_mocked u received w ≡ some (out, w'))
          × Played u first_position w'
    unfolding loop_mocked
    loop_mocked-Played received w v waits =
        let (out, m, e, v₁) = loop_ends p lexer received [] w.machine v in
        let (w', e', played) =
          update-Played u first_position laws lexer (record w { machine = m }) v₁
            (record { waiting = waits.waiting; course_kept = waits.course_kept }) refl
            (omega arith) in
        (out, w', rw (e, e') refl, played)

    rounds_mocked-PlaysUntil :
        (inputs : List (List ℕ)) (w : World p)
        → IsValid p w.machine
        → Waits u first_position w.pi
        → PlaysUntil inputs w
    unfolding rounds_mocked Goes
    rounds_mocked-PlaysUntil [] w v waits = record {
      done = [];
      rest = [];
      split = refl;
      out = [];
      world = w;
      ended = refl;
      valid = v;
      course_kept = waits.course_kept;
      until = inl (refl, waits.waiting);
    }
    rounds_mocked-PlaysUntil (received ∷ inputs) w v waits =
        let (out, w₁, e, played) = loop_mocked-Played received w v waits in
        elim played.goes [
          | inl waiting ↦
              let r =
                rounds_mocked-PlaysUntil inputs w₁ played.valid
                  (record { waiting = waiting; course_kept = played.course_kept }) in
              record {
                done = received ∷ r.done;
                rest = r.rest;
                split = ap (◌∷◌ received) r.split;
                out = out ++ r.out;
                world = r.world;
                ended = rw (rounds_mocked, e, r.ended) refl;
                valid = r.valid;
                course_kept = r.course_kept;
                until = r.until;
              }
          | inr touched ↦ record {
            done = received ∷ [];
            rest = inputs;
            split = refl;
            out = out ++ [];
            world = w₁;
            ended = rw (rounds_mocked, e) refl;
            valid = played.valid;
            course_kept = played.course_kept;
            until = inr touched;
          }
        ]

    letters_are_characters : All (λ c. c ≢ 0) mock_pi_two_hand_sequence
    letters_are_characters = ground arith

    -- From arrays of their declared sizes `setup` ends with the Mock Pi in TWO_HAND_SHOW of the sequence
    -- ABCDEFG, at its first position. Then, whatever bytes come, the rounds of `loop` end, with the update of
    -- the Mock Pi in each: either all of them, and the Mock Pi is in TWO_HAND_SHOW, TWO_HAND_EXPECT_DOWN or
    -- TWO_HAND_WAIT_TOUCH; or the first of them, up to one that leaves it in TWO_HAND_SUCCESS, the first state
    -- whose case is cut off. After them the state of the firmware is valid, and the program still at its
    -- first position. `transitionTo` does what its name says, and the string utilities what is documented.
    pub setup_mocked-PlaysUntil :
        (w : World p) (inputs : List (List ℕ))
        → Sized p w.machine
        → (out : List ℕ) × (w₁ : World p) × (setup_mocked u w ≡ some (out, w₁))
          × (w₁.pi.state ≡ two_hand_show)
          × (course w₁.pi ≡ first_position)
          × PlaysUntil inputs w₁
    unfolding setup_mocked
    setup_mocked-PlaysUntil w inputs s =
        let begun : World p = record w { pi = link w.pi; machine = (setup p w.machine).1 } in
        let t =
          start_two_hand_sequence-Started u laws 8 mock_pi_two_hand_sequence begun (omega arith)
            (omega arith) (omega arith) letters_are_characters in
        let v : IsValid p t.world.machine =
          subst (λ m. IsValid p m) (sym t.machine)
            (calls-IsValid p begun.machine t.calls (setup-IsValid p w.machine s)) in
        let kept : course t.world.pi ≡ first_position =
          rw (t.program, t.positions, t.count, t.current) refl in
        let waits : Waits u first_position t.world.pi = record {
          waiting = ap is_waiting t.state;
          course_kept = kept;
        } in
        (
          (setup p w.machine).0,
          t.world,
          rw t.ended refl,
          t.state,
          kept,
          rounds_mocked-PlaysUntil inputs t.world v waits,
        )
