-- ===== src/MockPi/Sequence.antt =====
-- Which sequence `startSequenceSimple` and `startTwoHandSequence` of src/MockPiPrograms.cpp start.
use hardware.Base.{
  ℕ, zero, suc, ◌≤◌, ◌<◌, ◌≡◌, ◌≢◌, refl, ap, ◌∙◌, Bool, true, false, Option, some, List, [], ◌∷◌,
  ◌++◌, map, length, length-set, length-take, get_or, set, take, take-set, All-set, All-get_or,
  length-map, ◌==◌, ==_ne, if◌then◌else◌, All, arith,
}
use mathlib.Core.List.{map-append}
use hardware.Base.Words.{add8}
use hardware.Command.Machine.{Parts}
use hardware.MockPi.State.{
  StepType, single, SequenceStep, blank_step, sequence_simple, step_show, MockPi, World, put_pi,
  Unseen, UnseenLaws,
}
use hardware.MockPi.Touch.{step_positions}
use hardware.MockPi.Start.{add_single, start_sequence_simple}
use hardware.MockPi.Letters.{letters, read_letters-Reads}

-- The steps of the sequence, each by its type and its positions.
abbrev pub shown_step : SequenceStep → StepType × List ℕ
shown_step step = (step.type, step_positions step)

abbrev pub shown_steps : MockPi → List (StepType × List ℕ)
shown_steps pi = map shown_step (take pi.step_count pi.steps)

-- The arrays have the sizes that they are declared with.
pub record Shaped (pi : MockPi) : Type 0 where
  pub steps : length pi.steps ≡ 25
  pub groups : All (λ (s : SequenceStep). length s.positions ≡ 5) pi.steps

take-map : {A B : Type 0} (n : ℕ) (f : A → B) (xs : List A) → take n (map f xs) ≡ map f (take n xs)
take-map zero f xs = refl
take-map (suc n) f [] = refl
take-map (suc n) f (x ∷ xs) = ap (◌∷◌ (f x)) (take-map n f xs)

-- What the loop over the steps keeps, from a Mock Pi on.
record Steps (old pi : MockPi) : Type 0 where
  shaped : Shaped pi
  count : pi.step_count ≤ 25
  frame : pi ≡ record old { steps = pi.steps; step_count = pi.step_count }

shown_steps-length :
    (pi : MockPi) → Shaped pi → pi.step_count ≤ 25 → pi.step_count ≡ length (shown_steps pi)
shown_steps-length pi s h = omega (
  arith,
  length-map shown_step (take pi.step_count pi.steps),
  length-take pi.step_count pi.steps,
  s.steps,
  h,
)

add_single-Steps :
    (old : MockPi) (c : ℕ) (pi : MockPi)
    → Steps old pi
    → pi.step_count < 25
    → Steps old (add_single c pi)
      × (shown_steps (add_single c pi) ≡ shown_steps pi ++ ((single, c ∷ []) ∷ []))
add_single-Steps old c pi k l =
    let before = get_or pi.steps pi.step_count blank_step in
    let five =
      All-get_or (λ s. length s.positions ≡ 5) pi.steps pi.step_count blank_step k.shaped.groups
        refl in
    let new : SequenceStep = record before {
      type = single;
      position_count = 1;
      positions = set before.positions 0 c;
      touched_mask = 0;
      first_touch_time = 0;
    } in
    let next : add8 pi.step_count 1 ≡ suc pi.step_count = omega arith in
    (
      record {
        shaped = record {
          steps = length-set pi.steps pi.step_count new ∙ k.shaped.steps;
          groups =
              All-set (λ s. length s.positions ≡ 5) pi.steps pi.step_count new k.shaped.groups
                (length-set before.positions 0 c ∙ five);
        };
        count = omega arith;
        frame =
            ap
              (λ (x : MockPi). record x {
                steps = set pi.steps pi.step_count new;
                step_count = add8 pi.step_count 1;
              })
              k.frame;
      },
      ap (λ n. map shown_step (take n (set pi.steps pi.step_count new))) next
          ∙ (ap (map shown_step)
                (take-set pi.steps pi.step_count new (omega (arith, k.shaped.steps)))
              ∙ (map-append shown_step (take pi.step_count pi.steps) (new ∷ [])
                  ∙ ap (λ (ps : List ℕ). shown_steps pi ++ ((single, ps) ∷ []))
                      (take-set before.positions 0 c (omega (arith, five))))),
    )

abbrev pub is_empty : List ℕ → Bool
is_empty [] = true
is_empty (c ∷ cs) = false

module _ {p : Parts} (u : Unseen p) (laws : UnseenLaws p u) where
  abbrev as_steps : List ℕ → List (StepType × List ℕ)
  as_steps = map (λ c. (single, c ∷ []))

  -- What is started with these letters.
  record Started (found : List ℕ) (w : World p) (o : Option (World p)) : Type 0 where
    world : World p
    ended : o ≡ some world
    steps : shown_steps world.pi ≡ as_steps found
    state : world.pi.state ≡ (if is_empty found then w.pi.state else step_show)
    program : world.pi.program ≡ (if is_empty found then w.pi.program else sequence_simple)
    current_step : world.pi.current_step ≡ (if is_empty found then w.pi.current_step else 0)
    sent : world.sent ≡ w.sent

  abbrev launch : MockPi → MockPi
  launch pi = record pi {
    program = sequence_simple;
    current_step = 0;
    step_touched_mask = 0;
    previous_touched = 0;
  }

  started :
      (found : List ℕ) (w : World p) (pi : MockPi)
      → shown_steps pi ≡ as_steps found
      → Steps w.pi pi
      → Started found w (
          if pi.step_count == 0
          then some (put_pi p pi w)
          else some (u.transition_to step_show (put_pi p (launch pi) w)))
  started [] w pi e k =
      let none_there : (pi.step_count == 0) ≡ true =
        ap (λ n. n == 0) (shown_steps-length pi k.shaped k.count ∙ ap length e) in
      rw none_there (record {
        world = put_pi p pi w;
        ended = refl;
        steps = e;
        state = ap (λ (x : MockPi). x.state) k.frame;
        program = ap (λ (x : MockPi). x.program) k.frame;
        current_step = ap (λ (x : MockPi). x.current_step) k.frame;
        sent = refl;
      })
  started (c ∷ found) w pi e k =
      let some_there : (pi.step_count == 0) ≡ false =
        ground (arith, shown_steps-length pi k.shaped k.count, ap length e) in
      rw (some_there, laws.transition step_show (put_pi p (launch pi) w))
        (record {
          world = _;
          ended = refl;
          steps = e;
          state = refl;
          program = refl;
          current_step = refl;
          sent = refl;
        })

  -- A text of at most 255 characters that is not empty: `startSequenceSimple` ends, sends nothing, and the
  -- sequence consists of the first 25 of its position letters, in upper case, each a step of its own. If
  -- there is one, the program runs and is in STEP_SHOW of the first step; if not, neither changes.
  pub start_sequence_simple-letters :
      (fuel : ℕ) (text : List ℕ) (w : World p)
      → length text < fuel
      → length text < 256
      → 0 < length text
      → All (λ c. c ≢ 0) text
      → Shaped w.pi
      → let found = take 25 (letters text) in
        (w' : World p) × (start_sequence_simple u fuel text w ≡ some w')
        × (shown_steps w'.pi ≡ map (λ c. (single, c ∷ [])) found)
        × (w'.pi.state ≡ (if is_empty found then w.pi.state else step_show))
        × (w'.pi.program ≡ (if is_empty found then w.pi.program else sequence_simple))
        × (w'.pi.current_step ≡ (if is_empty found then w.pi.current_step else 0))
        × (w'.sent ≡ w.sent)
  unfolding start_sequence_simple
  start_sequence_simple-letters fuel [] w f s l n sh = absurd (omega arith)
  start_sequence_simple-letters fuel (c ∷ text) w f s l n sh =
      let there : (c == 0) ≡ false = ==_ne c 0 n.0 in
      let begun : Steps w.pi (record w.pi { step_count = 0 }) = record {
        shaped = record { steps = sh.steps; groups = sh.groups };
        count = omega arith;
        frame = refl;
      } in
      let r =
        read_letters-Reads (λ pi. pi.step_count) add_single shown_steps (λ c. (single, c ∷ []))
          (Steps w.pi) (add_single-Steps w.pi) (λ pi k. shown_steps-length pi k.shaped k.count) fuel
          (c ∷ text) [] (record w.pi { step_count = 0 }) f (omega arith) n begun (omega arith) in
      let t =
        started (take 25 (letters (c ∷ text))) w r.result
          (r.read ∙ take-map 25 (λ c. (single, c ∷ [])) (letters (c ∷ text))) r.kept in
      rw (there, r.ended) (t.world, t.ended, t.steps, t.state, t.program, t.current_step, t.sent)
