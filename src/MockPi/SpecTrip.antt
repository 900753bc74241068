-- ===== src/MockPi/SpecTrip.antt =====
-- Specifications of sequences, as a host writes them and `parseSimultaneousSpec` of
-- src/MockPiPrograms.cpp reads them.
use hardware.Base.{
  ℕ, zero, suc, ◌+◌, ◌<◌, ◌≤◌, ◌≡◌, refl, sym, ap, ap₂, ◌∙◌, subst, Bool, true, false, some, List,
  [], ◌∷◌, ◌++◌, map, append-nil, append_assoc, length, length-set, length-append, lt→ltb, get_or,
  set, take, take-set, All, All-set, All-get_or, ltb, leb, ◌==◌, if◌then◌else◌, arith,
}
use mathlib.Core.List.{map-append}
use hardware.Base.Words.{add8}
use hardware.Command.Machine.{Parts}
use hardware.Command.Parse.{deref}
use hardware.Command.LexerLaws.{drop_while}
use hardware.MockPi.State.{
  StepType, SequenceStep, blank_step, sequence_simultaneous, step_show, MockPi, World, put_pi,
  Unseen, UnseenLaws,
}
use hardware.MockPi.Spec.{
  is_separator, put_step, parse_steps, parse_simultaneous_spec, start_sequence_simultaneous,
}
use hardware.MockPi.Groups.{
  Planned, one, group, IsPlanned, first_of, after_first, shown, read_as, parse_step-planned,
  read_as-shown,
}
use hardware.MockPi.Sequence.{shown_step, shown_steps, Shaped}

-- A specification: the steps with commas between them.
abbrev pub print_rest : List Planned → List ℕ
print_rest [] = []
print_rest (x ∷ xs) = b',' ∷ first_of x ∷ after_first x (print_rest xs)

abbrev pub print_spec : List Planned → List ℕ
print_spec [] = []
print_spec (x ∷ xs) = first_of x ∷ after_first x (print_rest xs)

-- Where the parser begins to read a step.
record Starts (x : Planned) (rest text : List ℕ) : Type 0 where
  more : (deref text == 0) ≡ false
  skip : drop_while is_separator text ≡ first_of x ∷ after_first x rest

first_of-other :
    (x : Planned) → IsPlanned x → (is_separator (first_of x) ≡ false) × ((first_of x == 0) ≡ false)
first_of-other (one c) l = (ground arith, ground arith)
first_of-other (group c cs) l = (refl, refl)

Starts-first :
    (x : Planned) (rest : List ℕ) → IsPlanned x → Starts x rest (first_of x ∷ after_first x rest)
Starts-first x rest l = record {
  more = (first_of-other x l).1;
  skip = rw (first_of-other x l).0 refl;
}

Starts-comma :
    (x : Planned) (rest : List ℕ)
    → IsPlanned x
    → Starts x rest (b',' ∷ first_of x ∷ after_first x rest)
Starts-comma x rest l = record { more = refl; skip = (Starts-first x rest l).skip }

-- What is kept while steps are read.
record Reading (seen : List (StepType × List ℕ)) (old pi : MockPi) : Type 0 where
  shaped : Shaped pi
  view : shown_steps pi ≡ seen
  count : pi.step_count ≡ length seen
  frame : pi ≡ record old { steps = pi.steps; step_count = pi.step_count }

put_step-Reading :
    (x : Planned) (seen : List (StepType × List ℕ)) (old pi : MockPi)
    → IsPlanned x
    → length seen < 25
    → Reading seen old pi
    → Reading
        (seen ++ (shown x ∷ []))
        old
        (put_step (read_as x (get_or pi.steps pi.step_count blank_step)) pi)
put_step-Reading x seen old pi l room r =
    let before = get_or pi.steps pi.step_count blank_step in
    let step = read_as x before in
    let five =
      All-get_or (λ s. length s.positions ≡ 5) pi.steps pi.step_count blank_step r.shaped.groups
        refl in
    let (type, view, some_there, long) = read_as-shown x before l five in
    let put = λ (pi : MockPi) (n : ℕ). record pi {
      steps = set pi.steps pi.step_count step;
      step_count = n;
    } in
    let counted =
      ap (λ (b : Bool). put pi (if b then add8 pi.step_count 1 else pi.step_count))
        (lt→ltb 0 step.position_count some_there) in
    let next : add8 pi.step_count 1 ≡ suc pi.step_count = omega (arith, r.count, room) in
    let new : Reading (seen ++ (shown x ∷ [])) old (put pi (add8 pi.step_count 1)) = record {
      shaped = record {
        steps = length-set pi.steps pi.step_count step ∙ r.shaped.steps;
        groups =
            All-set (λ s. length s.positions ≡ 5) pi.steps pi.step_count step r.shaped.groups long;
      };
      view =
          ap (λ n. map shown_step (take n (set pi.steps pi.step_count step))) next
          ∙ (ap (map shown_step) (
                take-set pi.steps pi.step_count step (omega (arith, r.shaped.steps, r.count, room)))
              ∙ (map-append shown_step (take pi.step_count pi.steps) (step ∷ [])
                  ∙ ap₂ (λ (l : List (StepType × List ℕ)) (s : StepType × List ℕ). l ++ (s ∷ []))
                      r.view (ap₂ (λ (t : StepType) (ps : List ℕ). (t, ps)) type view)));
      count = next ∙ (ap suc r.count ∙ omega (arith, length-append seen (shown x ∷ [])));
      frame =
          ap
            (λ (y : MockPi). record y {
              steps = set pi.steps pi.step_count step;
              step_count = add8 pi.step_count 1;
            })
            r.frame;
    } in
    subst (Reading (seen ++ (shown x ∷ [])) old) (sym counted) new

-- One step of a specification.
parse_steps_step :
    (fuel : ℕ) (x : Planned) (rest text : List ℕ) (pi : MockPi)
    → IsPlanned x
    → Starts x rest text
    → pi.step_count < 25
    → parse_steps (suc fuel) text pi
      ≡ parse_steps fuel rest (put_step (read_as x (get_or pi.steps pi.step_count blank_step)) pi)
unfolding parse_steps
parse_steps_step fuel x rest text pi l s room =
    let full : leb 25 pi.step_count ≡ false = ground arith in
    let old = get_or pi.steps pi.step_count blank_step in
    rw (parse_steps, s.more, full, s.skip)
      (ap (λ (r : SequenceStep × List ℕ). parse_steps fuel r.1 (put_step r.0 pi))
        (parse_step-planned x rest old l))

-- The steps after commas.
parse_steps_rest :
    (xs : List Planned) (fuel : ℕ) (seen : List (StepType × List ℕ)) (old pi : MockPi)
    → All IsPlanned xs
    → length xs < fuel
    → length seen + length xs ≤ 25
    → Reading seen old pi
    → (pi' : MockPi) × (parse_steps fuel (print_rest xs) pi ≡ some pi')
      × Reading (seen ++ map shown xs) old pi'
unfolding parse_steps
parse_steps_rest xs zero seen old pi l f room r = absurd (omega arith)
parse_steps_rest [] (suc fuel) seen old pi l f room r =
    (pi, refl, subst (λ s. Reading s old pi) (sym (append-nil seen)) r)
parse_steps_rest (x ∷ xs) (suc fuel) seen old pi l f room r =
    let pi₁ = put_step (read_as x (get_or pi.steps pi.step_count blank_step)) pi in
    let r₁ = put_step-Reading x seen old pi l.0 (omega arith) r in
    let (pi₂, e, r₂) =
      parse_steps_rest xs fuel (seen ++ (shown x ∷ [])) old pi₁ l.1 (omega arith)
        (omega (arith, length-append seen (shown x ∷ []), room)) r₁ in
    (
      pi₂,
      parse_steps_step fuel x (print_rest xs) (print_rest (x ∷ xs)) pi l.0
            (Starts-comma x (print_rest xs) l.0) (omega (arith, r.count, room))
          ∙ e,
      subst (λ s. Reading s old pi₂) (append_assoc seen (shown x ∷ []) (map shown xs)) r₂,
    )

module _ {p : Parts} (u : Unseen p) (laws : UnseenLaws p u) where
  -- A specification written out from one to 25 steps, each a letter from A to Y or a group of one to five,
  -- with commas between the steps: `startSequenceSimultaneous` ends and starts exactly these steps, in
  -- STEP_SHOW of the first, and sends nothing.
  pub start_sequence_simultaneous-print_spec :
      (fuel : ℕ) (x : Planned) (xs : List Planned) (w : World p)
      → IsPlanned x
      → All IsPlanned xs
      → length xs + 1 < fuel
      → length xs < 25
      → Shaped w.pi
      → (w' : World p) × (start_sequence_simultaneous u fuel (print_spec (x ∷ xs)) w ≡ some w')
        × (shown_steps w'.pi ≡ shown x ∷ map shown xs)
        × (w'.pi.state ≡ step_show)
        × (w'.pi.program ≡ sequence_simultaneous)
        × (w'.pi.current_step ≡ 0)
        × (w'.sent ≡ w.sent)
  unfolding start_sequence_simultaneous parse_simultaneous_spec
  start_sequence_simultaneous-print_spec zero x xs w l ls f n s = absurd (omega arith)
  start_sequence_simultaneous-print_spec (suc fuel) x xs w l ls f n s =
      let pi₀ : MockPi = record w.pi { step_count = 0 } in
      let r₀ : Reading [] w.pi pi₀ = record {
        shaped = record { steps = s.steps; groups = s.groups };
        view = refl;
        count = refl;
        frame = refl;
      } in
      let pi₁ = put_step (read_as x (get_or pi₀.steps pi₀.step_count blank_step)) pi₀ in
      let r₁ = put_step-Reading x [] w.pi pi₀ l (omega arith) r₀ in
      let (pi₂, e, r₂) =
        parse_steps_rest xs fuel (shown x ∷ []) w.pi pi₁ ls (omega arith) (omega arith) r₁ in
      let parsed =
        parse_steps_step fuel x (print_rest xs) (print_spec (x ∷ xs)) pi₀ l
          (Starts-first x (print_rest xs) l) (omega arith)
        ∙ e in
      let found : ltb 0 pi₂.step_count ≡ true = lt→ltb _ _ (omega (arith, r₂.count)) in
      let launched : MockPi = record pi₂ {
        program = sequence_simultaneous;
        current_step = 0;
        step_touched_mask = 0;
        previous_touched = 0;
      } in
      rw ((first_of-other x l).1, parsed, found, laws.transition step_show (put_pi p launched w))
        (_, refl, r₂.view, refl, refl, refl, refl)
