-- ===== src/MockPi/SpecFits.antt =====
-- `parseSimultaneousSpec` of src/MockPiPrograms.cpp on any text: it ends, within the arrays.
use hardware.Base.{
  ℕ, zero, suc, ◌<◌, ◌≤◌, ◌≡◌, ◌⊎◌, refl, sym, ap, ◌∙◌, subst, Bool, true, false, ◌||◌, some, List,
  [], ◌∷◌, map, length, length-set, length-take, get_or, set, take, take-set, take-set_self, All,
  All-append, All-set, All-get_or, ltb, ltb→lt, leb, ◌==◌, if◌then◌else◌, Bool-cases, inl, inr,
  arith,
}
use mathlib.Core.List.{map-append}
use hardware.Base.Words.{add8}
use hardware.Command.Parse.{deref}
use hardware.Command.LexerLaws.{drop_while}
use hardware.MockPi.State.{StepType, single, simultaneous, SequenceStep, blank_step, MockPi}
use hardware.MockPi.Spec.{is_separator, put_step, parse_step, parse_steps, parse_simultaneous_spec}
use hardware.MockPi.Sequence.{shown_step, shown_steps, Shaped}
use hardware.MockPi.SpecEnds.{most, IsStep, IsGroup, parse_step-Group}

-- The steps so far fit their arrays.
pub record Fits (pi : MockPi) : Type 0 where
  pub shaped : Shaped pi
  pub count : pi.step_count ≤ 25
  pub steps : All IsStep (shown_steps pi)

counted-IsStep :
    (kind : StepType) (step : SequenceStep)
    → 0 < step.position_count
    → IsGroup kind step
    → IsStep (shown_step step)
counted-IsStep kind step h g =
    let type = sym g.type in
    let room = subst (λ t. step.position_count ≤ most t) type g.room in
    let long : step.position_count ≤ 5 = below step.type room in
    let size = length-take step.position_count step.positions in
    (omega (arith, size, g.long), omega (arith, size, g.long, room), g.letters)
  where
    below : (t : StepType) → step.position_count ≤ most t → step.position_count ≤ 5
    below single r = omega arith
    below simultaneous r = r

put_step-Fits :
    (kind : StepType) (step : SequenceStep) (pi : MockPi)
    → IsGroup kind step
    → pi.step_count < 25
    → Fits pi
    → Fits (put_step step pi)
put_step-Fits kind step pi g room f =
    pick (ltb 0 step.position_count) (λ e. ltb→lt 0 step.position_count e)
  where
    shaped :
        (n : ℕ) → Shaped (record pi { steps = set pi.steps pi.step_count step; step_count = n })
    shaped n = record {
      steps = length-set pi.steps pi.step_count step ∙ f.shaped.steps;
      groups =
          All-set (λ (s : SequenceStep). length s.positions ≡ 5) pi.steps pi.step_count step
            f.shaped.groups g.long;
    }

    pick :
        (b : Bool)
        → (b ≡ true → 0 < step.position_count)
        → Fits (record pi {
          steps = set pi.steps pi.step_count step;
          step_count = if b then add8 pi.step_count 1 else pi.step_count;
        })
    pick false h = record {
      shaped = shaped pi.step_count;
      count = f.count;
      steps =
          subst (All IsStep) (ap (map shown_step) (sym (take-set_self pi.steps pi.step_count step)))
            f.steps;
    }
    pick true h =
        let next : add8 pi.step_count 1 ≡ suc pi.step_count = omega arith in
        let view =
          ap (λ n. map shown_step (take n (set pi.steps pi.step_count step))) next
          ∙ (ap (map shown_step)
                (take-set pi.steps pi.step_count step (omega (arith, f.shaped.steps)))
              ∙ map-append shown_step (take pi.step_count pi.steps) (step ∷ [])) in
        record {
          shaped = shaped (add8 pi.step_count 1);
          count = omega arith;
          steps = subst (All IsStep) (sym view) (
              All-append IsStep (shown_steps pi) (shown_step step ∷ []) f.steps
                (counted-IsStep kind step (h refl) g, tt));
        }

length-drop_while : (f : ℕ → Bool) (text : List ℕ) → length (drop_while f text) ≤ length text
length-drop_while f [] = omega arith
length-drop_while f (c ∷ text) = elim (Bool-cases (f c)) [
  | inl h ↦ rw h (omega (arith, length-drop_while f text))
  | inr h ↦ rw h (omega arith)
]

List-cases : (xs : List ℕ) → (xs ≡ []) ⊎ ((x : ℕ) × (ys : List ℕ) × (xs ≡ x ∷ ys))
List-cases [] = inl refl
List-cases (x ∷ xs) = inr (x, xs, refl)

parse_steps-Fits :
    (fuel : ℕ) (spec : List ℕ) (pi : MockPi)
    → length spec < fuel
    → Fits pi
    → (pi' : MockPi) × (parse_steps fuel spec pi ≡ some pi') × Fits pi'
unfolding parse_steps
parse_steps-Fits zero spec pi h f = absurd (omega arith)
parse_steps-Fits (suc fuel) spec pi h f =
    let old = get_or pi.steps pi.step_count blank_step in
    elim (Bool-cases (deref spec == 0 || leb 25 pi.step_count)) [
      | inl over ↦ (pi, rw (parse_steps, over) refl, f)
      | inr more ↦ elim (List-cases (drop_while is_separator spec)) [
        | inl none_left ↦ (pi, rw (parse_steps, more, none_left) refl, f)
        | inr (c, text, e) ↦
            let five =
              All-get_or (λ (s : SequenceStep). length s.positions ≡ 5) pi.steps pi.step_count
                blank_step f.shaped.groups refl in
            let (kind, g) = parse_step-Group c text old five in
            let room : pi.step_count < 25 = ground (arith, more) in
            let (pi', e', f') =
              parse_steps-Fits fuel (parse_step c text old).1
                (put_step (parse_step c text old).0 pi)
                (omega (arith, g.shorter, length-drop_while is_separator spec, ap length e, h))
                (put_step-Fits kind (parse_step c text old).0 pi g.group room f) in
            (pi', rw (parse_steps, more, e) e', f')
      ]
    ]

-- `parseSimultaneousSpec` ends on every text, when it has more rounds than the text has characters. What it
-- has read fits the arrays: at most 25 steps, a single one of one position and a group of one to five, all
-- letters from A to Y; and it answers whether there is a step.
pub parse_simultaneous_spec-Fits :
    (fuel : ℕ) (spec : List ℕ) (pi : MockPi)
    → length spec < fuel
    → Shaped pi
    → (pi' : MockPi) × (parse_simultaneous_spec fuel spec pi ≡ some (ltb 0 pi'.step_count, pi'))
      × Fits pi'
unfolding parse_simultaneous_spec
parse_simultaneous_spec-Fits fuel spec pi h s =
    let pi₀ : MockPi = record pi { step_count = 0 } in
    let f : Fits pi₀ = record {
      shaped = record { steps = s.steps; groups = s.groups };
      count = omega arith;
      steps = tt;
    } in
    let (pi', e, f') = parse_steps-Fits fuel spec pi₀ h f in (pi', rw e refl, f')
