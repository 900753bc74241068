-- ===== src/MockPi/SpecEnds.antt =====
-- One step of `parseSimultaneousSpec` of src/MockPiPrograms.cpp on any text.
use hardware.Base.{
  ℕ, suc, ◌<◌, ◌≤◌, ◌≡◌, refl, sym, ap, ◌∙◌, subst, Bool, true, false, ◌||◌, List, [], ◌∷◌, length,
  length-set, set, take, take-set, All, All-append, leb, ◌==◌, if◌then◌else◌, Bool-cases, inl, inr,
  arith,
}
use hardware.Base.Words.{add8}
use hardware.MockPi.State.{StepType, single, simultaneous, SequenceStep}
use hardware.MockPi.Touch.{step_positions}
use hardware.MockPi.Start.{to_upper, is_position}
use hardware.MockPi.Spec.{
  add_position, take_letter, parse_group, close_group, open_step, parse_step,
}
use hardware.MockPi.Groups.{IsLetter}

-- The most positions that a step of a type has.
abbrev pub most : StepType → ℕ
most single = 1
most simultaneous = 5

-- A step as it is counted.
abbrev pub IsStep : StepType × List ℕ → Type 0
IsStep (type, positions) =
    (0 < length positions) × (length positions ≤ most type) × All IsLetter positions

-- A step as it is read.
pub record IsGroup (kind : StepType) (step : SequenceStep) : Type 0 where
  pub type : step.type ≡ kind
  pub long : length step.positions ≡ 5
  pub room : step.position_count ≤ most kind
  pub letters : All IsLetter (step_positions step)

letter_lem : (c : ℕ) → is_position c ≡ true → IsLetter c
letter_lem c h = ground (arith, h)

add_position-IsGroup :
    (c : ℕ) (step : SequenceStep)
    → IsLetter c
    → step.position_count < 5
    → IsGroup simultaneous step
    → IsGroup simultaneous (add_position c step)
add_position-IsGroup c step l room g =
    let put = set step.positions step.position_count c in
    let next : add8 step.position_count 1 ≡ suc step.position_count = omega arith in
    record {
      type = g.type;
      long = length-set step.positions step.position_count c ∙ g.long;
      room = omega arith;
      letters =
          subst (All IsLetter)
            (sym (
              ap (λ n. take n put) next
              ∙ take-set step.positions step.position_count c (omega (arith, g.long))))
            (All-append IsLetter (step_positions step) (c ∷ []) g.letters (l, tt));
    }

take_letter-IsGroup :
    (c : ℕ) (step : SequenceStep)
    → step.position_count < 5
    → IsGroup simultaneous step
    → IsGroup simultaneous (take_letter c step)
take_letter-IsGroup c step room g = pick (is_position (to_upper c)) (λ e. letter_lem (to_upper c) e)
  where
    pick :
        (b : Bool)
        → (b ≡ true → IsLetter (to_upper c))
        → IsGroup simultaneous (if b then add_position (to_upper c) step else step)
    pick false h = g
    pick true h = add_position-IsGroup (to_upper c) step (h refl) room g

-- A step, and no more text than there was.
pub record Group (kind : StepType) (text : List ℕ) (r : SequenceStep × List ℕ) : Type 0 where
  pub group : IsGroup kind r.0
  pub shorter : length r.1 ≤ length text

parse_group-Group :
    (text : List ℕ) (step : SequenceStep)
    → IsGroup simultaneous step
    → Group simultaneous text (parse_group text step)
unfolding parse_group
parse_group-Group [] step g = record { group = g; shorter = omega arith }
parse_group-Group (c ∷ text) step g =
    let skipped = c == b'+' || c == b' ' in
    pick (c == b')' || leb 5 step.position_count) (λ go_on.
      let room : step.position_count < 5 = ground (arith, go_on) in
      parse_group-Group text (if skipped then step else take_letter c step)
        (either skipped g (take_letter-IsGroup c step room g)))
  where
    either :
        (b : Bool) {x y : SequenceStep}
        → IsGroup simultaneous x
        → IsGroup simultaneous y
        → IsGroup simultaneous (if b then x else y)
    either true h k = h
    either false h k = k

    pick :
        (b : Bool) {more : SequenceStep × List ℕ}
        → (b ≡ false → Group simultaneous text more)
        → Group simultaneous (c ∷ text) (if b then (step, c ∷ text) else more)
    pick true h = record { group = g; shorter = omega arith }
    pick false h = let r = h refl in record { group = r.group; shorter = omega (arith, r.shorter) }

close_group-shorter : (text : List ℕ) → length (close_group text) ≤ length text
close_group-shorter [] = omega arith
close_group-shorter (c ∷ text) = ground arith

-- One step, of either type.
pub parse_step-Group :
    (c : ℕ) (text : List ℕ) (old : SequenceStep)
    → length old.positions ≡ 5
    → ((kind : StepType) × Group kind text (parse_step c text old))
unfolding parse_step
parse_step-Group c text old five =
    let read =
      parse_group-Group text (open_step simultaneous old)
        (record { type = refl; long = five; room = omega arith; letters = tt }) in
    elim (Bool-cases (c == b'(')) [
      | inl opened ↦ rw opened (
        simultaneous,
        record {
          group = read.group;
          shorter = omega (
            arith,
            close_group-shorter (parse_group text (open_step simultaneous old)).1,
            read.shorter,
          );
        },
      )
      | inr alone ↦ rw alone (
        single,
        record {
          group = pick (is_position (to_upper c)) (λ e. letter_lem (to_upper c) e);
          shorter = omega arith;
        },
      )
    ]
  where
    pick :
        (b : Bool)
        → (b ≡ true → IsLetter (to_upper c))
        → IsGroup single (
            if b
            then record (open_step single old) {
              positions = set old.positions 0 (to_upper c);
              position_count = 1;
            }
            else open_step single old)
    pick false h = record { type = refl; long = five; room = omega arith; letters = tt }
    pick true h = record {
      type = refl;
      long = length-set old.positions 0 (to_upper c) ∙ five;
      room = omega arith;
      letters =
          subst (All IsLetter) (sym (take-set old.positions 0 (to_upper c) (omega (arith, five))))
            (h refl, tt);
    }
