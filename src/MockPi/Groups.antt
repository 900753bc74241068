-- ===== src/MockPi/Groups.antt =====
-- The groups of positions in a specification, as `parseSimultaneousSpec` of src/MockPiPrograms.cpp reads
-- them.
use hardware.Base.{
  ℕ, suc, ◌+◌, ◌<◌, ◌≤◌, ◌≡◌, refl, sym, ap, ◌∙◌, true, false, List, [], ◌∷◌, ◌++◌, append-nil,
  append_assoc, length, length-set, set, take, take-set, leb, ◌==◌, if◌then◌else◌, All, arith,
}
use hardware.Base.Words.{add8}
use hardware.MockPi.State.{StepType, single, simultaneous, SequenceStep}
use hardware.MockPi.Touch.{step_positions}
use hardware.MockPi.Start.{to_upper, is_position}
use hardware.MockPi.Spec.{
  add_position, take_letter, parse_group, close_group, open_step, parse_step,
}

abbrev pub IsLetter : ℕ → Type 0
IsLetter c = (b'A' ≤ c) × (c ≤ b'Y')

-- A step as a host writes it: a position, or a group of positions.
pub data Planned : Type 0 where
  one : ℕ → Planned
  group : ℕ → List ℕ → Planned

abbrev pub IsPlanned : Planned → Type 0
IsPlanned (one c) = IsLetter c
IsPlanned (group c cs) = IsLetter c × All IsLetter cs × (length cs ≤ 4)

-- A, (A+B), ...
abbrev pub print_more : List ℕ → List ℕ
print_more [] = []
print_more (c ∷ cs) = b'+' ∷ c ∷ print_more cs

-- A step before the rest of the text: its first character, and what follows.
abbrev pub first_of : Planned → ℕ
first_of (one c) = c
first_of (group c cs) = b'('

abbrev pub after_first : Planned → List ℕ → List ℕ
after_first (one c) rest = rest
after_first (group c cs) rest = c ∷ (print_more cs ++ (b')' ∷ rest))

abbrev pub shown : Planned → StepType × List ℕ
shown (one c) = (single, c ∷ [])
shown (group c cs) = (simultaneous, c ∷ cs)

abbrev pub add_all : List ℕ → SequenceStep → SequenceStep
add_all [] step = step
add_all (c ∷ cs) step = add_all cs (add_position c step)

take_letter_letter :
    (c : ℕ) (step : SequenceStep) → IsLetter c → take_letter c step ≡ add_position c step
take_letter_letter c step l =
    let same : to_upper c ≡ c = ground arith in
    let letter : is_position c ≡ true = ground arith in
    let choose = λ (d : ℕ). if is_position d then add_position d step else step in
    ap choose same ∙ rw letter refl

-- One character of a group that is a letter, with room.
parse_group_letter :
    (c : ℕ) (rest : List ℕ) (step : SequenceStep)
    → IsLetter c
    → step.position_count < 5
    → parse_group (c ∷ rest) step ≡ parse_group rest (add_position c step)
unfolding parse_group
parse_group_letter c rest step l room =
    let open_yet : (c == b')') ≡ false = ground arith in
    let space : leb 5 step.position_count ≡ false = ground arith in
    let plus : (c == b'+') ≡ false = ground arith in
    let blank : (c == b' ') ≡ false = ground arith in
    rw (parse_group, open_yet, space, plus, blank)
      (ap (parse_group rest) (take_letter_letter c step l))

parse_group_plus :
    (rest : List ℕ) (step : SequenceStep)
    → step.position_count < 5
    → parse_group (b'+' ∷ rest) step ≡ parse_group rest step
unfolding parse_group
parse_group_plus rest step room =
    let space : leb 5 step.position_count ≡ false = ground arith in rw (parse_group, space) refl

-- The letters of a group after its first.
parse_group_more :
    (cs rest : List ℕ) (step : SequenceStep)
    → All IsLetter cs
    → step.position_count + length cs ≤ 5
    → parse_group (print_more cs ++ (b')' ∷ rest)) step ≡ (add_all cs step, b')' ∷ rest)
unfolding parse_group
parse_group_more [] rest step l room = refl
parse_group_more (c ∷ cs) rest step l room =
    parse_group_plus (c ∷ (print_more cs ++ (b')' ∷ rest))) step (omega arith)
    ∙ (parse_group_letter c (print_more cs ++ (b')' ∷ rest)) step l.0 (omega arith)
        ∙ parse_group_more cs rest (add_position c step) l.1 (omega arith))

-- A step is read as it is planned.
abbrev pub read_as : Planned → SequenceStep → SequenceStep
read_as (one c) old = record (open_step single old) {
  positions = set old.positions 0 c;
  position_count = 1;
}
read_as (group c cs) old = add_all (c ∷ cs) (open_step simultaneous old)

pub parse_step-planned :
    (x : Planned) (rest : List ℕ) (old : SequenceStep)
    → IsPlanned x
    → parse_step (first_of x) (after_first x rest) old ≡ (read_as x old, rest)
unfolding parse_step
parse_step-planned (one c) rest old l =
    let same : to_upper c ≡ c = ground arith in
    let letter : is_position c ≡ true = ground arith in
    let other : (c == b'(') ≡ false = ground arith in
    let choose = λ (d : ℕ).
      let s : SequenceStep =
        if is_position d
        then record (open_step single old) { positions = set old.positions 0 d; position_count = 1 }
        else open_step single old in
      s in
    let chosen : choose (to_upper c) ≡ read_as (one c) old = ap choose same ∙ rw letter refl in
    rw other (ap (λ (s : SequenceStep). (s, rest)) chosen)
parse_step-planned (group c cs) rest old l =
    let e =
      parse_group_letter c (print_more cs ++ (b')' ∷ rest)) (open_step simultaneous old) l.0
        (omega arith)
      ∙ parse_group_more cs rest (add_position c (open_step simultaneous old)) l.1 (omega arith) in
    ap (λ (r : SequenceStep × List ℕ). (r.0, close_group r.1)) e

-- What a step read so shows.
add_all-shown :
    (cs : List ℕ) (step : SequenceStep)
    → length step.positions ≡ 5
    → step.position_count + length cs ≤ 5
    → (step_positions (add_all cs step) ≡ step_positions step ++ cs)
      × ((add_all cs step).position_count ≡ step.position_count + length cs)
      × ((add_all cs step).type ≡ step.type)
      × (length (add_all cs step).positions ≡ 5)
add_all-shown [] step five room = (sym (append-nil (step_positions step)), omega arith, refl, five)
add_all-shown (c ∷ cs) step five room =
    let next : add8 step.position_count 1 ≡ suc step.position_count = omega arith in
    let put = set step.positions step.position_count c in
    let (view, count, type, long) =
      add_all-shown cs (add_position c step)
        (length-set step.positions step.position_count c ∙ five) (omega arith) in
    let added : step_positions (add_position c step) ≡ step_positions step ++ (c ∷ []) =
      ap (λ n. take n put) next
      ∙ take-set step.positions step.position_count c (omega (arith, five)) in
    (
      view ∙ (ap (λ l. l ++ cs) added ∙ append_assoc (step_positions step) (c ∷ []) cs),
      omega (arith, count, next),
      type,
      long,
    )

pub read_as-shown :
    (x : Planned) (old : SequenceStep)
    → IsPlanned x
    → length old.positions ≡ 5
    → ((read_as x old).type ≡ (shown x).0)
      × (step_positions (read_as x old) ≡ (shown x).1)
      × (0 < (read_as x old).position_count)
      × (length (read_as x old).positions ≡ 5)
read_as-shown (one c) old l five = (
  refl,
  take-set old.positions 0 c (omega (arith, five)),
  omega arith,
  length-set old.positions 0 c ∙ five,
)
read_as-shown (group c cs) old l five =
    let (view, count, type, long) =
      add_all-shown (c ∷ cs) (open_step simultaneous old) five (omega arith) in
    (type, view, omega (arith, count), long)
