-- ===== src/MockPi/Feeding.antt =====
-- The lines of src/EventQueue.cpp as `feedEventLine` of src/MockPiPrograms.cpp reads them.
use hardware.Base.{
  ℕ, zero, suc, ◌-◌, ◌%◌, ◌^◌, ◌<◌, ◌≤◌, ◌≡◌, ◌≢◌, ◌⊎◌, refl, sym, ap, ap₂, ◌∙◌, true, false, not,
  List, [], ◌∷◌, ◌++◌, append-nil, take, leb, ◌==◌, ==_iff, ==_ne, All, Bool-cases, inl, inr, arith,
}
use hardware.Base.Words.{codes}
use hardware.EventQueue.{Env, send_event, send_body, send_suffix}
use hardware.EventQueue.Emit.{ack_event, done_event}
use hardware.Command.Parse.{has_prefix}
use hardware.Command.LexerLaws.{drop_while}
use hardware.MockPi.Decimal.{DecimalLaws, read_digits-value}
use hardware.MockPi.Feed.{Fed, is_blank, read_position, read_id, skip_action, read_rest, read_event}

-- A position in an event: a letter, or none.
abbrev pub IsPlace : ℕ → Type 0
IsPlace position = (position ≡ 0) ⊎ ((b'A' ≤ position) × (position ≤ b'Y'))

-- The printed line without its end.
abbrev pub bare : Env → Env
bare env = record env { eol = [] }

skip_name :
    (name text : List ℕ)
    → All (λ c. is_blank c ≡ false) name
    → drop_while (λ c. not (is_blank c)) (name ++ (b' ' ∷ text)) ≡ b' ' ∷ text
skip_name [] text h = refl
skip_name (c ∷ name) text h = rw h.0 (skip_name name text h.1)

skip_last :
    (name : List ℕ)
    → All (λ c. is_blank c ≡ false) name
    → drop_while (λ c. not (is_blank c)) (name ++ []) ≡ []
skip_last [] h = refl
skip_last (c ∷ name) h = rw h.0 (skip_last name h.1)

-- The words ACK and DONE.
data IsAnswer : List ℕ → Type 0 where
  acknowledged : IsAnswer (codes "ACK")
  completed : IsAnswer (codes "DONE")

abbrev answer_line : List ℕ → List ℕ → List ℕ
answer_line word text = codes "ARDUINO> " ++ (word ++ (b' ' ∷ text))

-- The blank before a word is skipped.
skip_gap :
    (c : ℕ) (text : List ℕ) → is_blank c ≡ false → drop_while is_blank (b' ' ∷ c ∷ text) ≡ c ∷ text
skip_gap c text h = rw h refl

skip_action_answer :
    {word : List ℕ} (text : List ℕ)
    → IsAnswer word
    → skip_action word text ≡ drop_while is_blank (drop_while (λ c. not (is_blank c)) text)
unfolding skip_action
skip_action_answer text acknowledged = refl
skip_action_answer text completed = refl

read_event_answer :
    {word : List ℕ} (no_id c : ℕ) (text : List ℕ)
    → IsAnswer word
    → is_blank c ≡ false
    → read_event no_id (answer_line word (c ∷ text))
      ≡ read_rest no_id word (drop_while is_blank (drop_while (λ c. not (is_blank c)) (c ∷ text)))
unfolding read_event has_prefix
read_event_answer no_id c text acknowledged h =
    ap (λ (t : List ℕ). read_rest no_id (codes "ACK") (skip_action (codes "ACK") t))
      (skip_gap c text h)
    ∙ ap (read_rest no_id (codes "ACK")) (skip_action_answer (c ∷ text) acknowledged)
read_event_answer no_id c text completed h =
    ap (λ (t : List ℕ). read_rest no_id (codes "DONE") (skip_action (codes "DONE") t))
      (skip_gap c text h)
    ∙ ap (read_rest no_id (codes "DONE")) (skip_action_answer (c ∷ text) completed)

read_last :
    {word : List ℕ} (no_id c : ℕ) (cs : List ℕ)
    → IsAnswer word
    → All (λ c. is_blank c ≡ false) (c ∷ cs)
    → read_event no_id (answer_line word ((c ∷ cs) ++ [])) ≡ read_rest no_id word []
read_last {word} no_id c cs a h =
    read_event_answer no_id c (cs ++ []) a h.0
    ∙ ap (λ (t : List ℕ). read_rest no_id word (drop_while is_blank t)) (skip_last (c ∷ cs) h)

read_more :
    {word : List ℕ} (no_id c : ℕ) (cs text : List ℕ)
    → IsAnswer word
    → All (λ c. is_blank c ≡ false) (c ∷ cs)
    → read_event no_id (answer_line word ((c ∷ cs) ++ (b' ' ∷ text)))
      ≡ read_rest no_id word (drop_while is_blank text)
read_more {word} no_id c cs text a h =
    read_event_answer no_id c (cs ++ (b' ' ∷ text)) a h.0
    ∙ ap (λ (t : List ℕ). read_rest no_id word (drop_while is_blank t)) (skip_name (c ∷ cs) text h)

-- A letter after an action.
read_rest-letter :
    (no_id position : ℕ) (word text : List ℕ)
    → b'A' ≤ position
    → position ≤ b'Y'
    → read_rest no_id word (drop_while is_blank (position ∷ text)) ≡ record {
      event_type = word;
      position = position;
      id = read_id no_id (drop_while is_blank text);
    }
unfolding read_rest read_position
read_rest-letter no_id position word text lo hi =
    let other : is_blank position ≡ false = ground arith in
    let low : leb b'A' position ≡ true = ground arith in
    let high : leb position b'Y' ≡ true = ground arith in
    let kept : drop_while is_blank (position ∷ text) ≡ position ∷ text = rw other refl in
    ap (read_rest no_id word) kept ∙ rw (low, high) refl

module _ (env : Env) (laws : DecimalLaws env) where
  id-back : (id : ℕ) → id < 2 ^ 32 → read_id env.no_command_id (b'#' ∷ env.decimal id) ≡ id
  unfolding read_id
  id-back id h =
      read_digits-value 0 (env.decimal id) (laws.digits id)
      ∙ (ap (λ n. n % 2 ^ 32) (laws.names id h) ∙ omega arith)

  -- What follows the action.
  abbrev tail_of : ℕ → ℕ → List ℕ
  tail_of position id = send_suffix (bare env) (ack_event [] position id)

  -- The tails of a line, by what it holds.
  module _ (position id : ℕ) where
    no_position : position ≡ 0 → (position == 0) ≡ true
    no_position e = (==_iff position 0).1 e

    tail_none : position ≡ 0 → (id == env.no_command_id) ≡ true → tail_of position id ≡ []
    unfolding send_suffix
    tail_none e i = rw (no_position e, i) refl

    tail_id :
        position ≡ 0
        → (id == env.no_command_id) ≡ false
        → tail_of position id ≡ b' ' ∷ b'#' ∷ env.decimal id
    unfolding send_suffix
    tail_id e i =
        rw (no_position e, i) (ap (λ (t : List ℕ). b' ' ∷ b'#' ∷ t) (append-nil (env.decimal id)))

    tail_position :
        (position == 0) ≡ false
        → (id == env.no_command_id) ≡ true
        → tail_of position id ≡ b' ' ∷ position ∷ []
    unfolding send_suffix
    tail_position e i = rw (e, i) refl

    tail_both :
        (position == 0) ≡ false
        → (id == env.no_command_id) ≡ false
        → tail_of position id ≡ b' ' ∷ position ∷ b' ' ∷ b'#' ∷ env.decimal id
    unfolding send_suffix
    tail_both e i =
        rw (e, i)
          (ap (λ (t : List ℕ). b' ' ∷ position ∷ b' ' ∷ b'#' ∷ t) (append-nil (env.decimal id)))

  -- A line with a name and this tail reads as its position and its identifier.
  read_tail :
      {word : List ℕ} (c : ℕ) (cs : List ℕ) (position id : ℕ)
      → IsAnswer word
      → All (λ c. is_blank c ≡ false) (c ∷ cs)
      → IsPlace position
      → id < 2 ^ 32
      → read_event env.no_command_id (answer_line word ((c ∷ cs) ++ tail_of position id))
        ≡ record { event_type = word; position = position; id = id }
  unfolding read_rest read_position read_id
  read_tail {word} c cs position id a h place l =
      let no_id = env.no_command_id in
      let fed =
        λ (q k : ℕ). let r : Fed = record { event_type = word; position = q; id = k } in r in
      let of = λ (t : List ℕ). read_event no_id (answer_line word ((c ∷ cs) ++ t)) in
      let back = id-back id l in
      elim place [
        | inl e ↦ elim (Bool-cases (id == no_id)) [
          | inl i ↦
              ap of (tail_none position id e i)
              ∙ (read_last no_id c cs a h ∙ ap₂ fed (sym e) (sym ((==_iff id no_id).0 i)))
          | inr i ↦
              ap of (tail_id position id e i)
              ∙ (read_more no_id c cs (b'#' ∷ env.decimal id) a h ∙ ap₂ fed (sym e) back)
        ]
        | inr (lo, hi) ↦
            let there : (position == 0) ≡ false = ground (arith, lo) in
            elim (Bool-cases (id == no_id)) [
              | inl i ↦
                  ap of (tail_position position id there i)
                  ∙ (read_more no_id c cs (position ∷ []) a h
                      ∙ (read_rest-letter no_id position word [] lo hi
                          ∙ ap (fed position) (sym ((==_iff id no_id).0 i))))
              | inr i ↦
                  let text : List ℕ = b' ' ∷ b'#' ∷ env.decimal id in
                  ap of (tail_both position id there i)
                  ∙ (read_more no_id c cs (position ∷ text) a h
                      ∙ (read_rest-letter no_id position word text lo hi ∙ ap (fed position) back))
            ]
      ]

  All-take :
      (n : ℕ) (xs : List ℕ)
      → All (λ c. is_blank c ≡ false) xs
      → All (λ c. is_blank c ≡ false) (take n xs)
  All-take zero xs h = tt
  All-take (suc n) [] h = tt
  All-take (suc n) (x ∷ xs) h = (h.0, All-take n xs h.1)

  -- The ACK and DONE lines that the event queue prints, without their line end, are read back: the type,
  -- the position (a letter from A to Y, or 0 if there is none) and the identifier, or NO_COMMAND_ID if
  -- none is printed; whatever the action, a word without blanks that is cut to 11 characters.
  pub read_event-send_event :
      (c : ℕ) (cs : List ℕ) (position id : ℕ)
      → All (λ c. is_blank c ≡ false) (c ∷ cs)
      → IsPlace position
      → id < 2 ^ 32
      → (read_event env.no_command_id (send_event (bare env) (ack_event (c ∷ cs) position id))
          ≡ record { event_type = codes "ACK"; position = position; id = id })
        × (read_event env.no_command_id (send_event (bare env) (done_event (c ∷ cs) position id))
            ≡ record { event_type = codes "DONE"; position = position; id = id })
  unfolding send_event send_body
  read_event-send_event c cs position id h place l =
      let short = All-take 10 cs h.1 in
      (
        read_tail c (take 10 cs) position id acknowledged (h.0, short) place l,
        read_tail c (take 10 cs) position id completed (h.0, short) place l,
      )

-- In an ERR line whose reason begins with a letter from a to y, and goes on with another character than a
-- blank or `#`, the first letter of the reason is taken for the position, and no identifier is read.
pub read_event_error :
    (no_id c d : ℕ) (rest : List ℕ)
    → b'a' ≤ c
    → c ≤ b'y'
    → is_blank d ≡ false
    → d ≢ b'#'
    → read_event no_id (codes "ARDUINO> ERR " ++ (c ∷ d ∷ rest))
      ≡ record { event_type = codes "ERR"; position = c - 32; id = no_id }
unfolding read_event read_rest read_position read_id skip_action has_prefix
read_event_error no_id c d rest lo hi gap mark =
    let other : is_blank c ≡ false = ground arith in
    let big : leb c b'Y' ≡ false = ground arith in
    let upper : leb b'A' c ≡ true = ground arith in
    let low : leb b'a' c ≡ true = ground arith in
    let high : leb c b'y' ≡ true = ground arith in
    let hash : (d == b'#') ≡ false = ==_ne d b'#' mark in
    let start : skip_action (codes "ERR") (drop_while is_blank (b' ' ∷ c ∷ d ∷ rest))
        ≡ c ∷ d ∷ rest =
      skip_gap c (d ∷ rest) other in
    ap (read_rest no_id (codes "ERR")) start ∙ rw (upper, big, low, high, gap, hash) refl
