-- ===== src/MockPi/Feed.antt =====
-- `feedEventLine` of src/MockPiPrograms.cpp: what it reads in a line, for `processEvent`.
use hardware.Base.{
  ℕ, zero, suc, ◌+◌, ◌-◌, ◌*◌, ◌%◌, ◌^◌, Bool, true, false, not, ◌&&◌, ◌||◌, List, [], ◌∷◌, leb,
  ◌==◌, if◌then◌else◌, drop,
}
use hardware.Base.Words.{codes}
use hardware.Command.Machine.{Parts}
use hardware.Command.Parse.{deref, has_prefix}
use hardware.Command.LexerLaws.{drop_while}
use hardware.MockPi.State.{World, Unseen}

-- What `processEvent` is called with.
pub record Fed : Type 0 where
  pub event_type : List ℕ
  pub position : ℕ
  pub id : ℕ

abbrev pub is_blank : ℕ → Bool
is_blank c = c == b' '

abbrev pub is_blank_or_tab : ℕ → Bool
is_blank_or_tab c = c == b' ' || c == 9

-- while (line[i] && line[i] != ' ' && i < 19): the word, and the text from there on
unfoldable pub read_word : ℕ → List ℕ → List ℕ × List ℕ
read_word zero line = ([], line)
read_word (suc room) [] = ([], [])
read_word (suc room) (c ∷ line) =
    let (word, rest) = read_word room line in
    if is_blank c then ([], c ∷ line) else (c ∷ word, rest)

-- Are two strings equal? (strcmp)
abbrev pub str_eq : List ℕ → List ℕ → Bool
str_eq [] [] = true
str_eq [] (d ∷ ds) = false
str_eq (c ∷ cs) [] = false
str_eq (c ∷ cs) (d ∷ ds) = c == d && str_eq cs ds

-- A position letter, in upper case, or 0; and the text after it.
unfoldable pub read_position : List ℕ → ℕ × List ℕ
read_position [] = (0, [])
read_position (c ∷ rest) =
    if leb b'A' c && leb c b'Y'
    then (c, rest)
    else if leb b'a' c && leb c b'y'
    then (c - 32, rest)
    else (0, c ∷ rest)

-- while (line[i] >= '0' && line[i] <= '9'), into a `uint32_t`
unfoldable pub read_digits : ℕ → List ℕ → ℕ
read_digits id [] = id
read_digits id (c ∷ rest) =
    let more = read_digits ((id * 10 + (c - b'0')) % 2 ^ 32) rest in
    if leb b'0' c && leb c b'9' then more else id

unfoldable pub read_id : ℕ → List ℕ → ℕ
unfolding read_digits
read_id no_id [] = no_id
read_id no_id (c ∷ rest) = if c == b'#' then read_digits 0 rest else no_id

-- The text of the event: without leading white space and the prefix of the Arduino.
unfoldable pub strip_arduino : List ℕ → List ℕ
strip_arduino line =
    let start = drop_while is_blank_or_tab line in
    if has_prefix (codes "ARDUINO>") start then drop_while is_blank_or_tab (drop 8 start) else start

-- The text after the action of an ACK or a DONE.
unfoldable pub skip_action : List ℕ → List ℕ → List ℕ
skip_action event_type rest =
    if str_eq event_type (codes "ACK") || str_eq event_type (codes "DONE")
    then drop_while is_blank (drop_while (λ c. not (is_blank c)) rest)
    else rest

-- Position and identifier, from the text after the type and the action.
unfoldable pub read_rest : ℕ → List ℕ → List ℕ → Fed
unfolding read_position read_id
read_rest no_id event_type text =
    let (position, after) = read_position text in
    record {
      event_type = event_type;
      position = position;
      id = read_id no_id (drop_while is_blank after);
    }

unfoldable pub read_event : ℕ → List ℕ → Fed
unfolding strip_arduino read_word skip_action read_rest
read_event no_id line =
    let (event_type, rest) = read_word 19 (strip_arduino line) in
    read_rest no_id event_type (skip_action event_type (drop_while is_blank rest))

module _ {p : Parts} (u : Unseen p) where
  unfoldable pub feed_event_line : List ℕ → World p → World p
  unfolding read_event
  feed_event_line line w =
      let fed = read_event p.env.no_command_id line in
      if deref line == 0 then w else u.process_event fed.event_type fed.position fed.id w
