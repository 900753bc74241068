-- ===== src/Command/Parse.antt =====
-- `parseLine` of src/CommandController.cpp. Its errors are values, which the caller queues.
use hardware.Base.{
  ℕ, zero, suc, ◌+◌, ◌-◌, ◌*◌, ◌%◌, ◌^◌, Bool, true, false, not, ◌&&◌, Option, none, some, List, [],
  ◌∷◌, length, drop, ltb, leb, ◌==◌, if◌then◌else◌,
}
use hardware.Base.Words.{codes}
use hardware.EventQueue.{Env}
use hardware.Command.Actions.{CommandAction, invalid, Lexer, parse_action, action_requires_position}

pub record ParsedCommand : Type 0 where
  pub action : CommandAction
  pub has_position : Bool
  pub position : ℕ
  pub position_index : ℕ
  pub has_id : Bool
  pub id : ℕ
  pub valid : Bool

-- `rejected reason id` is queueError(reason, id) and return false.
pub data Parsed : Type 0 where
  accepted : ParsedCommand → Parsed
  rejected : List ℕ → ℕ → Parsed

-- *ptr
abbrev pub deref : List ℕ → ℕ
deref [] = 0
deref (c ∷ _) = c

abbrev pub is_digit : ℕ → Bool
is_digit c = leb b'0' c && leb c b'9'

-- The digits at the pointer: the number so far (`uint32_t`), whether there was one, and the rest.
unfoldable pub parse_digits : ℕ → Bool → List ℕ → ℕ × Bool × List ℕ
parse_digits id has_digits [] = (id, has_digits, [])
parse_digits id has_digits (c ∷ rest) =
    let more = parse_digits ((id * 10 + (c - b'0')) % 2 ^ 32) true rest in
    if is_digit c then more else (id, has_digits, c ∷ rest)

-- strncmp(ptr, prefix, n) == 0, for a prefix of n characters
unfoldable pub has_prefix : List ℕ → List ℕ → Bool
has_prefix [] str = true
has_prefix (p ∷ prefix) [] = false
has_prefix (p ∷ prefix) (c ∷ str) = p == c && has_prefix prefix str

module _ (env : Env) (lex : Lexer) where
  -- cmd.hasId ? cmd.id : NO_COMMAND_ID
  abbrev pub command_id_of : ParsedCommand → ℕ
  command_id_of cmd = if cmd.has_id then cmd.id else env.no_command_id

  -- One round of the loop over position and identifier: the command and the pointer afterwards.
  pub data Round : Type 0 where
    go_on : ParsedCommand → List ℕ → Round
    fail : List ℕ → ℕ → Round

  unfoldable pub id_round : ParsedCommand → List ℕ → Round
  id_round cmd ptr =
      let (id, has_digits, rest) = parse_digits 0 false ptr in
      if not has_digits
      then fail (codes "bad_format") env.no_command_id
      else go_on (record cmd { has_id = true; id = id }) (lex.skip_whitespace rest)

  unfoldable pub position_round : ParsedCommand → List ℕ → Round
  position_round cmd ptr =
      let token_end = lex.find_token_end ptr in
      let token_len = length ptr - length token_end in
      let c = deref ptr in
      let idx = lex.char_to_index c in
      let upper = if leb b'a' c && leb c b'z' then c - 32 else c in
      if token_len == 1
      then (if idx == 255
          then fail (codes "unknown_position") (command_id_of cmd)
          else go_on (record cmd { has_position = true; position = upper; position_index = idx })
              (lex.skip_whitespace token_end))
      else if ltb 1 token_len
      then fail (codes "bad_format") (command_id_of cmd)
      else go_on cmd (lex.skip_whitespace token_end)

  unfoldable pub token_round : ParsedCommand → List ℕ → Round
  token_round cmd ptr =
      if deref ptr == b'#' then id_round cmd (drop 1 ptr) else position_round cmd ptr

  -- After the loop: a position must be there if the action needs one.
  unfoldable pub finish : ParsedCommand → Parsed
  finish cmd =
      if action_requires_position cmd.action && not cmd.has_position
      then rejected (codes "bad_format") (command_id_of cmd)
      else accepted (record cmd { valid = true })

  -- while (*ptr != '\0'); `none` means that the fuel ran out.
  unfoldable pub parse_tokens : ℕ → ParsedCommand → List ℕ → Option Parsed
  parse_tokens zero cmd ptr = none
  parse_tokens (suc fuel) cmd ptr = elim (deref ptr == 0) [
    | true ↦ some (finish cmd)
    | false ↦ elim (token_round cmd ptr) [
      | go_on cmd' ptr' ↦ parse_tokens fuel cmd' ptr'
      | fail reason id ↦ some (rejected reason id)
    ]
  ]

  -- The command before anything has been parsed.
  abbrev pub fresh_command : ParsedCommand
  fresh_command = record {
    action = invalid;
    has_position = false;
    position = 0;
    position_index = 255;
    has_id = false;
    id = env.no_command_id;
    valid = false;
  }

  -- The line without the prefix of the Pi.
  abbrev pub strip_prefix : List ℕ → List ℕ
  strip_prefix line =
      let ptr = lex.skip_whitespace line in
      if has_prefix (codes "PI>") ptr then lex.skip_whitespace (drop 3 ptr) else ptr

  -- action == INVALID
  abbrev pub is_invalid : CommandAction → Bool
  is_invalid invalid = true
  is_invalid _ = false

  unfoldable pub parse_line : ℕ → List ℕ → Option Parsed
  parse_line fuel line =
      let start = strip_prefix line in
      let action_end = lex.find_token_end start in
      let action_len = length start - length action_end in
      let action = parse_action lex start action_len in
      if action_len == 0
      then some (rejected (codes "bad_format") env.no_command_id)
      else if is_invalid action
      then some (rejected (codes "unknown_action") env.no_command_id)
      else parse_tokens fuel (record fresh_command { action = action })
          (lex.skip_whitespace action_end)
