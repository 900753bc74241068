-- ===== src/Command/RoundTrip.antt =====
-- Command lines as the host writes them, read by `parseLine` of src/CommandController.cpp.
use hardware.Base.{
  ℕ, zero, suc, ◌+◌, ◌-◌, ◌*◌, ◌%◌, ◌^◌, ◌<◌, ◌≤◌, ◌≡◌, ◌≢◌, refl, ap, ◌∙◌, Bool, true, false, some,
  List, [], ◌∷◌, ◌++◌, ◌==◌, length, arith, Bool-cases, inl, inr, All, length-append,
}
use hardware.Base.Words.{codes}
use hardware.EventQueue.{Env}
use hardware.Command.Actions.{
  CommandAction, invalid, Lexer, action_to_string, action_requires_position,
}
use hardware.Command.LexerLaws.{LexerLaws, upper, parse_action-action_to_string}
use hardware.Command.Parse.{
  ParsedCommand, accepted, finish, go_on, is_digit, parse_digits, id_round, position_round,
  token_round, parse_tokens, parse_line, strip_prefix, fresh_command, has_prefix,
}
use hardware.Command.Names.{is_word, action_to_string_word, action_to_string_nonempty}
use hardware.Command.Lexing.{
  skip_space, skip_word, skip_none, find_token_end_word, skip_name, not_invalid, strip_prefix_name,
}

abbrev pub IsDigit : ℕ → Type 0
IsDigit d = (b'0' ≤ d) × (d ≤ b'9')

-- The number that a sequence of digits names, after what stands before them.
abbrev pub value : ℕ → List ℕ → ℕ
value acc [] = acc
value acc (d ∷ ds) = value (acc * 10 + (d - b'0')) ds

parse_digits-value :
    (acc : ℕ) (b : Bool) (d : ℕ) (ds : List ℕ)
    → IsDigit d
    → All IsDigit ds
    → parse_digits (acc % 2 ^ 32) b (d ∷ ds) ≡ (value acc (d ∷ ds) % 2 ^ 32, true, [])
unfolding parse_digits
parse_digits-value acc b d [] hd hs =
    let digit : is_digit d ≡ true = ground arith in
    let step : ((acc % 2 ^ 32) * 10 + (d - 48)) % 2 ^ 32 ≡ (acc * 10 + (d - 48)) % 2 ^ 32 =
      omega arith in
    rw (digit, step) refl
parse_digits-value acc b d (e ∷ ds) hd hs =
    let digit : is_digit d ≡ true = ground arith in
    let step : ((acc % 2 ^ 32) * 10 + (d - 48)) % 2 ^ 32 ≡ (acc * 10 + (d - 48)) % 2 ^ 32 =
      omega arith in
    rw (parse_digits, digit, step) (parse_digits-value (acc * 10 + (d - 48)) true e ds hs.0 hs.1)

module _ (env : Env) (lex : Lexer) (laws : LexerLaws lex) where
  -- The command that a line names: an action, a position by its letter, and an identifier.
  abbrev pub command_of : CommandAction → ℕ → ℕ → List ℕ → ParsedCommand
  command_of a c d ds = record {
    action = a;
    has_position = true;
    position = upper c;
    position_index = lex.char_to_index c;
    has_id = true;
    id = value 0 (d ∷ ds) % 2 ^ 32;
    valid = true;
  }

  abbrev placed : ParsedCommand → ℕ → ParsedCommand
  placed cmd c = record cmd {
    has_position = true;
    position = upper c;
    position_index = lex.char_to_index c;
  }

  abbrev named : ParsedCommand → List ℕ → ParsedCommand
  named cmd ds = record cmd { has_id = true; id = value 0 ds % 2 ^ 32 }

  finish-placed :
      (cmd : ParsedCommand)
      → cmd.has_position ≡ true
      → finish env lex cmd ≡ accepted (record cmd { valid = true })
  unfolding finish
  finish-placed cmd h = elim (Bool-cases (action_requires_position cmd.action)) [
    | inl needed ↦ rw (needed, h) refl
    | inr free ↦ rw free refl
  ]

  -- ACTION LETTER #DIGITS
  abbrev pub command_line : CommandAction → ℕ → ℕ → List ℕ → List ℕ
  command_line a c d ds = action_to_string a ++ (b' ' ∷ c ∷ b' ' ∷ b'#' ∷ d ∷ ds)

  module _ (c d : ℕ) (ds : List ℕ) (letter : 65 ≤ c) (known : lex.char_to_index c ≢ 255)
      (digit : IsDigit d) (digits : All IsDigit ds) where
    position_round_letter :
        (cmd : ParsedCommand)
        → token_round env lex cmd (c ∷ b' ' ∷ b'#' ∷ d ∷ ds) ≡ go_on (placed cmd c) (b'#' ∷ d ∷ ds)
    unfolding token_round position_round
    position_round_letter cmd =
        let other : (c == b'#') ≡ false = ground arith in
        let word : is_word (c ∷ []) ≡ true = ground arith in
        let token : lex.find_token_end (c ∷ b' ' ∷ b'#' ∷ d ∷ ds) ≡ b' ' ∷ b'#' ∷ d ∷ ds =
          find_token_end_word env lex laws (c ∷ []) (b'#' ∷ d ∷ ds) word in
        let one : (length (c ∷ b' ' ∷ b'#' ∷ d ∷ ds) - length (b' ' ∷ b'#' ∷ d ∷ ds) == 1) ≡ true =
          ground arith in
        let in_range : (lex.char_to_index c == 255) ≡ false = ground arith in
        rw
          (
            other,
            token,
            one,
            in_range,
            skip_space env lex laws (b'#' ∷ d ∷ ds),
            skip_word env lex laws b'#' (d ∷ ds) (omega arith),
          )
          refl

    id_round_digits :
        (cmd : ParsedCommand)
        → token_round env lex cmd (b'#' ∷ d ∷ ds) ≡ go_on (named cmd (d ∷ ds)) []
    unfolding token_round id_round
    id_round_digits cmd =
        rw (parse_digits-value 0 false d ds digit digits, skip_none env lex laws) refl

    parse_tokens_line :
        (fuel : ℕ) (cmd : ParsedCommand)
        → parse_tokens env lex (suc (suc (suc fuel))) cmd (c ∷ b' ' ∷ b'#' ∷ d ∷ ds)
          ≡ some (accepted (record (named (placed cmd c) (d ∷ ds)) { valid = true }))
    unfolding parse_tokens finish
    parse_tokens_line fuel cmd =
        let more : (c == 0) ≡ false = ground arith in
        rw (parse_tokens, more, position_round_letter cmd, id_round_digits (placed cmd c))
          (ap some (finish-placed (named (placed cmd c) (d ∷ ds)) refl))

    parse_line_start :
        (fuel : ℕ) (a : CommandAction)
        → a ≢ invalid
        → parse_line env lex (suc (suc (suc fuel))) (command_line a c d ds)
          ≡ some (accepted (command_of a c d ds))
    unfolding parse_line
    parse_line_start fuel a h =
        let tail : List ℕ = c ∷ b' ' ∷ b'#' ∷ d ∷ ds in
        let line : List ℕ = command_line a c d ds in
        let bare : strip_prefix env lex line ≡ line =
          strip_prefix_name env lex laws a (b' ' ∷ tail) in
        let action_end : lex.find_token_end line ≡ b' ' ∷ tail =
          find_token_end_word env lex laws (action_to_string a) tail (action_to_string_word a) in
        let action_len : length line - length (b' ' ∷ tail) ≡ length (action_to_string a) =
          omega (arith, length-append (action_to_string a) (b' ' ∷ tail)) in
        rw
          (
            bare,
            action_end,
            action_len,
            action_to_string_nonempty a,
            parse_action-action_to_string lex laws a (b' ' ∷ tail) h,
            not_invalid env lex laws a h,
            skip_space env lex laws tail,
            skip_word env lex laws c (b' ' ∷ b'#' ∷ d ∷ ds) (omega arith),
          )
          (parse_tokens_line fuel (record (fresh_command env lex) { action = a }))

    -- The prefix of the Pi changes nothing.
    parse_line_prefix :
        (fuel : ℕ) (a : CommandAction)
        → parse_line env lex fuel (codes "PI> " ++ command_line a c d ds)
          ≡ parse_line env lex fuel (command_line a c d ds)
    unfolding parse_line has_prefix
    parse_line_prefix fuel a =
        let tail : List ℕ = c ∷ b' ' ∷ b'#' ∷ d ∷ ds in
        let line : List ℕ = command_line a c d ds in
        let begins : lex.skip_whitespace (codes "PI> " ++ line) ≡ codes "PI> " ++ line =
          skip_word env lex laws b'P' (codes "I> " ++ line) (omega arith) in
        let bare : lex.skip_whitespace line ≡ line =
          skip_name env lex laws (action_to_string a) (b' ' ∷ tail) (action_to_string_word a)
            (action_to_string_nonempty a) in
        let stripped : strip_prefix env lex (codes "PI> " ++ line) ≡ line =
          rw (begins, skip_space env lex laws line) bare in
        rw (stripped, strip_prefix_name env lex laws a (b' ' ∷ tail)) refl

    -- `parseLine` reads the line ACTION LETTER #DIGITS, with or without the prefix of the Pi, as the
    -- action of that name (every one but INVALID), at the upper case of any letter from A on that has an
    -- index, with the identifier that the digits name modulo 2 ^ 32.
    pub parse_line-command_line :
        (fuel : ℕ) (a : CommandAction)
        → a ≢ invalid
        → length (command_line a c d ds) < fuel
        → (parse_line env lex fuel (command_line a c d ds) ≡ some (accepted (command_of a c d ds)))
          × (parse_line env lex fuel (codes "PI> " ++ command_line a c d ds)
              ≡ some (accepted (command_of a c d ds)))
    parse_line-command_line fuel a h enough =
        let tail : List ℕ = c ∷ b' ' ∷ b'#' ∷ d ∷ ds in
        let long = length-append (action_to_string a) (b' ' ∷ tail) in
        let read = go fuel (omega (arith, long, enough)) in (read, parse_line_prefix fuel a ∙ read)
      where
        go :
            (k : ℕ)
            → 3 ≤ k
            → parse_line env lex k (command_line a c d ds) ≡ some (accepted (command_of a c d ds))
        go zero k = absurd (omega arith)
        go (suc zero) k = absurd (omega arith)
        go (suc (suc zero)) k = absurd (omega arith)
        go (suc (suc (suc fuel))) k = parse_line_start fuel a h
