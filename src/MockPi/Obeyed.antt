-- ===== src/MockPi/Obeyed.antt =====
-- The commands of src/MockPiPrograms.cpp as src/CommandController.cpp obeys them.
use hardware.Base.{
  ℕ, suc, ◌+◌, ◌%◌, ◌^◌, ◌<◌, ◌≤◌, ◌≡◌, ◌≢◌, refl, ap, ◌∙◌, Bool, true, false, some, List, [], ◌∷◌,
  ◌++◌, length, length-append, take, take_all, ◌==◌, if◌then◌else◌, All, arith,
}
use hardware.Base.Words.{codes, add32}
use hardware.Command.Actions.{
  CommandAction, show, hide, success, blink, stop_blink, expect_down, expect_up, recalibrate,
  recalibrate_all, scan, sequence_completed, info, ping, invalid, action_to_string,
}
use hardware.Command.LexerLaws.{LexerLaws, upper}
use hardware.Command.Parse.{ParsedCommand, deref, has_prefix}
use hardware.Command.RoundTrip.{IsDigit, value, command_of, command_line, parse_line-command_line}
use hardware.Command.Machine.{Parts, Machine}
use hardware.Command.Execute.{execute_command}
use hardware.Command.Tick.{inject_command, run_line, run_parsed}
use hardware.MockPi.State.{World, ◌>>=◌}
use hardware.MockPi.Update.{send_command, send_command_with_pos}
use hardware.MockPi.Decimal.{DecimalLaws}

-- The actions whose names leave room for a position in the buffer of 32 bytes.
length-action_to_string :
    (a : CommandAction) → a ≢ sequence_completed → length (action_to_string a) ≤ 17
unfolding action_to_string
length-action_to_string sequence_completed h = absurd (h refl)
length-action_to_string _ h = omega arith

-- A command line has no prefix of the Pi, and is not empty.
plain_line :
    (a : CommandAction) (text : List ℕ)
    → let line = action_to_string a ++ (b' ' ∷ text) in
      (has_prefix (codes "PI> ") line ≡ false) × ((deref line == 0) ≡ false)
unfolding action_to_string has_prefix
plain_line show text = (refl, refl)
plain_line hide text = (refl, refl)
plain_line success text = (refl, refl)
plain_line blink text = (refl, refl)
plain_line stop_blink text = (refl, refl)
plain_line expect_down text = (refl, refl)
plain_line expect_up text = (refl, refl)
plain_line recalibrate text = (refl, refl)
plain_line recalibrate_all text = (refl, refl)
plain_line scan text = (refl, refl)
plain_line sequence_completed text = (refl, refl)
plain_line info text = (refl, refl)
plain_line ping text = (refl, refl)
plain_line invalid text = (refl, refl)

module _ (p : Parts) (lexer : LexerLaws p.lexer) (decimal : DecimalLaws p.env) where
  -- The command at a letter with an identifier.
  abbrev pub command : CommandAction → ℕ → ℕ → ParsedCommand
  command a pos id = record {
    action = a;
    has_position = true;
    position = upper pos;
    position_index = p.lexer.char_to_index pos;
    has_id = true;
    id = id;
    valid = true;
  }

  inject-digits :
      (a : CommandAction) (pos id : ℕ) (ds : List ℕ) (m : Machine p)
      → a ≢ invalid
      → 65 ≤ pos
      → p.lexer.char_to_index pos ≢ 255
      → 0 < length ds
      → All IsDigit ds
      → value 0 ds % 2 ^ 32 ≡ id
      → inject_command p (action_to_string a ++ (b' ' ∷ pos ∷ b' ' ∷ b'#' ∷ ds)) m
        ≡ some (execute_command p (command a pos id) m)
  unfolding inject_command run_line run_parsed
  inject-digits a pos id [] m h lo known there digits names = absurd (omega arith)
  inject-digits a pos id (d ∷ ds) m h lo known there digits names =
      let line = command_line p.env p.lexer lexer a pos d ds in
      let (plain, full) = plain_line a (pos ∷ b' ' ∷ b'#' ∷ d ∷ ds) in
      let (read, _) =
        parse_line-command_line p.env p.lexer lexer pos d ds lo known digits.0 digits.1
          (length line + 1) a h (omega arith) in
      let run : run_line p line m
          ≡ some (execute_command p (command_of p.env p.lexer lexer a pos d ds) m) =
        rw (run_line, read) refl in
      let obey = λ (k : ℕ). some (execute_command p (record (command a pos id) { id = k }) m) in
      rw (plain, full, run) (ap obey names)

  -- `sendCommandWithPos`, with a command controller, for the name of an action (not INVALID, and not
  -- SEQUENCE_COMPLETED, whose name is too long) and a letter that has an index: the line
  -- ACTION LETTER #ID is complete in its buffer of 32 bytes, and the command controller executes exactly
  -- the command of that action, position and identifier. The next identifier is one higher, modulo 2 ^ 32.
  pub send_command_with_pos-executes :
      (a : CommandAction) (pos : ℕ) (w : World p)
      → a ≢ invalid
      → a ≢ sequence_completed
      → 65 ≤ pos
      → p.lexer.char_to_index pos ≢ 255
      → w.pi.has_command ≡ true
      → w.pi.command_id < 2 ^ 32
      → let id = w.pi.command_id in
        let m = execute_command p (command a pos id) w.machine in
        let line = action_to_string a ++ (b' ' ∷ pos ∷ b' ' ∷ b'#' ∷ p.env.decimal id) in
        send_command_with_pos p (action_to_string a) pos w
        ≡ some (record w {
          pi = record w.pi { command_id = add32 id 1; last_action_time = m.clock m.calls };
          machine = record m { calls = suc m.calls };
          sent = w.sent ++ (line ∷ []);
        })
  unfolding send_command_with_pos send_command
  send_command_with_pos-executes a pos w h short lo known linked small =
      let id = w.pi.command_id in
      let ds = p.env.decimal id in
      let text : List ℕ = b' ' ∷ pos ∷ b' ' ∷ b'#' ∷ ds in
      let fits : take 31 (action_to_string a ++ text) ≡ action_to_string a ++ text =
        take_all 31 (action_to_string a ++ text) (
          omega (
            arith,
            length-append (action_to_string a) text,
            length-action_to_string a short,
            decimal.short id small,
          )) in
      let names : value 0 ds % 2 ^ 32 ≡ id =
        ap (λ n. n % 2 ^ 32) (decimal.names id small) ∙ omega arith in
      let obeyed =
        inject-digits a pos id ds w.machine h lo known (decimal.present id) (decimal.digits id)
          names in
      let sending = λ (cmd : List ℕ) (b : Bool).
        (if b then inject_command p cmd w.machine else some w.machine) >>= λ machine.
        some (record w {
          pi = record w.pi {
            command_id = add32 id 1;
            last_action_time = machine.clock machine.calls;
          };
          machine = record machine { calls = suc machine.calls };
          sent = w.sent ++ (cmd ∷ []);
        }) in
      ap (λ cmd. sending cmd w.pi.has_command) fits
      ∙ (ap (sending (action_to_string a ++ text)) linked ∙ rw obeyed refl)
