-- ===== src/Command/Lexing.antt =====
-- The string utilities of src/CommandController.cpp on the parts of a command line.
use hardware.Base.{
  ℕ, ◌≤◌, ◌≡◌, ◌≢◌, refl, ◌∙◌, true, false, not, ◌||◌, List, [], ◌∷◌, ◌++◌, ◌==◌, length, arith,
}
use hardware.EventQueue.{Env}
use hardware.Command.Actions.{
  CommandAction, show, hide, success, blink, stop_blink, expect_down, expect_up, recalibrate,
  recalibrate_all, scan, sequence_completed, info, ping, invalid, Lexer, action_to_string,
}
use hardware.Command.LexerLaws.{LexerLaws, drop_while}
use hardware.Command.Parse.{is_invalid, strip_prefix}
use hardware.Command.Names.{is_word, action_to_string_word, action_to_string_nonempty, no_prefix}

module _ (env : Env) (lex : Lexer) (laws : LexerLaws lex) where
  pub skip_space : (s : List ℕ) → lex.skip_whitespace (b' ' ∷ s) ≡ lex.skip_whitespace s
  skip_space s = rw (laws.skip (b' ' ∷ s), laws.skip s, laws.blank) refl

  pub skip_word : (c : ℕ) (s : List ℕ) → 33 ≤ c → lex.skip_whitespace (c ∷ s) ≡ c ∷ s
  skip_word c s h = rw (laws.skip (c ∷ s), laws.printable c h) refl

  pub skip_none : lex.skip_whitespace [] ≡ []
  skip_none = laws.skip []

  pub find_token_end_word :
      (w s : List ℕ) → is_word w ≡ true → lex.find_token_end (w ++ (b' ' ∷ s)) ≡ b' ' ∷ s
  find_token_end_word w s h = laws.token_end (w ++ (b' ' ∷ s)) ∙ go w h
    where
      go :
          (w : List ℕ)
          → is_word w ≡ true
          → drop_while (λ c. not (laws.is_space c || c == 0)) (w ++ (b' ' ∷ s)) ≡ b' ' ∷ s
      go [] h = rw laws.blank refl
      go (c ∷ w) h =
          let big : 33 ≤ c = ground arith in
          let more : is_word w ≡ true = ground arith in
          let not_nul : (c == 0) ≡ false = ground arith in
          rw (laws.printable c big, not_nul) (go w more)

  pub skip_name :
      (w s : List ℕ)
      → is_word w ≡ true
      → (length w == 0) ≡ false
      → lex.skip_whitespace (w ++ s) ≡ w ++ s
  skip_name [] s h ne = absurd (ground arith)
  skip_name (c ∷ w) s h ne = skip_word c (w ++ s) (ground arith)

  pub not_invalid : (a : CommandAction) → a ≢ invalid → is_invalid env lex a ≡ false
  not_invalid show h = refl
  not_invalid hide h = refl
  not_invalid success h = refl
  not_invalid blink h = refl
  not_invalid stop_blink h = refl
  not_invalid expect_down h = refl
  not_invalid expect_up h = refl
  not_invalid recalibrate h = refl
  not_invalid recalibrate_all h = refl
  not_invalid scan h = refl
  not_invalid sequence_completed h = refl
  not_invalid info h = refl
  not_invalid ping h = refl
  not_invalid invalid h = absurd (h refl)

  pub strip_prefix_name :
      (a : CommandAction) (s : List ℕ)
      → strip_prefix env lex (action_to_string a ++ s) ≡ action_to_string a ++ s
  strip_prefix_name a s =
      rw
        (
          skip_name (action_to_string a) s (action_to_string_word a) (action_to_string_nonempty a),
          no_prefix a s,
        )
        refl
