-- ===== src/Command/LexerLaws.antt =====
-- The documented behaviour of the string utilities of src/CommandController.cpp, which are cut off.
use hardware.Base.{
  ℕ, ◌-◌, ◌≤◌, ◌≡◌, ◌≢◌, refl, ap, ◌∙◌, Bool, true, false, not, ◌&&◌, ◌||◌, List, [], ◌∷◌, ◌++◌,
  leb, ◌==◌, if◌then◌else◌, length, take,
}
use hardware.Command.Actions.{
  CommandAction, invalid, show, hide, success, blink, stop_blink, expect_down, expect_up,
  recalibrate, recalibrate_all, scan, sequence_completed, info, ping, Lexer, parse_action,
  action_to_string,
}
use mathlib.Core.Path.{fun_ext}

-- The string from its first character on that fails the test.
abbrev pub drop_while : (ℕ → Bool) → List ℕ → List ℕ
drop_while f [] = []
drop_while f (c ∷ cs) = let rest = drop_while f cs in if f c then rest else c ∷ cs

abbrev pub upper : ℕ → ℕ
upper c = if leb b'a' c && leb c b'z' then c - 32 else c

-- Are two strings the same but for the case of their letters?
abbrev pub same_letters : List ℕ → List ℕ → Bool
same_letters [] [] = true
same_letters [] (d ∷ ds) = false
same_letters (c ∷ cs) [] = false
same_letters (c ∷ cs) (d ∷ ds) = upper c == upper d && same_letters cs ds

-- Which characters are white space is left open, but for the blank, for NUL and for the printable
-- characters.
pub record LexerLaws (lex : Lexer) : Type 0 where
  pub is_space : ℕ → Bool
  pub blank : is_space b' ' ≡ true
  pub nul : is_space 0 ≡ false
  pub printable : (c : ℕ) → 33 ≤ c → is_space c ≡ false
  pub skip : (s : List ℕ) → lex.skip_whitespace s ≡ drop_while is_space s
  pub token_end :
      (s : List ℕ) → lex.find_token_end s ≡ drop_while (λ c. not (is_space c || c == 0)) s
  pub compare_n :
      (s t : List ℕ) (n : ℕ) → lex.strcasecmp_n s t n ≡ same_letters (take n s) (take n t)

-- A lexer whose comparison is the documented one.
abbrev comparing : Lexer → Lexer
comparing lex = record lex { strcasecmp_n = λ s t n. same_letters (take n s) (take n t) }

names_back :
    (lex : Lexer) (a : CommandAction) (rest : List ℕ)
    → a ≢ invalid
    → parse_action (comparing lex) (action_to_string a ++ rest) (length (action_to_string a)) ≡ a
unfolding parse_action action_to_string
names_back lex show rest h = refl
names_back lex hide rest h = refl
names_back lex success rest h = refl
names_back lex blink rest h = refl
names_back lex stop_blink rest h = refl
names_back lex expect_down rest h = refl
names_back lex expect_up rest h = refl
names_back lex recalibrate rest h = refl
names_back lex recalibrate_all rest h = refl
names_back lex scan rest h = refl
names_back lex sequence_completed rest h = refl
names_back lex info rest h = refl
names_back lex ping rest h = refl
names_back lex invalid rest h = absurd (h refl)

module _ (lex : Lexer) (laws : LexerLaws lex) where
  parse_action-comparing :
      (s : List ℕ) (n : ℕ) → parse_action lex s n ≡ parse_action (comparing lex) s n
  parse_action-comparing s n =
      ap (λ f. parse_action (record lex { strcasecmp_n = f }) s n)
        (fun_ext (λ s. fun_ext (λ t. fun_ext (λ k. laws.compare_n s t k))))

  -- The names of the actions are read back as the actions that they name.
  pub parse_action-action_to_string :
      (a : CommandAction) (rest : List ℕ)
      → a ≢ invalid
      → parse_action lex (action_to_string a ++ rest) (length (action_to_string a)) ≡ a
  parse_action-action_to_string a rest h =
      parse_action-comparing (action_to_string a ++ rest) (length (action_to_string a))
      ∙ names_back lex a rest h
