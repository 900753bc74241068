-- ===== src/Command/Actions.antt =====
-- The actions of src/CommandController.cpp and their names.
use hardware.Base.{ℕ, Bool, true, false, ◌&&◌, List, length, ◌==◌, if◌then◌else◌}
use hardware.Base.Words.{codes}

pub data CommandAction : Type 0 where
  invalid show hide success blink stop_blink expect_down expect_up : CommandAction
  recalibrate recalibrate_all scan sequence_completed info ping : CommandAction

unfoldable pub action_to_string : CommandAction → List ℕ
action_to_string show = codes "SHOW"
action_to_string hide = codes "HIDE"
action_to_string success = codes "SUCCESS"
action_to_string blink = codes "BLINK"
action_to_string stop_blink = codes "STOP_BLINK"
action_to_string expect_down = codes "EXPECT_DOWN"
action_to_string expect_up = codes "EXPECT_UP"
action_to_string recalibrate = codes "RECALIBRATE"
action_to_string recalibrate_all = codes "RECALIBRATE_ALL"
action_to_string scan = codes "SCAN"
action_to_string sequence_completed = codes "SEQUENCE_COMPLETED"
action_to_string info = codes "INFO"
action_to_string ping = codes "PING"
action_to_string invalid = codes "UNKNOWN"

unfoldable pub action_requires_position : CommandAction → Bool
action_requires_position show = true
action_requires_position hide = true
action_requires_position success = true
action_requires_position blink = true
action_requires_position stop_blink = true
action_requires_position expect_down = true
action_requires_position expect_up = true
action_requires_position recalibrate = true
action_requires_position _ = false

unfoldable pub action_is_long_running : CommandAction → Bool
action_is_long_running success = true
action_is_long_running scan = true
action_is_long_running recalibrate_all = true
action_is_long_running sequence_completed = true
action_is_long_running _ = false

-- The string utilities of the class. A pointer into a string is the rest of the string from there on.
pub record Lexer : Type 0 where
  pub skip_whitespace : List ℕ → List ℕ
  pub find_token_end : List ℕ → List ℕ
  pub strcasecmp_n : List ℕ → List ℕ → ℕ → Bool
  pub char_to_index : ℕ → ℕ

module _ (lex : Lexer) where
  abbrev is_word : List ℕ → ℕ → List ℕ → Bool
  is_word str len word = len == length word && lex.strcasecmp_n str word (length word)

  unfoldable pub parse_action : List ℕ → ℕ → CommandAction
  parse_action str len =
      if is_word str len (codes "SHOW")
      then show
      else if is_word str len (codes "HIDE")
      then hide
      else if is_word str len (codes "SUCCESS")
      then success
      else if is_word str len (codes "BLINK")
      then blink
      else if is_word str len (codes "STOP_BLINK")
      then stop_blink
      else if is_word str len (codes "EXPECT_DOWN")
      then expect_down
      else if is_word str len (codes "EXPECT_UP")
      then expect_up
      else if is_word str len (codes "RECALIBRATE")
      then recalibrate
      else if is_word str len (codes "RECALIBRATE_ALL")
      then recalibrate_all
      else if is_word str len (codes "SCAN")
      then scan
      else if is_word str len (codes "SEQUENCE_COMPLETED")
      then sequence_completed
      else if is_word str len (codes "INFO")
      then info
      else if is_word str len (codes "PING")
      then ping
      else invalid
