-- ===== src/Command/Names.antt =====
-- The names of the actions of src/CommandController.cpp as words of a command line.
use hardware.Base.{ℕ, ◌≡◌, refl, Bool, true, false, ◌&&◌, List, [], ◌∷◌, ◌++◌, leb, ◌==◌, length}
use hardware.Base.Words.{codes}
use hardware.Command.Actions.{
  CommandAction, show, hide, success, blink, stop_blink, expect_down, expect_up, recalibrate,
  recalibrate_all, scan, sequence_completed, info, ping, invalid, action_to_string,
}
use hardware.Command.Parse.{has_prefix}

-- A word: characters that are no white space.
abbrev pub is_word : List ℕ → Bool
is_word [] = true
is_word (c ∷ cs) = leb 33 c && is_word cs

pub action_to_string_word : (a : CommandAction) → is_word (action_to_string a) ≡ true
unfolding action_to_string
action_to_string_word show = refl
action_to_string_word hide = refl
action_to_string_word success = refl
action_to_string_word blink = refl
action_to_string_word stop_blink = refl
action_to_string_word expect_down = refl
action_to_string_word expect_up = refl
action_to_string_word recalibrate = refl
action_to_string_word recalibrate_all = refl
action_to_string_word scan = refl
action_to_string_word sequence_completed = refl
action_to_string_word info = refl
action_to_string_word ping = refl
action_to_string_word invalid = refl

pub action_to_string_nonempty : (a : CommandAction) → (length (action_to_string a) == 0) ≡ false
unfolding action_to_string
action_to_string_nonempty show = refl
action_to_string_nonempty hide = refl
action_to_string_nonempty success = refl
action_to_string_nonempty blink = refl
action_to_string_nonempty stop_blink = refl
action_to_string_nonempty expect_down = refl
action_to_string_nonempty expect_up = refl
action_to_string_nonempty recalibrate = refl
action_to_string_nonempty recalibrate_all = refl
action_to_string_nonempty scan = refl
action_to_string_nonempty sequence_completed = refl
action_to_string_nonempty info = refl
action_to_string_nonempty ping = refl
action_to_string_nonempty invalid = refl

-- No action begins as the prefix of the Pi does.
pub no_prefix :
    (a : CommandAction) (s : List ℕ) → has_prefix (codes "PI>") (action_to_string a ++ s) ≡ false
unfolding action_to_string has_prefix
no_prefix show s = refl
no_prefix hide s = refl
no_prefix success s = refl
no_prefix blink s = refl
no_prefix stop_blink s = refl
no_prefix expect_down s = refl
no_prefix expect_up s = refl
no_prefix recalibrate s = refl
no_prefix recalibrate_all s = refl
no_prefix scan s = refl
no_prefix sequence_completed s = refl
no_prefix info s = refl
no_prefix ping s = refl
no_prefix invalid s = refl
