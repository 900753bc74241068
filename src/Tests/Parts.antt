-- ===== src/Tests/Parts.antt =====
-- Concrete values of the parameters: an environment, a bus on which every sensor answers, and strips
-- that remember their colours.
use hardware.Base.{
  Bool, ◌||◌, not, take, arith, ◌≤◌, ◌≡◌, false, ℕ, ◌+◌, ◌*◌, refl, [], ◌∷◌, ◌==◌, if◌then◌else◌,
}
use hardware.Base.Words.{codes}
use hardware.Touch.Letters.{letter_to_index}
use hardware.Command.Actions.{Lexer}
use hardware.Command.LexerLaws.{LexerLaws, drop_while, same_letters}
use hardware.Command.Machine.{Parts}
use hardware.EventQueue.{Env}
use hardware.Tests.Decimal.{decimal}
use hardware.Touch.I2c.{Wire}
use hardware.Led.Strip.{NeoPixel, PixelLaws}

abbrev pub env : Env
env = record {
  no_command_id = 2 * 2147483647 + 1;
  decimal = decimal;
  eol = 13 ∷ 10 ∷ [];
  unseen = λ e. codes "...";
}

-- Every transmission succeeds and every register reads as the number that is the bus's state.
abbrev pub wire : Wire
wire = record {
  Bus = ℕ;
  begin_transmission = λ a b. b;
  write = λ v b. b;
  end_transmission = λ s b. (0, b);
  request_from = λ a k b. (1, b);
  read = λ b. (b, b);
  start = λ b. b;
  stop = λ b. b;
  set_clock = λ k b. b;
  pin_mode = λ k v b. b;
  digital_write = λ k v b. b;
}

-- A strip is the function from pixels to colours.
abbrev pub pixels : NeoPixel
pixels = record {
  Strip = ℕ → ℕ;
  Color = ℕ;
  color = λ r g b. r * 65536 + g * 256 + b;
  start = λ s. s;
  set_brightness = λ k s. s;
  set_pixel_color = λ i c s j. if i == j then c else s j;
  clear = λ s j. 0;
  show = λ s. s;
}

-- The documented behaviour of the strips can be met.
abbrev pub pixel_laws : PixelLaws pixels
pixel_laws = record {
  pixel = λ s j. s j;
  pixel-set = λ i c s j h. refl;
  pixel-clear = λ s j. refl;
  pixel-show = λ s j. refl;
}

-- White space is the blank and the tabulator; the utilities walk over the string.
abbrev is_space : ℕ → Bool
is_space c = c == 32 || c == 9

abbrev pub lexer : Lexer
lexer = record {
  skip_whitespace = drop_while is_space;
  find_token_end = drop_while (λ c. not (is_space c || c == 0));
  strcasecmp_n = λ s t n. same_letters (take n s) (take n t);
  char_to_index = λ c. letter_to_index c;
}

pub not_space : (c : ℕ) → 33 ≤ c → is_space c ≡ false
not_space c h = ground arith

abbrev pub lexer_laws : LexerLaws lexer
lexer_laws = record {
  is_space = is_space;
  blank = refl;
  nul = refl;
  printable = not_space;
  skip = λ s. refl;
  token_end = λ s. refl;
  compare_n = λ s t n. refl;
}

abbrev pub parts : Parts
parts = record { env = env; wire = wire; pixels = pixels; lexer = lexer }
