-- ===== src/Led/Strip.antt =====
-- The strips of src/LedController.cpp, and the methods that write single LEDs. The Adafruit NeoPixel
-- library is a parameter: its strip object and the calls that the code makes.
use hardware.Base.{
  ℕ, zero, suc, ◌+◌, ◌<◌, ◌≡◌, Bool, true, false, ◌&&◌, List, ltb, ◌==◌, if◌then◌else◌,
}
use hardware.Base.Int.{ℤ, pos, negsuc, sub_ℕ}
use hardware.Config.{num_leds_strip1, num_leds_strip2, success_expansion_radius}
use hardware.Led.State.{StripId, strip1, strip2, LedMapping, PositionData}

pub record NeoPixel : Type 1 where
  pub Strip : Type 0
  pub Color : Type 0
  pub color : ℕ → ℕ → ℕ → Color
  pub start : Strip → Strip
  pub set_brightness : ℕ → Strip → Strip
  pub set_pixel_color : ℕ → Color → Strip → Strip
  pub clear : Strip → Strip
  pub show : Strip → Strip

-- What the library documents: a pixel keeps the colour last written to it, `clear` turns every pixel
-- off, and the other calls leave the colours alone.
pub record PixelLaws (n : NeoPixel) : Type 0 where
  pub pixel : n.Strip → ℕ → n.Color
  pub pixel-set :
      (i : ℕ) (c : n.Color) (s : n.Strip) (j : ℕ)
      → i < 190
      → pixel (n.set_pixel_color i c s) j ≡ (if i == j then c else pixel s j)
  pub pixel-clear : (s : n.Strip) (j : ℕ) → pixel (n.clear s) j ≡ n.color 0 0 0
  pub pixel-show : (s : n.Strip) (j : ℕ) → pixel (n.show s) j ≡ pixel s j

-- index >= 0
abbrev pub is_nonneg : ℤ → Bool
is_nonneg (pos _) = true
is_nonneg (negsuc _) = false

-- index < n, at a length
abbrev pub is_below : ℤ → ℕ → Bool
is_below (pos i) n = ltb i n
is_below (negsuc _) n = true

abbrev pub get_strip_length : StripId → ℕ
get_strip_length strip1 = num_leds_strip1
get_strip_length strip2 = num_leds_strip2

module _ (n : NeoPixel) where
  open n use {Strip, Color, color, set_pixel_color}

  pub record LedController : Type 0 where
    pub strip1 : Strip
    pub strip2 : Strip
    pub positions : List PositionData
    pub sequence_anim_active : Bool
    pub sequence_anim_step : ℕ
    pub sequence_anim_last_time : ℕ
    pub needs_update : Bool

  -- The object behind the pointer that `getStrip` returns, and a write through it.
  abbrev pub get_strip : StripId → LedController → Strip
  get_strip StripId.strip1 l = l.strip1
  get_strip StripId.strip2 l = l.strip2

  abbrev pub put_strip : StripId → Strip → LedController → LedController
  put_strip StripId.strip1 s l = record l { strip1 = s }
  put_strip StripId.strip2 s l = record l { strip2 = s }

  abbrev pub blue : Color
  blue = color 0 0 255

  abbrev pub green : Color
  green = color 0 255 0

  abbrev pub orange : Color
  orange = color 255 100 0

  abbrev pub black : Color
  black = color 0 0 0

  unfoldable pub set_led : StripId → ℤ → Color → LedController → LedController
  set_led strip (negsuc k) c l = l
  set_led strip (pos index) c l =
      if ltb index (get_strip_length strip)
      then put_strip strip (set_pixel_color index c (get_strip strip l)) l
      else l

  -- A write under a test of the caller.
  unfoldable pub set_led_if : Bool → StripId → ℤ → Color → LedController → LedController
  set_led_if test strip index c l = if test then set_led strip index c l else l

  -- The loop of `clearExpandedRegion`: the offset is k - SUCCESS_EXPANSION_RADIUS.
  unfoldable pub clear_from : ℕ → ℕ → LedMapping → LedController → LedController
  clear_from zero k m l = l
  clear_from (suc rounds) k m l =
      let idx = sub_ℕ (m.index + k) success_expansion_radius in
      clear_from rounds (k + 1) m
        (set_led_if (is_nonneg idx && is_below idx (get_strip_length m.strip)) m.strip idx black l)

  unfoldable pub clear_expanded_region : LedMapping → LedController → LedController
  unfolding clear_from
  clear_expanded_region m l = clear_from 11 0 m l

  -- for (r = 1; r <= radius; r++): the LEDs at distance r from the centre
  unfoldable pub light_from : ℕ → ℕ → LedMapping → LedController → LedController
  light_from zero r m l = l
  light_from (suc rounds) r m l =
      let left = sub_ℕ m.index r in
      let right = pos (m.index + r) in
      light_from rounds (r + 1) m (
        set_led_if (is_below right (get_strip_length m.strip)) m.strip right green
          (set_led_if (is_nonneg left) m.strip left green l))

  unfoldable pub light_region : ℕ → LedMapping → LedController → LedController
  unfolding light_from
  light_region radius m l = light_from radius 1 m (set_led m.strip (pos m.index) green l)
