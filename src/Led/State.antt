-- ===== src/Led/State.antt =====
-- The positions of src/LedController.cpp: their states, and the LEDs that they stand on.
use hardware.Base.{
  ℕ, Bool, true, false, Option, none, some, List, [], ◌∷◌, leb, if◌then◌else◌, get_or,
}
use hardware.Config.{num_positions}

pub data StripId : Type 0 where
  strip1 strip2 : StripId

pub record LedMapping : Type 0 where
  pub strip : StripId
  pub index : ℕ

pub data PositionState : Type 0 where
  off shown animating expanded blinking : PositionState

pub record PositionData : Type 0 where
  pub state : PositionState
  pub animation_step : ℕ
  pub last_animation_time : ℕ
  pub blink_on : Bool

-- Tests of a state, as the code makes them by `==`.
abbrev pub is_animating : PositionState → Bool
is_animating animating = true
is_animating _ = false

abbrev pub is_expanded : PositionState → Bool
is_expanded expanded = true
is_expanded _ = false

abbrev pub is_shown : PositionState → Bool
is_shown shown = true
is_shown _ = false

abbrev pub is_blinking_state : PositionState → Bool
is_blinking_state blinking = true
is_blinking_state _ = false

abbrev pub dark : PositionData
dark = record { state = off; animation_step = 0; last_animation_time = 0; blink_on = false }

abbrev at1 : ℕ → LedMapping
at1 index = record { strip = strip1; index = index }

abbrev at2 : ℕ → LedMapping
at2 index = record { strip = strip2; index = index }

abbrev pub led_mappings : List LedMapping
led_mappings =
    at1 153
    ∷ at1 165
    ∷ at1 177
    ∷ at2 177
    ∷ at2 165
    ∷ at2 153
    ∷ at1 130
    ∷ at1 118
    ∷ at1 105
    ∷ at1 92
    ∷ at2 105
    ∷ at2 118
    ∷ at2 130
    ∷ at1 55
    ∷ at1 67
    ∷ at1 79
    ∷ at2 79
    ∷ at2 67
    ∷ at2 55
    ∷ at1 34
    ∷ at1 22
    ∷ at1 10
    ∷ at2 10
    ∷ at2 22
    ∷ at2 34
    ∷ []

-- The mapping at a position in range.
abbrev pub mapping_at : ℕ → LedMapping
mapping_at position = get_or led_mappings position (at1 0)

-- `none` is the null pointer.
unfoldable pub get_mapping : ℕ → Option LedMapping
get_mapping position = if leb num_positions position then none else some (mapping_at position)
