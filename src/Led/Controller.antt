-- ===== src/Led/Controller.antt =====
-- The commands of src/LedController.cpp at a position. `now` is what `millis()` returns.
use hardware.Base.{
  ℕ, Bool, true, false, not, ◌||◌, List, [], ◌∷◌, none, some, leb, if◌then◌else◌, get_or, set,
  replicate,
}
use hardware.Base.Int.{pos}
use hardware.Config.{num_positions}
use hardware.Led.State.{
  LedMapping, off, shown, animating, blinking, PositionData, is_animating, is_expanded, is_shown,
  is_blinking_state, dark, get_mapping,
}
use hardware.Led.Strip.{
  NeoPixel, LedController, black, blue, green, orange, set_led, clear_expanded_region,
}

module _ (n : NeoPixel) where
  abbrev pub data_at : LedController n → ℕ → PositionData
  data_at l position = get_or l.positions position dark

  abbrev pub put_data : ℕ → PositionData → LedController n → LedController n
  put_data position d l = record l { positions = set l.positions position d }

  -- m_needsUpdate = true
  abbrev pub mark : LedController n → LedController n
  mark l = record l { needs_update = true }

  -- An expanded or expanding region is cleared before another command takes the position.
  unfoldable pub clear_if_lit : ℕ → LedMapping → LedController n → LedController n
  clear_if_lit position m l =
      let state = (data_at l position).state in
      if is_animating state || is_expanded state then clear_expanded_region n m l else l

  unfoldable pub show : LedController n → ℕ → Bool × LedController n
  show l position = if leb num_positions position then (false, l) else elim (get_mapping position) [
    | none ↦ (false, l)
    | some m ↦
        let l₁ = clear_if_lit position m l in
        let d = record (data_at l₁ position) { state = shown; animation_step = 0 } in
        (true, mark (set_led n m.strip (pos m.index) (blue n) (put_data position d l₁)))
  ]

  unfoldable pub hide : LedController n → ℕ → Bool × LedController n
  hide l position = if leb num_positions position then (false, l) else elim (get_mapping position) [
    | none ↦ (false, l)
    | some m ↦
        let l₁ = clear_expanded_region n m l in
        let d = record (data_at l₁ position) {
          state = off;
          animation_step = 0;
          blink_on = false;
        } in
        (true, mark (put_data position d l₁))
  ]

  unfoldable pub blink : ℕ → LedController n → ℕ → Bool × LedController n
  blink now l position =
      if leb num_positions position then (false, l) else elim (get_mapping position) [
        | none ↦ (false, l)
        | some m ↦
            let l₁ = clear_if_lit position m l in
            let d : PositionData = record {
              state = blinking;
              animation_step = 0;
              last_animation_time = now;
              blink_on = true;
            } in
            (true, mark (set_led n m.strip (pos m.index) (orange n) (put_data position d l₁)))
      ]

  unfoldable pub stop_blink : LedController n → ℕ → Bool × LedController n
  stop_blink l position =
      if leb num_positions position
      then (false, l)
      else if not (is_blinking_state (data_at l position).state)
      then (true, l)
      else elim (get_mapping position) [
        | none ↦ (false, l)
        | some m ↦
            let l₁ = set_led n m.strip (pos m.index) (black n) l in
            let d = record (data_at l₁ position) {
              state = off;
              animation_step = 0;
              blink_on = false;
            } in
            (true, mark (put_data position d l₁))
      ]

  unfoldable pub is_blinking : LedController n → ℕ → Bool
  is_blinking l position =
      if leb num_positions position then false else is_blinking_state (data_at l position).state

  -- The same for `success`, which also clears a single shown LED.
  unfoldable pub clear_before_success : ℕ → LedMapping → LedController n → LedController n
  clear_before_success position m l =
      let state = (data_at l position).state in
      if is_animating state || is_expanded state
      then clear_expanded_region n m l
      else (if is_shown state then set_led n m.strip (pos m.index) (black n) l else l)

  unfoldable pub success : ℕ → LedController n → ℕ → Bool × LedController n
  success now l position =
      if leb num_positions position then (false, l) else elim (get_mapping position) [
        | none ↦ (false, l)
        | some m ↦
            let l₁ = clear_before_success position m l in
            let d = record (data_at l₁ position) {
              state = animating;
              animation_step = 0;
              last_animation_time = now;
            } in
            (true, mark (set_led n m.strip (pos m.index) (green n) (put_data position d l₁)))
      ]

  unfoldable pub is_animation_complete : LedController n → ℕ → Bool
  is_animation_complete l position =
      if leb num_positions position then true else not (is_animating (data_at l position).state)

  -- for (i = 0; i < NUM_POSITIONS; i++) if (m_positions[i].state == ANIMATING) return true
  any_animating : List PositionData → Bool
  any_animating [] = false
  any_animating (d ∷ ds) = is_animating d.state || any_animating ds

  unfoldable pub has_active_animations : LedController n → Bool
  unfolding any_animating
  has_active_animations l = any_animating l.positions

  -- `begin`: both strips started, dimmed, cleared and shown, every position dark.
  unfoldable pub begin : LedController n → LedController n
  begin l =
      let fresh = λ (s : n.Strip). n.show (n.clear (n.set_brightness 128 (n.start s))) in
      record {
        strip1 = fresh l.strip1;
        strip2 = fresh l.strip2;
        positions = replicate num_positions dark;
        sequence_anim_active = false;
        sequence_anim_step = 0;
        sequence_anim_last_time = 0;
        needs_update = false;
      }
