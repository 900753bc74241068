-- ===== src/Led/Update.antt =====
-- The animations of src/LedController.cpp: rendering, the SUCCESS expansion, blinking, the
-- SEQUENCE_COMPLETED celebration, and `update`, which runs them.
use hardware.Base.{
  ℕ, zero, suc, ◌+◌, ◌*◌, ◌/◌, ◌%◌, Bool, true, false, not, List, [], ◌∷◌, none, some, ltb, leb,
  ◌==◌, if◌then◌else◌,
}
use hardware.Base.Int.{pos}
use hardware.Base.Words.{add8, sub32}
use hardware.Config.{
  num_positions, num_leds_strip1, num_leds_strip2, animation_step_ms, success_expansion_radius,
}
use hardware.Led.State.{
  LedMapping, PositionState, off, shown, animating, expanded, blinking, PositionData, is_animating,
  is_blinking_state, get_mapping,
}
use hardware.Led.Strip.{NeoPixel, LedController, black, blue, green, orange, set_led, light_region}
use hardware.Led.Controller.{data_at, put_data, mark}

abbrev pub sequence_anim_total_steps : ℕ
sequence_anim_total_steps = 8

abbrev pub sequence_step_duration : ℕ
sequence_step_duration = 150

abbrev pub blink_interval_ms : ℕ
blink_interval_ms = 150

-- for (i = 0; i < NUM_POSITIONS; i++): state = OFF, animationStep = 0
unfoldable pub reset_all : List PositionData → List PositionData
reset_all [] = []
reset_all (d ∷ ds) = record d { state = off; animation_step = 0 } ∷ reset_all ds

-- The data of an expanding position after a step that is due.
unfoldable pub advance : ℕ → PositionData → PositionData
advance now d =
    let step = add8 d.animation_step 1 in
    if leb success_expansion_radius step
    then record d {
      state = expanded;
      animation_step = success_expansion_radius;
      last_animation_time = now;
    }
    else record d { animation_step = step; last_animation_time = now }

module _ (n : NeoPixel) where
  -- The `switch` of `renderPosition`.
  unfoldable pub render_state :
      PositionState → PositionData → LedMapping → LedController n → LedController n
  render_state off d m l = l
  render_state shown d m l = set_led n m.strip (pos m.index) (blue n) l
  render_state blinking d m l =
      set_led n m.strip (pos m.index) (if d.blink_on then orange n else black n) l
  render_state animating d m l = light_region n d.animation_step m l
  render_state expanded d m l = light_region n d.animation_step m l

  unfoldable pub render_position : LedController n → ℕ → LedController n
  unfolding render_state
  render_position l position =
      if leb num_positions position then l else elim (get_mapping position) [
        | none ↦ l
        | some m ↦ let d = data_at n l position in render_state d.state d m l
      ]

  unfoldable pub update_animation : ℕ → LedController n → ℕ → LedController n
  update_animation now l position =
      let d = data_at n l position in
      if ltb (sub32 now d.last_animation_time) animation_step_ms
      then l
      else elim (get_mapping position) [
        | none ↦ l
        | some m ↦ mark n (render_position (put_data n position (advance now d) l) position)
      ]

  -- for (i = 0; i < NUM_POSITIONS; i++): the loops of this class over its positions
  unfoldable pub for_from :
      ℕ → ℕ → (LedController n → ℕ → LedController n) → LedController n → LedController n
  for_from zero i body l = l
  for_from (suc rounds) i body l = for_from rounds (i + 1) body (body l i)

  -- The loop body of `update`: if (state == ANIMATING) updateAnimation(i)
  unfoldable pub animate_one : ℕ → LedController n → ℕ → LedController n
  animate_one now l i = if is_animating (data_at n l i).state then update_animation now l i else l

  -- The loop body of `updateBlinking`.
  unfoldable pub blink_one : ℕ → LedController n → ℕ → LedController n
  blink_one now l i =
      let d = data_at n l i in
      let d' = record d { blink_on = not d.blink_on; last_animation_time = now } in
      if is_blinking_state d.state
      then (if leb blink_interval_ms (sub32 now d.last_animation_time)
          then mark n (render_position (put_data n i d' l) i)
          else l)
      else l

  unfoldable pub update_blinking : ℕ → LedController n → LedController n
  update_blinking now l = for_from num_positions 0 (blink_one now) l

  -- for (i = 0; i < count; i++) strip.setPixelColor(i, c)
  unfoldable pub fill_from : ℕ → ℕ → n.Color → n.Strip → n.Strip
  fill_from zero i c s = s
  fill_from (suc rounds) i c s = fill_from rounds (i + 1) c (n.set_pixel_color i c s)

  unfoldable pub fill_both : n.Color → LedController n → LedController n
  fill_both c l = record l {
    strip1 = fill_from num_leds_strip1 0 c l.strip1;
    strip2 = fill_from num_leds_strip2 0 c l.strip2;
    needs_update = true;
  }

  unfoldable pub start_sequence_completed_animation : ℕ → LedController n → LedController n
  start_sequence_completed_animation now l = fill_both (green n) (record l {
    sequence_anim_active = true;
    sequence_anim_step = 0;
    sequence_anim_last_time = now;
  })

  unfoldable pub is_sequence_completed_animation_complete : LedController n → Bool
  is_sequence_completed_animation_complete l = not l.sequence_anim_active

  -- COLOR_SUCCESS scaled by the brightness.
  unfoldable pub pulse : ℕ → n.Color
  pulse step =
      let brightness : ℕ = if step % 2 == 0 then 255 else 64 in
      n.color (0 * brightness / 255) (255 * brightness / 255) (0 * brightness / 255)

  unfoldable pub update_sequence_completed_animation : ℕ → LedController n → LedController n
  unfolding reset_all
  update_sequence_completed_animation now l =
      let step = add8 l.sequence_anim_step 1 in
      let l₁ = record l { sequence_anim_step = step; sequence_anim_last_time = now } in
      if ltb (sub32 now l.sequence_anim_last_time) sequence_step_duration
      then l
      else if ltb step sequence_anim_total_steps
      then fill_both (pulse step) l₁
      else record l₁ {
        strip1 = n.clear l.strip1;
        strip2 = n.clear l.strip2;
        needs_update = true;
        positions = reset_all l.positions;
        sequence_anim_active = false;
      }

  unfoldable pub push_leds : LedController n → LedController n
  push_leds l =
      if l.needs_update
      then record l { strip1 = n.show l.strip1; strip2 = n.show l.strip2; needs_update = false }
      else l

  unfoldable pub update : ℕ → LedController n → LedController n
  update now l =
      let l₁ = update_blinking now (for_from num_positions 0 (animate_one now) l) in
      push_leds (if l₁.sequence_anim_active then update_sequence_completed_animation now l₁ else l₁)

  -- `tick` is `update` at the time that `millis()` returns.
  unfoldable pub tick : ℕ → LedController n → LedController n
  tick now l = update now l
