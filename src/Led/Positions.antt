-- ===== src/Led/Positions.antt =====
-- What the operations of src/LedController.cpp do to the positions' data, whatever the strips.
use hardware.Base.{
  ℕ, ◌+◌, ◌<◌, ◌≤◌, ◌≡◌, refl, sym, ap, ap₂, subst, ◌∙◌, true, false, not, ◌&&◌, List, [], ◌∷◌,
  ◌++◌, leb, if◌then◌else◌, get_or, set, map, length, get_or-append, set-append, set-get_or, arith,
  append_assoc, length-append, length-map, map-map, Bool-cases, inl, inr, le→leb, false,
}
use hardware.Base.Int.{ℤ}
use hardware.Base.Words.{sub32}
use hardware.Led.State.{
  StripId, LedMapping, off, shown, animating, blinking, PositionData, is_animating,
  is_blinking_state, dark,
}
use hardware.Led.Strip.{NeoPixel, LedController, set_led, clear_expanded_region}
use hardware.Led.Blind.{
  get_mapping_in, blind-set_led, blind-clear, blind-clear_if_lit, blind-clear_before_success,
  blind-render,
}
use hardware.Led.Controller.{
  data_at, put_data, clear_if_lit, clear_before_success, show, hide, blink, stop_blink, success,
}
use hardware.Led.Update.{
  advance, render_position, update_animation, animate_one, for_from, blink_one, update_blinking,
  push_leds,
}

-- The data after each command, and after a look at the clock.
abbrev pub on_show : PositionData → PositionData
on_show d = record d { state = shown; animation_step = 0 }

abbrev pub on_hide : PositionData → PositionData
on_hide d = record d { state = off; animation_step = 0; blink_on = false }

abbrev pub on_blink : ℕ → PositionData → PositionData
on_blink now d = record {
  state = blinking;
  animation_step = 0;
  last_animation_time = now;
  blink_on = true;
}

abbrev pub on_stop_blink : PositionData → PositionData
on_stop_blink d = if is_blinking_state d.state then on_hide d else d

abbrev pub on_success : ℕ → PositionData → PositionData
on_success now d = record d { state = animating; animation_step = 0; last_animation_time = now }

abbrev pub on_animate : ℕ → PositionData → PositionData
on_animate now d =
    if is_animating d.state && leb 80 (sub32 now d.last_animation_time) then advance now d else d

abbrev pub on_blink_tick : ℕ → PositionData → PositionData
on_blink_tick now d =
    if is_blinking_state d.state && leb 150 (sub32 now d.last_animation_time)
    then record d { blink_on = not d.blink_on; last_animation_time = now }
    else d

-- What `update` does to the data, while no celebration runs.
abbrev pub on_update : ℕ → PositionData → PositionData
on_update now d = on_blink_tick now (on_animate now d)

module _ (n : NeoPixel) where
  abbrev data_of : LedController n → List PositionData
  data_of l = l.positions

  pub positions-set_led :
      (s : StripId) (i : ℤ) (c : n.Color) (l : LedController n)
      → (set_led n s i c l).positions ≡ l.positions
  positions-set_led = blind-set_led n data_of (λ s l. refl) (λ s l. refl)

  pub positions-clear :
      (m : LedMapping) (l : LedController n) → (clear_expanded_region n m l).positions ≡ l.positions
  positions-clear = blind-clear n data_of (λ s l. refl) (λ s l. refl)

  pub positions-clear_if_lit :
      (i : ℕ) (m : LedMapping) (l : LedController n)
      → (clear_if_lit n i m l).positions ≡ l.positions
  positions-clear_if_lit = blind-clear_if_lit n data_of (λ s l. refl) (λ s l. refl)

  pub positions-clear_before_success :
      (i : ℕ) (m : LedMapping) (l : LedController n)
      → (clear_before_success n i m l).positions ≡ l.positions
  positions-clear_before_success = blind-clear_before_success n data_of (λ s l. refl) (λ s l. refl)

  pub positions-render :
      (l : LedController n) (i : ℕ) → (render_position n l i).positions ≡ l.positions
  positions-render = blind-render n data_of (λ s l. refl) (λ s l. refl)

  -- The commands at a position in range answer true, and change the data there alone.
  module _ (l : LedController n) (i : ℕ) (h : i < 25) where
    not_out : leb 25 i ≡ false
    not_out = ground arith

    pub positions-show :
        ((show n l i).0 ≡ true)
        × ((show n l i).1.positions ≡ set l.positions i (on_show (data_at n l i)))
    unfolding show
    positions-show =
        rw (not_out, get_mapping_in i h) (refl, simp (positions-set_led, positions-clear_if_lit))

    pub positions-hide :
        ((hide n l i).0 ≡ true)
        × ((hide n l i).1.positions ≡ set l.positions i (on_hide (data_at n l i)))
    unfolding hide
    positions-hide = rw (not_out, get_mapping_in i h) (refl, simp positions-clear)

    pub positions-blink :
        (now : ℕ)
        → ((blink n now l i).0 ≡ true)
          × ((blink n now l i).1.positions ≡ set l.positions i (on_blink now (data_at n l i)))
    unfolding blink
    positions-blink now =
        rw (not_out, get_mapping_in i h) (refl, simp (positions-set_led, positions-clear_if_lit))

    pub positions-stop_blink :
        ((stop_blink n l i).0 ≡ true)
        × ((stop_blink n l i).1.positions ≡ set l.positions i (on_stop_blink (data_at n l i)))
    unfolding stop_blink
    positions-stop_blink = elim (Bool-cases (is_blinking_state (data_at n l i).state)) [
      | inl yes_blinks ↦ rw (not_out, yes_blinks, get_mapping_in i h) (refl, simp positions-set_led)
      | inr not_blinks ↦ rw (not_out, not_blinks) (refl, sym (set-get_or l.positions i dark))
    ]

    pub positions-success :
        (now : ℕ)
        → ((success n now l i).0 ≡ true)
          × ((success n now l i).1.positions ≡ set l.positions i (on_success now (data_at n l i)))
    unfolding success
    positions-success now =
        rw (not_out, get_mapping_in i h)
          (refl, simp (positions-set_led, positions-clear_before_success))

    pub positions-animate_one :
        (now : ℕ)
        → (animate_one n now l i).positions ≡ set l.positions i (on_animate now (data_at n l i))
    unfolding animate_one update_animation
    positions-animate_one now = ground (
      arith,
      get_mapping_in i h,
      positions-render (put_data n i (advance now (data_at n l i)) l) i,
      set-get_or l.positions i dark,
    )

    pub positions-blink_one :
        (now : ℕ)
        → (blink_one n now l i).positions ≡ set l.positions i (on_blink_tick now (data_at n l i))
    unfolding blink_one
    positions-blink_one now =
        let d = data_at n l i in
        ground (
          arith,
          positions-render
              (put_data n i (record d { blink_on = not d.blink_on; last_animation_time = now }) l)
              i,
          set-get_or l.positions i dark,
        )

  -- A position out of range is refused by every command, and nothing changes.
  pub refuse_out_of_range :
      (l : LedController n) (i now : ℕ)
      → 25 ≤ i
      → (show n l i ≡ (false, l))
        × (hide n l i ≡ (false, l))
        × (blink n now l i ≡ (false, l))
        × (stop_blink n l i ≡ (false, l))
        × (success n now l i ≡ (false, l))
  unfolding show hide blink stop_blink success
  refuse_out_of_range l i now h =
      let out : leb 25 i ≡ true = le→leb 25 i h in (rw out, rw out, rw out, rw out, rw out)

  -- A loop whose body changes the data of its own position by `f` applies `f` to all of them.
  module _ (body : LedController n → ℕ → LedController n) (f : PositionData → PositionData)
      (one : (l : LedController n) (i : ℕ)
        → i < 25
        → (body l i).positions ≡ set l.positions i (f (data_at n l i))) where
    -- From the index after `pre` on.
    positions-for_from :
        (pre ds : List PositionData) (l : LedController n)
        → l.positions ≡ pre ++ ds
        → length pre + length ds ≤ 25
        → (for_from n (length ds) (length pre) body l).positions ≡ pre ++ map f ds
    unfolding for_from
    positions-for_from pre [] l e h = e
    positions-for_from pre (d ∷ ds) l e h =
        let k = length pre in
        let at_k : data_at n l k ≡ d =
          ap (λ xs. get_or xs k dark) e ∙ get_or-append pre d ds dark in
        let done : (body l k).positions ≡ pre ++ (f d ∷ ds) =
          one l k (omega arith)
          ∙ (ap₂ (λ xs x. set xs k (f x)) e at_k ∙ set-append pre d ds (f d)) in
        let len : length (pre ++ (f d ∷ [])) ≡ k + 1 = length-append pre (f d ∷ []) in
        let ih =
          positions-for_from (pre ++ (f d ∷ [])) ds (body l k)
            (done ∙ sym (append_assoc pre (f d ∷ []) ds)) (omega (arith, len)) in
        subst (λ j. (for_from n (length ds) j body (body l k)).positions ≡ pre ++ (f d ∷ map f ds))
          len (ih ∙ append_assoc pre (f d ∷ []) (map f ds))

    positions-for_all :
        (l : LedController n)
        → length l.positions ≡ 25
        → (for_from n 25 0 body l).positions ≡ map f l.positions
    positions-for_all l h =
        subst (λ k. (for_from n k 0 body l).positions ≡ map f l.positions) h
          (positions-for_from [] l.positions l refl (omega arith))

  pub positions-push_leds : (l : LedController n) → (push_leds n l).positions ≡ l.positions
  unfolding push_leds
  positions-push_leds l = ground arith

  pub positions-loops :
      (now : ℕ) (l : LedController n)
      → length l.positions ≡ 25
      → (update_blinking n now (for_from n 25 0 (animate_one n now) l)).positions
        ≡ map (on_update now) l.positions
  unfolding update_blinking
  positions-loops now l h =
      let l₁ = for_from n 25 0 (animate_one n now) l in
      let first : l₁.positions ≡ map (on_animate now) l.positions =
        positions-for_all (animate_one n now) (on_animate now)
          (λ l i lt. positions-animate_one l i lt now) l h in
      positions-for_all (blink_one n now) (on_blink_tick now)
        (λ l i lt. positions-blink_one l i lt now) l₁
        (ap length first ∙ (length-map (on_animate now) l.positions ∙ h))
      ∙ (ap (map (on_blink_tick now)) first
          ∙ map-map (on_blink_tick now) (on_animate now) l.positions)
