-- ===== src/Led/Display.antt =====
-- What the strips of src/LedController.cpp show after any calls: unless a celebration runs, each
-- position's region shows what the position's state says.
use hardware.Base.{
  ℕ, ◌<◌, ◌≡◌, refl, Bool, true, false, ◌||◌, leb, ◌==◌, if◌then◌else◌, length, arith, Bool-cases,
  inl, inr,
}
use hardware.Base.Int.{pos}
use hardware.Led.State.{
  LedMapping, PositionState, off, shown, animating, expanded, blinking, PositionData, is_animating,
  is_expanded, is_blinking_state, mapping_at,
}
use hardware.Led.Strip.{
  NeoPixel, PixelLaws, LedController, blue, green, orange, black, set_led, clear_expanded_region,
}
use hardware.Led.Controller.{
  data_at, put_data, mark, clear_if_lit, clear_before_success, show, hide, blink, stop_blink,
  success,
}
use hardware.Led.Blind.{
  get_mapping_in, blind-set_led, blind-clear, blind-clear_if_lit, blind-clear_before_success,
}
use hardware.Led.Shows.{Shows, Repainted, Repainted-Shows}
use hardware.Led.Repaint.{
  clear_if_lit-Cleared, clear_before_success-Cleared, unlit-Cleared, Cleared-centre, Cleared-stored,
  clear-Repainted,
}

either_way : {A : Type 0} (b : Bool) (a : A) → a ≡ (if b then a else a)
either_way true a = refl
either_way false a = refl

pub not_lit :
    (s : PositionState) → is_blinking_state s ≡ true → (is_animating s || is_expanded s) ≡ false
not_lit blinking h = refl
not_lit off h = refl
not_lit shown h = refl
not_lit animating h = absurd (ground (arith, h))
not_lit expanded h = absurd (ground (arith, h))

module _ (n : NeoPixel) (laws : PixelLaws n) where
  -- Unless a celebration runs, the strips show the positions.
  abbrev pub Displays : LedController n → Type 0
  Displays l = l.sequence_anim_active ≡ false → Shows n laws l

  abbrev active : LedController n → Bool
  active l = l.sequence_anim_active

  module _ (l : LedController n) (i : ℕ) (h : i < 25) where
    not_out : leb 25 i ≡ false
    not_out = ground arith

    pub active-show : active (show n l i).1 ≡ active l
    unfolding show
    active-show =
        rw (not_out, get_mapping_in i h)
          (simp (
            blind-set_led n active (λ s l. refl) (λ s l. refl),
            blind-clear_if_lit n active (λ s l. refl) (λ s l. refl),
          ))

    pub show-Repainted :
        Shows n laws l
        → Repainted n laws i
            (record (data_at n (clear_if_lit n i (mapping_at i) l) i) {
              state = shown;
              animation_step = 0;
            })
            l
            (show n l i).1
    unfolding show
    show-Repainted shows =
        rw (not_out, get_mapping_in i h)
          (Cleared-centre n laws i h (blue n)
            (record (data_at n (clear_if_lit n i (mapping_at i) l) i) {
              state = shown;
              animation_step = 0;
            })
            l (clear_if_lit n i (mapping_at i) l) (clear_if_lit-Cleared n laws i h l shows)
            (λ k. refl))

    pub active-hide : active (hide n l i).1 ≡ active l
    unfolding hide
    active-hide =
        rw (not_out, get_mapping_in i h) (simp (blind-clear n active (λ s l. refl) (λ s l. refl)))

    pub hide-Repainted :
        Repainted n laws i
          (record (data_at n (clear_expanded_region n (mapping_at i) l) i) {
            state = off;
            animation_step = 0;
            blink_on = false;
          })
          l
          (hide n l i).1
    unfolding hide
    hide-Repainted =
        rw (not_out, get_mapping_in i h)
          (clear-Repainted n laws i h
            (record (data_at n (clear_expanded_region n (mapping_at i) l) i) {
              state = off;
              animation_step = 0;
              blink_on = false;
            })
            l (λ k. refl))

    pub active-blink : (now : ℕ) → active (blink n now l i).1 ≡ active l
    unfolding blink
    active-blink now =
        rw (not_out, get_mapping_in i h)
          (simp (
            blind-set_led n active (λ s l. refl) (λ s l. refl),
            blind-clear_if_lit n active (λ s l. refl) (λ s l. refl),
          ))

    pub blink-Repainted :
        (now : ℕ)
        → Shows n laws l
        → Repainted n laws i
            (record {
              state = blinking;
              animation_step = 0;
              last_animation_time = now;
              blink_on = true;
            })
            l
            (blink n now l i).1
    unfolding blink
    blink-Repainted now shows =
        rw (not_out, get_mapping_in i h)
          (Cleared-centre n laws i h (orange n)
            (record {
              state = blinking;
              animation_step = 0;
              last_animation_time = now;
              blink_on = true;
            })
            l (clear_if_lit n i (mapping_at i) l) (clear_if_lit-Cleared n laws i h l shows)
            (λ k. refl))

    pub active-success : (now : ℕ) → active (success n now l i).1 ≡ active l
    unfolding success
    active-success now =
        rw (not_out, get_mapping_in i h)
          (simp (
            blind-set_led n active (λ s l. refl) (λ s l. refl),
            blind-clear_before_success n active (λ s l. refl) (λ s l. refl),
          ))

    pub success-Repainted :
        (now : ℕ)
        → Shows n laws l
        → let l₁ = clear_before_success n i (mapping_at i) l in
          Repainted n laws i
            (record (data_at n l₁ i) {
              state = animating;
              animation_step = 0;
              last_animation_time = now;
            })
            l
            (success n now l i).1
    unfolding success
    success-Repainted now shows =
        let l₁ : LedController n = clear_before_success n i (mapping_at i) l in
        rw (not_out, get_mapping_in i h)
          (Cleared-centre n laws i h (green n)
            (record (data_at n l₁ i) {
              state = animating;
              animation_step = 0;
              last_animation_time = now;
            })
            l l₁ (clear_before_success-Cleared n laws i h l shows)
            (λ k. let same : leb k 0 ≡ (k == 0) = ground arith in rw same refl))

    pub active-stop_blink : active (stop_blink n l i).1 ≡ active l
    unfolding stop_blink
    active-stop_blink = elim (Bool-cases (is_blinking_state (data_at n l i).state)) [
      | inl was ↦
          rw (not_out, was, get_mapping_in i h)
            (simp (blind-set_led n active (λ s l. refl) (λ s l. refl)))
      | inr other ↦ rw (not_out, other) refl
    ]

    pub stop_blink-Shows :
        length l.positions ≡ 25 → Shows n laws l → Shows n laws (stop_blink n l i).1
    unfolding stop_blink
    stop_blink-Shows size shows = elim (Bool-cases (is_blinking_state (data_at n l i).state)) [
      | inl was ↦
          let m : LedMapping = mapping_at i in
          let l₁ : LedController n = set_led n m.strip (pos m.index) (black n) l in
          let d : PositionData = record (data_at n l₁ i) {
            state = off;
            animation_step = 0;
            blink_on = false;
          } in
          rw (not_out, was, get_mapping_in i h)
            (Repainted-Shows n laws i d l (mark n (put_data n i d l₁)) h size
              (Cleared-stored n laws i h (black n) d l
                (unlit-Cleared n laws i h l shows (not_lit (data_at n l i).state was))
                (λ k. either_way (k == 0) (black n)))
              shows)
      | inr other ↦ rw (not_out, other) shows
    ]
