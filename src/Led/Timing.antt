-- ===== src/Led/Timing.antt =====
-- How long the SUCCESS expansion of src/LedController.cpp takes.
use hardware.Base.{
  ℕ, ◌+◌, ◌^◌, ◌<◌, ◌≤◌, ◌≡◌, refl, ap, ◌∙◌, subst, Bool, true, false, List, [], ◌∷◌, ◌++◌, leb,
  get_or, map, length, length-map, get_or-map, get_or-set_self, length-set, arith, Bool-cases, inl,
  inr,
}
use hardware.Led.State.{expanded, dark, is_animating, get_mapping, mapping_at, LedMapping, StripId}
use hardware.Base.Int.{ℤ}
use hardware.Led.Strip.{NeoPixel, LedController, set_led}
use hardware.Led.Blind.{blind-set_led, blind-clear_before_success}
use hardware.Led.Controller.{data_at, success, clear_before_success, is_animation_complete}
use hardware.Led.Update.{update, push_leds, for_from, animate_one, update_blinking}
use hardware.Led.Positions.{
  on_success, on_update, positions-success, positions-push_leds, positions-loops,
}
use hardware.Led.Loops.{blind-loops, blind-push_leds}
use hardware.Led.Watch.{
  clock_at, InOrder, Spaced, last_time, watch, growing, watch_not_early, watch_finishes,
}

module _ (n : NeoPixel) where
  abbrev celebrating : LedController n → Bool
  celebrating l = l.sequence_anim_active

  celebrating-loops :
      (now : ℕ) (l : LedController n)
      → celebrating (update_blinking n now (for_from n 25 0 (animate_one n now) l)) ≡ celebrating l
  celebrating-loops =
      blind-loops n celebrating (λ s l. refl) (λ s l. refl) (λ ds l. refl) (λ b l. refl)

  celebrating-push_leds : (l : LedController n) → celebrating (push_leds n l) ≡ celebrating l
  celebrating-push_leds =
      blind-push_leds n celebrating (λ s l. refl) (λ s l. refl) (λ ds l. refl) (λ b l. refl)

  -- While no celebration runs, `update` moves every position by its own data alone.
  pub positions-update :
      (now : ℕ) (l : LedController n)
      → length l.positions ≡ 25
      → l.sequence_anim_active ≡ false
      → ((update n now l).positions ≡ map (on_update now) l.positions)
        × ((update n now l).sequence_anim_active ≡ false)
  unfolding update
  positions-update now l h q =
      let l₁ = update_blinking n now (for_from n 25 0 (animate_one n now) l) in
      let q₁ : celebrating l₁ ≡ false = celebrating-loops now l ∙ q in
      simp q₁ (positions-push_leds n l₁ ∙ positions-loops n now l h, celebrating-push_leds l₁ ∙ q₁)

  unfoldable pub updates : List ℕ → LedController n → LedController n
  updates [] l = l
  updates (t ∷ ts) l = updates ts (update n (clock_at t) l)

  data_at-updates :
      (ts : List ℕ) (l : LedController n) (i : ℕ)
      → length l.positions ≡ 25
      → l.sequence_anim_active ≡ false
      → data_at n (updates ts l) i ≡ watch ts (data_at n l i)
  unfolding updates
  data_at-updates [] l i h q = refl
  data_at-updates (t ∷ ts) l i h q =
      let now = clock_at t in
      let (moved, q') = positions-update now l h q in
      let len = ap length moved ∙ (length-map (on_update now) l.positions ∙ h) in
      data_at-updates ts (update n now l) i len q'
      ∙ ap (watch ts)
          (ap (λ ds. get_or ds i dark) moved ∙ get_or-map (on_update now) l.positions i dark)

  celebrating-success :
      (now : ℕ) (l : LedController n) (i : ℕ) → celebrating (success n now l i).1 ≡ celebrating l
  unfolding success get_mapping
  celebrating-success now l i = elim (Bool-cases (leb 25 i)) [
    | inl out ↦ rw out
    | inr in_range ↦ rw (in_range, celebrating-set_led) (celebrating-clear i (mapping_at i) l)
  ]
    where
      celebrating-set_led :
          (s : StripId) (i : ℤ) (c : n.Color) (l : LedController n)
          → (set_led n s i c l).sequence_anim_active ≡ l.sequence_anim_active
      celebrating-set_led = blind-set_led n celebrating (λ s l. refl) (λ s l. refl)

      celebrating-clear :
          (i : ℕ) (m : LedMapping) (l : LedController n)
          → celebrating (clear_before_success n i m l) ≡ celebrating l
      celebrating-clear = blind-clear_before_success n celebrating (λ s l. refl) (λ s l. refl)

  module _ (l : LedController n) (i start : ℕ) (ts : List ℕ) (h : length l.positions ≡ 25)
      (q : l.sequence_anim_active ≡ false) (inside : i < 25) where
    abbrev begun : LedController n
    begun = (success n (clock_at start) l i).1

    region_after :
        (ts : List ℕ)
        → data_at n (updates ts begun) i ≡ watch ts (growing 0 start (data_at n l i).blink_on)
    region_after ts =
        let (_, put) = positions-success n l i inside (clock_at start) in
        data_at-updates ts begun i (ap length put ∙ (length-set l.positions i _ ∙ h))
          (celebrating-success (clock_at start) l i ∙ q)
        ∙ ap (watch ts) (
            ap (λ ds. get_or ds i dark) put
            ∙ get_or-set_self l.positions i (on_success (clock_at start) (data_at n l i)) dark
                (omega arith))

    -- A SUCCESS animation that is started at a position in range, while no celebration runs, is not complete
    -- before 400 ms have passed, if only updates follow: whatever their times, in order and within one turn
    -- of the 32-bit clock, and wherever in that turn the animation starts.
    pub success_takes_400_ms :
        InOrder (start + 2 ^ 32) start ts
        → is_animation_complete n (updates ts begun) i ≡ true
        → start + 400 ≤ last_time start ts
    unfolding is_animation_complete
    success_takes_400_ms o done =
        let grown : is_animating (data_at n (updates ts begun) i).state ≡ false = ground arith in
        watch_not_early ts start 0 start start (data_at n l i).blink_on (omega arith) (omega arith)
          (omega arith) o (subst (λ d. is_animating d.state ≡ false) (region_after ts) grown)

    -- Started so, and if only updates follow, it is complete after five or more of them, each at least 80 ms
    -- after the one before and within one turn of the clock, and stays complete at all later updates,
    -- whatever their times.
    pub success_completes :
        (later : List ℕ)
        → Spaced (start + 2 ^ 32) start ts
        → 5 ≤ length ts
        → is_animation_complete n (updates (ts ++ later) begun) i ≡ true
    unfolding is_animation_complete
    success_completes later o five =
        let grown : (data_at n (updates (ts ++ later) begun) i).state ≡ expanded =
          ap (λ d. d.state) (region_after (ts ++ later))
          ∙ watch_finishes ts later start 0 start (data_at n l i).blink_on (omega arith)
              (omega arith) o (omega arith) in
        ground arith
