-- ===== src/Led/Truth.antt =====
-- After any calls of the methods of src/LedController.cpp the strips show what the positions say, unless a
-- celebration runs.
use hardware.Base.{
  ℕ, zero, suc, ◌<◌, ◌≤◌, ◌≡◌, refl, sym, ap, ◌∙◌, subst, Bool, true, false, List, [], ◌∷◌, ltb,
  leb, if◌then◌else◌, get_or, arith, Bool-cases, inl, inr, leb→le, replicate,
}
use hardware.Base.Words.{add8, sub32}
use hardware.Led.State.{StripId, strip1, strip2, PositionData, mapping_at, dark}
use hardware.Led.Strip.{NeoPixel, PixelLaws, LedController, black}
use hardware.Led.Controller.{data_at, show, hide, blink, stop_blink, success, begin}
use hardware.Led.Update.{
  update_sequence_completed_animation, start_sequence_completed_animation, fill_both, push_leds,
  update, update_blinking, for_from, animate_one, reset_all,
}
use hardware.Led.Positions.{refuse_out_of_range}
use hardware.Led.Invariant.{
  Call, shows, hides, stops_blink, blinks, succeeds, celebrates, updates, call, run, call-IsValid,
  IsValid, run-begin-IsValid,
}
use hardware.Led.Pixels.{dist, pixel_at}
use hardware.Led.Shows.{Shows, Repainted-Shows, look}
use hardware.Led.Display.{
  Displays, active-show, show-Repainted, active-hide, hide-Repainted, active-blink, blink-Repainted,
  active-success, success-Repainted, active-stop_blink, stop_blink-Shows,
}
use hardware.Led.Ticking.{Good, loops-Good}

module _ (n : NeoPixel) (laws : PixelLaws n) where
  -- A call at a position: out of range nothing, in range a change that shows.
  at_position :
      (i : ℕ) (l k : LedController n)
      → (25 ≤ i → k ≡ l)
      → (i < 25 → k.sequence_anim_active ≡ l.sequence_anim_active)
      → (i < 25 → Shows n laws l → Shows n laws k)
      → Displays n laws l
      → Displays n laws k
  at_position i l k outside flag inside v = elim (Bool-cases (leb 25 i)) [
    | inl out ↦ subst (Displays n laws) (sym (outside (leb→le _ _ out))) v
    | inr in_range ↦ λ idle. inside (ground arith) (v (sym (flag (ground arith)) ∙ idle))
  ]

  if-Displays :
      (b : Bool) (x y : LedController n)
      → Displays n laws x
      → Displays n laws y
      → Displays n laws (if b then x else y)
  if-Displays true x y h k = h
  if-Displays false x y h k = k

  reset_black :
      (ds : List PositionData) (i k : ℕ) → look n laws (get_or (reset_all ds) i dark) k ≡ black n
  unfolding reset_all
  reset_black [] i k = refl
  reset_black (d ∷ ds) zero k = refl
  reset_black (d ∷ ds) (suc i) k = reset_black ds i k

  -- All pixels black, all positions off.
  all_black :
      (l : LedController n) (ds : List PositionData)
      → ((j : ℕ) → laws.pixel l.strip1 j ≡ black n)
      → ((j : ℕ) → laws.pixel l.strip2 j ≡ black n)
      → l.positions ≡ reset_all ds
      → Shows n laws l
  all_black l ds dark1 dark2 e i j h near =
      dark_pixels (mapping_at i).strip j
      ∙ sym (
          ap (λ xs. look n laws (get_or xs i dark) (dist (mapping_at i).index j)) e
          ∙ reset_black ds i (dist (mapping_at i).index j))
    where
      dark_pixels : (s : StripId) (j : ℕ) → pixel_at n laws l s j ≡ black n
      dark_pixels strip1 j = dark1 j
      dark_pixels strip2 j = dark2 j

  push_leds-Displays : (l : LedController n) → Displays n laws l → Displays n laws (push_leds n l)
  unfolding push_leds
  push_leds-Displays l v =
      if-Displays l.needs_update
        (record l { strip1 = n.show l.strip1; strip2 = n.show l.strip2; needs_update = false }) l
        (λ idle i j h near. shown (mapping_at i).strip j ∙ v idle i j h near) v
    where
      shown :
          (s : StripId) (j : ℕ)
          → pixel_at n laws
              (record l {
                strip1 = n.show l.strip1;
                strip2 = n.show l.strip2;
                needs_update = false;
              })
              s
              j
            ≡ pixel_at n laws l s j
      shown strip1 j = laws.pixel-show l.strip1 j
      shown strip2 j = laws.pixel-show l.strip2 j

  sequence-Displays :
      (now : ℕ) (l : LedController n)
      → l.sequence_anim_active ≡ true
      → Displays n laws (update_sequence_completed_animation n now l)
  unfolding update_sequence_completed_animation fill_both
  sequence-Displays now l runs = elim (Bool-cases (ltb (sub32 now l.sequence_anim_last_time) 150)) [
    | inl early ↦ rw early (λ idle. absurd (ground (arith, runs, idle)))
    | inr due ↦ elim (Bool-cases (ltb (add8 l.sequence_anim_step 1) 8)) [
      | inl more ↦ rw (due, more) (λ idle. absurd (ground (arith, runs, idle)))
      | inr last ↦
          rw (due, last)
            (λ idle.
              all_black
                (record l {
                  strip1 = n.clear l.strip1;
                  strip2 = n.clear l.strip2;
                  needs_update = true;
                  positions = reset_all l.positions;
                  sequence_anim_active = false;
                  sequence_anim_step = add8 l.sequence_anim_step 1;
                  sequence_anim_last_time = now;
                })
                l.positions (laws.pixel-clear l.strip1) (laws.pixel-clear l.strip2) refl)
    ]
  ]

  update-Displays :
      (now : ℕ) (l : LedController n) → Good n laws l → Displays n laws (update n now l)
  unfolding update
  update-Displays now l v =
      let l₁ = update_blinking n now (for_from n 25 0 (animate_one n now) l) in
      let v₁ = loops-Good n laws now l v in
      push_leds-Displays
        (if l₁.sequence_anim_active then update_sequence_completed_animation n now l₁ else l₁)
        (celebrated l₁.sequence_anim_active l₁ refl v₁.displays)
    where
      celebrated :
          (b : Bool) (l₁ : LedController n)
          → l₁.sequence_anim_active ≡ b
          → Displays n laws l₁
          → Displays n laws (if b then update_sequence_completed_animation n now l₁ else l₁)
      celebrated true l₁ e v = sequence-Displays now l₁ e
      celebrated false l₁ e v = v

  -- Every call keeps the strips true to the positions.
  call-Displays :
      (c : Call n) (l : LedController n)
      → IsValid n l
      → Displays n laws l
      → Displays n laws (call n c l)
  unfolding call start_sequence_completed_animation fill_both
  call-Displays (shows i) l v d =
      at_position i l (show n l i).1 (λ h. ap (λ r. r.1) (refuse_out_of_range n l i 0 h).0)
        (λ h. active-show n laws l i h)
        (λ h s.
          Repainted-Shows n laws i _ l (show n l i).1 h v.all_there (show-Repainted n laws l i h s)
            s)
        d
  call-Displays (hides i) l v d =
      at_position i l (hide n l i).1 (λ h. ap (λ r. r.1) (refuse_out_of_range n l i 0 h).1)
        (λ h. active-hide n laws l i h)
        (λ h s.
          Repainted-Shows n laws i _ l (hide n l i).1 h v.all_there (hide-Repainted n laws l i h) s)
        d
  call-Displays (stops_blink i) l v d =
      at_position i l (stop_blink n l i).1 (λ h. ap (λ r. r.1) (refuse_out_of_range n l i 0 h).3)
        (λ h. active-stop_blink n laws l i h) (λ h s. stop_blink-Shows n laws l i h v.all_there s) d
  call-Displays (blinks now i) l v d =
      at_position i l (blink n now l i).1 (λ h. ap (λ r. r.1) (refuse_out_of_range n l i now h).2)
        (λ h. active-blink n laws l i h now)
        (λ h s.
          Repainted-Shows n laws i _ l (blink n now l i).1 h v.all_there
            (blink-Repainted n laws l i h now s) s)
        d
  call-Displays (succeeds now i) l v d =
      at_position i l (success n now l i).1 (λ h. ap (λ r. r.1) (refuse_out_of_range n l i now h).4)
        (λ h. active-success n laws l i h now)
        (λ h s.
          Repainted-Shows n laws i _ l (success n now l i).1 h v.all_there
            (success-Repainted n laws l i h now s) s)
        d
  call-Displays (celebrates now) l v d = λ idle. absurd (ground (arith, idle))
  call-Displays (updates now) l v d =
      update-Displays now l (record { all_there = v.all_there; fits = v.fits; displays = d })

  begin-Displays : (l : LedController n) → Displays n laws (begin n l)
  unfolding begin reset_all
  begin-Displays l idle =
      let fresh = λ (s : n.Strip). n.clear (n.set_brightness 128 (n.start s)) in
      let black_at = λ (s : n.Strip) (j : ℕ).
        laws.pixel-show (fresh s) j ∙ laws.pixel-clear (n.set_brightness 128 (n.start s)) j in
      all_black (begin n l) (replicate 25 dark) (black_at l.strip1) (black_at l.strip2) refl

  run-begin-Displays :
      (cs : List (Call n)) (l : LedController n) → Displays n laws (run n cs (begin n l))
  unfolding run
  run-begin-Displays cs l = keep cs (begin n l) (run-begin-IsValid n [] l) (begin-Displays l)
    where
      keep :
          (cs : List (Call n)) (l : LedController n)
          → IsValid n l
          → Displays n laws l
          → Displays n laws (run n cs l)
      keep [] l v d = d
      keep (c ∷ cs) l v d = keep cs (call n c l) (call-IsValid n c l v) (call-Displays c l v d)

  -- After `begin` and any calls at any times, unless a celebration runs, each LED within five of the
  -- centre of a position shows what the position's data says: none is lit when it is off, the centre is
  -- blue when it is shown, the centre is orange or black when it blinks, and the LEDs up to the step that
  -- an expansion has reached are green.
  pub pixel_at-run :
      (cs : List (Call n)) (l : LedController n) (i j : ℕ)
      → (run n cs (begin n l)).sequence_anim_active ≡ false
      → i < 25
      → dist (mapping_at i).index j ≤ 5
      → let k = run n cs (begin n l) in
        pixel_at n laws k (mapping_at i).strip j
        ≡ look n laws (data_at n k i) (dist (mapping_at i).index j)
  pixel_at-run cs l i j idle h near = run-begin-Displays cs l idle i j h near
