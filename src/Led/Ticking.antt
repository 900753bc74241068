-- ===== src/Led/Ticking.antt =====
-- The animations of src/LedController.cpp repaint the regions of the positions they change.
use hardware.Base.{
  ℕ, zero, suc, ◌+◌, ◌<◌, ◌≤◌, ◌≡◌, refl, sym, ap, ◌∙◌, subst, true, false, not, ltb, leb,
  if◌then◌else◌, set, length, length-set, get_or-set_self, arith, Bool-cases, inl, inr, All,
  All-set, All-get_or,
}
use hardware.Base.Words.{add8, sub32}
use hardware.Led.State.{
  PositionState, off, shown, animating, expanded, blinking, PositionData, is_animating,
  is_blinking_state, mapping_at, dark,
}
use hardware.Led.Strip.{NeoPixel, PixelLaws, LedController, orange, black}
use hardware.Led.Controller.{data_at, put_data, mark}
use hardware.Led.Update.{
  advance, render_state, render_position, update_animation, animate_one, blink_one, for_from,
  update_blinking,
}
use hardware.Led.Blind.{get_mapping_in, blind-render}
use hardware.Led.Invariant.{DataIsValid, StepFits}
use hardware.Led.Shows.{Shows, Repainted, Repainted-Shows, look_of}
use hardware.Led.Repaint.{unlit-Cleared, Cleared-centre}
use hardware.Led.Growth.{light-Repainted}
use hardware.Led.Display.{not_lit, Displays}

blinking_lem : (s : PositionState) → is_blinking_state s ≡ true → s ≡ blinking
blinking_lem blinking h = refl
blinking_lem off h = absurd (ground (arith, h))
blinking_lem shown h = absurd (ground (arith, h))
blinking_lem animating h = absurd (ground (arith, h))
blinking_lem expanded h = absurd (ground (arith, h))

animating_lem : (s : PositionState) → is_animating s ≡ true → s ≡ animating
animating_lem animating h = refl
animating_lem off h = absurd (ground (arith, h))
animating_lem shown h = absurd (ground (arith, h))
animating_lem blinking h = absurd (ground (arith, h))
animating_lem expanded h = absurd (ground (arith, h))

module _ (n : NeoPixel) (laws : PixelLaws n) where
  -- The positions are valid, and the strips show them unless a celebration runs.
  pub record Good (l : LedController n) : Type 0 where
    pub all_there : length l.positions ≡ 25
    pub fits : All DataIsValid l.positions
    pub displays : Displays n laws l

  module _ (now : ℕ) (l : LedController n) (i : ℕ) (h : i < 25) (v : Good l) where
    abbrev old : PositionData
    old = data_at n l i

    -- Rendering shows the data that has been stored.
    render_position_lem :
        (d : PositionData)
        → render_position n (put_data n i d l) i
          ≡ render_state n d.state d (mapping_at i) (put_data n i d l)
    unfolding render_position
    render_position_lem d =
        let in_range : leb 25 i ≡ false = ground arith in
        let stored : data_at n (put_data n i d l) i ≡ d =
          get_or-set_self l.positions i d dark (omega (arith, v.all_there)) in
        rw (in_range, get_mapping_in i h, stored) refl

    -- A change of the data at the position, rendered.
    stored-Good :
        (d : PositionData)
        → DataIsValid d
        → (Shows n laws l
            → Repainted n laws i d l
                (mark n (render_state n d.state d (mapping_at i) (put_data n i d l))))
        → Good (mark n (render_position n (put_data n i d l) i))
    stored-Good d fit repaint =
        let l₁ : LedController n = put_data n i d l in
        let rendered : LedController n = render_position n l₁ i in
        let kept : rendered.positions ≡ set l.positions i d =
          blind-render n (λ x. x.positions) (λ s x. refl) (λ s x. refl) l₁ i in
        let flag : rendered.sequence_anim_active ≡ l.sequence_anim_active =
          blind-render n (λ x. x.sequence_anim_active) (λ s x. refl) (λ s x. refl) l₁ i in
        record {
          all_there = ap length kept ∙ (length-set l.positions i d ∙ v.all_there);
          fits =
              subst (All DataIsValid) (sym kept) (All-set DataIsValid l.positions i d v.fits fit);
          displays = λ idle.
              let shows = v.displays (sym flag ∙ idle) in
              Repainted-Shows n laws i d l (mark n rendered) h v.all_there
                (subst (λ x. Repainted n laws i d l (mark n x)) (sym (render_position_lem d))
                  (repaint shows))
                shows;
        }

    old_fits : DataIsValid old
    old_fits = All-get_or DataIsValid l.positions i dark v.fits refl

    pub blink_one-Good : Good (blink_one n now l i)
    unfolding blink_one render_state
    blink_one-Good = elim (Bool-cases (is_blinking_state old.state)) [
      | inr other ↦ rw other v
      | inl was ↦ elim (Bool-cases (leb 150 (sub32 now old.last_animation_time))) [
        | inr early ↦ rw (was, early) v
        | inl due ↦
            let e : old.state ≡ blinking = blinking_lem old.state was in
            let d : PositionData = record old {
              blink_on = not old.blink_on;
              last_animation_time = now;
            } in
            let c : n.Color = if not old.blink_on then orange n else black n in
            rw (was, due)
              (stored-Good d old_fits (λ shows.
                subst
                  (λ s.
                    Repainted n laws i d l
                      (mark n (render_state n s d (mapping_at i) (put_data n i d l))))
                  (sym e)
                  (Cleared-centre n laws i h c d l l
                    (unlit-Cleared n laws i h l shows (not_lit old.state was))
                    (λ k. ap (λ s. look_of n laws s old.animation_step (not old.blink_on) k) e))))
      ]
    ]

    animate_due-Good :
        is_animating old.state ≡ true
        → Good (mark n (render_position n (put_data n i (advance now old) l) i))
    unfolding advance render_state
    animate_due-Good was =
        let e : old.state ≡ animating = animating_lem old.state was in
        let few : old.animation_step < 5 = subst (λ s. StepFits s old.animation_step) e old_fits in
        elim (Bool-cases (leb 5 (add8 old.animation_step 1))) [
          | inl last ↦
              let d : PositionData = record old {
                state = expanded;
                animation_step = 5;
                last_animation_time = now;
              } in
              rw last (
                stored-Good d refl (λ shows.
                  light-Repainted n laws i h d l shows (omega arith) (omega (arith, few)) was
                    (λ k. refl)))
          | inr more ↦
              let d : PositionData = record {
                state = animating;
                animation_step = add8 old.animation_step 1;
                last_animation_time = now;
                blink_on = old.blink_on;
              } in
              let same : record old {
                animation_step = add8 old.animation_step 1;
                last_animation_time = now;
              }
                  ≡ d =
                ap
                  (λ s. record {
                    state = s;
                    animation_step = add8 old.animation_step 1;
                    last_animation_time = now;
                    blink_on = old.blink_on;
                  })
                  e in
              rw (more, same)
                (stored-Good d (ground (arith, few, more)) (λ shows.
                  light-Repainted n laws i h d l shows (omega (arith, few)) (omega (arith, few)) was
                    (λ k. refl)))
        ]

    pub animate_one-Good : Good (animate_one n now l i)
    unfolding animate_one update_animation
    animate_one-Good = elim (Bool-cases (is_animating old.state)) [
      | inr other ↦ rw other v
      | inl was ↦ elim (Bool-cases (ltb (sub32 now old.last_animation_time) 80)) [
        | inl early ↦ rw (was, early) v
        | inr due ↦ rw (was, due, get_mapping_in i h) (animate_due-Good was)
      ]
    ]

  -- A loop over the positions whose body keeps the state good.
  for_from-Good :
      (body : LedController n → ℕ → LedController n)
      → ((l : LedController n) (i : ℕ) → i < 25 → Good l → Good (body l i))
      → (rounds i : ℕ) (l : LedController n) → i + rounds ≤ 25
      → Good l
      → Good (for_from n rounds i body l)
  unfolding for_from
  for_from-Good body keep zero i l h v = v
  for_from-Good body keep (suc rounds) i l h v =
      for_from-Good body keep rounds (i + 1) (body l i) (omega arith) (keep l i (omega arith) v)

  pub loops-Good :
      (now : ℕ) (l : LedController n)
      → Good l
      → Good (update_blinking n now (for_from n 25 0 (animate_one n now) l))
  unfolding update_blinking
  loops-Good now l v =
      for_from-Good (blink_one n now) (λ l i h v. blink_one-Good now l i h v) 25 0
        (for_from n 25 0 (animate_one n now) l) (omega arith)
        (for_from-Good (animate_one n now) (λ l i h v. animate_one-Good now l i h v) 25 0 l
          (omega arith) v)
