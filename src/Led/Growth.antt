-- ===== src/Led/Growth.antt =====
-- An expanding region of src/LedController.cpp shows the step that it has reached.
use hardware.Base.{
  ℕ, ◌<◌, ◌≤◌, ◌≡◌, refl, sym, ap, ◌∙◌, Bool, true, false, ◌&&◌, leb, if◌then◌else◌, arith,
  Bool-cases, inl, inr,
}
use hardware.Led.State.{
  StripId, LedMapping, PositionState, off, shown, animating, expanded, blinking, PositionData,
  is_animating, mapping_at,
}
use hardware.Led.Strip.{NeoPixel, PixelLaws, LedController, green, black, light_region}
use hardware.Led.Controller.{data_at, put_data, mark}
use hardware.Led.Pixels.{same_strip, dist, pixel_at, pixel-light}
use hardware.Led.Blind.{blind-light}
use hardware.Led.Regions.{mapping_at-Inside}
use hardware.Led.Shows.{Shows, Repainted, covers, look, look_of}
use hardware.Led.Repaint.{same_self, unseen}

module _ (n : NeoPixel) (laws : PixelLaws n) (i : ℕ) (h : i < 25) where
  abbrev m : LedMapping
  m = mapping_at i

  -- A lit region that has grown.
  pub light-Repainted :
      (d : PositionData) (l : LedController n)
      → Shows n laws l
      → d.animation_step ≤ 5
      → (data_at n l i).animation_step ≤ d.animation_step
      → is_animating (data_at n l i).state ≡ true
      → ((k : ℕ) → look n laws d k ≡ (if leb k d.animation_step then green n else black n))
      → Repainted n laws i d l (mark n (light_region n d.animation_step m (put_data n i d l)))
  light-Repainted d l shows small grown was e =
      let l₁ : LedController n = put_data n i d l in
      let l₂ : LedController n = light_region n d.animation_step m l₁ in
      let seen = λ (s : StripId) (j : ℕ).
        unseen n laws i h l₂ (mark n l₂) s j refl refl
        ∙ (pixel-light n laws d.animation_step m l₁ s j small (mapping_at-Inside i h)
            ∙ ap
                (λ o.
                  if same_strip m.strip s && leb (dist m.index j) d.animation_step
                  then green n
                  else o)
                (unseen n laws i h l l₁ s j refl refl)) in
      record {
        stored = blind-light n (λ x. x.positions) (λ s x. refl) (λ s x. refl) d.animation_step m l₁;
        painted = λ j near. seen m.strip j ∙ (painted j near ∙ sym (e (dist m.index j)));
        others = λ s j out. seen s j ∙ missed s j (pixel_at n laws l s j) out;
      }
    where
      dim :
          (s : PositionState) (step : ℕ) (on : Bool) (k : ℕ)
          → is_animating s ≡ true
          → leb k step ≡ false
          → look_of n laws s step on k ≡ black n
      dim animating step on k u far = rw far refl
      dim off step on k u far = refl
      dim shown step on k u far = absurd (ground (arith, u))
      dim blinking step on k u far = absurd (ground (arith, u))
      dim expanded step on k u far = absurd (ground (arith, u))

      painted :
          (j : ℕ)
          → dist m.index j ≤ 5
          → (if same_strip m.strip m.strip && leb (dist m.index j) d.animation_step
              then green n
              else pixel_at n laws l m.strip j)
            ≡ (if leb (dist m.index j) d.animation_step then green n else black n)
      painted j near = elim (Bool-cases (leb (dist m.index j) d.animation_step)) [
        | inl lit ↦ rw (same_self n laws i h m.strip, lit) refl
        | inr beyond ↦
            let old = data_at n l i in
            rw (same_self n laws i h m.strip, beyond)
              (shows i j h near
                ∙ dim old.state old.animation_step old.blink_on (dist m.index j) was
                    (ground (arith, beyond, grown)))
      ]

      missed :
          (s : StripId) (j : ℕ) (o : n.Color)
          → covers n laws i s j ≡ false
          → (if same_strip m.strip s && leb (dist m.index j) d.animation_step then green n else o)
            ≡ o
      missed s j o out =
          let not_here : (same_strip m.strip s && leb (dist m.index j) d.animation_step) ≡ false =
            ground (arith, out, small) in
          rw not_here refl
