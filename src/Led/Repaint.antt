-- ===== src/Led/Repaint.antt =====
-- Each command of src/LedController.cpp at a position repaints the region of that position alone.
use hardware.Base.{
  ℕ, ◌<◌, ◌≤◌, ◌≡◌, ◌≢◌, refl, sym, ap, ◌∙◌, Bool, true, false, ◌&&◌, ◌||◌, ◌==◌, if◌then◌else◌,
  set, arith, Bool-cases, inl, inr, ==_ne, le→leb,
}
use hardware.Base.Int.{pos}
use hardware.Led.State.{
  StripId, strip1, strip2, LedMapping, PositionState, off, shown, animating, expanded, blinking,
  PositionData, is_animating, is_expanded, is_shown, mapping_at,
}
use hardware.Led.Strip.{NeoPixel, PixelLaws, LedController, black, set_led, clear_expanded_region}
use hardware.Led.Controller.{data_at, put_data, mark, clear_if_lit, clear_before_success}
use hardware.Led.Pixels.{same_strip, dist, pixel_at, pixel-set_led, pixel-clear}
use hardware.Led.Positions.{positions-set_led, positions-clear}
use hardware.Led.Regions.{mapping_at-Inside}
use hardware.Led.Shows.{Shows, Repainted, covers, look, look_of}

module _ (n : NeoPixel) (laws : PixelLaws n) (i : ℕ) (h : i < 25) where
  abbrev m : LedMapping
  m = mapping_at i

  pub same_self : (s : StripId) → same_strip s s ≡ true
  same_self strip1 = refl
  same_self strip2 = refl

  -- What does not touch the strips is not seen.
  pub unseen :
      (l l' : LedController n) (s : StripId) (j : ℕ)
      → l'.strip1 ≡ l.strip1
      → l'.strip2 ≡ l.strip2
      → pixel_at n laws l' s j ≡ pixel_at n laws l s j
  unseen l l' strip1 j e f = ap (λ s. laws.pixel s j) e
  unseen l l' strip2 j e f = ap (λ s. laws.pixel s j) f

  -- The region is black but for its centre, whose colour is open.
  pub record Cleared (l l' : LedController n) : Type 0 where
    pub kept : l'.positions ≡ l.positions
    pub rest :
        (j : ℕ) → dist m.index j ≤ 5 → dist m.index j ≢ 0 → pixel_at n laws l' m.strip j ≡ black n
    pub others :
        (s : StripId) (j : ℕ)
        → covers n laws i s j ≡ false
        → pixel_at n laws l' s j ≡ pixel_at n laws l s j

  clear-Cleared : (l : LedController n) → Cleared l (clear_expanded_region n m l)
  clear-Cleared l = record {
    kept = positions-clear n m l;
    rest = λ j near ne.
        pixel-clear n laws m l m.strip j (mapping_at-Inside i h)
        ∙ rw (same_self m.strip, le→leb (dist m.index j) 5 near) refl;
    others = λ s j out. pixel-clear n laws m l s j (mapping_at-Inside i h) ∙ rw out refl;
  }

  -- A position that is not lit shows its centre at most.
  pub unlit-Cleared :
      (l : LedController n)
      → Shows n laws l
      → (is_animating (data_at n l i).state || is_expanded (data_at n l i).state) ≡ false
      → Cleared l l
  unlit-Cleared l shows unlit = record {
    kept = refl;
    rest = λ j near ne.
        shows i j h near
        ∙ dark_around (data_at n l i).state (data_at n l i).animation_step (data_at n l i).blink_on
            (dist m.index j) unlit ne;
    others = λ s j out. refl;
  }
    where
      dark_around :
          (s : PositionState) (step : ℕ) (on : Bool) (k : ℕ)
          → (is_animating s || is_expanded s) ≡ false
          → k ≢ 0
          → look_of n laws s step on k ≡ black n
      dark_around off step on k u ne = refl
      dark_around shown step on k u ne = rw (==_ne k 0 ne) refl
      dark_around blinking step on k u ne = rw (==_ne k 0 ne) refl
      dark_around animating step on k u ne = absurd (ground (arith, u))
      dark_around expanded step on k u ne = absurd (ground (arith, u))

  pub clear_if_lit-Cleared :
      (l : LedController n) → Shows n laws l → Cleared l (clear_if_lit n i m l)
  unfolding clear_if_lit
  clear_if_lit-Cleared l shows =
      elim (Bool-cases (is_animating (data_at n l i).state || is_expanded (data_at n l i).state)) [
        | inl lit ↦ rw lit (clear-Cleared l)
        | inr unlit ↦ rw unlit (unlit-Cleared l shows unlit)
      ]

  centre_only : (j : ℕ) → dist m.index j ≢ 0 → (m.index == j) ≡ false
  centre_only j ne = ground (arith, ne)

  -- A centre painted on a cleared region shows data that have a centre only.
  pub centre-Repainted :
      (c : n.Color) (d : PositionData) (l l₁ l' : LedController n)
      → Cleared l l₁
      → l'.positions ≡ set l.positions i d
      → ((s : StripId) (j : ℕ)
          → pixel_at n laws l' s j
            ≡ (if same_strip m.strip s && m.index == j then c else pixel_at n laws l₁ s j))
      → ((k : ℕ) → look n laws d k ≡ (if k == 0 then c else black n))
      → Repainted n laws i d l l'
  centre-Repainted c d l l₁ l' v stored seen e = record {
    stored = stored;
    painted = λ j near.
        seen m.strip j
        ∙ (painted j (pixel_at n laws l₁ m.strip j) (v.rest j near) ∙ sym (e (dist m.index j)));
    others = λ s j out. seen s j ∙ (missed s j (pixel_at n laws l₁ s j) out ∙ v.others s j out);
  }
    where
      painted :
          (j : ℕ) (o : n.Color)
          → (dist m.index j ≢ 0 → o ≡ black n)
          → (if same_strip m.strip m.strip && m.index == j then c else o)
            ≡ (if dist m.index j == 0 then c else black n)
      painted j o rest = elim (Bool-cases (m.index == j)) [
        | inl here ↦
            let none_between : (dist m.index j == 0) ≡ true = ground (arith, here) in
            rw (same_self m.strip, here, none_between) refl
        | inr elsewhere ↦
            let between : (dist m.index j == 0) ≡ false = ground (arith, elsewhere) in
            rw (same_self m.strip, elsewhere, between) (rest (ground (arith, between)))
      ]

      missed :
          (s : StripId) (j : ℕ) (o : n.Color)
          → covers n laws i s j ≡ false
          → (if same_strip m.strip s && m.index == j then c else o) ≡ o
      missed s j o out =
          let not_here : (same_strip m.strip s && m.index == j) ≡ false = ground (arith, out) in
          rw not_here refl

  -- The same when the data is stored before the centre is painted.
  pub Cleared-centre :
      (c : n.Color) (d : PositionData) (l l₁ : LedController n)
      → Cleared l l₁
      → ((k : ℕ) → look n laws d k ≡ (if k == 0 then c else black n))
      → Repainted n laws i d l (mark n (set_led n m.strip (pos m.index) c (put_data n i d l₁)))
  Cleared-centre c d l l₁ v e =
      let l₂ : LedController n = put_data n i d l₁ in
      let l₃ : LedController n = set_led n m.strip (pos m.index) c l₂ in
      let (low, high) = mapping_at-Inside i h in
      centre-Repainted c d l l₁ (mark n l₃) v
        (positions-set_led n m.strip (pos m.index) c l₂ ∙ ap (λ ds. set ds i d) v.kept)
        (λ s j.
          unseen l₃ (mark n l₃) s j refl refl
          ∙ (pixel-set_led n laws m.strip s m.index j c l₂ (omega arith)
              ∙ ap (λ o. if same_strip m.strip s && m.index == j then c else o)
                  (unseen l₁ l₂ s j refl refl)))
        e

  -- And when it is stored after.
  pub Cleared-stored :
      (c : n.Color) (d : PositionData) (l : LedController n)
      → Cleared l l
      → ((k : ℕ) → look n laws d k ≡ (if k == 0 then c else black n))
      → Repainted n laws i d l (mark n (put_data n i d (set_led n m.strip (pos m.index) c l)))
  Cleared-stored c d l v e =
      let l₁ : LedController n = set_led n m.strip (pos m.index) c l in
      let (low, high) = mapping_at-Inside i h in
      centre-Repainted c d l l (mark n (put_data n i d l₁)) v
        (ap (λ ds. set ds i d) (positions-set_led n m.strip (pos m.index) c l))
        (λ s j.
          unseen l₁ (mark n (put_data n i d l₁)) s j refl refl
          ∙ pixel-set_led n laws m.strip s m.index j c l (omega arith))
        e

  -- A cleared region shows dark data.
  pub clear-Repainted :
      (d : PositionData) (l : LedController n)
      → ((k : ℕ) → look n laws d k ≡ black n)
      → Repainted n laws i d l (mark n (put_data n i d (clear_expanded_region n m l)))
  clear-Repainted d l e =
      let l₁ : LedController n = clear_expanded_region n m l in
      let l' : LedController n = mark n (put_data n i d l₁) in
      let seen = λ (s : StripId) (j : ℕ).
        unseen l₁ l' s j refl refl ∙ pixel-clear n laws m l s j (mapping_at-Inside i h) in
      record {
        stored = ap (λ ds. set ds i d) (positions-clear n m l);
        painted = λ j near.
            seen m.strip j
            ∙ (rw (same_self m.strip, le→leb (dist m.index j) 5 near) (sym (e (dist m.index j))));
        others = λ s j out. seen s j ∙ rw out refl;
      }

  -- A shown centre goes black before the expansion.
  shown-Cleared :
      (l : LedController n) → Cleared l l → Cleared l (set_led n m.strip (pos m.index) (black n) l)
  shown-Cleared l v =
      let (low, high) = mapping_at-Inside i h in
      let seen = λ (s : StripId) (j : ℕ).
        pixel-set_led n laws m.strip s m.index j (black n) l (omega arith) in
      record {
        kept = positions-set_led n m.strip (pos m.index) (black n) l;
        rest = λ j near ne.
            seen m.strip j ∙ rw (same_self m.strip, centre_only j ne) (v.rest j near ne);
        others = λ s j out.
            seen s j ∙ ap (λ b. if b then black n else pixel_at n laws l s j) (outside s j out);
      }
    where
      outside :
          (s : StripId) (j : ℕ)
          → covers n laws i s j ≡ false
          → (same_strip m.strip s && m.index == j) ≡ false
      outside s j out = ground (arith, out)

  pub clear_before_success-Cleared :
      (l : LedController n) → Shows n laws l → Cleared l (clear_before_success n i m l)
  unfolding clear_before_success
  clear_before_success-Cleared l shows =
      elim (Bool-cases (is_animating (data_at n l i).state || is_expanded (data_at n l i).state)) [
        | inl lit ↦ rw lit (clear-Cleared l)
        | inr unlit ↦ elim (Bool-cases (is_shown (data_at n l i).state)) [
          | inl was ↦ rw (unlit, was) (shown-Cleared l (unlit-Cleared l shows unlit))
          | inr other ↦ rw (unlit, other) (unlit-Cleared l shows unlit)
        ]
      ]
