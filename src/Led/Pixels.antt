-- ===== src/Led/Pixels.antt =====
-- What the methods of src/LedController.cpp that write LEDs do to each pixel of the two strips.
use hardware.Base.{
  ℕ, zero, suc, ◌+◌, ◌-◌, ◌<◌, ◌≤◌, ◌≡◌, refl, ap, ◌∙◌, Bool, true, false, ◌&&◌, ltb, leb, ◌==◌,
  if◌then◌else◌, arith, lt→ltb, le→leb,
}
use hardware.Base.Int.{pos, sub_ℕ}
use hardware.Led.State.{StripId, strip1, strip2, LedMapping}
use hardware.Led.Strip.{
  NeoPixel, PixelLaws, LedController, get_strip, get_strip_length, is_nonneg, is_below, black,
  green, set_led, set_led_if, clear_from, clear_expanded_region, light_from, light_region,
}

abbrev pub same_strip : StripId → StripId → Bool
same_strip strip1 strip1 = true
same_strip strip2 strip2 = true
same_strip _ _ = false

abbrev pub dist : ℕ → ℕ → ℕ
dist a b = (a - b) + (b - a)

-- The region of a position lies within its strip.
abbrev pub Inside : LedMapping → Type 0
Inside m = (5 ≤ m.index) × (m.index + 5 < 190)

strip_length : (s : StripId) → get_strip_length s ≡ 190
strip_length strip1 = refl
strip_length strip2 = refl

-- A pixel in the rest of a region, or at its first place, is one in the region.
module _ {A : Type 0} where
  nothing :
      (b : Bool) (i j : ℕ) (c o : A)
      → o ≡ (if b && (leb i (j + 5) && ltb (j + 5) (i + 0)) then c else o)
  nothing b i j c o = ground arith

  joins :
      (b : Bool) (i k r j : ℕ) (c o : A)
      → 5 ≤ i
      → (if b && (leb (i + (k + 1)) (j + 5) && ltb (j + 5) (i + (k + 1) + r))
          then c
          else (if b && (i + k - 5 == j) then c else o))
        ≡ (if b && (leb (i + k) (j + 5) && ltb (j + 5) (i + k + suc r)) then c else o)
  joins b i k r j c o h = ground arith

  region :
      (b : Bool) (i j : ℕ) (c o : A)
      → (if b && (leb (i + 0) (j + 5) && ltb (j + 5) (i + 0 + 11)) then c else o)
        ≡ (if b && leb (dist i j) 5 then c else o)
  region b i j c o = ground arith

  none_lit : (b : Bool) (r d : ℕ) (c o : A) → o ≡ (if b && (leb r d && ltb d (r + 0)) then c else o)
  none_lit b r d c o = ground arith

  joins_lit :
      (b : Bool) (i r k j : ℕ) (c o : A)
      → r ≤ i
      → (if b && (leb (r + 1) (dist i j) && ltb (dist i j) (r + 1 + k))
          then c
          else (if b && (i + r == j) then c else (if b && (i - r == j) then c else o)))
        ≡ (if b && (leb r (dist i j) && ltb (dist i j) (r + suc k)) then c else o)
  joins_lit b i r k j c o h = ground arith

  centre_lit :
      (b : Bool) (i r j : ℕ) (c o : A)
      → (if b && (leb 1 (dist i j) && ltb (dist i j) (1 + r))
          then c
          else (if b && (i == j) then c else o))
        ≡ (if b && leb (dist i j) r then c else o)
  centre_lit b i r j c o = ground arith

module _ (n : NeoPixel) (laws : PixelLaws n) where
  abbrev pub pixel_at : LedController n → StripId → ℕ → n.Color
  pixel_at l s j = laws.pixel (get_strip n s l) j

  pub pixel-set_led :
      (strip s : StripId) (k j : ℕ) (c : n.Color) (l : LedController n)
      → k < 190
      → pixel_at (set_led n strip (pos k) c l) s j
        ≡ (if same_strip strip s && k == j then c else pixel_at l s j)
  unfolding set_led
  pixel-set_led strip1 strip1 k j c l h = rw (lt→ltb k 190 h) (laws.pixel-set k c l.strip1 j h)
  pixel-set_led strip1 strip2 k j c l h = rw (lt→ltb k 190 h) refl
  pixel-set_led strip2 strip1 k j c l h = rw (lt→ltb k 190 h) refl
  pixel-set_led strip2 strip2 k j c l h = rw (lt→ltb k 190 h) (laws.pixel-set k c l.strip2 j h)

  written :
      (i k : ℕ) (m : LedMapping) (c : n.Color) (l : LedController n)
      → 5 ≤ i + k
      → i + k < 195
      → let idx = sub_ℕ (i + k) 5 in
        set_led_if n (is_nonneg idx && is_below idx (get_strip_length m.strip)) m.strip idx c l
        ≡ set_led n m.strip (pos (i + k - 5)) c l
  unfolding set_led_if
  written i k m c l low high =
      let inside : ltb (i + k - 5) (get_strip_length m.strip) ≡ true =
        rw (strip_length m.strip) (lt→ltb (i + k - 5) 190 (omega arith)) in
      rw (le→leb 5 (i + k) low, inside) refl

  -- The rest of the loop paints from offset k on.
  pixel-clear_from :
      (rounds k : ℕ) (m : LedMapping) (l : LedController n) (s : StripId) (j : ℕ)
      → 5 ≤ m.index
      → m.index + k + rounds ≤ 195
      → pixel_at (clear_from n rounds k m l) s j ≡ (
          if same_strip m.strip s
            && (leb (m.index + k) (j + 5) && ltb (j + 5) (m.index + k + rounds))
          then black n
          else pixel_at l s j)
  unfolding clear_from
  pixel-clear_from zero k m l s j low high =
      nothing (same_strip m.strip s) (m.index + k) j (black n) (pixel_at l s j)
  pixel-clear_from (suc rounds) k m l s j low high =
      let l' = set_led n m.strip (pos (m.index + k - 5)) (black n) l in
      rw (written m.index k m (black n) l (omega arith) (omega arith)) (
        pixel-clear_from rounds (k + 1) m l' s j low (omega arith)
        ∙ (ap
              (λ o.
                if same_strip m.strip s
                  && (leb (m.index + (k + 1)) (j + 5) && ltb (j + 5) (m.index + (k + 1) + rounds))
                then black n
                else o)
              (pixel-set_led m.strip s (m.index + k - 5) j (black n) l (omega arith))
            ∙ joins (same_strip m.strip s) m.index k rounds j (black n) (pixel_at l s j) low))

  pub pixel-clear :
      (m : LedMapping) (l : LedController n) (s : StripId) (j : ℕ)
      → Inside m
      → pixel_at (clear_expanded_region n m l) s j
        ≡ (if same_strip m.strip s && leb (dist m.index j) 5 then black n else pixel_at l s j)
  unfolding clear_expanded_region
  pixel-clear m l s j (low, high) =
      pixel-clear_from 11 0 m l s j low (omega arith)
      ∙ region (same_strip m.strip s) m.index j (black n) (pixel_at l s j)

  -- The rest of the loop lights the LEDs at distance r and more.
  pixel-light_from :
      (rounds r : ℕ) (m : LedMapping) (l : LedController n) (s : StripId) (j : ℕ)
      → r + rounds ≤ 6
      → Inside m
      → pixel_at (light_from n rounds r m l) s j ≡ (
          if same_strip m.strip s && (leb r (dist m.index j) && ltb (dist m.index j) (r + rounds))
          then green n
          else pixel_at l s j)
  unfolding light_from set_led_if
  pixel-light_from zero r m l s j h v =
      none_lit (same_strip m.strip s) r (dist m.index j) (green n) (pixel_at l s j)
  pixel-light_from (suc rounds) r m l s j h (low, high) =
      let l₁ = set_led n m.strip (pos (m.index - r)) (green n) l in
      let l₂ = set_led n m.strip (pos (m.index + r)) (green n) l₁ in
      let left : leb r m.index ≡ true = ground (arith, low, h) in
      let right : ltb (m.index + r) (get_strip_length m.strip) ≡ true =
        rw (strip_length m.strip) (lt→ltb (m.index + r) 190 (omega arith)) in
      rw (left, right)
        (pixel-light_from rounds (r + 1) m l₂ s j (omega arith) (low, high)
          ∙ rw
              (
                pixel-set_led m.strip s (m.index + r) j (green n) l₁ (omega arith),
                pixel-set_led m.strip s (m.index - r) j (green n) l (omega arith),
              )
              (joins_lit (same_strip m.strip s) m.index r rounds j (green n) (pixel_at l s j)
                (omega arith)))

  pub pixel-light :
      (radius : ℕ) (m : LedMapping) (l : LedController n) (s : StripId) (j : ℕ)
      → radius ≤ 5
      → Inside m
      → pixel_at (light_region n radius m l) s j
        ≡ (if same_strip m.strip s && leb (dist m.index j) radius then green n else pixel_at l s j)
  unfolding light_region
  pixel-light radius m l s j h (low, high) =
      pixel-light_from radius 1 m (set_led n m.strip (pos m.index) (green n) l) s j (omega arith)
        (low, high)
      ∙ rw (pixel-set_led m.strip s m.index j (green n) l (omega arith))
          (centre_lit (same_strip m.strip s) m.index radius j (green n) (pixel_at l s j))
