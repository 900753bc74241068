-- ===== src/Led/Shows.antt =====
-- What the strips of src/LedController.cpp show: in the region of each position, what its data says.
use hardware.Base.{
  ℕ, ◌<◌, ◌≤◌, ◌≡◌, ◌≢◌, sym, ap, ◌∙◌, subst, Bool, false, ◌&&◌, leb, ◌==◌, if◌then◌else◌, get_or,
  set, length, get_or-set_self, get_or-set_ne, arith, Bool-cases, inl, inr, ==_iff,
}
use hardware.Led.State.{
  StripId, PositionState, off, shown, animating, expanded, blinking, PositionData, mapping_at, dark,
}
use hardware.Led.Strip.{NeoPixel, PixelLaws, LedController, blue, green, orange, black}
use hardware.Led.Controller.{data_at}
use hardware.Led.Pixels.{same_strip, dist, pixel_at}
use hardware.Led.Regions.{regions_apart}

module _ (n : NeoPixel) (laws : PixelLaws n) where
  -- The colour at distance k from the centre of a position with the data d.
  abbrev pub look_of : PositionState → ℕ → Bool → ℕ → n.Color
  look_of off step on k = black n
  look_of shown step on k = if k == 0 then blue n else black n
  look_of blinking step on k = if k == 0 then (if on then orange n else black n) else black n
  look_of animating step on k = if leb k step then green n else black n
  look_of expanded step on k = if leb k step then green n else black n

  abbrev pub look : PositionData → ℕ → n.Color
  look d k = look_of d.state d.animation_step d.blink_on k

  abbrev pub Shows : LedController n → Type 0
  Shows l =
      (i j : ℕ)
      → i < 25
      → dist (mapping_at i).index j ≤ 5
      → pixel_at n laws l (mapping_at i).strip j
        ≡ look (data_at n l i) (dist (mapping_at i).index j)

  -- Which pixels the region of position i has.
  abbrev pub covers : ℕ → (s : StripId) → ℕ → Bool
  covers i s j = same_strip (mapping_at i).strip s && leb (dist (mapping_at i).index j) 5

  -- A change of one position: its data, and pixels of its region alone, which show the new data.
  pub record Repainted (i : ℕ) (d : PositionData) (l l' : LedController n) : Type 0 where
    pub stored : l'.positions ≡ set l.positions i d
    pub painted :
        (j : ℕ)
        → dist (mapping_at i).index j ≤ 5
        → pixel_at n laws l' (mapping_at i).strip j ≡ look d (dist (mapping_at i).index j)
    pub others :
        (s : StripId) (j : ℕ)
        → covers i s j ≡ false
        → pixel_at n laws l' s j ≡ pixel_at n laws l s j

  pub Repainted-Shows :
      (i : ℕ) (d : PositionData) (l l' : LedController n)
      → i < 25
      → length l.positions ≡ 25
      → Repainted i d l l'
      → Shows l
      → Shows l'
  Repainted-Shows i d l l' hi size r shows k j hk near = elim (Bool-cases (i == k)) [
    | inl here ↦
        let e : i ≡ k = (==_iff i k).0 here in
        let new : data_at n l' i ≡ d =
          ap (λ ds. get_or ds i dark) r.stored
          ∙ get_or-set_self l.positions i d dark (omega arith) in
        subst
          (λ k.
            dist (mapping_at k).index j ≤ 5
            → pixel_at n laws l' (mapping_at k).strip j
              ≡ look (data_at n l' k) (dist (mapping_at k).index j))
          e (λ near. r.painted j near ∙ ap (λ x. look x (dist (mapping_at i).index j)) (sym new))
          near
    | inr elsewhere ↦
        let ne : i ≢ k = ground (arith, elsewhere) in
        let same : data_at n l' k ≡ data_at n l k =
          ap (λ ds. get_or ds k dark) r.stored ∙ get_or-set_ne l.positions i k d dark ne in
        r.others (mapping_at k).strip j (regions_apart i k j hi hk ne near)
        ∙ (shows k j hk near ∙ ap (λ x. look x (dist (mapping_at k).index j)) (sym same))
  ]
