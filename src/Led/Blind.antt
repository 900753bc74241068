-- ===== src/Led/Blind.antt =====
-- The operations of src/LedController.cpp that write LEDs leave everything but the strips alone: what
-- depends on neither strip is the same after them.
use hardware.Base.{
  ℕ, zero, suc, ◌<◌, ◌≡◌, refl, Bool, true, false, ltb, leb, arith, Bool-cases, inl, inr, some,
}
use hardware.Base.Int.{ℤ, pos, negsuc}
use hardware.Led.State.{
  StripId, strip1, strip2, LedMapping, PositionState, off, shown, animating, expanded, blinking,
  PositionData, get_mapping, mapping_at,
}
use hardware.Led.Strip.{
  NeoPixel, LedController, set_led, set_led_if, clear_from, clear_expanded_region, light_from,
  light_region,
}
use hardware.Led.Controller.{clear_if_lit, clear_before_success}
use hardware.Led.Update.{render_state, render_position}

pub get_mapping_in :
    (position : ℕ) → position < 25 → get_mapping position ≡ some (mapping_at position)
unfolding get_mapping
get_mapping_in position h = ground arith

module _ {ℓ} (n : NeoPixel) {B : Type ℓ} (P : LedController n → B)
    (blind1 : (s : n.Strip) (l : LedController n) → P (record l { strip1 = s }) ≡ P l)
    (blind2 : (s : n.Strip) (l : LedController n) → P (record l { strip2 = s }) ≡ P l) where
  pub blind-set_led :
      (s : StripId) (i : ℤ) (c : n.Color) (l : LedController n) → P (set_led n s i c l) ≡ P l
  unfolding set_led
  blind-set_led strip1 (negsuc k) c l = refl
  blind-set_led strip2 (negsuc k) c l = refl
  blind-set_led strip1 (pos k) c l = elim (Bool-cases (ltb k 190)) [
    | inl inside ↦ rw inside (blind1 (n.set_pixel_color k c l.strip1) l)
    | inr outside ↦ rw outside
  ]
  blind-set_led strip2 (pos k) c l = elim (Bool-cases (ltb k 190)) [
    | inl inside ↦ rw inside (blind2 (n.set_pixel_color k c l.strip2) l)
    | inr outside ↦ rw outside
  ]

  pub blind-set_led_if :
      (b : Bool) (s : StripId) (i : ℤ) (c : n.Color) (l : LedController n)
      → P (set_led_if n b s i c l) ≡ P l
  unfolding set_led_if
  blind-set_led_if true s i c l = blind-set_led s i c l
  blind-set_led_if false s i c l = refl

  pub blind-clear_from :
      (r k : ℕ) (m : LedMapping) (l : LedController n) → P (clear_from n r k m l) ≡ P l
  unfolding clear_from
  blind-clear_from zero k m l = refl
  blind-clear_from (suc r) k m l = rw (blind-clear_from r, blind-set_led_if)

  pub blind-light_from :
      (r k : ℕ) (m : LedMapping) (l : LedController n) → P (light_from n r k m l) ≡ P l
  unfolding light_from
  blind-light_from zero k m l = refl
  blind-light_from (suc r) k m l = simp (blind-light_from r, blind-set_led_if)

  pub blind-clear : (m : LedMapping) (l : LedController n) → P (clear_expanded_region n m l) ≡ P l
  unfolding clear_expanded_region
  blind-clear m l = blind-clear_from 11 0 m l

  pub blind-light : (r : ℕ) (m : LedMapping) (l : LedController n) → P (light_region n r m l) ≡ P l
  unfolding light_region
  blind-light r m l = rw (blind-light_from r, blind-set_led)

  pub blind-clear_if_lit :
      (i : ℕ) (m : LedMapping) (l : LedController n) → P (clear_if_lit n i m l) ≡ P l
  unfolding clear_if_lit
  blind-clear_if_lit i m l = ground (arith, blind-clear m l)

  pub blind-clear_before_success :
      (i : ℕ) (m : LedMapping) (l : LedController n) → P (clear_before_success n i m l) ≡ P l
  unfolding clear_before_success
  blind-clear_before_success i m l =
      ground (arith, blind-clear m l, blind-set_led m.strip (pos m.index) (n.color 0 0 0) l)

  pub blind-render_state :
      (s : PositionState) (d : PositionData) (m : LedMapping) (l : LedController n)
      → P (render_state n s d m l) ≡ P l
  unfolding render_state
  blind-render_state off d m l = refl
  blind-render_state shown d m l = rw blind-set_led
  blind-render_state blinking d m l = rw blind-set_led
  blind-render_state animating d m l = blind-light d.animation_step m l
  blind-render_state expanded d m l = blind-light d.animation_step m l

  pub blind-render : (l : LedController n) (i : ℕ) → P (render_position n l i) ≡ P l
  unfolding render_position
  blind-render l i = elim (Bool-cases (leb 25 i)) [
    | inl out ↦ rw out
    | inr in_range ↦
        rw (in_range, get_mapping_in i (ground arith)) (blind-render_state _ _ (mapping_at i) l)
  ]
