-- ===== src/Led/Loops.antt =====
-- The loops of `update` in src/LedController.cpp change nothing but positions and strips: what depends on
-- neither is the same after them.
use hardware.Base.{
  ℕ, zero, suc, ◌+◌, ◌≡◌, refl, ◌∙◌, Bool, true, false, not, List, leb, ltb, Bool-cases, inl, inr,
  if◌then◌else◌,
}
use hardware.Base.Words.{sub32}
use hardware.Led.State.{PositionData, is_animating, is_blinking_state, get_mapping}
use hardware.Led.Strip.{NeoPixel, LedController}
use hardware.Led.Blind.{blind-render}
use hardware.Led.Controller.{data_at, put_data, mark}
use hardware.Led.Update.{
  advance, render_position, update_animation, animate_one, blink_one, for_from, update_blinking,
  push_leds,
}

module _ {ℓ} (n : NeoPixel) {B : Type ℓ} (P : LedController n → B)
    (blind1 : (s : n.Strip) (l : LedController n) → P (record l { strip1 = s }) ≡ P l)
    (blind2 : (s : n.Strip) (l : LedController n) → P (record l { strip2 = s }) ≡ P l)
    (blind_positions : (ds : List PositionData) (l : LedController n)
      → P (record l { positions = ds }) ≡ P l)
    (blind_mark : (b : Bool) (l : LedController n) → P (record l { needs_update = b }) ≡ P l) where
  rendered :
      (d : PositionData) (l : LedController n) (i : ℕ)
      → P (mark n (render_position n (put_data n i d l) i)) ≡ P l
  rendered d l i =
      blind_mark true (render_position n (put_data n i d l) i)
      ∙ (blind-render n P blind1 blind2 (put_data n i d l) i ∙ blind_positions _ l)

  blind-animate_one : (now : ℕ) (l : LedController n) (i : ℕ) → P (animate_one n now l i) ≡ P l
  unfolding animate_one update_animation get_mapping
  blind-animate_one now l i = elim (Bool-cases (is_animating (data_at n l i).state)) [
    | inr other ↦ rw other refl
    | inl was ↦ elim (Bool-cases (ltb (sub32 now (data_at n l i).last_animation_time) 80)) [
      | inl early ↦ rw (was, early) refl
      | inr due ↦ elim (Bool-cases (leb 25 i)) [
        | inl out ↦ rw (was, due, out) refl
        | inr in_range ↦ rw (was, due, in_range) (rendered (advance now (data_at n l i)) l i)
      ]
    ]
  ]

  blind-blink_one : (now : ℕ) (l : LedController n) (i : ℕ) → P (blink_one n now l i) ≡ P l
  unfolding blink_one
  blind-blink_one now l i =
      let d = data_at n l i in
      elim (Bool-cases (is_blinking_state d.state)) [
        | inr other ↦ rw other refl
        | inl was ↦ elim (Bool-cases (leb 150 (sub32 now d.last_animation_time))) [
          | inr early ↦ rw (was, early) refl
          | inl due ↦
              rw (was, due)
                (rendered (record d { blink_on = not d.blink_on; last_animation_time = now }) l i)
        ]
      ]

  blind-for_from :
      (body : LedController n → ℕ → LedController n)
      → ((l : LedController n) (i : ℕ) → P (body l i) ≡ P l)
      → (r i : ℕ) (l : LedController n) → P (for_from n r i body l) ≡ P l
  unfolding for_from
  blind-for_from body one zero i l = refl
  blind-for_from body one (suc r) i l = blind-for_from body one r (i + 1) (body l i) ∙ one l i

  pub blind-loops :
      (now : ℕ) (l : LedController n)
      → P (update_blinking n now (for_from n 25 0 (animate_one n now) l)) ≡ P l
  unfolding update_blinking
  blind-loops now l =
      blind-for_from (blink_one n now) (blind-blink_one now) 25 0
        (for_from n 25 0 (animate_one n now) l)
      ∙ blind-for_from (animate_one n now) (blind-animate_one now) 25 0 l

  pub blind-push_leds : (l : LedController n) → P (push_leds n l) ≡ P l
  unfolding push_leds
  blind-push_leds l =
      let l₁ : LedController n = record l { strip1 = n.show l.strip1 } in
      let l₂ : LedController n = record l₁ { strip2 = n.show l.strip2 } in
      either l.needs_update (record l₂ { needs_update = false }) l
        (blind_mark false l₂ ∙ (blind2 (n.show l.strip2) l₁ ∙ blind1 (n.show l.strip1) l)) refl
    where
      either :
          (b : Bool) (x y : LedController n) → P x ≡ P l → P y ≡ P l → P (if b then x else y) ≡ P l
      either true x y h k = h
      either false x y h k = k
