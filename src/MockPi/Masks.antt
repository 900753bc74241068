-- ===== src/MockPi/Masks.antt =====
-- The mask of touched sensors that `pollTouchState` of src/MockPiPrograms.cpp builds.
use hardware.Base.{
  ℕ, zero, suc, ◌+◌, ◌*◌, ◌/◌, ◌^◌, ◌<◌, ◌≡◌, refl, ap, ◌∙◌, true, false, if◌then◌else◌, Bool-cases,
  inl, inr, arith,
}
use native.Mathlib.Nat.{add-zero, add_assoc, mul-add, mul_comm, mul_assoc}
use native.Mathlib.Numerals.{towards_suc}
use hardware.Touch.State.{TouchController}
use hardware.Touch.Controller.{is_touched}
use hardware.MockPi.Touch.{bit_at, touched_from}

-- The touches of sensors from `i` on as the digits of a number.
bits : ℕ → TouchController → ℕ → ℕ
bits zero t i = 0
bits (suc n) t i = (if is_touched t i then 1 else 0) + 2 * bits n t (i + 1)

shift : (mask b x y r : ℕ) → y ≡ 2 * x → mask + x * b + y * r ≡ mask + x * (b + 2 * r)
shift mask b x y r h =
    rw (h, mul-add x b (2 * r), mul_comm 2 x, mul_assoc x 2 r, add_assoc mask (x * b) (x * (2 * r)))
      refl

touched_from-bits :
    (n : ℕ) (t : TouchController) (i mask : ℕ) → touched_from n t i mask ≡ mask + 2 ^ i * bits n t i
unfolding touched_from bits
touched_from-bits zero t i mask = omega arith
touched_from-bits (suc n) t i mask =
    let two : 2 ^ (i + 1) ≡ 2 * 2 ^ i = simp towards_suc (omega arith) in
    elim (is_touched t i)
      as (λ b.
        touched_from n t (i + 1) (if b then mask + 2 ^ i else mask)
        ≡ mask + 2 ^ i * ((if b then 1 else 0) + 2 * bits n t (i + 1))) [
          | true ↦
              touched_from-bits n t (i + 1) (mask + 2 ^ i)
              ∙ omega (arith, shift mask 1 (2 ^ i) (2 ^ (i + 1)) (bits n t (i + 1)) two)
          | false ↦
              touched_from-bits n t (i + 1) mask
              ∙ omega (arith, shift mask 0 (2 ^ i) (2 ^ (i + 1)) (bits n t (i + 1)) two)
        ]

bit_at-bits :
    (n k : ℕ) (t : TouchController) (i : ℕ) → k < n → bit_at (bits n t i) k ≡ is_touched t (i + k)
unfolding bits
bit_at-bits zero k t i h = absurd (omega arith)
bit_at-bits (suc n) zero t i h = elim (Bool-cases (is_touched t i)) [
  | inl h ↦ rw (add-zero, h) (ground arith)
  | inr h ↦ rw (add-zero, h) (ground arith)
]
bit_at-bits (suc n) (suc k) t i h =
    let half : ((if is_touched t i then 1 else 0) + 2 * bits n t (i + 1)) / 2 ≡ bits n t (i + 1) =
      ground arith in
    let next : i + 1 + k ≡ i + suc k = omega arith in
    ap (λ m. bit_at m k) half ∙ (bit_at-bits n k t (i + 1) (omega arith) ∙ ap (is_touched t) next)

pub bit_at-zero : (k : ℕ) → bit_at 0 k ≡ false
bit_at-zero zero = refl
bit_at-zero (suc k) = bit_at-zero k

-- Bit `k` of the mask says whether sensor `k` is touched.
pub bit_at-touched_from :
    (t : TouchController) (k : ℕ) → k < 25 → bit_at (touched_from 25 t 0 0) k ≡ is_touched t k
bit_at-touched_from t k h =
    let all : touched_from 25 t 0 0 ≡ bits 25 t 0 = touched_from-bits 25 t 0 0 ∙ omega arith in
    let here : 0 + k ≡ k = omega arith in
    ap (λ m. bit_at m k) all ∙ (bit_at-bits 25 k t 0 h ∙ ap (is_touched t) here)
