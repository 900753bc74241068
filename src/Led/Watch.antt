-- ===== src/Led/Watch.antt =====
-- One expanding position of src/LedController.cpp at a sequence of times, over the wrap-around of
-- `millis()`: the clock shows the true time modulo 2 ^ 32.
use mathlib.Core.Bool.{false≢true}
use hardware.Base.{
  ℕ, ◌+◌, ◌-◌, ◌*◌, ◌%◌, ◌^◌, ◌<◌, ◌≤◌, ◌≡◌, refl, sym, ap, ◌∙◌, subst, Bool, true, false, List, [],
  ◌∷◌, ◌++◌, leb, length, arith, Bool-cases, inl, inr, ltb, ltb→lt,
}
use hardware.Base.Words.{add8, sub32}
use hardware.Led.State.{animating, expanded, PositionData, is_animating}
use hardware.Led.Update.{advance}
use hardware.Led.Positions.{on_update}

abbrev pub clock_at : ℕ → ℕ
clock_at t = t % 2 ^ 32

-- Times of calls, none before the one before it, all before `limit`.
abbrev pub InOrder : ℕ → ℕ → List ℕ → Type 0
InOrder limit before [] = Unit
InOrder limit before (t ∷ ts) = (before ≤ t) × (t < limit) × InOrder limit t ts

-- Times of calls at least 80 ms apart, all before `limit`.
abbrev pub Spaced : ℕ → ℕ → List ℕ → Type 0
Spaced limit before [] = Unit
Spaced limit before (t ∷ ts) = (before + 80 ≤ t) × (t < limit) × Spaced limit t ts

abbrev pub last_time : ℕ → List ℕ → ℕ
last_time before [] = before
last_time before (t ∷ ts) = last_time t ts

pub last_time-le :
    (limit before : ℕ) (ts : List ℕ) → InOrder limit before ts → before ≤ last_time before ts
last_time-le limit before [] h = omega arith
last_time-le limit before (t ∷ ts) h = omega (arith, last_time-le limit t ts h.2, h.0)

-- A position's data under the updates at these times.
abbrev pub watch : List ℕ → PositionData → PositionData
watch [] d = d
watch (t ∷ ts) d = watch ts (on_update (clock_at t) d)

abbrev pub growing : ℕ → ℕ → Bool → PositionData
growing step time on = record {
  state = animating;
  animation_step = step;
  last_animation_time = clock_at time;
  blink_on = on;
}

abbrev pub full : ℕ → Bool → PositionData
full time on = record {
  state = expanded;
  animation_step = 5;
  last_animation_time = clock_at time;
  blink_on = on;
}

pub elapsed_lem :
    (t last : ℕ) → last ≤ t → t < last + 2 ^ 32 → sub32 (clock_at t) (clock_at last) ≡ t - last
elapsed_lem t last h k = omega arith

pub watch-full : (ts : List ℕ) (time : ℕ) (on : Bool) → watch ts (full time on) ≡ full time on
watch-full [] time on = refl
watch-full (t ∷ ts) time on = watch-full ts time on

-- The three outcomes of an update for a growing region.
pub early_step :
    (step last t : ℕ) (on : Bool)
    → last ≤ t
    → t < last + 80
    → on_update (clock_at t) (growing step last on) ≡ growing step last on
early_step step last t on h k =
    let too_soon : leb 80 (sub32 (clock_at t) (clock_at last)) ≡ false = ground arith in rw too_soon

pub due_step :
    (step last t : ℕ) (on : Bool)
    → last + 80 ≤ t
    → t < last + 2 ^ 32
    → step < 4
    → on_update (clock_at t) (growing step last on) ≡ growing (step + 1) t on
unfolding advance
due_step step last t on h k s =
    let due : leb 80 (sub32 (clock_at t) (clock_at last)) ≡ true = ground arith in
    let more : leb 5 (add8 step 1) ≡ false = ground arith in
    let next : add8 step 1 ≡ step + 1 = omega arith in
    rw (due, more) (ap (λ k. growing k t on) next)

pub last_step :
    (last t : ℕ) (on : Bool)
    → last + 80 ≤ t
    → t < last + 2 ^ 32
    → on_update (clock_at t) (growing 4 last on) ≡ full t on
unfolding advance
last_step last t on h k =
    let due : leb 80 (sub32 (clock_at t) (clock_at last)) ≡ true = ground arith in rw due

pub watch_not_early :
    (ts : List ℕ) (start step last before : ℕ) (on : Bool)
    → step < 5
    → start + 80 * step ≤ last
    → last ≤ before
    → InOrder (start + 2 ^ 32) before ts
    → is_animating (watch ts (growing step last on)).state ≡ false
    → start + 400 ≤ last_time before ts
watch_not_early [] start step last before on s h k o done = absurd (false≢true (sym done))
watch_not_early (t ∷ ts) start step last before on s h k o done =
    elim (Bool-cases (ltb t (last + 80))) [
      | inl early ↦ watch_not_early ts start step last t on s h (omega arith) o.2 (
          then_done (growing step last on)
            (early_step step last t on (omega arith) (ltb→lt _ _ early)))
      | inr due ↦ elim (Bool-cases (ltb step 4)) [
        | inl more ↦
            watch_not_early ts start (step + 1) t t on (ground arith) (ground arith) (omega arith)
              o.2
              (then_done (growing (step + 1) t on)
                (due_step step last t on (ground arith) (omega arith) (ltb→lt _ _ more)))
        | inr final ↦ ground (arith, last_time-le (start + 2 ^ 32) t ts o.2)
      ]
    ]
  where
    then_done :
        (d : PositionData)
        → on_update (clock_at t) (growing step last on) ≡ d
        → is_animating (watch ts d).state ≡ false
    then_done d e = subst (λ d. is_animating (watch ts d).state ≡ false) e done

-- Five steps, by those done and updates 80 ms apart, finish the region, and it stays so at any later times.
pub watch_finishes :
    (ts later : List ℕ) (start step last : ℕ) (on : Bool)
    → step < 5
    → start ≤ last
    → Spaced (start + 2 ^ 32) last ts
    → 5 ≤ step + length ts
    → (watch (ts ++ later) (growing step last on)).state ≡ expanded
watch_finishes [] later start step last on s h o k = absurd (omega arith)
watch_finishes (t ∷ ts) later start step last on s h o k = elim (Bool-cases (ltb step 4)) [
  | inl more ↦
      subst (λ d. (watch (ts ++ later) d).state ≡ expanded)
        (sym (due_step step last t on o.0 (omega arith) (ltb→lt _ _ more)))
        (watch_finishes ts later start (step + 1) t on (ground arith) (omega arith) o.2
          (omega arith))
  | inr final ↦
      let four : step ≡ 4 = ground arith in
      subst (λ d. (watch (ts ++ later) d).state ≡ expanded)
        (sym (
          ap (λ k. on_update (clock_at t) (growing k last on)) four
          ∙ last_step last t on o.0 (omega arith)))
        (ap (λ d. d.state) (watch-full (ts ++ later) t on))
]
