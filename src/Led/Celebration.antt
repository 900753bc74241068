-- ===== src/Led/Celebration.antt =====
-- How long the SEQUENCE_COMPLETED celebration of src/LedController.cpp takes.
use mathlib.Core.Bool.{false≢true}
use hardware.Base.{
  ℕ, ◌+◌, ◌*◌, ◌^◌, ◌<◌, ◌≤◌, ◌≡◌, refl, sym, ap, ◌∙◌, subst, Bool, true, false, List, [], ◌∷◌,
  ◌++◌, length, arith, Bool-cases, inl, inr, ltb, ltb→lt, if◌then◌else◌,
}
use hardware.Base.Words.{add8, sub32}
use hardware.Led.Strip.{NeoPixel, LedController}
use hardware.Led.Update.{
  update, start_sequence_completed_animation, update_sequence_completed_animation, fill_both,
  is_sequence_completed_animation_complete, for_from, animate_one, update_blinking,
}
use hardware.Led.Loops.{blind-loops, blind-push_leds}
use hardware.Led.Watch.{clock_at, InOrder, last_time, last_time-le}
use hardware.Led.Timing.{updates}

-- What the controller keeps of a celebration.
pub record Celebration : Type 0 where
  pub active : Bool
  pub step : ℕ
  pub since : ℕ

-- A look at the clock.
abbrev pub on_look : ℕ → Celebration → Celebration
on_look now c =
    if c.active
    then (if ltb (sub32 now c.since) 150
        then c
        else (if ltb (add8 c.step 1) 8
            then record { active = c.active; step = add8 c.step 1; since = now }
            else record { active = false; step = add8 c.step 1; since = now }))
    else c

abbrev looks : List ℕ → Celebration → Celebration
looks [] c = c
looks (t ∷ ts) c = looks ts (on_look (clock_at t) c)

-- Times of calls at least 150 ms apart, all before `limit`.
abbrev pub Paced : ℕ → ℕ → List ℕ → Type 0
Paced limit before [] = Unit
Paced limit before (t ∷ ts) = (before + 150 ≤ t) × (t < limit) × Paced limit t ts

abbrev running : ℕ → ℕ → Celebration
running step last = record { active = true; step = step; since = clock_at last }

looks-over :
    (ts : List ℕ) (step since : ℕ)
    → looks ts (record { active = false; step = step; since = since })
      ≡ record { active = false; step = step; since = since }
looks-over [] step since = refl
looks-over (t ∷ ts) step since = looks-over ts step since

early_look :
    (step last t : ℕ)
    → last ≤ t
    → t < last + 150
    → on_look (clock_at t) (running step last) ≡ running step last
early_look step last t h k =
    let too_soon : ltb (sub32 (clock_at t) (clock_at last)) 150 ≡ true = ground arith in
    rw too_soon refl

due_look :
    (step last t : ℕ)
    → last + 150 ≤ t
    → t < last + 2 ^ 32
    → step < 7
    → on_look (clock_at t) (running step last) ≡ running (step + 1) t
due_look step last t h k s =
    let due : ltb (sub32 (clock_at t) (clock_at last)) 150 ≡ false = ground arith in
    let more : ltb (add8 step 1) 8 ≡ true = ground arith in
    let next : add8 step 1 ≡ step + 1 = omega arith in rw (due, more) (ap (λ k. running k t) next)

last_look :
    (last t : ℕ)
    → last + 150 ≤ t
    → t < last + 2 ^ 32
    → on_look (clock_at t) (running 7 last)
      ≡ record { active = false; step = 8; since = clock_at t }
last_look last t h k =
    let due : ltb (sub32 (clock_at t) (clock_at last)) 150 ≡ false = ground arith in rw due refl

looks_not_early :
    (ts : List ℕ) (start step last before : ℕ)
    → step < 8
    → start + 150 * step ≤ last
    → last ≤ before
    → InOrder (start + 2 ^ 32) before ts
    → (looks ts (running step last)).active ≡ false
    → start + 1200 ≤ last_time before ts
looks_not_early [] start step last before s h k o done = absurd (false≢true (sym done))
looks_not_early (t ∷ ts) start step last before s h k o done =
    elim (Bool-cases (ltb t (last + 150))) [
      | inl early ↦
          looks_not_early ts start step last t s h (omega arith) o.2 (
            then_done (running step last) (early_look step last t (omega arith) (ltb→lt _ _ early)))
      | inr due ↦ elim (Bool-cases (ltb step 7)) [
        | inl more ↦
            looks_not_early ts start (step + 1) t t (ground arith) (ground arith) (omega arith) o.2
              (then_done (running (step + 1) t)
                (due_look step last t (ground arith) (omega arith) (ltb→lt _ _ more)))
        | inr final ↦ ground (arith, last_time-le (start + 2 ^ 32) t ts o.2)
      ]
    ]
  where
    then_done :
        (c : Celebration)
        → on_look (clock_at t) (running step last) ≡ c
        → (looks ts c).active ≡ false
    then_done c e = subst (λ c. (looks ts c).active ≡ false) e done

looks_finish :
    (ts later : List ℕ) (start step last : ℕ)
    → step < 8
    → start ≤ last
    → Paced (start + 2 ^ 32) last ts
    → 8 ≤ step + length ts
    → (looks (ts ++ later) (running step last)).active ≡ false
looks_finish [] later start step last s h o k = absurd (omega arith)
looks_finish (t ∷ ts) later start step last s h o k = elim (Bool-cases (ltb step 7)) [
  | inl more ↦
      subst (λ c. (looks (ts ++ later) c).active ≡ false)
        (sym (due_look step last t o.0 (omega arith) (ltb→lt _ _ more)))
        (looks_finish ts later start (step + 1) t (ground arith) (omega arith) o.2 (omega arith))
  | inr final ↦
      let seven : step ≡ 7 = ground arith in
      subst (λ c. (looks (ts ++ later) c).active ≡ false)
        (sym (
          ap (λ k. on_look (clock_at t) (running k last)) seven
          ∙ last_look last t o.0 (omega arith)))
        (ap (λ c. c.active) (looks-over (ts ++ later) 8 (clock_at t)))
]

module _ (n : NeoPixel) where
  abbrev of : LedController n → Celebration
  of l = record {
    active = l.sequence_anim_active;
    step = l.sequence_anim_step;
    since = l.sequence_anim_last_time;
  }

  of-sequence :
      (now : ℕ) (l : LedController n)
      → of (if l.sequence_anim_active then update_sequence_completed_animation n now l else l)
        ≡ on_look now (of l)
  unfolding update_sequence_completed_animation fill_both
  of-sequence now l = elim (Bool-cases l.sequence_anim_active) [
    | inr idle ↦ rw idle refl
    | inl runs ↦ elim (Bool-cases (ltb (sub32 now l.sequence_anim_last_time) 150)) [
      | inl early ↦ rw (runs, early) refl
      | inr due ↦ elim (Bool-cases (ltb (add8 l.sequence_anim_step 1) 8)) [
        | inl more ↦ rw (runs, due, more) refl
        | inr last ↦ rw (runs, due, last) refl
      ]
    ]
  ]

  of-update : (now : ℕ) (l : LedController n) → of (update n now l) ≡ on_look now (of l)
  unfolding update
  of-update now l =
      let l₁ = update_blinking n now (for_from n 25 0 (animate_one n now) l) in
      let l₂ =
        if l₁.sequence_anim_active then update_sequence_completed_animation n now l₁ else l₁ in
      blind-push_leds n of (λ s l. refl) (λ s l. refl) (λ ds l. refl) (λ b l. refl) l₂
      ∙ (of-sequence now l₁
          ∙ ap (on_look now)
              (blind-loops n of (λ s l. refl) (λ s l. refl) (λ ds l. refl) (λ b l. refl) now l))

  of-updates : (ts : List ℕ) (l : LedController n) → of (updates n ts l) ≡ looks ts (of l)
  unfolding updates
  of-updates [] l = refl
  of-updates (t ∷ ts) l =
      of-updates ts (update n (clock_at t) l) ∙ ap (looks ts) (of-update (clock_at t) l)

  module _ (l : LedController n) (start : ℕ) (ts : List ℕ) where
    abbrev started : LedController n
    started = start_sequence_completed_animation n (clock_at start) l

    of-started : (ts : List ℕ) → of (updates n ts started) ≡ looks ts (running 0 start)
    unfolding start_sequence_completed_animation fill_both
    of-started ts = of-updates ts started

    -- A SEQUENCE_COMPLETED celebration is not complete before 1200 ms have passed, whatever the times of
    -- the updates within one turn of the 32-bit clock, and wherever in that turn it starts.
    pub celebration_takes_1200_ms :
        InOrder (start + 2 ^ 32) start ts
        → is_sequence_completed_animation_complete n (updates n ts started) ≡ true
        → start + 1200 ≤ last_time start ts
    unfolding is_sequence_completed_animation_complete
    celebration_takes_1200_ms o done =
        let over : (of (updates n ts started)).active ≡ false = ground (arith, done) in
        looks_not_early ts start 0 start start (omega arith) (omega arith) (omega arith) o
          (subst (λ c. c.active ≡ false) (of-started ts) over)

    -- It is complete after eight or more updates, each at least 150 ms after the one before and within one
    -- turn of the clock, and stays complete at all later updates, whatever their times.
    pub celebration_completes :
        (later : List ℕ)
        → Paced (start + 2 ^ 32) start ts
        → 8 ≤ length ts
        → is_sequence_completed_animation_complete n (updates n (ts ++ later) started) ≡ true
    unfolding is_sequence_completed_animation_complete
    celebration_completes later o eight =
        let over : (of (updates n (ts ++ later) started)).active ≡ false =
          ap (λ c. c.active) (of-started (ts ++ later))
          ∙ looks_finish ts later start 0 start (omega arith) (omega arith) o (omega arith) in
        ground (arith, over)
