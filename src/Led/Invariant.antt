-- ===== src/Led/Invariant.antt =====
-- The states of src/LedController.cpp: which step an expansion can have in which state, kept by every
-- operation from `begin` on.
use hardware.Base.{
  ℕ, ◌<◌, ◌≤◌, ◌≡◌, refl, sym, ap, ◌∙◌, subst, Bool, true, false, List, [], ◌∷◌, ltb, leb,
  if◌then◌else◌, set, map, length, length-set, length-map, All, All-set, All-get_or, arith,
  Bool-cases, inl, inr, leb→le, suc,
}
use hardware.Base.Words.{add8, sub32}
use hardware.Led.State.{
  PositionState, off, shown, animating, expanded, blinking, PositionData, dark,
}
use hardware.Led.Strip.{NeoPixel, LedController}
use hardware.Led.Controller.{data_at, show, hide, blink, stop_blink, success, begin}
use hardware.Led.Update.{
  advance, update, start_sequence_completed_animation, update_sequence_completed_animation,
  fill_both, for_from, animate_one, update_blinking, reset_all,
}
use hardware.Led.Positions.{
  on_show, on_hide, on_blink, on_stop_blink, on_success, on_update, positions-show, positions-hide,
  positions-blink, positions-stop_blink, positions-success, positions-push_leds, positions-loops,
  refuse_out_of_range,
}

-- A region grows while the position animates, is full once it is expanded, and is a single LED
-- otherwise.
abbrev pub StepFits : PositionState → ℕ → Type 0
StepFits animating step = step < 5
StepFits expanded step = step ≡ 5
StepFits _ step = step ≡ 0

abbrev pub DataIsValid : PositionData → Type 0
DataIsValid d = StepFits d.state d.animation_step

-- One look at the clock keeps a position's data valid.
on_update-fits :
    (now : ℕ) (s : PositionState) (step time : ℕ) (on : Bool)
    → StepFits s step
    → DataIsValid (
        on_update now
          (record { state = s; animation_step = step; last_animation_time = time; blink_on = on }))
unfolding advance
on_update-fits now off step time on v = v
on_update-fits now shown step time on v = v
on_update-fits now expanded step time on v = v
on_update-fits now blinking step time on v = elim (Bool-cases (leb 150 (sub32 now time))) [
  | inl due ↦ rw due v
  | inr early ↦ rw early v
]
on_update-fits now animating step time on v = elim (Bool-cases (leb 80 (sub32 now time))) [
  | inl due ↦ elim (Bool-cases (leb 5 (add8 step 1))) [
    | inl last ↦ rw (due, last) refl
    | inr more ↦ rw (due, more) (ground arith)
  ]
  | inr early ↦ rw early v
]

on_stop_blink-fits :
    (s : PositionState) (step time : ℕ) (on : Bool)
    → StepFits s step
    → DataIsValid (
        on_stop_blink
          (record { state = s; animation_step = step; last_animation_time = time; blink_on = on }))
on_stop_blink-fits off step time on v = v
on_stop_blink-fits shown step time on v = v
on_stop_blink-fits expanded step time on v = v
on_stop_blink-fits blinking step time on v = refl
on_stop_blink-fits animating step time on v = v

All-map-update :
    (now : ℕ) (ds : List PositionData)
    → All DataIsValid ds
    → All DataIsValid (map (on_update now) ds)
All-map-update now [] v = tt
All-map-update now (d ∷ ds) v = (
  on_update-fits now d.state d.animation_step d.last_animation_time d.blink_on v.0,
  All-map-update now ds v.1,
)

reset_all-fits :
    (ds : List PositionData) → All DataIsValid (reset_all ds) × (length (reset_all ds) ≡ length ds)
unfolding reset_all
reset_all-fits [] = (tt, refl)
reset_all-fits (d ∷ ds) = let (v, e) = reset_all-fits ds in ((refl, v), ap suc e)

module _ (n : NeoPixel) where
  pub record IsValid (l : LedController n) : Type 0 where
    pub all_there : length l.positions ≡ 25
    pub fits : All DataIsValid l.positions

  -- The calls that others make of the controller.
  pub data Call : Type 0 where
    shows hides stops_blink : ℕ → Call
    blinks succeeds : ℕ → ℕ → Call
    celebrates updates : ℕ → Call

  unfoldable pub call : Call → LedController n → LedController n
  call (shows i) l = (show n l i).1
  call (hides i) l = (hide n l i).1
  call (stops_blink i) l = (stop_blink n l i).1
  call (blinks now i) l = (blink n now l i).1
  call (succeeds now i) l = (success n now l i).1
  call (celebrates now) l = start_sequence_completed_animation n now l
  call (updates now) l = update n now l

  by_positions :
      {k : LedController n} (ds : List PositionData)
      → k.positions ≡ ds
      → length ds ≡ 25
      → All DataIsValid ds
      → IsValid k
  by_positions ds e h v = record { all_there = rw e h; fits = rw e v }

  -- A command: out of range it does nothing, in range it writes valid data at its position.
  by_command :
      (i : ℕ) (l k : LedController n) (d : PositionData)
      → IsValid l
      → (i < 25 → k.positions ≡ set l.positions i d)
      → (25 ≤ i → k ≡ l)
      → DataIsValid d
      → IsValid k
  by_command i l k d v inside outside fit = elim (Bool-cases (leb 25 i)) [
    | inl out ↦ subst IsValid (sym (outside (leb→le _ _ out))) v
    | inr in_range ↦
        by_positions (set l.positions i d) (inside (ground arith))
          (length-set l.positions i d ∙ v.all_there)
          (All-set DataIsValid l.positions i d v.fits fit)
  ]

  sequence-IsValid :
      (now : ℕ) (l : LedController n)
      → IsValid l
      → IsValid (update_sequence_completed_animation n now l)
  unfolding update_sequence_completed_animation fill_both
  sequence-IsValid now l v = elim (Bool-cases (ltb (sub32 now l.sequence_anim_last_time) 150)) [
    | inl early ↦ rw early v
    | inr due ↦ elim (Bool-cases (ltb (add8 l.sequence_anim_step 1) 8)) [
      | inl more ↦ rw (due, more) (by_positions l.positions refl v.all_there v.fits)
      | inr last ↦
          rw (due, last)
            (by_positions (reset_all l.positions) refl
              ((reset_all-fits l.positions).1 ∙ v.all_there) (reset_all-fits l.positions).0)
    ]
  ]

  update-IsValid : (now : ℕ) (l : LedController n) → IsValid l → IsValid (update n now l)
  unfolding update
  update-IsValid now l v =
      let l₁ = update_blinking n now (for_from n 25 0 (animate_one n now) l) in
      let v₁ : IsValid l₁ =
        by_positions (map (on_update now) l.positions) (positions-loops n now l v.all_there)
          (length-map (on_update now) l.positions ∙ v.all_there)
          (All-map-update now l.positions v.fits) in
      let l₂ =
        if l₁.sequence_anim_active then update_sequence_completed_animation n now l₁ else l₁ in
      let v₂ : IsValid l₂ = either l₁.sequence_anim_active l₁ (sequence-IsValid now l₁ v₁) v₁ in
      by_positions l₂.positions (positions-push_leds n l₂) v₂.all_there v₂.fits
    where
      either :
          (b : Bool) (l₁ : LedController n)
          → IsValid (update_sequence_completed_animation n now l₁)
          → IsValid l₁
          → IsValid (if b then update_sequence_completed_animation n now l₁ else l₁)
      either true l₁ x y = x
      either false l₁ x y = y

  -- Every call keeps the controller valid.
  pub call-IsValid : (c : Call) (l : LedController n) → IsValid l → IsValid (call c l)
  unfolding call start_sequence_completed_animation fill_both
  call-IsValid (shows i) l v =
      by_command i l (show n l i).1 (on_show (data_at n l i)) v (λ h. (positions-show n l i h).1)
        (λ h. ap (λ r. r.1) (refuse_out_of_range n l i 0 h).0) refl
  call-IsValid (hides i) l v =
      by_command i l (hide n l i).1 (on_hide (data_at n l i)) v (λ h. (positions-hide n l i h).1)
        (λ h. ap (λ r. r.1) (refuse_out_of_range n l i 0 h).1) refl
  call-IsValid (stops_blink i) l v =
      let d = data_at n l i in
      by_command i l (stop_blink n l i).1 (on_stop_blink d) v
        (λ h. (positions-stop_blink n l i h).1)
        (λ h. ap (λ r. r.1) (refuse_out_of_range n l i 0 h).3)
        (on_stop_blink-fits d.state d.animation_step d.last_animation_time d.blink_on
          (All-get_or DataIsValid l.positions i dark v.fits refl))
  call-IsValid (blinks now i) l v =
      by_command i l (blink n now l i).1 (on_blink now dark) v
        (λ h. (positions-blink n l i h now).1)
        (λ h. ap (λ r. r.1) (refuse_out_of_range n l i now h).2) refl
  call-IsValid (succeeds now i) l v =
      by_command i l (success n now l i).1 (on_success now (data_at n l i)) v
        (λ h. (positions-success n l i h now).1)
        (λ h. ap (λ r. r.1) (refuse_out_of_range n l i now h).4) (omega arith)
  call-IsValid (celebrates now) l v = by_positions l.positions refl v.all_there v.fits
  call-IsValid (updates now) l v = update-IsValid now l v

  unfoldable pub run : List Call → LedController n → LedController n
  run [] l = l
  run (c ∷ cs) l = run cs (call c l)

  -- From `begin` on, whatever the calls and the times, there are 25 positions, and each has a region of
  -- less than five steps while it animates, of five when expanded, and of none otherwise.
  pub run-begin-IsValid : (cs : List Call) (l : LedController n) → IsValid (run cs (begin n l))
  unfolding begin run
  run-begin-IsValid cs l = keep cs (begin n l) (record { all_there = refl; fits = omega arith })
    where
      keep : (cs : List Call) (l : LedController n) → IsValid l → IsValid (run cs l)
      keep [] l v = v
      keep (c ∷ cs) l v = keep cs (call c l) (call-IsValid c l v)
