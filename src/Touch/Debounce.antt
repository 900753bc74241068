-- ===== src/Touch/Debounce.antt =====
-- What `processDebounce` of src/TouchController.cpp does to the sensors and their expectations.
use hardware.Base.{
  ℕ, ◌+◌, ◌≡◌, refl, ap₂, Bool, true, false, ◌&&◌, List, [], ◌∷◌, leb, bool_eq, if◌then◌else◌, map,
  length, arith,
}
use hardware.Base.Words.{sub32}
use hardware.EventQueue.{EventQueue, Env}
use hardware.Touch.State.{TouchSensorState, ExpectState, no_expectation}
use hardware.Touch.Poll.{Slot, emit_touch, debounce_one, debounce_from}
use hardware.Touch.Reports.{is_due}

-- A sensor after the pass: a state that has held long enough becomes the debounced one, and a change
-- of that counts as reported.
abbrev pub settle : ℕ → TouchSensorState → TouchSensorState
settle now s =
    if s.active && leb 30 (sub32 now s.last_change_time)
    then record s {
      debounced_touched = s.current_touched;
      last_reported_touched =
          if bool_eq s.current_touched s.debounced_touched
          then s.last_reported_touched
          else s.current_touched;
    }
    else s

module _ (env : Env) where
  -- An expectation after the pass: used up by the event that answers it.
  abbrev pub used : Bool → ℕ → TouchSensorState → ExpectState → ExpectState
  used touched now s x =
      if is_due now s && (bool_eq touched s.current_touched && x.active)
      then no_expectation env
      else x

  abbrev pub all_used : Bool → ℕ → List TouchSensorState → List ExpectState → List ExpectState
  all_used touched now (s ∷ ss) (x ∷ xs) = used touched now s x ∷ all_used touched now ss xs
  all_used touched now ss xs = xs

  pub debounce_one_slot :
      (now i : ℕ) (x : Slot)
      → let y = debounce_one env true now i x in
        (y.sensor ≡ settle now x.sensor)
        × (y.down ≡ used true now x.sensor x.down)
        × (y.up ≡ used false now x.sensor x.up)
  unfolding debounce_one emit_touch
  debounce_one_slot now i x = ground arith

  -- One pass of `processDebounce` settles every sensor by its own state alone, and clears an
  -- expectation exactly where its sensor is due with the touch or release that it waits for; the
  -- state of the event queue plays no part.
  pub debounce_from_state :
      (now i : ℕ) (ss : List TouchSensorState) (ds us : List ExpectState) (q : EventQueue)
      → length ds ≡ length ss
      → length us ≡ length ss
      → let d = debounce_from env true now i ss ds us q in
        (d.sensors ≡ map (settle now) ss)
        × (d.expect_down ≡ all_used true now ss ds)
        × (d.expect_up ≡ all_used false now ss us)
  unfolding debounce_from
  debounce_from_state now i [] ds us q hd hu = (refl, refl, refl)
  debounce_from_state now i (s ∷ ss) [] us q hd hu = absurd (omega arith)
  debounce_from_state now i (s ∷ ss) (d ∷ ds) [] q hd hu = absurd (omega arith)
  debounce_from_state now i (s ∷ ss) (d ∷ ds) (u ∷ us) q hd hu =
      let x : Slot = record { sensor = s; down = d; up = u; queue = q } in
      let (es, ed, eu) = debounce_one_slot now i x in
      let (rs, rd, ru) =
        debounce_from_state now (i + 1) ss ds us (debounce_one env true now i x).queue (omega arith)
          (omega arith) in
      (ap₂ ◌∷◌ es rs, ap₂ ◌∷◌ ed rd, ap₂ ◌∷◌ eu ru)
