-- ===== src/Touch/Reports.antt =====
-- What `processDebounce` of src/TouchController.cpp puts into the event queue.
use hardware.Base.{
  ℕ, ◌+◌, ◌≡◌, refl, ap, ◌∙◌, Bool, true, not, ◌&&◌, List, [], ◌∷◌, ◌++◌, leb, bool_eq,
  if◌then◌else◌, take, arith, append-nil, append_assoc, take_all, take-append_take,
}
use hardware.Base.Words.{sub32}
use hardware.EventQueue.{Event, EventQueue, Env}
use hardware.EventQueue.Emit.{
  touched_down_event, touched_up_event, touch_down_event, touch_up_event, queue_touched_down,
  queue_touched_up, queue_touch_down, queue_touch_up,
}
use hardware.EventQueue.Fifo.{IsValid, contents, length-contents, contents_kept, enqueue-take}
use hardware.Touch.State.{TouchSensorState, ExpectState}
use hardware.Touch.Letters.{index_to_letter}
use hardware.Touch.Poll.{Slot, emit_touch, debounce_one, debounce_from}

-- The raw state has held for the debounce time and is not the state reported last.
abbrev pub is_due : ℕ → TouchSensorState → Bool
is_due now s =
    (s.active && leb 30 (sub32 now s.last_change_time))
    && (not (bool_eq s.current_touched s.debounced_touched)
        && not (bool_eq s.current_touched s.last_reported_touched))

module _ (env : Env) where
  -- The event that tells of the raw state of sensor `i`: the answer to an expectation, with its
  -- command's identifier, or a spontaneous event.
  abbrev pub touch_event : ℕ → TouchSensorState → ExpectState → ExpectState → Event
  touch_event i s d u =
      if s.current_touched
      then (if d.active
          then touched_down_event (index_to_letter i) d.command_id
          else touch_down_event env (index_to_letter i))
      else (if u.active
          then touched_up_event (index_to_letter i) u.command_id
          else touch_up_event env (index_to_letter i))

  abbrev pub report : ℕ → ℕ → TouchSensorState → ExpectState → ExpectState → List Event
  report now i s d u = if is_due now s then touch_event i s d u ∷ [] else []

  abbrev pub reports :
      ℕ → ℕ → List TouchSensorState → List ExpectState → List ExpectState → List Event
  reports now i (s ∷ ss) (d ∷ ds) (u ∷ us) = report now i s d u ++ reports now (i + 1) ss ds us
  reports now i ss ds us = []

  pub debounce_one_reports :
      (now i : ℕ) (x : Slot)
      → IsValid x.queue
      → let y = debounce_one env true now i x in
        (contents y.queue ≡ take 16 (contents x.queue ++ report now i x.sensor x.down x.up))
        × IsValid y.queue
  unfolding debounce_one emit_touch queue_touched_down queue_touched_up queue_touch_down
      queue_touch_up
  debounce_one_reports now i x v = ground (
    arith,
    append-nil (contents x.queue),
    take_all 16 (contents x.queue),
    length-contents x.queue,
    enqueue-take (touched_down_event (index_to_letter i) x.down.command_id) v refl,
    enqueue-take (touched_up_event (index_to_letter i) x.up.command_id) v refl,
    enqueue-take (touch_down_event env (index_to_letter i)) v refl,
    enqueue-take (touch_up_event env (index_to_letter i)) v refl,
  )

  -- One pass of `processDebounce` puts into the queue, in the sensors' order, an event for each sensor
  -- that is due, and nothing else; what exceeds the queue's 16 places is dropped, newest first. The
  -- queue stays valid.
  pub debounce_from-reports :
      (now i : ℕ) (ss : List TouchSensorState) (ds us : List ExpectState) {q : EventQueue}
      → IsValid q
      → let d = debounce_from env true now i ss ds us q in
        (contents d.queue ≡ take 16 (contents q ++ reports now i ss ds us)) × IsValid d.queue
  unfolding debounce_from
  debounce_from-reports now i [] ds us v = (contents_kept v, v)
  debounce_from-reports now i (s ∷ ss) [] us v = (contents_kept v, v)
  debounce_from-reports now i (s ∷ ss) (d ∷ ds) [] v = (contents_kept v, v)
  debounce_from-reports now i (s ∷ ss) (d ∷ ds) (u ∷ us) {q} v =
      let x : Slot = record { sensor = s; down = d; up = u; queue = q } in
      let (one, v₁) = debounce_one_reports now i x v in
      let (rest, v₂) = debounce_from-reports now (i + 1) ss ds us v₁ in
      (
        rest
            ∙ (ap (λ es. take 16 (es ++ reports now (i + 1) ss ds us)) one
                ∙ (take-append_take 16 (contents q ++ report now i s d u)
                      (reports now (i + 1) ss ds us)
                    ∙ ap (take 16) (append_assoc (contents q) (report now i s d u) _))),
        v₂,
      )
