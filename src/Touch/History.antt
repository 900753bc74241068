-- ===== src/Touch/History.antt =====
-- One sensor of src/TouchController.cpp over any history of polls, with any expectations set by
-- commands in between.
use hardware.Base.{
  ℕ, ◌≡◌, sym, ◌∙◌, subst, Bool, true, false, not, List, [], ◌∷◌, ◌++◌, if◌then◌else◌, arith,
  Bool-cases, inl, inr, take_all,
}
use hardware.EventQueue.{touch_down, touched_down, Event, EventQueue, Env}
use hardware.EventQueue.Fifo.{IsValid, contents}
use hardware.Touch.State.{TouchSensorState, ExpectState}
use hardware.Touch.Letters.{index_to_letter}
use hardware.Touch.Poll.{Slot, observe, debounce_one}
use hardware.Touch.Reports.{is_due, touch_event, report, debounce_one_reports}
use hardware.Touch.Debounce.{settle, debounce_one_slot}

-- A round of `tick`: what the sensor reads, the two times, and the expectations that stand by then.
pub record Round : Type 0 where
  pub touched : Bool
  pub poll_time : ℕ
  pub debounce_time : ℕ
  pub down : ExpectState
  pub up : ExpectState

abbrev polled : TouchSensorState → Round → TouchSensorState
polled s r = if s.active then observe r.poll_time r.touched s else s

-- The loop bodies of `pollSensors` and `processDebounce` for sensor `i`, from the queue `q`.
abbrev pub round_slot : Env → EventQueue → ℕ → TouchSensorState → Round → Slot
round_slot env q i s r =
    debounce_one env true r.debounce_time i
      (record { sensor = polled s r; down = r.down; up = r.up; queue = q })

-- The events that the rounds queue, where the queue has been emptied before each.
pub log : Env → EventQueue → ℕ → TouchSensorState → List Round → List Event
log env q i s [] = []
log env q i s (r ∷ rs) =
    let x = round_slot env q i s r in contents x.queue ++ log env q i x.sensor rs

abbrev pub is_press : Event → Bool
is_press e = elim e.type [ touch_down ↦ true | touched_down ↦ true | _ ↦ false ]

-- Each event is of sensor `i` and turns the state before it round.
abbrev pub Alternates : ℕ → Bool → List Event → Type 0
Alternates i pressed [] = Unit
Alternates i pressed (e ∷ es) =
    (is_press e ≡ not pressed) × (e.position ≡ index_to_letter i) × Alternates i (is_press e) es

abbrev pub InStep : TouchSensorState → Type 0
InStep s = s.debounced_touched ≡ s.last_reported_touched

settle-InStep : (now : ℕ) (s : TouchSensorState) → InStep s → InStep (settle now s)
settle-InStep now s h = ground arith

-- What a due sensor reports, and what its round leaves.
due_facts :
    (env : Env) (now i : ℕ) (s : TouchSensorState) (d u : ExpectState)
    → is_due now s ≡ true
    → (is_press (touch_event env i s d u) ≡ not s.last_reported_touched)
      × ((touch_event env i s d u).position ≡ index_to_letter i)
      × ((settle now s).last_reported_touched ≡ is_press (touch_event env i s d u))
due_facts env now i s d u due = ground arith

not_due :
    (now : ℕ) (s : TouchSensorState)
    → InStep s
    → is_due now s ≡ false
    → (settle now s).last_reported_touched ≡ s.last_reported_touched
not_due now s h e = ground arith

Alternates-report :
    (env : Env) (now i : ℕ) (s : TouchSensorState) (d u : ExpectState) (es : List Event)
    → InStep s
    → Alternates i (settle now s).last_reported_touched es
    → Alternates i s.last_reported_touched (report env now i s d u ++ es)
Alternates-report env now i s d u es h a = elim (Bool-cases (is_due now s)) [
  | inl due ↦
      let (turned, placed, left) = due_facts env now i s d u due in
      rw due (turned, placed, subst (λ b. Alternates i b es) left a)
  | inr idle ↦ rw idle (subst (λ b. Alternates i b es) (not_due now s h idle) a)
]

polled_keeps :
    (s : TouchSensorState) (r : Round)
    → ((polled s r).debounced_touched ≡ s.debounced_touched)
      × ((polled s r).last_reported_touched ≡ s.last_reported_touched)
unfolding observe
polled_keeps s r = ground arith

-- A round from an empty queue leaves just the sensor's report in it.
round_slot-report :
    (env : Env) (i : ℕ) (s : TouchSensorState) (r : Round) {q : EventQueue}
    → IsValid q
    → contents q ≡ []
    → (contents (round_slot env q i s r).queue
        ≡ report env r.debounce_time i (polled s r) r.down r.up)
      × ((round_slot env q i s r).sensor ≡ settle r.debounce_time (polled s r))
round_slot-report env i s r {q} v e =
    let x : Slot = record { sensor = polled s r; down = r.down; up = r.up; queue = q } in
    let (queued, v') = debounce_one_reports env r.debounce_time i x v in
    (
      rw e at queued
          ∙ take_all 16 (report env r.debounce_time i (polled s r) r.down r.up) (ground arith),
      (debounce_one_slot env r.debounce_time i x).0,
    )

-- From a state that has been reported, the events of a sensor alternate between press and release,
-- whatever is read, when, and whatever is expected.
pub log-Alternates :
    (env : Env) (i : ℕ) (s : TouchSensorState) (rs : List Round) {q : EventQueue}
    → IsValid q
    → contents q ≡ []
    → InStep s
    → Alternates i s.last_reported_touched (log env q i s rs)
unfolding log
log-Alternates env i s [] v e h = tt
log-Alternates env i s (r ∷ rs) {q} v e h =
    let now = r.debounce_time in
    let (queued, left) = round_slot-report env i s r v e in
    let (deb, rep) = polled_keeps s r in
    let h' : InStep (polled s r) = deb ∙ (h ∙ sym rep) in
    rw (queued, left)
      (subst
        (λ b.
          Alternates i b
            (report env now i (polled s r) r.down r.up ++ log env q i (settle now (polled s r)) rs))
        rep
        (Alternates-report env now i (polled s r) r.down r.up
          (log env q i (settle now (polled s r)) rs) h'
          (log-Alternates env i (settle now (polled s r)) rs v e
            (settle-InStep now (polled s r) h'))))
