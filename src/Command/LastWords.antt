-- ===== src/Command/LastWords.antt =====
-- When a long-running command of src/CommandController.cpp ends, with which events.
use hardware.Base.{
  ℕ, zero, suc, ◌+◌, ◌≤◌, ◌≡◌, refl, sym, ap, ◌∙◌, Bool, true, false, not, ◌||◌, List, [], ◌∷◌, leb,
  ltb, length, get_or, if◌then◌else◌, Bool-cases, inl, inr, arith,
}
use hardware.Base.Words.{codes, add8}
use hardware.Config.{num_touch_sensors}
use hardware.EventQueue.{Event}
use hardware.EventQueue.Emit.{done_event, scanned_event, recalibrated_event}
use hardware.Touch.Controller.{recalibrate}
use hardware.Touch.ActiveList.{active_letters, with_commas, build_active_sensor_list-with_commas}
use hardware.Led.State.{is_animating, PositionData, dark}
use hardware.Led.Controller
use hardware.Led.Update
use hardware.Command.Actions.{CommandAction, recalibrate_all, success, scan, sequence_completed}
use hardware.Command.Parse.{command_id_of}
use hardware.Command.Machine.{Parts, Machine, QueuedCommand}
use hardware.Command.Tick.{recalibrate_some}
use hardware.Command.Steps.{IsValid}
use hardware.Command.Ticks.{tick_events}

-- The sensor that RECALIBRATE_ALL has reached after `k` sensors more.
abbrev pub reach : ℕ → ℕ → ℕ
reach k a = if leb 25 a then a else (if leb 25 (a + k) then 25 else a + k)

get_or_out {ℓ} : {A : Type ℓ} (xs : List A) (i : ℕ) (d : A) → length xs ≤ i → get_or xs i d ≡ d
get_or_out [] i d h = refl
get_or_out (x ∷ xs) zero d h = absurd (omega arith)
get_or_out (x ∷ xs) (suc i) d h = get_or_out xs i d (omega arith)

pub reach_over : (a : ℕ) → leb 25 (reach 5 a) ≡ leb 20 a
reach_over a = ground arith

module _ (p : Parts) where
  -- Does the command end? A SUCCESS when its region does not grow, a celebration when none runs, a
  -- recalibration of all with the last five sensors, everything else at once.
  unfoldable pub is_over : CommandAction → QueuedCommand → Machine p → Bool
  is_over success qc m =
      not (is_animating (get_or m.led.positions qc.command.position_index dark).state)
  is_over sequence_completed qc m = not m.led.sequence_anim_active
  is_over recalibrate_all qc m = not m.has_touch || leb 20 qc.scan_address
  is_over _ qc m = true

  -- What the host hears of its end.
  unfoldable pub last_words : CommandAction → QueuedCommand → Machine p → List Event
  last_words success qc m =
      done_event (codes "SUCCESS") qc.command.position (command_id_of p.env p.lexer qc.command) ∷ []
  last_words sequence_completed qc m =
      done_event (codes "SEQUENCE_COMPLETED") 0 (command_id_of p.env p.lexer qc.command) ∷ []
  last_words scan qc m =
      if m.has_touch
      then scanned_event (with_commas (active_letters 0 m.touch.sensors))
          (command_id_of p.env p.lexer qc.command)
        ∷ []
      else []
  last_words recalibrate_all qc m =
      if m.has_touch then recalibrated_event 0 (command_id_of p.env p.lexer qc.command) ∷ [] else []
  last_words _ qc m = []

  unfoldable pub sensor_after : CommandAction → QueuedCommand → Machine p → ℕ
  sensor_after recalibrate_all qc m =
      if m.has_touch then reach 5 qc.scan_address else qc.scan_address
  sensor_after _ qc m = qc.scan_address

  -- The entry after the tick: it is free when the command has ended.
  abbrev pub entry_after : CommandAction → QueuedCommand → Machine p → QueuedCommand
  entry_after a qc m = record qc {
    active = not (is_over a qc m);
    scan_address = sensor_after a qc m;
  }

  pub success_over :
      (i : ℕ) (m : Machine p)
      → IsValid p m
      → Controller.is_animation_complete p.pixels m.led i
        ≡ not (is_animating (get_or m.led.positions i dark).state)
  unfolding Controller.is_animation_complete
  success_over i m v = elim (Bool-cases (leb 25 i)) [
    | inl out ↦
        let nothing_there : get_or m.led.positions i dark ≡ dark =
          get_or_out m.led.positions i dark (ground (arith, v.led.all_there)) in
        rw out (ap (λ (d : PositionData). not (is_animating d.state)) (sym nothing_there))
    | inr in_range ↦ rw in_range refl
  ]

  pub recalibrate_some-reach : (k a : ℕ) (m : Machine p) → (recalibrate_some p k a m).0 ≡ reach k a
  unfolding recalibrate_some
  recalibrate_some-reach zero a m = ground arith
  recalibrate_some-reach (suc k) a m =
      let rest =
        recalibrate_some p k (add8 a 1)
          (record m { bus = (recalibrate p.wire m.touch a m.bus).1 }) in
      elim (Bool-cases (ltb a num_touch_sensors)) [
        | inl more ↦
            ap (λ (b : Bool). (if b then rest else (a, m)).0) more
            ∙ (recalibrate_some-reach k (add8 a 1) _ ∙ reach_one k a more)
        | inr done ↦
            let all : leb 25 a ≡ true = ground arith in
            ap (λ (b : Bool). (if b then rest else (a, m)).0) done
            ∙ sym (
                ap (λ (b : Bool). if b then a else (if leb 25 (a + suc k) then 25 else a + suc k))
                  all)
      ]
    where
      reach_one : (k a : ℕ) → ltb a 25 ≡ true → reach k (add8 a 1) ≡ reach (suc k) a
      reach_one k a h = ground arith

  pub recalibrate_some-commands :
      (k a : ℕ) (m : Machine p) → (recalibrate_some p k a m).1.commands ≡ m.commands
  unfolding recalibrate_some
  recalibrate_some-commands zero a m = refl
  recalibrate_some-commands (suc k) a m =
      let m₁ : Machine p = record m { bus = (recalibrate p.wire m.touch a m.bus).1 } in
      either (ltb a num_touch_sensors) (recalibrate_some p k (add8 a 1) m₁)
        (recalibrate_some-commands k (add8 a 1) m₁)
    where
      either :
          (b : Bool) (r : ℕ × Machine p)
          → r.1.commands ≡ m.commands
          → (if b then r else (a, m)).1.commands ≡ m.commands
      either true r e = e
      either false r e = refl

  pub last_words-events :
      (a : CommandAction) (qc : QueuedCommand) (m : Machine p)
      → IsValid p m
      → length m.touch.sensors ≤ 25
      → tick_events p a qc m ≡ (if is_over a qc m then last_words a qc m else [])
  unfolding tick_events is_over last_words Update.is_sequence_completed_animation_complete
  last_words-events success qc m v h =
      ap (λ (b : Bool). if b then last_words success qc m else [])
        (success_over qc.command.position_index m v)
  last_words-events sequence_completed qc m v h = refl
  last_words-events scan qc m v h =
      ap
        (λ text.
          if m.has_touch
          then scanned_event text (command_id_of p.env p.lexer qc.command) ∷ []
          else [])
        (build_active_sensor_list-with_commas m.touch h)
  last_words-events recalibrate_all qc m v h =
      let r = recalibrated_event 0 (command_id_of p.env p.lexer qc.command) in
      ap (λ k. if m.has_touch then (if leb 25 k then r ∷ [] else []) else [])
        (recalibrate_some-reach 5 qc.scan_address m)
      ∙ last_five m.has_touch qc.scan_address r
    where
      last_five :
          (has_touch : Bool) (a : ℕ) (r : Event)
          → (if has_touch then (if leb 25 (reach 5 a) then r ∷ [] else []) else [])
            ≡ (if not has_touch || leb 20 a then (if has_touch then r ∷ [] else []) else [])
      last_five true a r = ap (λ (b : Bool). if b then r ∷ [] else []) (reach_over a)
      last_five false a r = refl
  last_words-events _ qc m v h = refl
