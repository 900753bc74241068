-- ===== src/Command/Endings.antt =====
-- The long-running commands of src/CommandController.cpp in a tick: which of them end, and what stays in
-- the queue.
use hardware.Base.{
  ℕ, ◌≤◌, ◌≡◌, refl, sym, ap, ◌∙◌, subst, Bool, true, false, not, ◌&&◌, ◌||◌, [], leb, length,
  get_or, set, set-get_or, if◌then◌else◌, Bool-cases, inl, inr,
}
use hardware.Config.{num_touch_sensors}
use hardware.EventQueue.Emit.{queue_scanned, queue_recalibrated}
use hardware.Touch.Controller.{build_active_sensor_list}
use hardware.Led.Controller
use hardware.Led.Update
use hardware.Command.Actions.{CommandAction, recalibrate_all, success, scan, sequence_completed}
use hardware.Command.Parse.{command_id_of}
use hardware.Command.Machine.{Parts, Machine, QueuedCommand, no_command, put_command}
use hardware.Command.Tick.{retire, recalibrate_some, tick_action, tick_command}
use hardware.Command.Steps.{IsValid, Step, Step-silent}
use hardware.Command.Ticks.{tick_action-events}
use hardware.Command.LastWords.{
  reach, reach_over, is_over, last_words, sensor_after, entry_after, success_over,
  recalibrate_some-reach, recalibrate_some-commands, last_words-events,
}

module _ (p : Parts) where
  module _ (i : ℕ) (qc : QueuedCommand) (m : Machine p) (v : IsValid p m)
      (here : get_or m.commands i no_command ≡ qc) (active : qc.active ≡ true) where
    -- A command that is over frees its entry, and another one leaves the queue as it is.
    freed_if :
        (b : Bool) (x : Machine p)
        → x.commands ≡ set m.commands i (record qc { active = false })
        → (if b then x else m).commands ≡ set m.commands i (record qc { active = not b })
    freed_if true x e = e
    freed_if false x e = sym (
        ap (λ b. set m.commands i (record qc { active = b })) (sym active)
        ∙ (ap (set m.commands i) (sym here) ∙ set-get_or m.commands i no_command))

    recalibrated :
        (has_touch : Bool) (r : ℕ × Machine p) (said : Machine p → Machine p)
        → r.0 ≡ reach 5 qc.scan_address
        → r.1.commands ≡ m.commands
        → ((x : Machine p) → (said x).commands ≡ x.commands)
        → (if has_touch
            then (if leb num_touch_sensors r.0
                then retire p i (record qc { scan_address = r.0 }) (said r.1)
                else put_command p i (record qc { scan_address = r.0 }) r.1)
            else retire p i qc m).commands
          ≡ set m.commands i (record qc {
            active = not (not has_touch || leb 20 qc.scan_address);
            scan_address = if has_touch then reach 5 qc.scan_address else qc.scan_address;
          })
    recalibrated false r said reached kept silent = refl
    recalibrated true r said reached kept silent =
        by_end (leb num_touch_sensors r.0)
        ∙ (ap
              (λ cs.
                set cs i
                  (record qc { active = not (leb num_touch_sensors r.0); scan_address = r.0 }))
              kept
            ∙ (ap (λ k. set m.commands i (record qc { active = not (leb 25 k); scan_address = k }))
                  reached
                ∙ ap
                    (λ b.
                      set m.commands i
                        (record qc { active = not b; scan_address = reach 5 qc.scan_address }))
                    (reach_over qc.scan_address)))
      where
        by_end :
            (b : Bool)
            → (if b
                then retire p i (record qc { scan_address = r.0 }) (said r.1)
                else put_command p i (record qc { scan_address = r.0 }) r.1).commands
              ≡ set r.1.commands i (record qc { active = not b; scan_address = r.0 })
        by_end true =
            ap (λ cs. set cs i (record qc { active = false; scan_address = r.0 })) (silent r.1)
        by_end false =
            ap (λ b. set r.1.commands i (record qc { active = b; scan_address = r.0 })) active

    tick_action-entry :
        (a : CommandAction)
        → (tick_action p a i qc m).commands ≡ set m.commands i (entry_after p a qc m)
    unfolding tick_action is_over sensor_after Update.is_sequence_completed_animation_complete
    tick_action-entry success =
        freed_if (Controller.is_animation_complete p.pixels m.led qc.command.position_index) _ refl
        ∙ ap (λ b. set m.commands i (record qc { active = not b }))
            (success_over p qc.command.position_index m v)
    tick_action-entry sequence_completed = freed_if (not m.led.sequence_anim_active) _ refl
    tick_action-entry scan = ap (λ cs. set cs i (record qc { active = false })) (either m.has_touch)
      where
        either :
            (b : Bool)
            → (if b
                then record m {
                  events =
                      (queue_scanned m.events
                        (build_active_sensor_list m.touch 52)
                        (command_id_of p.env p.lexer qc.command)).1;
                }
                else m).commands
              ≡ m.commands
        either true = refl
        either false = refl
    tick_action-entry recalibrate_all =
        recalibrated m.has_touch (recalibrate_some p 5 qc.scan_address m)
          (λ x. record x {
            events = (queue_recalibrated x.events 0 (command_id_of p.env p.lexer qc.command)).1;
          })
          (recalibrate_some-reach p 5 qc.scan_address m)
          (recalibrate_some-commands p 5 qc.scan_address m) (λ x. refl)
    tick_action-entry _ = refl

  -- A tick of the entry in slot `i` of a valid machine, with at most 25 sensors. A free one does nothing. A
  -- SUCCESS ends when its region no longer grows, with DONE; SEQUENCE_COMPLETED when no celebration runs,
  -- with DONE; a SCAN at once, with the letters of the active sensors between commas, if there is a touch
  -- controller; RECALIBRATE_ALL with the last five sensors, with RECALIBRATED ALL, or without a touch
  -- controller at once and silently. These events are queued as far as they fit, and no others; the entry is
  -- free exactly when its command has ended, and counts the sensors; the other entries are kept; the machine
  -- stays valid, and no serial bytes are read.
  pub tick_command_ends :
      (i : ℕ) (m : Machine p)
      → IsValid p m
      → length m.touch.sensors ≤ 25
      → let qc = get_or m.commands i no_command in
        let a = qc.command.action in
        Step p m
          (tick_command p i m)
          (if qc.active && is_over p a qc m then last_words p a qc m else [])
        × ((tick_command p i m).commands
            ≡ (if qc.active then set m.commands i (entry_after p a qc m) else m.commands))
  unfolding tick_command
  tick_command_ends i m v h =
      let qc = get_or m.commands i no_command in
      let a = qc.command.action in
      elim (Bool-cases qc.active) [
        | inr free ↦ rw free (Step-silent p m v refl refl, refl)
        | inl active ↦ rw active (
          subst (Step p m (tick_action p a i qc m)) (last_words-events p a qc m v h)
              (tick_action-events p a i qc m v),
          tick_action-entry i qc m v refl active a,
        )
      ]
