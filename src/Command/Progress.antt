-- ===== src/Command/Progress.antt =====
-- The ticks of RECALIBRATE_ALL in the queue of long-running commands of src/CommandController.cpp, five
-- sensors each.
use hardware.Base.{
  ℕ, ◌+◌, ◌<◌, ◌≤◌, ◌≡◌, sym, ap, ◌∙◌, subst, Bool, true, false, not, List, leb, length, get_or,
  set, get_or-set_self, set-set, set-get_or, if◌then◌else◌, arith,
}
use hardware.Config.{num_touch_sensors}
use hardware.EventQueue.Emit.{queue_recalibrated}
use hardware.Touch.Controller.{recalibrate_from, recalibrate_all_sensors}
use hardware.Command.Actions.{recalibrate_all}
use hardware.Command.Parse.{command_id_of}
use hardware.Command.Machine.{Parts, Machine, QueuedCommand, no_command, put_command}
use hardware.Command.Tick.{retire, recalibrate_some, tick_action, tick_command, tick}
use hardware.Command.Portions.{recalibrate_from-add, recalibrate_some-portion}
use hardware.Command.Alone.{Alone, tick_from-Alone, Alone-set, Alone-if}

module _ (p : Parts) where
  -- The entry `qc` in slot `i`, and no other, works, and has reached sensor `a`.
  abbrev reached : QueuedCommand → ℕ → QueuedCommand
  reached qc a = record qc { scan_address = a }

  abbrev progress : ℕ → QueuedCommand → ℕ → Machine p → Machine p
  progress i qc a m = record m {
    bus = recalibrate_from p.wire a m.touch 0 m.bus;
    commands = set m.commands i (reached qc a);
  }

  module _ (i : ℕ) (qc : QueuedCommand) (m : Machine p) (slot : i < 8)
      (slots : length m.commands ≡ 8) (active : qc.active ≡ true)
      (action : qc.command.action ≡ recalibrate_all) (has_touch : m.has_touch ≡ true)
      (alone : Alone p i m.commands) where
    -- The end of the command at sensor `a`, for a bus and the entries of the queue.
    abbrev ended : ℕ → p.wire.Bus → List QueuedCommand → Machine p
    ended a bus qcs = record m {
      bus = bus;
      commands = set qcs i (record qc { active = false; scan_address = a });
      events = (queue_recalibrated m.events 0 (command_id_of p.env p.lexer qc.command)).1;
    }

    abbrev going : ℕ → p.wire.Bus → List QueuedCommand → Machine p
    going a bus qcs = record m { bus = bus; commands = set qcs i (reached qc a) }

    -- What five sensors more leave, in either case.
    abbrev next : ℕ → p.wire.Bus → Machine p
    next a bus = if leb num_touch_sensors a then ended a bus m.commands else going a bus m.commands

    tick_action-progress :
        (a : ℕ)
        → a + 5 ≤ 25
        → tick_action p recalibrate_all i (reached qc a) (progress i qc a m)
          ≡ next (a + 5) (recalibrate_from p.wire (a + 5) m.touch 0 m.bus)
    unfolding tick_action
    tick_action-progress a l =
        let before = progress i qc a m in
        let portion = recalibrate_some p 5 a before in
        let after : ℕ × Machine p → Machine p = λ r.
          if leb num_touch_sensors r.0
          then retire p i (reached qc r.0) (record r.1 {
            events = (queue_recalibrated r.1.events 0 (command_id_of p.env p.lexer qc.command)).1;
          })
          else put_command p i (reached qc r.0) r.1 in
        let bus = recalibrate_from p.wire 5 m.touch a before.bus in
        let twice = set-set m.commands i (reached qc a) in
        ap (λ (b : Bool). if b then after portion else retire p i (reached qc a) before) has_touch
        ∙ (ap after (recalibrate_some-portion p 5 a before l)
            ∙ (ap
                  (λ qcs.
                    if leb num_touch_sensors (a + 5)
                    then record m {
                      bus = bus;
                      commands = qcs;
                      events =
                          (queue_recalibrated m.events 0
                            (command_id_of p.env p.lexer qc.command)).1;
                    }
                    else going (a + 5) bus (set m.commands i (reached qc a)))
                  (twice (record qc { active = false; scan_address = a + 5 }))
                ∙ (ap
                      (λ qcs.
                        if leb num_touch_sensors (a + 5)
                        then ended (a + 5) bus m.commands
                        else record m { bus = bus; commands = qcs })
                      (twice (reached qc (a + 5)))
                    ∙ ap (next (a + 5)) (
                        ap (λ j. recalibrate_from p.wire 5 m.touch j before.bus) {x = a} {y = 0 + a}
                          (omega arith)
                        ∙ recalibrate_from-add p.wire m.touch a 5 0 m.bus))))

    tick-progress :
        (a : ℕ)
        → a + 5 ≤ 25
        → tick p (progress i qc a m)
          ≡ next (a + 5) (recalibrate_from p.wire (a + 5) m.touch 0 m.bus)
    unfolding tick tick_command
    tick-progress a l =
        let before = progress i qc a m in
        let entry : get_or before.commands i no_command ≡ reached qc a =
          get_or-set_self m.commands i (reached qc a) no_command (omega (arith, slot, slots)) in
        let one : tick_command p i before
            ≡ next (a + 5) (recalibrate_from p.wire (a + 5) m.touch 0 m.bus) =
          ap
            (λ (q : QueuedCommand).
              if not q.active then before else tick_action p q.command.action i q before)
            entry
          ∙ (ap
                (λ (b : Bool).
                  if not b then before else tick_action p qc.command.action i (reached qc a) before)
                active
              ∙ (ap (λ c. tick_action p c i (reached qc a) before) action
                  ∙ tick_action-progress a l)) in
        let still : Alone p i (tick_command p i before).commands =
          subst (λ (x : Machine p). Alone p i x.commands) (sym one)
            (Alone-if p (leb num_touch_sensors (a + 5)) _ _ (Alone-set p i m.commands _ alone)
              (Alone-set p i m.commands _ alone)) in
        tick_from-Alone p 8 0 i before (Alone-set p i m.commands (reached qc a) alone) still
          (ap (λ (q : QueuedCommand). q.active) entry ∙ active) (omega arith) slot
        ∙ one

    -- Five ticks, from the start of the command on.
    pub five_ticks :
        get_or m.commands i no_command ≡ record qc { scan_address = 0 }
        → (tick p (tick p (tick p (tick p m))) ≡ record m {
          bus = recalibrate_from p.wire 20 m.touch 0 m.bus;
          commands = set m.commands i (record qc { scan_address = 20 });
        })
          × (tick p (tick p (tick p (tick p (tick p m)))) ≡ record m {
            bus = recalibrate_all_sensors p.wire m.touch m.bus;
            commands = set m.commands i (record qc { active = false; scan_address = 25 });
            events = (queue_recalibrated m.events 0 (command_id_of p.env p.lexer qc.command)).1;
          })
    unfolding recalibrate_all_sensors
    five_ticks entry =
        let start : m ≡ progress i qc 0 m =
          ap (λ qcs. record m { commands = qcs })
            (sym (set-get_or m.commands i no_command) ∙ ap (set m.commands i) entry) in
        let at_5 : tick p m ≡ progress i qc 5 m =
          ap (tick p) start ∙ tick-progress 0 (omega arith) in
        let at_10 : tick p (tick p m) ≡ progress i qc 10 m =
          ap (tick p) at_5 ∙ tick-progress 5 (omega arith) in
        let at_15 : tick p (tick p (tick p m)) ≡ progress i qc 15 m =
          ap (tick p) at_10 ∙ tick-progress 10 (omega arith) in
        let at_20 : tick p (tick p (tick p (tick p m))) ≡ progress i qc 20 m =
          ap (tick p) at_15 ∙ tick-progress 15 (omega arith) in
        (at_20, ap (tick p) at_20 ∙ tick-progress 20 (omega arith))
